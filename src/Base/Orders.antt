-- ===== src/Base/Orders.antt =====
-- The first row of a query under an order, and its place when the query is narrowed.
use mathlib.Core.Path.{◌≡◌, refl, subst}
use mathlib.Core.Logic.{inl, inr}
use mathlib.Core.Bool.{Bool, true, false, ◌&&◌}
use mathlib.Core.Option.{some}
use mathlib.Core.List.{List, [], ◌∷◌}
use native.Mathlib.Omega.{arith}
use digital_signage_project.Base.Tests.{Bool-cases, Option-cases}
use digital_signage_project.Base.Lists.{All, filter, first_by}
use digital_signage_project.Base.Membership.{In, In-filter, In-first_by, first_by-none}

-- The laws of an order with ties.
pub record IsOrder {A : Type 0} (before : A → A → Bool) : Type 0 where
  pub asym : (a b : A) → before a b ≡ true → before b a ≡ false
  pub weak : (a b c : A) → before a b ≡ false → before b c ≡ false → before a c ≡ false

module _ {A : Type 0} (before : A → A → Bool) (laws : IsOrder before) where
  irrefl : (a : A) → before a a ≡ false
  irrefl a = elim (Bool-cases (before a a)) [ inl e ↦ laws.asym a a e | inr e ↦ e ]

  -- Nothing stands before the first row.
  pub first_by_best :
      (xs : List A) {w v : A} → first_by before xs ≡ some w → In v xs → before v w ≡ false
  unfolding first_by
  first_by_best [] h i = absurd i
  first_by_best (y ∷ ys) {w} {v} h (inl e) = elim (Option-cases (first_by before ys)) [
    | inl n ↦ ground (arith, irrefl y)
    | inr (z, n) ↦ ground (arith, irrefl y, laws.asym z y)
  ]
  first_by_best (y ∷ ys) {w} {v} h (inr i) = elim (Option-cases (first_by before ys)) [
    | inl n ↦ absurd (subst (λ l. In v l) (first_by-none before ys n) i)
    | inr (z, n) ↦ ground (arith, first_by_best ys {w = z} {v = v} n i, laws.weak v z y)
  ]

  first_by-head :
      (y : A) (xs : List A)
      → ((v : A) → In v xs → before v y ≡ false)
      → first_by before (y ∷ xs) ≡ some y
  unfolding first_by
  first_by-head y xs h = elim (Option-cases (first_by before xs)) [
    | inl n ↦ rw n
    | inr (z, n) ↦ rw (n, h z (In-first_by before xs n))
  ]

  -- A narrower query that keeps the first row has the same first row.
  pub first_by-filter :
      (q : A → Bool) (xs : List A) {w : A}
      → first_by before xs ≡ some w
      → q w ≡ true
      → first_by before (filter q xs) ≡ some w
  unfolding first_by
  first_by-filter q [] h k = absurd (cc)
  first_by-filter q (y ∷ ys) {w} h k = elim (Option-cases (first_by before ys)) [
    | inl n ↦ rw (first_by-none before ys n) (ground (arith, first_by-none before ys n))
    | inr (z, n) ↦ elim (Bool-cases (before z y)) [
      | inl e ↦ ground (arith, first_by-filter q ys {w = z} n)
      | inr e ↦
          let p : y ≡ w = ground arith in
          let qy : q y ≡ true = ground arith in
          rw (qy, ← p)
            (first_by-head y (filter q ys)
              (λ v i. laws.weak v z y (first_by_best ys n (In-filter q ys i).0) e))
    ]
  ]

module _ {A : Type 0} where
  pub filter-filter :
      (p q r : A → Bool) (xs : List A)
      → All (λ x. r x ≡ (p x && q x)) xs
      → filter r xs ≡ filter q (filter p xs)
  filter-filter p q r [] h = refl
  filter-filter p q r (x ∷ xs) h = ground (arith, filter-filter p q r xs h.1)

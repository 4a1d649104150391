-- ===== src/Base/Tables.antt =====
-- Tables: rows with a numeric primary key.
use Prim.Native.Nat.{ℕ}
use mathlib.Core.Path.{◌≡◌, refl, subst}
use mathlib.Core.Logic.{◌≢◌}
use mathlib.Core.Bool.{Bool, true}
use mathlib.Core.Option.{Option, none, some}
use mathlib.Core.List.{List, [], ◌∷◌}
use native.Mathlib.Omega.{arith}
use digital_signage_project.Base.Tests.{if◌then◌else◌, ◌==◌}
use digital_signage_project.Base.Lists.{All, length, filter, update}

module _ {A : Type 0} (key : A → ℕ) where
  -- `objects.get(pk=k)`
  unfoldable pub get : ℕ → List A → Option A
  get k [] = none
  get k (x ∷ xs) = if key x == k then some x else get k xs

  -- `row.save()` of a row that is in the table
  unfoldable pub put : A → List A → List A
  put x [] = []
  put x (y ∷ ys) = if key y == key x then x ∷ ys else y ∷ put x ys

  pub get-key : (k : ℕ) (t : List A) {x : A} → get k t ≡ some x → key x ≡ k
  unfolding get
  get-key k [] h = cc
  get-key k (y ∷ ys) {x} h = ground (arith, get-key k ys {x = x})

  pub get-put_self :
      (x : A) (t : List A) {y : A} → get (key x) t ≡ some y → get (key x) (put x t) ≡ some x
  unfolding get put
  get-put_self x [] h = cc
  get-put_self x (y ∷ ys) {y = z} h = ground (arith, get-put_self x ys {y = z})

  pub get-put :
      (k : ℕ) (x : A) (t : List A) {y : A} → key x ≡ k → get k t ≡ some y → get k (put x t) ≡ some x
  get-put k x t {y} e h =
      subst (λ j. get j t ≡ some y → get j (put x t) ≡ some x) e (get-put_self x t {y = y}) h

  pub get-put_ne : (k : ℕ) (x : A) (t : List A) → k ≢ key x → get k (put x t) ≡ get k t
  unfolding get put
  get-put_ne k x [] h = refl
  get-put_ne k x (y ∷ ys) h = ground (arith, get-put_ne k x ys)

  pub All-put {κ} : (P : A → Type κ) (x : A) (t : List A) → P x → All P t → All P (put x t)
  unfolding put
  All-put P x [] px h = tt
  All-put P x (y ∷ ys) px h = ground (arith, All-put P x ys px h.1)

  pub get-All {κ} : (P : A → Type κ) (k : ℕ) (t : List A) {x : A} → All P t → get k t ≡ some x → P x
  unfolding get
  get-All P k [] h e = absurd (cc)
  get-All P k (y ∷ ys) {x} h e = ground (arith, get-All P k ys {x = x} h.1)

  pub length-filter-put :
      (p : A → Bool) (x y : A) (t : List A)
      → get (key x) t ≡ some y
      → p x ≡ p y
      → length (filter p (put x t)) ≡ length (filter p t)
  unfolding get put
  length-filter-put p x y [] h e = refl
  length-filter-put p x y (z ∷ zs) h e = ground (arith, length-filter-put p x y zs)

  pub get-update :
      (k : ℕ) (p : A → Bool) (f : A → A) {x : A} (t : List A)
      → ((y : A) → key (f y) ≡ key y)
      → get k t ≡ some x
      → p x ≡ true
      → get k (update p f t) ≡ some (f x)
  unfolding get
  get-update k p f [] i h e = absurd (cc)
  get-update k p f {x} (y ∷ ys) i h e = ground (arith, get-update k p f {x = x} ys i, i y)

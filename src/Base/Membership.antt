-- ===== src/Base/Membership.antt =====
-- Membership by recursion, and what the query helpers return.
use Prim.Native.Nat.{ℕ, ◌≤◌}
use mathlib.Core.Path.{◌≡◌, refl}
use mathlib.Core.Logic.{◌≢◌, ◌⊎◌, inl, inr}
use mathlib.Core.Bool.{Bool, true, false, not}
use mathlib.Core.Option.{none, some}
use mathlib.Core.List.{List, [], ◌∷◌, ◌++◌}
use native.Mathlib.Omega.{arith}
use digital_signage_project.Base.Tests.{◌==◌}
use digital_signage_project.Base.Lists.{All, length, filter, any, first_by}
use digital_signage_project.Base.Tables.{get, put}

module _ {A : Type 0} where
  abbrev pub In : A → List A → Type 0
  In x [] = ⊥
  In x (y ∷ ys) = (x ≡ y) ⊎ In x ys

  pub In-filter : (p : A → Bool) (xs : List A) {x : A} → In x (filter p xs) → In x xs × (p x ≡ true)
  In-filter p [] h = absurd h
  In-filter p (y ∷ ys) {x} h = ground (arith, In-filter p ys {x = x})

  pub In-filter_intro :
      (p : A → Bool) (xs : List A) {x : A} → In x xs → p x ≡ true → In x (filter p xs)
  In-filter_intro p [] h e = absurd h
  In-filter_intro p (y ∷ ys) {x} h e = ground (arith, In-filter_intro p ys {x = x})

  pub In-first_by :
      (before : A → A → Bool) (xs : List A) {x : A} → first_by before xs ≡ some x → In x xs
  unfolding first_by
  In-first_by before [] h = absurd (cc)
  In-first_by before (y ∷ ys) {x} h = ground (arith, In-first_by before ys {x = x})

  pub first_by-none : (before : A → A → Bool) (xs : List A) → first_by before xs ≡ none → xs ≡ []
  unfolding first_by
  first_by-none before [] h = refl
  first_by-none before (y ∷ ys) h = absurd (ground arith)

  pub All-In {κ} : (P : A → Type κ) (xs : List A) {x : A} → All P xs → In x xs → P x
  All-In P [] h i = absurd i
  All-In P (y ∷ ys) h (inl e) = rw e h.0
  All-In P (y ∷ ys) h (inr i) = All-In P ys h.1 i

module _ {A : Type 0} (key : A → ℕ) where
  key_absent :
      (k : ℕ) (t : List A) {x : A}
      → length (filter (λ a. key a == k) t) ≡ 0
      → In x t
      → key x ≡ k
      → ⊥
  key_absent k [] h i e = absurd i
  key_absent k (y ∷ ys) {x} h i e = ground (arith, key_absent k ys {x = x})

  -- With distinct keys, a row is found by its key.
  pub get-In :
      (t : List A) {x : A}
      → length (filter (λ a. key a == key x) t) ≤ 1
      → In x t
      → get key (key x) t ≡ some x
  unfolding get
  get-In [] h i = absurd i
  get-In (y ∷ ys) {x} h i = ground (arith, get-In ys {x = x}, key_absent (key x) ys {x = x})

  pub In-get : (k : ℕ) (t : List A) {x : A} → get key k t ≡ some x → In x t
  unfolding get
  In-get k [] h = absurd (cc)
  In-get k (y ∷ ys) {x} h = ground (arith, In-get k ys {x = x})

  pub get-append_new :
      (t : List A) (x : A)
      → length (filter (λ a. key a == key x) t) ≡ 0
      → get key (key x) (t ++ x ∷ []) ≡ some x
  unfolding get
  get-append_new [] x h = ground arith
  get-append_new (y ∷ ys) x h = ground (arith, get-append_new ys x)

  pub get-append_old :
      (k : ℕ) (t : List A) (x : A) {y : A} → get key k t ≡ some y → get key k (t ++ x ∷ []) ≡ some y
  unfolding get
  get-append_old k [] x h = absurd (cc)
  get-append_old k (z ∷ zs) x {y} h = ground (arith, get-append_old k zs x {y = y})

  pub get-append_ne :
      (k : ℕ) (t : List A) (x : A) → k ≢ key x → get key k (t ++ x ∷ []) ≡ get key k t
  unfolding get
  get-append_ne k [] x h = ground arith
  get-append_ne k (z ∷ zs) x h = ground (arith, get-append_ne k zs x h)

  -- Rows that a filter by key keeps are found as before.
  pub get-filter_ne :
      (k j : ℕ) (t : List A) → k ≢ j → get key k (filter (λ a. not (key a == j)) t) ≡ get key k t
  unfolding get
  get-filter_ne k j [] h = refl
  get-filter_ne k j (z ∷ zs) h = ground (arith, get-filter_ne k j zs h)

  -- A row of the table after an update is the new row or a row with another key.
  pub In-put :
      (x : A) (t : List A) {q : A}
      → length (filter (λ a. key a == key x) t) ≤ 1
      → In q (put key x t)
      → (q ≡ x) ⊎ (In q t × (key q ≢ key x))
  unfolding put
  In-put x [] h i = absurd i
  In-put x (y ∷ ys) {q} h i = ground (arith, key_absent (key x) ys {x = q}, In-put x ys {q = q})

module _ {A : Type 0} where
  pub All-of_In {κ} : (P : A → Type κ) (xs : List A) → ((x : A) → In x xs → P x) → All P xs
  All-of_In P [] h = tt
  All-of_In P (x ∷ xs) h = (h x (inl refl), All-of_In P xs (λ y i. h y (inr i)))

  pub All-zip {κ} :
      (P Q R : A → Type κ) (xs : List A)
      → ((x : A) → P x → Q x → R x)
      → All P xs
      → All Q xs
      → All R xs
  All-zip P Q R [] f p q = tt
  All-zip P Q R (x ∷ xs) f p q = (f x p.0 q.0, All-zip P Q R xs f p.1 q.1)

  pub All-map {κ} : (P Q : A → Type κ) (xs : List A) → ((x : A) → P x → Q x) → All P xs → All Q xs
  All-map P Q [] f p = tt
  All-map P Q (x ∷ xs) f p = (f x p.0, All-map P Q xs f p.1)

  pub any-In : (p : A → Bool) (xs : List A) {x : A} → any p xs ≡ false → In x xs → p x ≡ false
  any-In p [] h i = absurd i
  any-In p (y ∷ ys) {x} h i = ground (arith, any-In p ys {x = x})

-- ===== src/Retention/Loops.antt =====
-- The loops of apply_retention.py (backend/signage/management/commands): they end, and what they delete.
use digital_signage_project.Base.{
  ℕ, zero, suc, ◌+◌, ◌≤◌, ◌<◌, ◌≡◌, refl, Bool, true, false, not, ◌&&◌, List, [], ◌∷◌, map, ◌==◌,
  filter, take, length, mem, arith, In, In-filter, get, get-In, some, ==_iff, ==_refl, subst, sym,
  ap, ◌∙◌, inl, inr, ◌⊎◌, Bool-cases, length-filter-le,
}
use digital_signage_project.Retention.{
  insert_by, order_by, first_keys, drain, Remaining, remove_rows, delete_in_batches,
}

some-injective : {A : Type 0} {a b : A} → some a ≡ some b → a ≡ b
some-injective h = cc

List-cases : {A : Type 0} (xs : List A) → (xs ≡ []) ⊎ ((x : A) × (ys : List A) × (xs ≡ x ∷ ys))
List-cases [] = inl refl
List-cases (x ∷ ys) = inr (x, ys, refl)

module _ {S : Type 0} (candidates : S → List ℕ) (remove : List ℕ → S → S) where
  -- What a step keeps, a loop keeps.
  pub drain_keeps :
      (P : S → Type 0)
      → ((s : S) (k : ℕ) (ks : List ℕ) → candidates s ≡ k ∷ ks → P s → P (remove (k ∷ ks) s))
      → (fuel : ℕ) (s : S) → P s
      → P (drain fuel candidates remove s)
  unfolding drain
  drain_keeps P step zero s h = h
  drain_keeps P step (suc n) s h = elim (List-cases (candidates s)) [
    | inl e ↦ rw (e, drain) h
    | inr (k, ks, e) ↦ rw (e, drain) (drain_keeps P step n (remove (k ∷ ks) s) (step s k ks e h))
  ]

  -- With enough fuel a loop ends only when there is no candidate.
  pub drain_ends :
      (size : S → ℕ)
      → ((s : S) (k : ℕ) (ks : List ℕ) → candidates s ≡ k ∷ ks → size (remove (k ∷ ks) s) < size s)
      → (fuel : ℕ) (s : S) → size s < fuel
      → candidates (drain fuel candidates remove s) ≡ []
  unfolding drain
  drain_ends size step zero s h = absurd (omega (arith, h))
  drain_ends size step (suc n) s h = elim (List-cases (candidates s)) [
    | inl e ↦ rw (e, drain) e
    | inr (k, ks, e) ↦
        let l = step s k ks e in
        rw (e, drain) (drain_ends size step n (remove (k ∷ ks) s) (omega (arith, l, h)))
  ]

module _ {A : Type 0} where
  In-insert_by :
      (key : A → ℕ) (x : A) (ys : List A) {z : A} → In z (insert_by key x ys) → (z ≡ x) ⊎ In z ys
  unfolding insert_by
  In-insert_by key x [] {z} i = ground arith
  In-insert_by key x (y ∷ ys) {z} i = ground (arith, In-insert_by key x ys {z = z})

  In-order_by : (key : A → ℕ) (xs : List A) (z : A) → In z (order_by key xs) → In z xs
  unfolding order_by
  In-order_by key [] z i = absurd i
  In-order_by key (x ∷ xs) z i =
      ground (arith, In-insert_by key x (order_by key xs) {z = z} i, In-order_by key xs z)

  order_by-nil : (key : A → ℕ) (xs : List A) → order_by key xs ≡ [] → xs ≡ []
  unfolding order_by insert_by
  order_by-nil key [] h = refl
  order_by-nil key (x ∷ xs) h = elim (List-cases (order_by key xs)) [
    | inl e ↦ absurd (ground arith)
    | inr (y, ys, e) ↦ absurd (ground arith)
  ]

  -- The first candidate is the key of an expired row.
  pub first_keys-some :
      (size : ℕ) (key order : A → ℕ) (p : A → Bool) (rows : List A) (k : ℕ) (ks : List ℕ)
      → first_keys size key order p rows ≡ k ∷ ks
      → (x : A) × In x rows × (p x ≡ true) × (key x ≡ k)
  unfolding first_keys
  first_keys-some zero key order p rows k ks h = absurd (cc)
  first_keys-some (suc n) key order p rows k ks h =
      elim (List-cases (order_by order (filter p rows))) [
        | inl e ↦ absurd (let z = rw e at h in cc)
        | inr (x, xs, e) ↦
            let i =
              In-filter p rows
                (In-order_by order (filter p rows) x (subst (λ l. In x l) (sym e) (inl refl))) in
            let z = rw e at h in (x, i.0, i.1, cc)
      ]

  -- There are no candidates only if no row is expired.
  pub first_keys-none :
      (size : ℕ) (key order : A → ℕ) (p : A → Bool) (rows : List A)
      → first_keys (suc size) key order p rows ≡ []
      → filter p rows ≡ []
  unfolding first_keys
  first_keys-none size key order p rows h = elim (List-cases (order_by order (filter p rows))) [
    | inl e ↦ order_by-nil order (filter p rows) e
    | inr (x, xs, e) ↦ absurd (let z = rw e at h in cc)
  ]

  pub length-filter-lt :
      (q : A → Bool) (rows : List A) (x : A)
      → In x rows
      → q x ≡ false
      → length (filter q rows) < length rows
  length-filter-lt q [] x i h = absurd i
  length-filter-lt q (y ∷ ys) x (inl e) h =
      let h' : q y ≡ false = subst (λ z. q z ≡ false) e h in ground (arith, length-filter-le q ys)
  length-filter-lt q (y ∷ ys) x (inr i) h = ground (arith, length-filter-lt q ys x i h)

  -- Without expired rows a table is what is left of it.
  pub filter_none :
      (p : A → Bool) (rows : List A) → filter p rows ≡ [] → filter (λ x. not (p x)) rows ≡ rows
  filter_none p [] h = refl
  filter_none p (x ∷ xs) h = elim (Bool-cases (p x)) [
    | inl e ↦ absurd (let z = rw e at h in cc)
    | inr e ↦ rw e (ap (λ l. x ∷ l) (filter_none p xs (rw e at h)))
  ]

  -- A deletion that spares the rows that are not expired.
  pub filter-filter_sub :
      (p q : A → Bool) (rows : List A)
      → ((x : A) → In x rows → p x ≡ false → q x ≡ true)
      → filter (λ x. not (p x)) (filter q rows) ≡ filter (λ x. not (p x)) rows
  filter-filter_sub p q [] h = refl
  filter-filter_sub p q (x ∷ xs) h = elim (Bool-cases (p x)) [
    | inl e ↦ elim (Bool-cases (q x)) [
      | inl f ↦ rw (e, f, e) (filter-filter_sub p q xs (λ y i. h y (inr i)))
      | inr f ↦ rw (e, f) (filter-filter_sub p q xs (λ y i. h y (inr i)))
    ]
    | inr e ↦
        rw (e, h x (inl refl) e, e)
          (ap (λ l. x ∷ l) (filter-filter_sub p q xs (λ y i. h y (inr i))))
  ]

  length-split :
      (q : A → Bool) (rows : List A)
      → length (filter (λ x. not (q x)) rows) + length (filter q rows) ≡ length rows
  length-split q [] = omega arith
  length-split q (x ∷ xs) = ground (arith, length-split q xs)

  mem-map_In :
      (key : A → ℕ) (k : ℕ) (xs : List A)
      → mem k (map key xs) ≡ true
      → (x : A) × In x xs × (key x ≡ k)
  mem-map_In key k [] h = absurd (cc)
  mem-map_In key k (x ∷ xs) h = elim (Bool-cases (k == key x)) [
    | inl e ↦ (x, inl refl, sym ((==_iff k (key x)).0 e))
    | inr e ↦ let (y, i, q) = mem-map_In key k xs (ground arith) in (y, inr i, q)
  ]

  In-take : (n : ℕ) (xs : List A) (x : A) → In x (take n xs) → In x xs
  In-take zero xs x i = absurd i
  In-take (suc n) [] x i = absurd i
  In-take (suc n) (y ∷ ys) x (inl e) = inl e
  In-take (suc n) (y ∷ ys) x (inr i) = inr (In-take n ys x i)

  -- Every candidate is the key of an expired row.
  pub first_keys-In :
      (size : ℕ) (key order : A → ℕ) (p : A → Bool) (rows : List A) (k : ℕ)
      → mem k (first_keys size key order p rows) ≡ true
      → (x : A) × In x rows × (p x ≡ true) × (key x ≡ k)
  unfolding first_keys
  first_keys-In size key order p rows k h =
      let (x, i, q) = mem-map_In key k (take size (order_by order (filter p rows))) h in
      let j =
        In-filter p rows (
          In-order_by order (filter p rows) x
            (In-take size (order_by order (filter p rows)) x i)) in
      (x, j.0, j.1, q)

  -- With distinct keys no row that is not expired has a candidate's key.
  pub first_keys_spare :
      (size : ℕ) (key order : A → ℕ) (p : A → Bool) (rows : List A)
      → ((k : ℕ) → length (filter (λ x. key x == k) rows) ≤ 1)
      → (x : A) → In x rows
      → p x ≡ false
      → mem (key x) (first_keys size key order p rows) ≡ false
  first_keys_spare size key order p rows d x i h =
      elim (Bool-cases (mem (key x) (first_keys size key order p rows))) [
        | inr e ↦ e
        | inl e ↦
            let (y, j, py, q) = first_keys-In size key order p rows (key x) e in
            let a = get-In key rows {x = x} (d (key x)) i in
            let b =
              subst (λ k. get key k rows ≡ some y) q (get-In key rows {x = y} (d (key y)) j) in
            let z : y ≡ x = some-injective (sym b ∙ a) in
            absurd (let w = subst (λ (u : A). p u ≡ true) z py in ground arith)
      ]

  -- `_delete_in_batches` ends, leaves the rows that are not expired and counts the others.
  pub delete_in_batches_lem :
      (fuel size : ℕ) (key : A → ℕ) (p : A → Bool) (rows : List A)
      → length rows < fuel
      → let r = delete_in_batches fuel (suc size) key p rows in
        (r.rows ≡ filter (λ x. not (p x)) rows) × (r.deleted + length r.rows ≡ length rows)
  unfolding delete_in_batches
  delete_in_batches_lem fuel size key p rows h =
      let candidates = λ (s : Remaining A). first_keys (suc size) key key p s.rows in
      let start : Remaining A = record { rows = rows; deleted = 0 } in
      let (kept, counted) =
        drain_keeps candidates (remove_rows key p)
          (λ (s : Remaining A).
            (filter (λ x. not (p x)) s.rows ≡ filter (λ x. not (p x)) rows)
            × (s.deleted + length s.rows ≡ length rows))
          (λ s k ks e i. (
            filter-filter_sub p (λ x. not (p x && mem (key x) (k ∷ ks))) s.rows (λ x _ q. rw q refl)
                ∙ i.0,
            (let l = length-split (λ x. p x && mem (key x) (k ∷ ks)) s.rows in
                omega (arith, l, i.1)),
          ))
          fuel start (refl, omega arith) in
      let ends =
        drain_ends candidates (remove_rows key p) (λ (s : Remaining A). length s.rows)
          (λ s k ks e.
            let (x, i, px, q) = first_keys-some (suc size) key key p s.rows k ks e in
            length-filter-lt (λ x. not (p x && mem (key x) (k ∷ ks))) s.rows x i
              (rw (px, q, ==_refl k) refl))
          fuel start h in
      let final : Remaining A = drain fuel candidates (remove_rows key p) start in
      (
        sym (filter_none p final.rows (first_keys-none size key key p final.rows ends)) ∙ kept,
        counted,
      )

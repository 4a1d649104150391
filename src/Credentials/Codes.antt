-- ===== src/Credentials/Codes.antt =====
-- `EnrollmentCode.issue` (backend/signage/models.py): the code that it leaves.
use digital_signage_project.Base.{
  ℕ, zero, suc, ◌+◌, ◌*◌, ◌≤◌, ◌≡◌, refl, subst, ◌⊎◌, inl, inr, true, not, ◌&&◌, ◌||◌, List, [],
  ◌∷◌, ◌++◌, arith, ◌==◌, str_eq, is_none, any, update, In, get, get-key, ok, Bool-cases,
  Option-cases,
}
use digital_signage_project.Models.{Device, EnrollmentCode, device_id}
use digital_signage_project.Credentials.{
  Fleet, is_usable, is_disabled, is_assigned, expired, insert_code, draw_code, issue_code, second,
}

In-append : {A : Type 0} (xs : List A) (x : A) {y : A} → In y (xs ++ x ∷ []) → In y xs ⊎ (y ≡ x)
In-append [] x h = ground arith
In-append (z ∷ zs) x {y} h = ground (arith, In-append zs x {y = y})

In-append_last : {A : Type 0} (xs : List A) (x : A) → In x (xs ++ x ∷ [])
In-append_last [] x = inl refl
In-append_last (z ∷ zs) x = inr (In-append_last zs x)

-- What the attempts leave: the new code at the end of the table.
record IsDrawn (token_hash : ℕ → ℕ) (d until : ℕ) (f : Fleet) (r : Fleet × EnrollmentCode × ℕ)
    : Type 0 where
  codes : (r.0).codes ≡ f.codes ++ r.1 ∷ []
  device : (r.1).device ≡ d
  hash : (r.1).code_hash ≡ token_hash r.2
  lifetime : (r.1).expires_at ≡ until

inserted-IsDrawn :
    (token_hash : ℕ → ℕ) (d until raw : ℕ) (f : Fleet) (c : EnrollmentCode)
    (r : Fleet × EnrollmentCode × ℕ)
    → c.device ≡ d
    → c.code_hash ≡ token_hash raw
    → c.expires_at ≡ until
    → ok (insert_code c f, c, raw) ≡ ok r
    → IsDrawn token_hash d until f r
inserted-IsDrawn token_hash d until raw f c r p q u h =
    let e : ◌≡◌ {A = Fleet × EnrollmentCode × ℕ} (insert_code c f, c, raw) r = cc in
    subst (IsDrawn token_hash d until f) e
      (record { codes = refl; device = p; hash = q; lifetime = u })

draw_code-IsDrawn :
    (token_hash : ℕ → ℕ) (d until actor : ℕ) (draw : ℕ → ℕ) (n : ℕ) (f : Fleet)
    (r : Fleet × EnrollmentCode × ℕ)
    → draw_code token_hash d until actor draw n f ≡ ok r
    → IsDrawn token_hash d until f r
unfolding draw_code
draw_code-IsDrawn token_hash d until actor draw zero f r h = absurd (cc)
draw_code-IsDrawn token_hash d until actor draw (suc n) f r h =
    elim (Bool-cases (any (λ (e : EnrollmentCode). e.code_hash == token_hash (draw n)) f.codes)) [
      | inl e ↦ draw_code-IsDrawn token_hash d until actor draw n f r (ground arith)
      | inr e ↦
          inserted-IsDrawn token_hash d until (draw n) f _ r refl refl refl (rw (e, draw_code) at h)
    ]

-- An unused code of the device that stood before is expired.
expired_lem :
    (now d : ℕ) (cs : List EnrollmentCode) (e : EnrollmentCode)
    → In e (update (λ (c : EnrollmentCode). c.device == d && is_none c.used_at) (expired now) cs)
    → e.device ≡ d
    → is_none e.used_at ≡ true
    → e.expires_at ≡ now
expired_lem now d [] e i p n = absurd i
expired_lem now d (x ∷ xs) e i p n = ground (arith, expired_lem now d xs e)

-- The code `r.1` with the text `r.2` is stored for device `k`, and from `now` on no other code of the
-- device is usable.
pub record IsOnlyCode (token_hash : ℕ → ℕ) (k now until : ℕ) (r : Fleet × EnrollmentCode × ℕ)
    : Type 0 where
  pub stored : In r.1 (r.0).codes
  pub device : (r.1).device ≡ k
  pub hash : (r.1).code_hash ≡ token_hash r.2
  pub lifetime : (r.1).expires_at ≡ until
  pub only :
      (later : ℕ) (d : Device) (e : EnrollmentCode)
      → now ≤ later
      → In e (r.0).codes
      → e.device ≡ k
      → is_usable later d r.0 e ≡ true
      → e ≡ r.1

unusable :
    (now later : ℕ) (d : Device) (f : Fleet) (e : EnrollmentCode)
    → now ≤ later
    → is_usable later d f e ≡ true
    → (is_none e.used_at ≡ true → e.expires_at ≡ now)
    → ⊥
unfolding is_usable
unusable now later d f e l u x = ground arith

issued-IsOnlyCode :
    (token_hash : ℕ → ℕ) (k now until : ℕ) (cs : List EnrollmentCode) (f : Fleet)
    (r : Fleet × EnrollmentCode × ℕ)
    → f.codes ≡ update (λ (c : EnrollmentCode). c.device == k && is_none c.used_at) (expired now) cs
    → IsDrawn token_hash k until f r
    → IsOnlyCode token_hash k now until r
issued-IsOnlyCode token_hash k now until cs f r c v = record {
  stored = rw v.codes (In-append_last f.codes r.1);
  device = v.device;
  hash = v.hash;
  lifetime = v.lifetime;
  only = λ later d e l i p u. elim (In-append f.codes r.1 (subst (λ t. In e t) v.codes i)) [
    | inr same ↦ same
    | inl old ↦ absurd (
        unusable now later d r.0 e l u
          (λ n. expired_lem now k cs e (subst (λ t. In e t) c old) p n))
  ];
}

-- A code that is issued is stored for its device with its hash and its lifetime, and no other code of
-- the device is usable from then on.
pub issue_code-IsOnlyCode :
    (token_hash : ℕ → ℕ) (ttl now : ℕ) (draw : ℕ → ℕ) (k actor : ℕ) (f : Fleet)
    (r : Fleet × EnrollmentCode × ℕ)
    → issue_code token_hash ttl now draw k actor f ≡ ok r
    → IsOnlyCode token_hash k now (now + ttl * second) r
unfolding issue_code
issue_code-IsOnlyCode token_hash ttl now draw k actor f r h =
    elim (Option-cases (get device_id k f.devices)) [
      | inl e ↦ absurd (ground arith)
      | inr (d, e) ↦
          let p : d.id ≡ k = get-key device_id k f.devices e in
          elim (Bool-cases
            (is_disabled d || str_eq d.kiosk_pin_hash "" || not (is_assigned d.id f))) [
              | inl x ↦ absurd (ground arith)
              | inr x ↦ issued-IsOnlyCode token_hash k now (now + ttl * second) f.codes _ r refl (
                  draw_code-IsDrawn token_hash k (now + ttl * second) actor draw 10 _ r
                    (rw (e, x, issue_code, p) at h))
            ]
    ]

-- ===== src/Locations/Answered.antt =====
-- What `location_batch` (backend/signage/api.py) answers and stores.
use digital_signage_project.Base.{
  ℕ, ℤ, pos, negsuc, int_eq, ◌≡◌, refl, ◌⊎◌, inl, inr, true, ◌&&◌, none, some, List, [], ◌∷◌, ◌++◌,
  ◌==◌, length, filter, arith, eq_iff, ==_iff, get, get-key, mem, In, ap, Bool-cases, subst, sym,
  false, ◌∙◌,
}
use digital_signage_project.Locations.{Point, Reason, Rejection}
use digital_signage_project.Locations.Batch.{
  LocationPoint, location_id, location_point_matches, Progress, answer_existing,
}

pub int_eq_iff : (a b : ℤ) → int_eq a b ≡ true → a ≡ b
int_eq_iff (pos m) (pos n) h = ap pos (ground arith)
int_eq_iff (pos m) (negsuc n) h = absurd (cc)
int_eq_iff (negsuc m) (pos n) h = absurd (cc)
int_eq_iff (negsuc m) (negsuc n) h = ap negsuc (ground arith)

-- The point is stored for the device.
pub record IsStored (device : ℕ) (p : Point) (rows : List LocationPoint) : Type 0 where
  pub row : LocationPoint
  pub found : get location_id p.id rows ≡ some row
  pub owner : row.device ≡ device
  pub same : row.point ≡ p

pub point_ext :
    (p q : Point)
    → p.id ≡ q.id
    → p.recorded_at ≡ q.recorded_at
    → p.device_recorded_at ≡ q.device_recorded_at
    → p.latitude ≡ q.latitude
    → p.longitude ≡ q.longitude
    → p.accuracy_m ≡ q.accuracy_m
    → p.provider ≡ q.provider
    → p.source ≡ q.source
    → p ≡ q
point_ext p q h1 h2 h3 h4 h5 h6 h7 h8 = cc

location_point_matches-eq :
    (r : LocationPoint) (device : ℕ) (p : Point)
    → r.point.id ≡ p.id
    → location_point_matches r device p ≡ true
    → r.point ≡ p
unfolding location_point_matches
location_point_matches-eq r device p i h =
    point_ext r.point p i (ground arith) (ground arith)
      (int_eq_iff r.point.latitude p.latitude (ground arith))
      (int_eq_iff r.point.longitude p.longitude (ground arith))
      (int_eq_iff r.point.accuracy_m p.accuracy_m (ground arith))
      ((eq_iff r.point.provider p.provider).0 (ground arith))
      ((eq_iff r.point.source p.source).0 (ground arith))

-- No row is changed or lost.
abbrev pub Kept : List LocationPoint → List LocationPoint → Type 0
Kept xs ys =
    (k : ℕ) (r : LocationPoint) → get location_id k xs ≡ some r → get location_id k ys ≡ some r

-- The answers are kept.
pub record IsLater (s t : Progress) : Type 0 where
  pub rows : Kept s.rows t.rows
  pub acknowledged : (k : ℕ) → mem k s.acknowledged ≡ true → mem k t.acknowledged ≡ true
  pub refused : (x : Rejection) → In x s.refused → In x t.refused

-- The identifier of the point stands for another point or another device.
pub record IsTaken (device : ℕ) (p : Point) (rows : List LocationPoint) : Type 0 where
  pub row : LocationPoint
  pub found : get location_id p.id rows ≡ some row
  pub other : ¬ ((row.device ≡ device) × (row.point ≡ p))

-- A point is acknowledged and stored, or it is refused as a collision with what is stored.
abbrev pub IsSettled : ℕ → Point → Progress → Type 0
IsSettled device p s =
    ((mem p.id s.acknowledged ≡ true) × IsStored device p s.rows)
    ⊎ (In (record { id = p.id; reason = Reason.id_collision }) s.refused × IsTaken device p s.rows)

int_eq_refl : (a : ℤ) → int_eq a a ≡ true
int_eq_refl (pos n) = ground arith
int_eq_refl (negsuc n) = ground arith

matches_refl : (r : LocationPoint) → location_point_matches r r.device r.point ≡ true
unfolding location_point_matches
matches_refl r =
    let p = r.point in
    rw
      (
        int_eq_refl p.latitude,
        int_eq_refl p.longitude,
        int_eq_refl p.accuracy_m,
        (eq_iff p.provider p.provider).1 refl,
        (eq_iff p.source p.source).1 refl,
      )
      (ground arith)

differs-other :
    (r : LocationPoint) (device : ℕ) (p : Point)
    → (r.device == device && location_point_matches r device p) ≡ false
    → ¬ ((r.device ≡ device) × (r.point ≡ p))
differs-other r device p h (e, q) =
    let m = matches_refl r in
    let z : (r.device == r.device && location_point_matches r r.device r.point) ≡ false =
      subst (λ x. (r.device == x && location_point_matches r x r.point) ≡ false) (sym e)
        (subst (λ x. (r.device == device && location_point_matches r device x) ≡ false) (sym q)
          h) in
    let y : (r.device == r.device && location_point_matches r r.device r.point) ≡ true =
      rw m (ground arith) in
    let x : true ≡ false = sym y ∙ z in cc

pub mem-append_left : (k : ℕ) (xs ys : List ℕ) → mem k xs ≡ true → mem k (xs ++ ys) ≡ true
mem-append_left k [] ys h = absurd (cc)
mem-append_left k (x ∷ xs) ys h = ground (arith, mem-append_left k xs ys)

pub mem-append_last : (k : ℕ) (xs : List ℕ) → mem k (xs ++ k ∷ []) ≡ true
mem-append_last k [] = ground arith
mem-append_last k (x ∷ xs) = ground (arith, mem-append_last k xs)

pub In-append_left : {A : Type 0} (xs ys : List A) (x : A) → In x xs → In x (xs ++ ys)
In-append_left [] ys x i = absurd i
In-append_left (z ∷ zs) ys x (inl e) = inl e
In-append_left (z ∷ zs) ys x (inr i) = inr (In-append_left zs ys x i)

In-append_last : {A : Type 0} (xs : List A) (x : A) → In x (xs ++ x ∷ [])
In-append_last [] x = inl refl
In-append_last (z ∷ zs) x = inr (In-append_last zs x)

pub length-get-none :
    (k : ℕ) (rows : List LocationPoint)
    → get location_id k rows ≡ none
    → length (filter (λ (r : LocationPoint). location_id r == k) rows) ≡ 0
unfolding get
length-get-none k [] h = refl
length-get-none k (r ∷ rs) h = ground (arith, length-get-none k rs)

pub IsLater-trans : (s t u : Progress) → IsLater s t → IsLater t u → IsLater s u
IsLater-trans s t u f g = record {
  rows = λ k r h. g.rows k r (f.rows k r h);
  acknowledged = λ k h. g.acknowledged k (f.acknowledged k h);
  refused = λ x i. g.refused x (f.refused x i);
}

pub IsSettled-later :
    (device : ℕ) (p : Point) (s t : Progress)
    → IsLater s t
    → IsSettled device p s
    → IsSettled device p t
IsSettled-later device p s t l (inl (m, r)) = inl (
  l.acknowledged p.id m,
  record { row = r.row; found = l.rows p.id r.row r.found; owner = r.owner; same = r.same },
)
IsSettled-later device p s t l (inr (i, k)) =
    inr (l.refused _ i, record { row = k.row; found = l.rows p.id k.row k.found; other = k.other })

pub answer_existing-IsSettled :
    (device : ℕ) (p : Point) (r : LocationPoint) (rows : List LocationPoint) (s : Progress)
    → get location_id p.id rows ≡ some r
    → Kept s.rows rows
    → IsLater s (answer_existing device p r rows s)
      × IsSettled device p (answer_existing device p r rows s)
unfolding answer_existing
answer_existing-IsSettled device p r rows s f k =
    elim (Bool-cases (r.device == device && location_point_matches r device p)) [
      | inl e ↦
          let same =
            location_point_matches-eq r device p (get-key location_id p.id rows f) (ground arith) in
          let owner : r.device ≡ device = (==_iff r.device device).0 (ground arith) in
          rw e (
            record {
              rows = k;
              acknowledged = λ j. mem-append_left j s.acknowledged (p.id ∷ []);
              refused = λ x i. i;
            },
            inl (
              mem-append_last p.id s.acknowledged,
              record { row = r; found = f; owner = owner; same = same },
            ),
          )
      | inr e ↦ rw e (
        record {
          rows = k;
          acknowledged = λ j h. h;
          refused = λ x i. In-append_left s.refused _ x i;
        },
        inr (
          In-append_last s.refused _,
          record { row = r; found = f; other = differs-other r device p e },
        ),
      )
    ]

-- ===== src/Locations/Screened.antt =====
-- The screening of the points of `location_batch` (backend/signage/api.py).
use digital_signage_project.Base.{
  ℕ, ℤ, pos, negsuc, int_eq, ◌≡◌, refl, ◌≢◌, ◌⊎◌, inl, inr, true, false, some, List, [], ◌∷◌, ◌++◌,
  arith, eq_iff, get, get-key, In, In-get, sym, ◌∙◌, subst, Bool-cases, Option-cases, Result-cases,
  ok, err, Error, >>=-cases, or_raise, or_raise-some, ok-injective,
}
use digital_signage_project.Wire.{Json, Fields}
use digital_signage_project.Wire.Reading.{Readers, Conversions}
use digital_signage_project.Locations.{
  Point, point_id, Reason, Rejection, as_object, same_point, screen_point, screen_points,
  parse_point, parse_point_id,
}
use digital_signage_project.Locations.Answered.{int_eq_iff, point_ext, In-append_left}

int_eq_refl : (a : ℤ) → int_eq a a ≡ true
int_eq_refl (pos n) = ground arith
int_eq_refl (negsuc n) = ground arith

same_point-eq : (p q : Point) → same_point p q ≡ true → p ≡ q
unfolding same_point
same_point-eq p q h =
    point_ext p q (ground arith) (ground arith) (ground arith)
      (int_eq_iff p.latitude q.latitude (ground arith))
      (int_eq_iff p.longitude q.longitude (ground arith))
      (int_eq_iff p.accuracy_m q.accuracy_m (ground arith))
      ((eq_iff p.provider q.provider).0 (ground arith))
      ((eq_iff p.source q.source).0 (ground arith))

same_point_refl : (p : Point) → same_point p p ≡ true
unfolding same_point
same_point_refl p =
    rw
      (
        int_eq_refl p.latitude,
        int_eq_refl p.longitude,
        int_eq_refl p.accuracy_m,
        (eq_iff p.provider p.provider).1 refl,
        (eq_iff p.source p.source).1 refl,
      )
      (ground arith)

-- What becomes of a submitted value: it is an object with an identifier, and it is a valid point that is
-- accepted, or it is no valid point and is refused, or it is refused because another point with its
-- identifier is accepted.
pub record IsScreened (lib : Readers) (conv : Conversions) (now : ℕ) (accepted : List Point)
    (refused : List Rejection) (v : Json) : Type 0 where
  pub raw : Fields
  pub id : ℕ
  pub is_object : as_object v ≡ some raw
  pub has_id : parse_point_id lib conv now raw ≡ ok id
  pub outcome :
      ((p : Point) × (parse_point lib conv now id raw ≡ ok p) × In p accepted)
      ⊎ (((e : Error) × (parse_point lib conv now id raw ≡ err e)
            × In (record { id = id; reason = Reason.invalid_point }) refused)
          ⊎ ((p : Point) × (prior : Point) × (parse_point lib conv now id raw ≡ ok p)
              × In prior accepted
              × (prior.id ≡ id)
              × (prior ≢ p)
              × In (record { id = id; reason = Reason.id_collision }) refused))

In-append_right : {A : Type 0} (xs ys : List A) (x : A) → In x ys → In x (xs ++ ys)
In-append_right [] ys x i = i
In-append_right (z ∷ zs) ys x i = inr (In-append_right zs ys x i)

module _ (lib : Readers) (conv : Conversions) (now : ℕ) where
  -- What one point adds is what becomes of it.
  step_lem :
      (k : ℕ) (v : Json) (raw : Fields) (seen final : List Point) (refused : List Rejection)
      → as_object v ≡ some raw
      → parse_point_id lib conv now raw ≡ ok k
      → let step = screen_point k (parse_point lib conv now k raw) seen in
        ((p : Point) → In p (seen ++ step.0) → In p final)
        → ((x : Rejection) → In x step.1 → In x refused)
        → IsScreened lib conv now final refused v
  unfolding screen_point
  step_lem k v raw seen final refused o i f g =
      elim (Result-cases (parse_point lib conv now k raw)) [
        | inl (e, h) ↦ record {
          raw = raw;
          id = k;
          is_object = o;
          has_id = i;
          outcome = inr (inl (e, h, g _ (rw (h, screen_point) (inl refl))));
        }
        | inr (p, h) ↦ elim (Option-cases (get point_id k seen)) [
          | inl n ↦ record {
            raw = raw;
            id = k;
            is_object = o;
            has_id = i;
            outcome =
                inl (
                  p,
                  h,
                  f p (rw (h, screen_point, n) (In-append_right seen (p ∷ []) p (inl refl))),
                );
          }
          | inr (prior, n) ↦
              let old : In prior final =
                f prior (In-append_left seen _ prior (In-get point_id k seen n)) in
              elim (Bool-cases (same_point prior p)) [
                | inl s ↦ record {
                  raw = raw;
                  id = k;
                  is_object = o;
                  has_id = i;
                  outcome = inl (p, h, subst (λ q. In q final) (same_point-eq prior p s) old);
                }
                | inr s ↦
                    let other : prior ≢ p = λ q.
                      let z : same_point p p ≡ false = subst (λ x. same_point x p ≡ false) q s in
                      let y = same_point_refl p in let x : true ≡ false = sym y ∙ z in cc in
                    record {
                      raw = raw;
                      id = k;
                      is_object = o;
                      has_id = i;
                      outcome = inr (
                          inr (
                            p,
                            prior,
                            h,
                            old,
                            get-key point_id k seen n,
                            other,
                            g _ (rw (h, screen_point, n, s) (inl refl)),
                          ));
                    }
              ]
        ]
      ]

  -- The screening loses no point: every submitted value is accepted or refused.
  pub screen_points-IsScreened :
      (vs : List Json) (seen : List Point) (r : List Point × List Rejection)
      → screen_points lib conv now vs seen ≡ ok r
      → ((p : Point) → In p seen → In p r.0)
        × ((v : Json) → In v vs → IsScreened lib conv now r.0 r.1 v)
  unfolding screen_points
  screen_points-IsScreened [] seen r h =
      subst
        (λ (r : List Point × List Rejection).
          ((p : Point) → In p seen → In p r.0)
          × ((v : Json) → In v [] → IsScreened lib conv now r.0 r.1 v))
        (ok-injective h) (λ p i. i, λ v i. absurd i)
  screen_points-IsScreened (w ∷ ws) seen r h =
      >>=-cases (or_raise (as_object w) _) _ h (λ raw h1 k1.
        >>=-cases (parse_point_id lib conv now raw) _ k1 (λ k h2 k2.
          let step = screen_point k (parse_point lib conv now k raw) seen in
          >>=-cases (screen_points lib conv now ws (seen ++ step.0)) _ k2 (λ rest h3 k3.
            let (f, g) = screen_points-IsScreened ws (seen ++ step.0) rest h3 in
            subst
              (λ (r : List Point × List Rejection).
                ((p : Point) → In p seen → In p r.0)
                × ((v : Json) → In v (w ∷ ws) → IsScreened lib conv now r.0 r.1 v))
              (ok-injective k3)
              (
                λ p i. f p (In-append_left seen step.0 p i),
                λ v. elim [
                  | inl e ↦ subst (IsScreened lib conv now rest.0 (step.1 ++ rest.1)) (sym e) (
                      step_lem k w raw seen rest.0 (step.1 ++ rest.1) (or_raise-some _ _ h1) h2 f
                        (λ x i. In-append_left step.1 rest.1 x i))
                  | inr i ↦ widened step.1 rest.0 rest.1 v (g v i)
                ],
              ))))
    where
      widened :
          (new : List Rejection) (accepted : List Point) (refused : List Rejection) (v : Json)
          → IsScreened lib conv now accepted refused v
          → IsScreened lib conv now accepted (new ++ refused) v
      widened new accepted refused v s = record {
        raw = s.raw;
        id = s.id;
        is_object = s.is_object;
        has_id = s.has_id;
        outcome = elim s.outcome [
          | inl x ↦ inl x
          | inr (inl (e, h, i)) ↦ inr (inl (e, h, In-append_right new refused _ i))
          | inr (inr (p, q, h, o, j, n, i)) ↦
              inr (inr (p, q, h, o, j, n, In-append_right new refused _ i))
        ];
      }

-- ===== src/Locations/Settled.antt =====
-- What `location_batch` (backend/signage/api.py) answers and stores.
use digital_signage_project.Base.{
  ℕ, ◌≡◌, refl, ◌⊎◌, inl, inr, true, not, some, List, [], ◌∷◌, ltb, length, arith, is_some, get,
  get-key, get-append_new, get-append_old, mem, All, In, ok, >>=-cases, raise_if-cases, or_raise,
  or_raise-some, ◌≤◌, subst, Option-cases, ok-injective,
}
use digital_signage_project.Models.{Device, device_id, DeviceAssignment}
use digital_signage_project.Credentials.{is_disabled}
use digital_signage_project.Wire.{Json, Fields, keys}
use digital_signage_project.Wire.Texts.{subset}
use digital_signage_project.Wire.Reading.{Readers, Conversions, value_of}
use digital_signage_project.Alerts.Raising.{raise_alerts}
use digital_signage_project.Locations.{Point, Reason, Rejection, screen_points}
use digital_signage_project.Locations.Batch.{
  LocationPoint, location_id, Progress, new_row, insert_point, store_point, store_points,
  parse_current,
}
use digital_signage_project.Locations.Handler.{
  Tracking, LocationReply, points_of, as_points, started, newer_alerts, record_locations,
  location_batch,
}
use digital_signage_project.Locations.Screened.{IsScreened, screen_points-IsScreened}
use digital_signage_project.Locations.Answered.{
  IsLater, IsLater-trans, IsSettled, IsTaken, IsStored, Kept, answer_existing-IsSettled,
  length-get-none, mem-append_last, mem-append_left, IsSettled-later,
}

module _ (between : List LocationPoint → List LocationPoint)
    (keeps : (rows : List LocationPoint) → Kept rows (between rows)) (device : ℕ)
    (assignments : List DeviceAssignment) where
  store_point-IsSettled :
      (p : Point) (s : Progress)
      → IsLater s (store_point between device assignments p s)
        × IsSettled device p (store_point between device assignments p s)
  unfolding store_point insert_point
  store_point-IsSettled p s = elim (Option-cases (get location_id p.id s.rows)) [
    | inr (r, e) ↦
        rw (e, store_point) (answer_existing-IsSettled device p r s.rows s e (λ k r' h. h))
    | inl e ↦ elim (Option-cases (get location_id p.id (between s.rows))) [
      | inr (r, f) ↦
          rw (e, store_point, insert_point, f)
            (answer_existing-IsSettled device p r (between s.rows) s f (keeps s.rows))
      | inl f ↦
          rw (e, store_point, insert_point, f)
            (
              record {
                rows =
                    λ k r h. get-append_old location_id k (between s.rows) _ (keeps s.rows k r h);
                acknowledged = λ j. mem-append_left j s.acknowledged (p.id ∷ []);
                refused = λ x i. i;
              },
              inl (
                mem-append_last p.id s.acknowledged,
                record {
                  row = new_row device assignments p;
                  found =
                      get-append_new location_id (between s.rows) (new_row device assignments p)
                        (length-get-none p.id (between s.rows) f);
                  owner = refl;
                  same = refl;
                },
              ),
            )
    ]
  ]

  store_points-AllSettled :
      (ps : List Point) (s : Progress)
      → IsLater s (store_points between device assignments ps s)
        × All (λ p. IsSettled device p (store_points between device assignments ps s)) ps
  unfolding store_points
  store_points-AllSettled [] s =
      (record { rows = λ k r h. h; acknowledged = λ k h. h; refused = λ x i. i }, tt)
  store_points-AllSettled (p ∷ ps) s =
      let t = store_point between device assignments p s in
      let (l, h) = store_point-IsSettled p s in
      let (l', hs) = store_points-AllSettled ps t in
      (
        IsLater-trans s t (store_points between device assignments ps t) l l',
        (IsSettled-later device p t (store_points between device assignments ps t) l' h, hs),
      )

-- What a call of `location_batch` gives that returns `r`.
pub record IsAnsweredBatch (lib : Readers) (conv : Conversions) (now : ℕ) (device : Device)
    (body : Fields) (s : Tracking) (r : Tracking × LocationReply) : Type 0 where
  pub points : List Json
  pub accepted : List Point
  pub screened : List Rejection
  pub submitted : as_points (points_of body) ≡ some points
  pub bounded : length points ≤ 500
  pub screening : (v : Json) → In v points → IsScreened lib conv now accepted screened v
  pub kept : Kept s.points (r.0).points
  pub refused : (x : Rejection) → In x screened → In x (r.1).rejections
  pub answered :
      All
        (λ p.
          ((mem p.id (r.1).acknowledged_ids ≡ true) × IsStored device.id p (r.0).points)
          ⊎ (In (record { id = p.id; reason = Reason.id_collision }) (r.1).rejections
              × IsTaken device.id p (r.0).points))
        accepted

module _ (lib : Readers) (conv : Conversions) (between : List LocationPoint → List LocationPoint)
    (keeps : (rows : List LocationPoint) → Kept rows (between rows)) (now : ℕ) where
  -- Every point of a batch that returns is answered. A value that is no valid point is refused, and so is
  -- one whose identifier another point of the batch has. Of every other point either the identifier is
  -- acknowledged and the point is stored for the device as it was submitted, or it is refused and a row
  -- with its identifier is stored that has another device or other values. Stored rows are kept, if
  -- other transactions keep them.
  pub location_batch-IsAnsweredBatch :
      (device : Device) (body : Fields) (s : Tracking) (r : Tracking × LocationReply)
      → location_batch lib conv between now device body s ≡ ok r
      → IsAnsweredBatch lib conv now device body s r
  unfolding location_batch record_locations
  location_batch-IsAnsweredBatch device body s r h =
      raise_if-cases (is_disabled device) _ _ h (λ h1 k1.
        raise_if-cases (not (subset (keys body) ("current" ∷ "points" ∷ []))) _ _ k1 (λ h2 k2.
          >>=-cases (or_raise (as_points (points_of body)) _) _ k2 (λ points h3 k3.
            raise_if-cases (ltb 500 (length points)) _ _ k3 (λ h4 k4.
              >>=-cases (parse_current lib now (value_of "current" body)) _ k4 (λ current h5 k5.
                >>=-cases (screen_points lib conv now points []) _ k5 (λ screened h6 k6.
                  >>=-cases (or_raise (get device_id device.id s.devices) _) _ k6 (λ d h7 k7.
                    >>=-cases
                      (raise_alerts (λ k. is_some (get device_id k s.devices)) now
                        (newer_alerts d current) s.alerts)
                      _ k7
                      (λ alerts h8 k8.
                        let q = get-key device_id device.id s.devices (or_raise-some _ _ h7) in
                        let (l, all) =
                          store_points-AllSettled between keeps d.id s.assignments screened.0
                            (started s.points screened.1) in
                        subst (IsAnsweredBatch lib conv now device body s) (ok-injective k8)
                          (record {
                            points = points;
                            accepted = screened.0;
                            screened = screened.1;
                            submitted = or_raise-some _ _ h3;
                            bounded = ground arith;
                            screening =
                                (screen_points-IsScreened lib conv now points [] screened h6).1;
                            kept = l.rows;
                            refused = l.refused;
                            answered =
                                subst
                                  (λ k.
                                    All
                                      (λ p. IsSettled k p (
                                        store_points between d.id s.assignments screened.0
                                          (started s.points screened.1)))
                                      screened.0)
                                  q all;
                          })))))))))

-- ===== src/Playback/Consistent.antt =====
-- The events that `validate_event` (backend/signage/api.py) accepts are consistent.
use digital_signage_project.Base.{
  ℕ, suc, ◌+◌, ◌≤◌, ◌≡◌, false, some, List, [], ◌∷◌, get, ok, ◌>>=◌, Place, or_raise,
  raise_if-cases, ok-injective, or_raise-some, subst, >>=-cases, All, eq_iff,
}
use digital_signage_project.Models.{Evidence}
use digital_signage_project.Wire.{
  boolean, negative, real, text, array, Json, null, int, object, Fields, look_up,
}
use digital_signage_project.Wire.Reading.{
  as_text, Readers, parse_required_uuid, parse_required_datetime, required_value, value_of,
  future_skew,
}
use digital_signage_project.Playback.{
  parse_status, Entry, entry_id, Loop, outside, as_duration, check_end, end_outside, as_reason,
  check_status, exceeds_interval, parse_end, validate_fields, validate_event, validate_events,
}
use digital_signage_project.Playback.Checked.{
  IsConsistent, as_duration_le, check_status_complete, check_status-recognized, end-EndsAfter,
  required_datetime_le, Within-of,
}

module _ (lib : Readers) (now : ℕ) where
  IsConsistent-of :
      (entries : List Entry) (l : Loop) (index : ℕ) (v w : Json) (at : Place) (planned : Entry)
      (e : Evidence) {u u' : Unit {0}}
      → get entry_id e.playlist_item entries ≡ some planned
      → as_duration w ≡ some e.duration_ms
      → e.started_at ≤ now + future_skew
      → parse_end lib now index v ≡ ok e.ended_at
      → check_end index l e.started_at e.ended_at ≡ ok u
      → outside l e.started_at ≡ false
      → end_outside l e.ended_at ≡ false
      → check_status index planned.media e.status e.duration_ms e.ended_at e.failure_reason ≡ ok u'
      → exceeds_interval e.started_at e.ended_at e.duration_ms ≡ false
      → IsConsistent now entries l e
  IsConsistent-of entries l index v w at planned e {u} h1 h2 h3 h4 h5 h6 h7 h8 h9 = record {
    planned = planned;
    in_playlist = h1;
    starts_within = Within-of l e.started_at h6;
    not_ahead = h3;
    bounded = as_duration_le w h2;
    end = λ t q. end-EndsAfter lib now index v l e {u' = u} t h4 h5 h7 h9 q;
    when_completed = λ q.
        let k = rw q at h8 in
        let (a, b, c, d) =
          check_status_complete index planned.media e.duration_ms e.ended_at e.failure_reason k in
        record {
          has_end = λ n. absurd (let z = rw n at a in cc);
          no_reason = (eq_iff e.failure_reason "").0 b;
          lower = c;
          upper = d;
        };
    recognized =
        check_status-recognized index planned.media e.status e.duration_ms e.ended_at
          e.failure_reason h8;
  }

  validate_fields-IsConsistent :
      (entries : List Entry) (l : Loop) (index : ℕ) (fs : Fields) {e : Evidence}
      → validate_fields lib now entries l index fs ≡ ok e
      → IsConsistent now entries l e
  unfolding validate_fields
  validate_fields-IsConsistent entries l index fs {e} h =
      let at = Place.event_field index in
      >>=-cases (required_value (at "id") "id" fs >>= λ v. parse_required_uuid lib v (at "id")) _ h
        (λ id e1 k1.
          >>=-cases
            (required_value (at "playlist_item_id") "playlist_item_id" fs >>= λ v.
              parse_required_uuid lib v (at "playlist_item_id"))
            _ k1
            (λ item_id e2 k2.
              >>=-cases (or_raise (get entry_id item_id entries) _) _ k2 (λ planned e3 k3.
                >>=-cases (required_value (at "status") "status" fs) _ k3 (λ status_value e4 k4.
                  >>=-cases (or_raise (as_text status_value) _) _ k4 (λ status_text e5 k5.
                    >>=-cases (or_raise (parse_status status_text) _) _ k5 (λ status e6 k6.
                      >>=-cases (required_value (at "duration_ms") "duration_ms" fs) _ k6
                        (λ duration e7 k7.
                          >>=-cases (or_raise (as_duration duration) _) _ k7 (λ duration_ms e8 k8.
                            >>=-cases
                              (required_value (at "started_at") "started_at" fs >>= λ v.
                                parse_required_datetime lib future_skew now v (at "started_at"))
                              _ k8
                              (λ started_at e9 k9.
                                >>=-cases (parse_end lib now index (value_of "ended_at" fs)) _ k9
                                  (λ ended_at e10 k10.
                                    >>=-cases (check_end index l started_at ended_at) _ k10
                                      (λ u e11 k11.
                                        raise_if-cases (outside l started_at) _ _ k11 (λ e12 k12.
                                          raise_if-cases (end_outside l ended_at) _ _ k12
                                            (λ e13 k13.
                                              >>=-cases
                                                (or_raise (as_reason (look_up "failure_reason" fs))
                                                  _)
                                                _ k13
                                                (λ reason e14 k14.
                                                  >>=-cases
                                                    (check_status index planned.media status
                                                      duration_ms ended_at reason)
                                                    _ k14
                                                    (λ u' e15 k15.
                                                      raise_if-cases
                                                        (exceeds_interval started_at ended_at
                                                          duration_ms)
                                                        _ _ k15
                                                        (λ e16 k16.
                                                          subst (IsConsistent now entries l)
                                                            (ok-injective k16)
                                                            (IsConsistent-of entries l index
                                                            (value_of "ended_at" fs) duration
                                                            (at "id") planned _
                                                            (or_raise-some _ _ e3)
                                                            (or_raise-some _ _ e8)
                                                            (required_datetime_le lib now _ _ e9)
                                                            e10 e11 e12 e13 e15 e16)))))))))))))))))

  validate_event-IsConsistent :
      (entries : List Entry) (l : Loop) (index : ℕ) (v : Json) {e : Evidence}
      → validate_event lib now entries l index v ≡ ok e
      → IsConsistent now entries l e
  unfolding validate_event
  validate_event-IsConsistent entries l index (object fs) h =
      validate_fields-IsConsistent entries l index fs h
  validate_event-IsConsistent entries l index null h = absurd (cc)
  validate_event-IsConsistent entries l index (boolean b) h = absurd (cc)
  validate_event-IsConsistent entries l index (int k) h = absurd (cc)
  validate_event-IsConsistent entries l index (negative k) h = absurd (cc)
  validate_event-IsConsistent entries l index (real k) h = absurd (cc)
  validate_event-IsConsistent entries l index (text s) h = absurd (cc)
  validate_event-IsConsistent entries l index (array js) h = absurd (cc)

  pub validate_events-IsConsistent :
      (entries : List Entry) (l : Loop) (index : ℕ) (vs : List Json) {es : List Evidence}
      → validate_events lib now entries l index vs ≡ ok es
      → All (IsConsistent now entries l) es
  unfolding validate_events
  validate_events-IsConsistent entries l index [] h = subst (All _) (ok-injective h) tt
  validate_events-IsConsistent entries l index (v ∷ vs) h =
      >>=-cases (validate_event lib now entries l index v) _ h (λ e h1 k1.
        >>=-cases (validate_events lib now entries l (suc index) vs) _ k1 (λ es h2 k2.
          subst (All _) (ok-injective k2) (
            validate_event-IsConsistent entries l index v h1,
            validate_events-IsConsistent entries l (suc index) vs h2,
          )))

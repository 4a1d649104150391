-- ===== src/Playback/Later.antt =====
-- The validation of playback evidence (backend/signage/api.py) at a later time: what was accepted is
-- accepted again, with the same result.
use digital_signage_project.Base.{
  ℕ, suc, ◌+◌, ◌≤◌, ◌≡◌, String, false, not, some, List, [], ◌∷◌, ltb, ◌==◌, arith, get, length,
  Result, ok, Place, ◌>>=◌, >>=-cases, raise_if-cases, raise_if, or_raise, Bool-cases, inl, inr,
}
use digital_signage_project.Models.{Playlist}
use digital_signage_project.Wire.{
  Json, null, boolean, int, negative, real, text, array, object, Fields, is_null,
}
use digital_signage_project.Wire.Reading.{
  Readers, required_value, value_of, as_text, as_boolean, parse_required_uuid,
  parse_required_datetime, timestamp_of, future_skew,
}
use digital_signage_project.Playback.{
  Entry, entry_id, Loop, parse_status, as_duration, parse_end, validate_fields, validate_event,
  validate_events,
}
use digital_signage_project.Playback.Submission.{
  as_array, time_field, parse_loop, normalize_events, validate_playback_batch_payload,
}

-- What the first call returns the second returns too.
abbrev pub Later {ℓ} : {A : Type ℓ} → Result A → Result A → Type ℓ
Later {A} m m' = (a : A) → m ≡ ok a → m' ≡ ok a

Later->>= :
    {A B : Type 0} (m m' : Result A) (k k' : A → Result B)
    → Later m m'
    → ((a : A) → Later (k a) (k' a))
    → Later (m >>= k) (m' >>= k')
Later->>= m m' k k' h g b q = >>=-cases m k q (λ a e f. rw (h a e) (g a b f))

-- The same where both calls begin alike.
after_same :
    {A B : Type 0} (m : Result A) (k k' : A → Result B)
    → ((a : A) → Later (k a) (k' a))
    → Later (m >>= k) (m >>= k')
after_same m k k' g = Later->>= m m k k' (λ a e. e) g

module _ (lib : Readers) (now later : ℕ) (ahead : now ≤ later) where
  parse_required_datetime-Later :
      (v : Json) (at : Place)
      → Later
          (parse_required_datetime lib future_skew now v at)
          (parse_required_datetime lib future_skew later v at)
  unfolding parse_required_datetime
  parse_required_datetime-Later v at = after_same (or_raise (timestamp_of lib v) _) _ _ (λ t a q.
      raise_if-cases (ltb (now + future_skew) t) _ _ q
        (λ h k. let l : ltb (later + future_skew) t ≡ false = ground arith in rw l k))

  required_datetime-Later :
      (m : Result Json) (at : Place)
      → Later
          (m >>= λ v. parse_required_datetime lib future_skew now v at)
          (m >>= λ v. parse_required_datetime lib future_skew later v at)
  required_datetime-Later m at = after_same m _ _ (λ v. parse_required_datetime-Later v at)

  parse_end-Later :
      (index : ℕ) (v : Json) → Later (parse_end lib now index v) (parse_end lib later index v)
  unfolding parse_end
  parse_end-Later index v = elim (Bool-cases (is_null v)) [
    | inl e ↦ rw e (λ a q. q)
    | inr e ↦ rw e (
        Later->>= _ _ (λ t. ok (some t)) (λ t. ok (some t))
          (parse_required_datetime-Later v (Place.event_field index "ended_at")) (λ t a q. q))
  ]

  validate_fields-Later :
      (entries : List Entry) (l : Loop) (index : ℕ) (fs : Fields)
      → Later
          (validate_fields lib now entries l index fs)
          (validate_fields lib later entries l index fs)
  unfolding validate_fields
  validate_fields-Later entries l index fs =
      let at = Place.event_field index in
      after_same (required_value (at "id") "id" fs >>= λ v. parse_required_uuid lib v (at "id")) _ _
        (λ id.
          after_same
            (required_value (at "playlist_item_id") "playlist_item_id" fs >>= λ v.
              parse_required_uuid lib v (at "playlist_item_id"))
            _ _
            (λ item_id. after_same (or_raise (get entry_id item_id entries) _) _ _ (λ planned.
              after_same (required_value (at "status") "status" fs) _ _ (λ status_value.
                after_same (or_raise (as_text status_value) _) _ _ (λ status_text.
                  after_same (or_raise (parse_status status_text) _) _ _ (λ status.
                    after_same (required_value (at "duration_ms") "duration_ms" fs) _ _ (λ duration.
                      after_same (or_raise (as_duration duration) _) _ _ (λ duration_ms.
                        Later->>= _ _ _ _
                          (required_datetime-Later
                            (required_value (at "started_at") "started_at" fs) (at "started_at"))
                          (λ started_at.
                            Later->>= _ _ _ _ (parse_end-Later index (value_of "ended_at" fs))
                              (λ ended_at a q. q))))))))))

  validate_event-Later :
      (entries : List Entry) (l : Loop) (index : ℕ) (v : Json)
      → Later
          (validate_event lib now entries l index v)
          (validate_event lib later entries l index v)
  unfolding validate_event
  validate_event-Later entries l index (object fs) = validate_fields-Later entries l index fs
  validate_event-Later entries l index null = λ a q. q
  validate_event-Later entries l index (boolean b) = λ a q. q
  validate_event-Later entries l index (int k) = λ a q. q
  validate_event-Later entries l index (negative k) = λ a q. q
  validate_event-Later entries l index (real k) = λ a q. q
  validate_event-Later entries l index (text s) = λ a q. q
  validate_event-Later entries l index (array js) = λ a q. q

  validate_events-Later :
      (entries : List Entry) (l : Loop) (index : ℕ) (vs : List Json)
      → Later
          (validate_events lib now entries l index vs)
          (validate_events lib later entries l index vs)
  unfolding validate_events
  validate_events-Later entries l index [] = λ a q. q
  validate_events-Later entries l index (v ∷ vs) =
      Later->>= _ _ _ _ (validate_event-Later entries l index v) (λ e.
        Later->>= _ _ (λ es. ok (e ∷ es)) (λ es. ok (e ∷ es))
          (validate_events-Later entries l (suc index) vs) (λ es a q. q))

  time_field-Later :
      (k : String) (body : Fields) → Later (time_field lib now k body) (time_field lib later k body)
  time_field-Later k body =
      required_datetime-Later (required_value (Place.field k) k body) (Place.field k)

  parse_loop-Later :
      (body : Fields) (p : Playlist)
      → Later (parse_loop lib now body p) (parse_loop lib later body p)
  unfolding parse_loop
  parse_loop-Later body p =
      Later->>= _ _ _ _ (time_field-Later "loop_started_at" body) (λ started_at.
        Later->>= _ _ _ _ (time_field-Later "loop_ended_at" body) (λ ended_at a q. q))

  normalize_events-Later :
      (entries : List Entry) (l : Loop) (raw : List Json)
      → Later (normalize_events lib now entries l raw) (normalize_events lib later entries l raw)
  unfolding normalize_events
  normalize_events-Later entries l raw = after_same (raise_if (length entries == 0) _) _ _ (λ u1.
      after_same (raise_if (not (length raw == length entries)) _) _ _
        (λ u2. Later->>= _ _ _ _ (validate_events-Later entries l 0 raw) (λ es a q. q)))

  -- A payload that was accepted is accepted at a later time, with the same result.
  pub validate_playback_batch_payload-Later :
      (entries : List Entry) (body : Fields) (p : Playlist) (id playlist_id : ℕ)
      → Later
          (validate_playback_batch_payload lib now entries body p id playlist_id)
          (validate_playback_batch_payload lib later entries body p id playlist_id)
  unfolding validate_playback_batch_payload
  validate_playback_batch_payload-Later entries body p id playlist_id =
      Later->>= _ _ _ _ (parse_loop-Later body p) (λ l.
        after_same (required_value (Place.field "captured_offline") "captured_offline" body) _ _
          (λ v. after_same (or_raise (as_boolean v) _) _ _ (λ offline.
            after_same (required_value (Place.field "events") "events" body) _ _ (λ listed.
              after_same (or_raise (as_array listed) _) _ _
                (λ raw. Later->>= _ _ _ _ (normalize_events-Later entries l raw) (λ es a q. q))))))

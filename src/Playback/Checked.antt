-- ===== src/Playback/Checked.antt =====
-- What `validate_event` (backend/signage/api.py) guarantees of an event that it accepts.
use digital_signage_project.Base.{
  ℕ, ◌+◌, ◌-◌, ◌/◌, ◌≤◌, ◌≡◌, refl, ◌≢◌, String, true, false, not, ◌&&◌, Option, none, some, List,
  ltb, leb, arith, str_eq, get, is_none, Result, ok, ◌>>=◌, Place, or_raise, raise_if-cases,
  raise_if-not, subst, >>=-cases, raise_if-eq-ok, ap, inl, inr, Bool-cases, ◌∙◌,
}
use digital_signage_project.Models.{MediaAsset, Evidence, PlaybackStatus}
use digital_signage_project.Wire.{
  boolean, negative, real, text, array, Json, is_null, null, int, object,
}
use digital_signage_project.Wire.Texts.{mem_text}
use digital_signage_project.Wire.Reading.{
  Readers, parse_required_datetime, timestamp_of, future_skew,
}
use digital_signage_project.Playback.{
  Entry, entry_id, Loop, tolerance, max_duration_ms, failure_reasons, outside, as_duration,
  video_tolerance, check_end, end_outside, check_status, exceeds_interval, parse_end,
}

-- A time within the loop, up to the tolerance.
pub record Within (l : Loop) (t : ℕ) : Type 0 where
  pub after_start : l.started_at ≤ t + tolerance
  pub before_end : t ≤ l.ended_at + tolerance

-- What is known of the end of an event.
pub record EndsAfter (now : ℕ) (l : Loop) (e : Evidence) (t : ℕ) : Type 0 where
  pub ordered : e.started_at ≤ t
  pub within : Within l t
  pub not_ahead : t ≤ now + future_skew
  pub long_enough : e.duration_ms ≤ (t - e.started_at) / 1000 + 5000

-- What is known of a completed playback of `media`.
pub record IsComplete (media : MediaAsset) (e : Evidence) : Type 0 where
  pub has_end : e.ended_at ≢ none
  pub no_reason : e.failure_reason ≡ ""
  pub lower : media.duration_ms ≤ e.duration_ms + video_tolerance media
  pub upper : e.duration_ms ≤ media.duration_ms + video_tolerance media

pub record IsConsistent (now : ℕ) (entries : List Entry) (l : Loop) (e : Evidence) : Type 0 where
  pub planned : Entry
  pub in_playlist : get entry_id e.playlist_item entries ≡ some planned
  pub starts_within : Within l e.started_at
  pub not_ahead : e.started_at ≤ now + future_skew
  pub bounded : e.duration_ms ≤ max_duration_ms
  pub end : (t : ℕ) → e.ended_at ≡ some t → EndsAfter now l e t
  pub when_completed : e.status ≡ PlaybackStatus.completed → IsComplete planned.media e
  pub recognized :
      e.status ≢ PlaybackStatus.completed
      → mem_text e.failure_reason (failure_reasons e.status) ≡ true

pub Within-of : (l : Loop) (t : ℕ) → outside l t ≡ false → Within l t
Within-of l t h = record { after_start = ground arith; before_end = ground arith }

-- The facts that `check_end`, `check_status` and `exceeds_interval` leave.
pub check_status_complete :
    (index : ℕ) (media : MediaAsset) (duration_ms : ℕ) (ended_at : Option ℕ) (reason : String)
    {u : Unit {0}}
    → check_status index media PlaybackStatus.completed duration_ms ended_at reason ≡ ok u
    → (is_none ended_at ≡ false)
      × (str_eq reason "" ≡ true)
      × (media.duration_ms ≤ duration_ms + video_tolerance media)
      × (duration_ms ≤ media.duration_ms + video_tolerance media)
unfolding check_status
check_status_complete index media duration_ms ended_at reason h =
    raise_if-cases
      (not (
        leb (media.duration_ms - video_tolerance media) duration_ms
        && leb duration_ms (media.duration_ms + video_tolerance media)))
      _ _ h
      (λ b1 k1.
        raise_if-cases (is_none ended_at) _ _ k1
          (λ b2 k2. (b2, raise_if-not (str_eq reason "") _ k2, ground arith, ground arith)))

pub check_status-recognized :
    (index : ℕ) (media : MediaAsset) (status : PlaybackStatus) (duration_ms : ℕ)
    (ended_at : Option ℕ) (reason : String) {u : Unit {0}}
    → check_status index media status duration_ms ended_at reason ≡ ok u
    → status ≢ PlaybackStatus.completed
    → mem_text reason (failure_reasons status) ≡ true
unfolding check_status
check_status-recognized index media PlaybackStatus.completed duration_ms ended_at reason h n =
    absurd (n refl)
check_status-recognized index media PlaybackStatus.failed duration_ms ended_at reason h n =
    raise_if-not (mem_text reason (failure_reasons PlaybackStatus.failed)) _ h
check_status-recognized index media PlaybackStatus.interrupted duration_ms ended_at reason h n =
    raise_if-not (mem_text reason (failure_reasons PlaybackStatus.interrupted)) _ h

pub as_duration_le : (v : Json) {n : ℕ} → as_duration v ≡ some n → n ≤ max_duration_ms
as_duration_le (int k) {n} h = ground arith
as_duration_le null h = absurd (cc)
as_duration_le (boolean b) h = absurd (cc)
as_duration_le (negative k) h = absurd (cc)
as_duration_le (real k) h = absurd (cc)
as_duration_le (text s) h = absurd (cc)
as_duration_le (array js) h = absurd (cc)
as_duration_le (object fs) h = absurd (cc)

module _ (lib : Readers) (now : ℕ) where
  parse_required_datetime_le :
      (v : Json) (at : Place) {t : ℕ}
      → parse_required_datetime lib future_skew now v at ≡ ok t
      → t ≤ now + future_skew
  unfolding parse_required_datetime
  parse_required_datetime_le v at {t} h =
      >>=-cases (or_raise (timestamp_of lib v) _) _ h (λ s h1 k1.
        raise_if-cases (ltb (now + future_skew) s) _ _ k1 (λ b k2.
          let e : s ≡ t = ground arith in subst (λ x. x ≤ now + future_skew) e (ground arith)))

  pub required_datetime_le :
      (m : Result Json) (at : Place) {t : ℕ}
      → (m >>= λ v. parse_required_datetime lib future_skew now v at) ≡ ok t
      → t ≤ now + future_skew
  required_datetime_le m at h = >>=-cases m _ h (λ v h1 k1. parse_required_datetime_le v at k1)

  parse_end_le :
      (index : ℕ) (v : Json) {t : ℕ}
      → parse_end lib now index v ≡ ok (some t)
      → t ≤ now + future_skew
  unfolding parse_end
  parse_end_le index v {t} h = elim (Bool-cases (is_null v)) [
    | inl e ↦ absurd (let k = rw (e, parse_end) at h in cc)
    | inr e ↦
        >>=-cases
          (parse_required_datetime lib future_skew now v (Place.event_field index "ended_at"))
          (λ u. ok (some u)) (rw (e, parse_end) at h)
          (λ u h1 k1.
            let q : u ≡ t = cc in
            subst (λ x. x ≤ now + future_skew) q (parse_required_datetime_le v _ h1))
  ]

  -- The end of an accepted event.
  pub end-EndsAfter :
      (index : ℕ) (v : Json) (l : Loop) (e : Evidence) {u u' : Unit {0}} (t : ℕ)
      → parse_end lib now index v ≡ ok e.ended_at
      → check_end index l e.started_at e.ended_at ≡ ok u
      → end_outside l e.ended_at ≡ false
      → exceeds_interval e.started_at e.ended_at e.duration_ms ≡ false
      → e.ended_at ≡ some t
      → EndsAfter now l e t
  unfolding check_end
  end-EndsAfter index v l e t h1 h2 h3 h4 q =
      let i1 : parse_end lib now index v ≡ ok (some t) = h1 ∙ ap ok q in
      let i2 = rw q at h2 in
      let i3 = rw q at h3 in
      let i4 = rw q at h4 in
      record {
        ordered = (let b = raise_if-eq-ok (ltb t e.started_at) _ i2 in ground arith);
        within = Within-of l t i3;
        not_ahead = parse_end_le index v i1;
        long_enough = ground arith;
      }

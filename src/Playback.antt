-- ===== src/Playback.antt =====
-- The validation of playback evidence: `validate_event` and `validate_playback_batch_payload`
-- (backend/signage/api.py). Times are microseconds, durations milliseconds.
pub mod Submission
pub mod Receipt
pub mod Checked
pub mod Consistent
pub mod Complete
pub mod Matching
pub mod Later
pub mod Answered
pub mod Stored
pub mod Repeated
use digital_signage_project.Base.{
  ℕ, suc, ◌+◌, ◌-◌, ◌*◌, ◌/◌, String, Bool, true, false, not, ◌&&◌, ◌||◌, Option, none, some, List,
  [], ◌∷◌, map, ltb, leb, ◌==◌, if◌then◌else◌, str_eq, is_none, get, length, mem, Result, ok, err,
  Error, Place, ◌>>=◌, ◌>>◌, raise_if, or_raise,
}
use digital_signage_project.Models.{
  Playlist, PlaylistItem, MediaAsset, MediaKind, is_image, Evidence, PlaybackStatus,
  playback_status_eq,
}
use digital_signage_project.Wire.{
  Json, null, boolean, int, array, object, Items, Fields, look_up, is_null,
}
use digital_signage_project.Wire.Texts.{text_length, mem_text}
use digital_signage_project.Wire.Reading.{
  Readers, parse_required_uuid, parse_required_datetime, required_value, value_of, as_text,
  as_boolean, second, future_skew,
}

-- PLAYBACK_TIMESTAMP_TOLERANCE
abbrev pub tolerance : ℕ
tolerance = 5 * second

abbrev pub max_duration_ms : ℕ
max_duration_ms = 2147483647

-- PLAYBACK_FAILURE_REASONS_BY_STATUS
abbrev pub failure_reasons : PlaybackStatus → List String
failure_reasons PlaybackStatus.completed = []
failure_reasons PlaybackStatus.failed =
    "decode_failure" ∷ "missing_file" ∷ "playback_timeout" ∷ "start_timeout" ∷ []
failure_reasons PlaybackStatus.interrupted =
    "administrator_session" ∷ "app_restart_or_power_loss" ∷ "app_restart_or_unexpected_exit"
    ∷ "app_update" ∷ "credential_rejected" ∷ "device_disabled" ∷ "device_owner_removed"
    ∷ "external_power_lost" ∷ "external_power_unavailable" ∷ "fallback_mode"
    ∷ "loop_interrupted_before_entry" ∷ "planned_shutdown" ∷ "server_forbidden"
    ∷ "scheduled_playlist_replacement" ∷ "urgent_playlist_replacement" ∷ []

-- `PlaybackEvent.Status.values`
unfoldable pub parse_status : String → Option PlaybackStatus
parse_status s =
    if str_eq s "completed"
    then some PlaybackStatus.completed
    else if str_eq s "interrupted"
    then some PlaybackStatus.interrupted
    else if str_eq s "failed"
    then some PlaybackStatus.failed
    else none

-- An item of the playlist, with its media.
pub record Entry : Type 0 where
  pub item : ℕ
  pub media : MediaAsset

abbrev pub entry_id : Entry → ℕ
entry_id e = e.item

-- The loop of a batch.
pub record Loop : Type 0 where
  pub started_at : ℕ
  pub ended_at : ℕ

-- A time that lies outside the loop by more than the tolerance.
abbrev pub outside : Loop → ℕ → Bool
outside l t = ltb (t + tolerance) l.started_at || ltb (l.ended_at + tolerance) t

abbrev pub as_duration : Json → Option ℕ
as_duration (int n) = if leb n max_duration_ms then some n else none
as_duration _ = none

abbrev pub video_tolerance : MediaAsset → ℕ
video_tolerance a = if is_image a.kind then 0 else 500

-- The tests on an end of the event.
unfoldable pub check_end : ℕ → Loop → ℕ → Option ℕ → Result (Unit {0})
check_end index l started_at none = ok tt
check_end index l started_at (some t) = do
  raise_if (ltb t started_at)
      (Error.invalid (Place.event_field index "ended_at") "Event end cannot precede event start.")

abbrev pub end_outside : Loop → Option ℕ → Bool
end_outside l none = false
end_outside l (some t) = outside l t

-- `failure_reason`, or nothing for a value that is refused
abbrev pub as_reason : Option Json → Option String
as_reason none = some ""
as_reason (some v) = elim (as_text v) [
  | none ↦ none
  | some s ↦ if ltb 64 (text_length s) then none else some s
]

-- The tests that depend on the status.
unfoldable pub check_status :
    ℕ → MediaAsset → PlaybackStatus → ℕ → Option ℕ → String → Result (Unit {0})
check_status index media PlaybackStatus.completed duration_ms ended_at reason = do
  raise_if
      (not (
        leb (media.duration_ms - video_tolerance media) duration_ms
        && leb duration_ms (media.duration_ms + video_tolerance media)))
      (Error.invalid (Place.event_field index "duration_ms")
        "Completed playback duration does not match the media duration.")
  raise_if (is_none ended_at) (
      Error.invalid (Place.event_field index "ended_at")
        "Completed playback requires an end timestamp.")
  raise_if (not (str_eq reason "")) (
      Error.invalid (Place.event_field index "failure_reason")
        "Completed playback cannot include a failure reason.")
check_status index media status duration_ms ended_at reason =
    raise_if (not (mem_text reason (failure_reasons status))) (
      Error.invalid (Place.event_field index "failure_reason")
        "Interrupted and failed playback require a recognized failure category.")

-- The interval of the timestamps, in milliseconds.
abbrev pub exceeds_interval : ℕ → Option ℕ → ℕ → Bool
exceeds_interval started_at none duration_ms = false
exceeds_interval started_at (some t) duration_ms =
    ltb ((t - started_at) / 1000 + tolerance / 1000) duration_ms

module _ (lib : Readers) (now : ℕ) where
  -- `event.get("ended_at")`, read unless it is null
  unfoldable pub parse_end : ℕ → Json → Result (Option ℕ)
  parse_end index v =
      if is_null v
      then ok none
      else (parse_required_datetime lib future_skew now v (Place.event_field index "ended_at")
          >>= λ t. ok (some t))

  -- `validate_event` of an object
  unfoldable pub validate_fields : List Entry → Loop → ℕ → Fields → Result Evidence
  validate_fields entries l index e = do
    let at = Place.event_field index
    id ← required_value (at "id") "id" e >>= λ v. parse_required_uuid lib v (at "id")
    item_id ← required_value (at "playlist_item_id") "playlist_item_id" e >>= λ v.
        parse_required_uuid lib v (at "playlist_item_id")
    entry ←
        or_raise (get entry_id item_id entries)
          (Error.invalid (at "playlist_item_id") "Playback item is not in the playlist.")
    status_value ← required_value (at "status") "status" e
    status_text ←
        or_raise (as_text status_value)
          (Error.invalid (at "status") "Playback status must be a string.")
    status ←
        or_raise (parse_status status_text) (Error.invalid (at "status") "Invalid playback status.")
    duration ← required_value (at "duration_ms") "duration_ms" e
    duration_ms ←
        or_raise (as_duration duration)
          (Error.invalid (at "duration_ms") "Use an integer between 0 and 2147483647.")
    started_at ← required_value (at "started_at") "started_at" e >>= λ v.
        parse_required_datetime lib future_skew now v (at "started_at")
    ended_at ← parse_end index (value_of "ended_at" e)
    check_end index l started_at ended_at
    raise_if (outside l started_at)
        (Error.invalid (at "started_at") "Event start falls outside the batch loop window.")
    raise_if (end_outside l ended_at)
        (Error.invalid (at "ended_at") "Event end falls outside the batch loop window.")
    reason ← or_raise (as_reason (look_up "failure_reason" e)) (
        Error.invalid (at "failure_reason")
          "Failure reason must be a string of at most 64 characters.")
    check_status index entry.media status duration_ms ended_at reason
    raise_if (exceeds_interval started_at ended_at duration_ms)
        (Error.invalid (at "duration_ms") "Playback duration exceeds the event timestamp interval.")
    ok (record {
      id = id;
      playlist_item = item_id;
      started_at = started_at;
      ended_at = ended_at;
      duration_ms = duration_ms;
      status = status;
      failure_reason = reason;
    })

  -- `validate_event`
  unfoldable pub validate_event : List Entry → Loop → ℕ → Json → Result Evidence
  validate_event entries l index (object e) = validate_fields entries l index e
  validate_event entries l index _ =
      err (Error.invalid (Place.event index) "Each event must be an object.")

  -- The comprehension over the events, from the given index on.
  unfoldable pub validate_events : List Entry → Loop → ℕ → List Json → Result (List Evidence)
  validate_events entries l index [] = ok []
  validate_events entries l index (v ∷ vs) = validate_event entries l index v >>= λ e.
      validate_events entries l (suc index) vs >>= λ es. ok (e ∷ es)

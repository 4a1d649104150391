-- ===== src/Tests/Players.antt =====
-- Playback evidence at concrete inputs: a playlist of one image, and a batch for it.
use digital_signage_project.Base.{
  ℕ, ◌≡◌, refl, ◌↔◌, String, true, false, Option, none, some, [], ◌∷◌, if◌then◌else◌, str_eq, ok,
  OnOk, arith, get, first_by,
}
use digital_signage_project.Models.{
  PlaylistStatus, MediaStatus, DeviceStatus, Device, Evidence, PlaybackStatus, PlaybackBatch,
}
use digital_signage_project.Wire.{boolean, int, text, array, object, nil, item, Fields, end, entry}
use digital_signage_project.Wire.Reading.{Readers, parse_required_uuid, parse_required_datetime}
use digital_signage_project.Tests.Rows.{playlist, asset, device}
use digital_signage_project.Playback.{
  validate_events, validate_event, validate_fields, parse_end, check_end, check_status,
  parse_status,
}
use digital_signage_project.Playback.Submission.{
  Ledger, Normalized, playlist_entries, join_items, parse_loop, check_coverage, normalize_events,
  validate_playback_batch_payload,
}
use digital_signage_project.Playback.Receipt.{
  collides, insert_batch, record_batch, settle_batch, assignment_at, playback_batch_matches,
  playback_batch,
}
use digital_signage_project.Playback.Complete.{
  IsEvidence, validate_playback_batch_payload-IsEvidence,
}
use digital_signage_project.Playback.Matching.{IsRepeated, playback_batch_matches_iff}
use digital_signage_project.Playback.Stored.{IsSound}
use digital_signage_project.Playback.Repeated.{
  Extends, playback_batch-Extends, playback_batch-IsSound, playback_batch_repeated,
}

-- Readers of a few texts.
abbrev pub sample_uuid : String → Option ℕ
sample_uuid s =
    if str_eq s "batch"
    then some 21
    else if str_eq s "menu"
    then some 1
    else if str_eq s "entry"
    then some 11
    else if str_eq s "event"
    then some 31
    else none

abbrev sample_datetime : String → Option ℕ
sample_datetime s =
    if str_eq s "08:00:00"
    then some 100000000
    else if str_eq s "08:00:10"
    then some 110000000
    else none

abbrev pub readers : Readers
readers = record { parse_uuid = sample_uuid; parse_datetime = sample_datetime }

abbrev pub event_body : Fields
event_body = entry "id" (text "event") (
    entry "playlist_item_id" (text "entry") (
      entry "status" (text "completed") (
        entry "duration_ms" (int 10000)
          (entry "started_at" (text "08:00:00") (entry "ended_at" (text "08:00:10") end)))))

abbrev pub batch_body : Fields
batch_body = entry "id" (text "batch") (
    entry "playlist_id" (text "menu") (
      entry "loop_started_at" (text "08:00:00") (
        entry "loop_ended_at" (text "08:00:10") (
          entry "captured_offline" (boolean false)
            (entry "events" (array (item (object event_body) nil)) end)))))

abbrev pub ledger : Ledger
ledger = record {
  playlists = playlist 1 1 PlaylistStatus.published 100000000 900000000 (some 50) false ∷ [];
  items = record { id = 11; playlist = 1; media = 5; position = 1 } ∷ [];
  media = asset 5 MediaStatus.ready ∷ [];
  devices = device 3 DeviceStatus.active ∷ [];
  assignments = [];
  batches = [];
  events = [];
}

abbrev now : ℕ
now = 120000000

abbrev player : Device
player = device 3 DeviceStatus.active

abbrev evidence : Evidence
evidence = record {
  id = 31;
  playlist_item = 11;
  started_at = 100000000;
  ended_at = some 110000000;
  duration_ms = 10000;
  status = PlaybackStatus.completed;
  failure_reason = "";
}

abbrev batch : PlaybackBatch
batch = record {
  id = 21;
  device = 3;
  playlist = 1;
  assignment = none;
  loop_started_at = 100000000;
  loop_ended_at = some 110000000;
  captured_offline = false;
}

abbrev normalized : Normalized
normalized = record {
  id = 21;
  playlist_id = 1;
  loop_started_at = 100000000;
  loop_ended_at = 110000000;
  captured_offline = false;
  events = evidence ∷ [];
}

abbrev with_batch : Ledger
with_batch = record ledger {
  batches = batch ∷ [];
  events = record { batch = 21; evidence = evidence } ∷ [];
  devices = record player { last_playback_at = some now } ∷ [];
}

ledger-IsSound : IsSound ledger
ledger-IsSound = record {
  batches_distinct = λ k. ground arith;
  events_distinct = λ k. ground arith;
  owned = tt;
}

submitted_once :
    playback_batch readers (λ t. t) (λ t. t) now player batch_body ledger
    ≡ ok (with_batch, record { duplicate = false })
unfolding playback_batch settle_batch record_batch insert_batch collides
    validate_playback_batch_payload parse_loop normalize_events validate_events validate_event
    validate_fields parse_end check_end check_status parse_status check_coverage playlist_entries
    join_items parse_required_uuid parse_required_datetime get assignment_at first_by
submitted_once = refl

validate_playback_batch_payload-IsEvidence_example :
    IsEvidence now
      (playlist_entries ledger 1)
      (playlist 1 1 PlaylistStatus.published 100000000 900000000 (some 50) false)
      normalized
unfolding playback_batch settle_batch record_batch insert_batch collides
    validate_playback_batch_payload parse_loop normalize_events validate_events validate_event
    validate_fields parse_end check_end check_status parse_status check_coverage playlist_entries
    join_items parse_required_uuid parse_required_datetime get assignment_at first_by
validate_playback_batch_payload-IsEvidence_example =
    validate_playback_batch_payload-IsEvidence readers now (playlist_entries ledger 1) batch_body
      (playlist 1 1 PlaylistStatus.published 100000000 900000000 (some 50) false) 21 1 normalized
      refl

playback_batch_matches_iff_example :
    (playback_batch_matches with_batch.events batch normalized ≡ true)
    ↔ IsRepeated with_batch.events batch normalized
playback_batch_matches_iff_example = playback_batch_matches_iff with_batch.events batch normalized

playback_batch-Extends_example :
    OnOk
      (λ r. Extends with_batch r.0)
      (playback_batch readers (λ t. t) (λ t. t) now player batch_body with_batch)
playback_batch-Extends_example =
    playback_batch-Extends readers (λ t. t) (λ t. t) now player batch_body with_batch
      (λ t. record { batches = λ k b h. h; events = λ k e h. h })
      (λ t. record { batches = λ k b h. h; events = λ k e h. h })

playback_batch-IsSound_example :
    OnOk (λ r. IsSound r.0) (playback_batch readers (λ t. t) (λ t. t) now player batch_body ledger)
playback_batch-IsSound_example =
    playback_batch-IsSound readers (λ t. t) (λ t. t) now player batch_body ledger (λ t v. v)
      (λ t v. v) ledger-IsSound

playback_batch_repeated_example :
    playback_batch readers (λ t. t) (λ t. t) 130000000 player batch_body with_batch
    ≡ ok (with_batch, record { duplicate = true })
playback_batch_repeated_example =
    playback_batch_repeated readers now 130000000 player player batch_body ledger with_batch
      (λ t. t) (λ t. t) ledger-IsSound (omega arith) refl refl submitted_once

-- ===== src/Playback/Receipt.antt =====
-- The comparison with stored evidence, `playback_batch_matches`, and the handler `playback_batch`
-- (backend/signage/api.py).
use digital_signage_project.Base.{
  ℕ, Bool, true, false, not, ◌&&◌, ◌||◌, Option, none, some, List, [], ◌∷◌, ◌++◌, map, ltb, leb,
  ◌==◌, if◌then◌else◌, str_eq, opt_eq, bool_eq, all, any, filter, first_by, update, get, mem,
  Result, ok, err, Error, Place, ◌>>=◌, ◌>>◌, raise_if, or_raise,
}
use digital_signage_project.Models.{
  Playlist, playlist_id, Device, DeviceAssignment, Evidence, PlaybackEvent, PlaybackBatch, batch_id,
  evidence_id, playback_status_eq,
}
use digital_signage_project.Wire.{Fields}
use digital_signage_project.Wire.Reading.{Readers, parse_required_uuid, required_value}
use digital_signage_project.Playlists.{is_published, is_cancelled}
use digital_signage_project.Credentials.{is_disabled}
use digital_signage_project.Playback.Submission.{
  Ledger, Normalized, playlist_entries, same_keys, validate_playback_batch_payload,
}

-- The comparison of a stored with a submitted event.
unfoldable pub same_evidence : Evidence → Evidence → Bool
same_evidence stored e =
    stored.playlist_item == e.playlist_item
    && stored.started_at == e.started_at
    && opt_eq stored.ended_at e.ended_at
    && stored.duration_ms == e.duration_ms
    && playback_status_eq stored.status e.status
    && str_eq stored.failure_reason e.failure_reason

-- The same of the two dictionaries' values under one key.
abbrev pub same_entry : Option Evidence → Option Evidence → Bool
same_entry (some stored) (some e) = same_evidence stored e
same_entry _ _ = false

-- `existing.events.all()`
unfoldable pub stored_evidence : ℕ → List PlaybackEvent → List Evidence
stored_evidence b [] = []
stored_evidence b (e ∷ es) =
    if e.batch == b then e.evidence ∷ stored_evidence b es else stored_evidence b es

abbrev pub same_header : PlaybackBatch → Normalized → Bool
same_header b n =
    b.playlist == n.playlist_id
    && b.loop_started_at == n.loop_started_at
    && opt_eq b.loop_ended_at (some n.loop_ended_at)
    && bool_eq b.captured_offline n.captured_offline

-- The comparison of the dictionaries from identifiers to events.
unfoldable pub same_events : List Evidence → List Evidence → Bool
same_events stored submitted =
    same_keys (map evidence_id submitted) (map evidence_id stored)
    && all (λ k. same_entry (get evidence_id k stored) (get evidence_id k submitted))
        (map evidence_id submitted)

-- `playback_batch_matches`
unfoldable pub playback_batch_matches : List PlaybackEvent → PlaybackBatch → Normalized → Bool
playback_batch_matches events b n =
    same_header b n && same_events (stored_evidence b.id events) n.events

-- The reply: whether the submission was a duplicate.
pub record Accepted : Type 0 where
  pub duplicate : Bool

-- The assignment at the time `at`.
abbrev pub assigned_during : ℕ → ℕ → DeviceAssignment → Bool
assigned_during device at a =
    a.device == device
    && leb a.assigned_at at
    && (elim a.unassigned_at [ none ↦ true | some t ↦ ltb at t ])

abbrev pub assigned_desc : DeviceAssignment → DeviceAssignment → Bool
assigned_desc a b = ltb b.assigned_at a.assigned_at

unfoldable pub assignment_at : ℕ → ℕ → List DeviceAssignment → Option ℕ
assignment_at device at table =
    elim (first_by assigned_desc (filter (assigned_during device at) table)) [
      | none ↦ none
      | some a ↦ some a.id
    ]

-- The row that `PlaybackBatch.objects.create(...)` adds.
abbrev pub new_batch : ℕ → List DeviceAssignment → Normalized → PlaybackBatch
new_batch device assignments n = record {
  id = n.id;
  device = device;
  playlist = n.playlist_id;
  assignment = assignment_at device n.loop_started_at assignments;
  loop_started_at = n.loop_started_at;
  loop_ended_at = some n.loop_ended_at;
  captured_offline = n.captured_offline;
}

-- `PlaybackEvent(batch=batch, **event)` of each event
abbrev pub new_events : ℕ → List Evidence → List PlaybackEvent
new_events b [] = []
new_events b (e ∷ es) = record { batch = b; evidence = e } ∷ new_events b es

-- A primary key is taken.
unfoldable pub collides : PlaybackBatch → List Evidence → Ledger → Bool
collides b events s =
    any (λ (x : PlaybackBatch). x.id == b.id) s.batches
    || any (λ (x : PlaybackEvent). mem x.evidence.id (map evidence_id events)) s.events

abbrev pub played : ℕ → ℕ → List Device → List Device
played now device =
    update (λ (d : Device). d.id == device) (λ d. record d { last_playback_at = some now })

-- What the transaction writes.
abbrev pub recorded : ℕ → ℕ → List DeviceAssignment → Normalized → Ledger → Ledger
recorded now device assignments n s = record s {
  batches = s.batches ++ new_batch device assignments n ∷ [];
  events = s.events ++ new_events n.id n.events;
  devices = played now device s.devices;
}

-- The transaction; `assignments` are those that were read before it.
unfoldable pub insert_batch : ℕ → ℕ → List DeviceAssignment → Normalized → Ledger → Result Ledger
insert_batch now device assignments n s =
    if collides (new_batch device assignments n) n.events s
    then err Error.integrity_error
    else ok (recorded now device assignments n s)

abbrev pub collision : Error
collision = Error.permission_denied "Playback batch identifier collision."

abbrev pub different_evidence : Error
different_evidence =
    Error.validation_error "Playback batch identifier was already used for different evidence."

abbrev pub evidence_collision : Error
evidence_collision =
    Error.validation_error "Playback evidence identifier collision; the batch was not accepted."

-- What follows an `IntegrityError`.
unfoldable pub load_raced_batch : ℕ → Normalized → Ledger → Result (Ledger × Accepted)
load_raced_batch device n s = elim (get batch_id n.id s.batches) [
  | none ↦ err evidence_collision
  | some b ↦
      if not (b.device == device)
      then err collision
      else if playback_batch_matches s.events b n
      then ok (s, record { duplicate = true })
      else err evidence_collision
]

-- The insertion meets the tables `seen`; after its failure the lookup meets `reloaded`.
unfoldable pub record_batch :
    ℕ → ℕ → List DeviceAssignment → Normalized → Ledger → Ledger → Result (Ledger × Accepted)
record_batch now device assignments n seen reloaded =
    elim (insert_batch now device assignments n seen) [
      | ok s ↦ ok (s, record { duplicate = false })
      | err e ↦ load_raced_batch device n reloaded
    ]

-- The batch is of another device.
abbrev pub is_foreign : ℕ → Option PlaybackBatch → Bool
is_foreign device none = false
is_foreign device (some b) = not (b.device == device)

abbrev pub is_closed : Option PlaybackBatch → Playlist → Bool
is_closed none p = not (is_published p || is_cancelled p)
is_closed (some b) p = false

-- The end of the handler; `existing` is the batch that was found.
unfoldable pub settle_batch :
    ℕ
    → ℕ
    → Ledger
    → Ledger
    → Ledger
    → Normalized
    → Option PlaybackBatch
    → Result (Ledger × Accepted)
settle_batch now device s seen reloaded n none =
    record_batch now device s.assignments n seen reloaded
settle_batch now device s seen reloaded n (some b) =
    if playback_batch_matches s.events b n
    then ok (s, record { duplicate = true })
    else err different_evidence

-- `playback_batch` of the device that has been authenticated; `between` and `after` are what other
-- transactions commit before the insertion and after its failure.
unfoldable pub playback_batch :
    Readers
    → (Ledger → Ledger)
    → (Ledger → Ledger)
    → ℕ
    → Device
    → Fields
    → Ledger
    → Result (Ledger × Accepted)
playback_batch lib between after now device body s = do
  raise_if (is_disabled device) (Error.permission_denied "Disabled devices cannot submit playback.")
  id ← required_value (Place.field "id") "id" body >>= λ v.
      parse_required_uuid lib v (Place.field "id")
  playlist_key ← required_value (Place.field "playlist_id") "playlist_id" body >>= λ v.
      parse_required_uuid lib v (Place.field "playlist_id")
  let existing = get batch_id id s.batches
  raise_if (is_foreign device.id existing) collision
  p ←
      or_raise (get playlist_id playlist_key s.playlists)
        (Error.validation_error "Unknown playlist.")
  raise_if (is_closed existing p) (
      Error.validation_error "Playback evidence is accepted only for a published playlist version.")
  n ← validate_playback_batch_payload lib now (playlist_entries s p.id) body p id playlist_key
  settle_batch now device.id s (between s) (after (between s)) n existing

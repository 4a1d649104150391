-- ===== src/Playback/Submission.antt =====
-- The submission of playback evidence: `validate_playback_batch_payload`, `playback_batch_matches` and
-- the handler `playback_batch` (backend/signage/api.py). A body is an object, as its parser demands.
use digital_signage_project.Base.{
  ℕ, ◌+◌, String, Bool, not, ◌&&◌, Option, none, some, List, [], ◌∷◌, map, ltb, ◌==◌, all, filter,
  get, length, mem, to_set, Result, ok, Error, Place, ◌>>=◌, ◌>>◌, raise_if, or_raise,
}
use digital_signage_project.Models.{
  Playlist, PlaylistItem, MediaAsset, asset_id, playlist_id, Device, DeviceAssignment, Evidence,
  PlaybackEvent, PlaybackBatch, evidence_id,
}
use digital_signage_project.Wire.{Json, array, Fields, elements}
use digital_signage_project.Wire.Reading.{
  Readers, parse_required_datetime, required_value, as_boolean, future_skew,
}
use digital_signage_project.Playback.{Entry, entry_id, Loop, tolerance, validate_events}

-- The tables that the handler reads or writes.
pub record Ledger : Type 0 where
  pub playlists : List Playlist
  pub items : List PlaylistItem
  pub media : List MediaAsset
  pub devices : List Device
  pub assignments : List DeviceAssignment
  pub batches : List PlaybackBatch
  pub events : List PlaybackEvent

-- The items joined with their media.
unfoldable pub join_items : List MediaAsset → List PlaylistItem → List Entry
join_items media [] = []
join_items media (i ∷ rest) = elim (get asset_id i.media media) [
  | none ↦ join_items media rest
  | some a ↦ record { item = i.id; media = a } ∷ join_items media rest
]

-- `playlist_items`
unfoldable pub playlist_entries : Ledger → ℕ → List Entry
playlist_entries s k = join_items s.media (filter (λ (i : PlaylistItem). i.playlist == k) s.items)

-- `len(ks) != len(set(ks))`
abbrev pub has_duplicates : List ℕ → Bool
has_duplicates ks = not (length ks == length (to_set ks))

-- `set(js) == set(ks)`
abbrev pub same_keys : List ℕ → List ℕ → Bool
same_keys js ks = all (λ j. mem j ks) js && all (λ k. mem k js) ks

-- The dictionary that `validate_playback_batch_payload` returns.
pub record Normalized : Type 0 where
  pub id : ℕ
  pub playlist_id : ℕ
  pub loop_started_at : ℕ
  pub loop_ended_at : ℕ
  pub captured_offline : Bool
  pub events : List Evidence

abbrev pub item_of : Evidence → ℕ
item_of e = e.playlist_item

abbrev pub as_array : Json → Option (List Json)
as_array (array js) = some (elements js)
as_array _ = none

abbrev pub events_error : String → Error
events_error = Error.invalid (Place.field "events")

-- The comparisons of the submitted with the playlist's items.
unfoldable pub check_coverage : List Entry → List Evidence → Result (Unit {0})
check_coverage entries events = do
  raise_if (has_duplicates (map evidence_id events))
      (events_error "A batch cannot contain duplicate event identifiers.")
  raise_if (has_duplicates (map item_of events))
      (events_error "A batch cannot contain duplicate playlist entries.")
  raise_if (not (same_keys (map item_of events) (map entry_id entries)))
      (events_error "A batch must contain exactly one result for every playlist entry.")

module _ (lib : Readers) (now : ℕ) where
  abbrev pub time_field : String → Fields → Result ℕ
  time_field k body = required_value (Place.field k) k body >>= λ v.
      parse_required_datetime lib future_skew now v (Place.field k)

  -- `loop_started_at` and `loop_ended_at`
  unfoldable pub parse_loop : Fields → Playlist → Result Loop
  parse_loop body p = do
    started_at ← time_field "loop_started_at" body
    ended_at ← time_field "loop_ended_at" body
    raise_if (ltb ended_at started_at)
        (Error.invalid (Place.field "loop_ended_at") "Loop end cannot precede loop start.")
    raise_if (ltb (started_at + tolerance) p.starts_at) (
        Error.invalid (Place.field "loop_started_at")
          "Playback cannot precede the playlist start time.")
    ok (record { started_at = started_at; ended_at = ended_at })

  -- `normalized_events`
  unfoldable pub normalize_events : List Entry → Loop → List Json → Result (List Evidence)
  normalize_events entries l raw = do
    raise_if (length entries == 0) (events_error "Playback evidence requires a non-empty playlist.")
    raise_if (not (length raw == length entries))
        (events_error "A batch must contain exactly one result for every playlist entry.")
    events ← validate_events lib now entries l 0 raw
    check_coverage entries events
    ok events

  -- `validate_playback_batch_payload`
  unfoldable pub validate_playback_batch_payload :
      List Entry → Fields → Playlist → ℕ → ℕ → Result Normalized
  validate_playback_batch_payload entries body p id playlist_id = do
    l ← parse_loop body p
    offline ← required_value (Place.field "captured_offline") "captured_offline" body
    captured_offline ←
        or_raise (as_boolean offline)
          (Error.invalid (Place.field "captured_offline") "Use a JSON boolean.")
    listed ← required_value (Place.field "events") "events" body
    raw ← or_raise (as_array listed) (events_error "Events must be a JSON array.")
    events ← normalize_events entries l raw
    ok (record {
      id = id;
      playlist_id = playlist_id;
      loop_started_at = l.started_at;
      loop_ended_at = l.ended_at;
      captured_offline = captured_offline;
      events = events;
    })

-- ===== src/Retention.antt =====
-- The deletion of expired rows: management/commands/apply_retention.py (under backend/signage). Every
-- loop runs on fuel; the number of rows is enough.
pub mod Loops
pub mod Evidence
pub mod Purged
use digital_signage_project.Base.{
  ℕ, zero, suc, ◌+◌, Bool, true, false, not, ◌&&◌, List, [], ◌∷◌, map, ltb, leb, ◌==◌,
  if◌then◌else◌, filter, any, take, length, mem,
}
use digital_signage_project.Models.{
  PlaybackEvent, PlaybackBatch, PlaybackStatus, playback_status_eq, batch_id, event_id,
}

-- DELETE_BATCH_SIZE
abbrev pub delete_batch_size : ℕ
delete_batch_size = 5000

module _ {A : Type 0} where
  -- `order_by(key)`
  unfoldable pub insert_by : (A → ℕ) → A → List A → List A
  insert_by key x [] = x ∷ []
  insert_by key x (y ∷ ys) = if leb (key x) (key y) then x ∷ y ∷ ys else y ∷ insert_by key x ys

  unfoldable pub order_by : (A → ℕ) → List A → List A
  order_by key [] = []
  order_by key (x ∷ xs) = insert_by key x (order_by key xs)

  -- The primary keys of the first rows of a query in an order.
  unfoldable pub first_keys : ℕ → (A → ℕ) → (A → ℕ) → (A → Bool) → List A → List ℕ
  first_keys size key order expired rows =
      map key (take size (order_by order (filter expired rows)))

  -- `queryset.filter(pk__in=ids).delete()`
  abbrev pub delete_rows : (A → ℕ) → (A → Bool) → List ℕ → List A → List A
  delete_rows key expired ids rows = filter (λ x. not (expired x && mem (key x) ids)) rows

-- `while True`: the candidates are read, and removed unless there are none.
unfoldable pub drain : {S : Type 0} → ℕ → (S → List ℕ) → (List ℕ → S → S) → S → S
drain zero candidates remove s = s
drain (suc n) candidates remove s = elim (candidates s) [
  | [] ↦ s
  | k ∷ ks ↦ drain n candidates remove (remove (k ∷ ks) s)
]

-- The rows that are left and the number of those that were deleted.
pub record Remaining (A : Type 0) : Type 0 where
  pub rows : List A
  pub deleted : ℕ

-- `count += deleted`
abbrev pub remove_rows : {A : Type 0} → (A → ℕ) → (A → Bool) → List ℕ → Remaining A → Remaining A
remove_rows key expired ids s = record {
  rows = delete_rows key expired ids s.rows;
  deleted = s.deleted + length (filter (λ x. expired x && mem (key x) ids) s.rows);
}

-- `_delete_in_batches` of the rows that `expired` selects
unfoldable pub delete_in_batches :
    {A : Type 0} → ℕ → ℕ → (A → ℕ) → (A → Bool) → List A → Remaining A
delete_in_batches fuel size key expired rows =
    drain fuel (λ s. first_keys size key key expired s.rows) (remove_rows key expired)
      (record { rows = rows; deleted = 0 })

-- `PlaybackCorrection`
pub record PlaybackCorrection : Type 0 where
  pub id : ℕ
  pub event : ℕ

pub record Archive : Type 0 where
  pub corrections : List PlaybackCorrection
  pub events : List PlaybackEvent
  pub batches : List PlaybackBatch

abbrev pub event_started : PlaybackEvent → ℕ
event_started e = e.evidence.started_at

-- `filter(status=status, started_at__lt=cutoff)`
abbrev pub is_expired_event : ℕ → PlaybackStatus → PlaybackEvent → Bool
is_expired_event cutoff status e =
    playback_status_eq e.evidence.status status && ltb (event_started e) cutoff

-- The transaction that deletes events with their corrections.
abbrev pub delete_events : List ℕ → Archive → Archive
delete_events ids s = record s {
  corrections = filter (λ (c : PlaybackCorrection). not (mem c.event ids)) s.corrections;
  events = filter (λ e. not (mem (event_id e) ids)) s.events;
}

-- The loop for one status.
unfoldable pub delete_status : ℕ → ℕ → ℕ → PlaybackStatus → Archive → Archive
delete_status fuel size cutoff status s =
    drain fuel
      (λ (t : Archive).
        first_keys size event_id event_started (is_expired_event cutoff status) t.events)
      delete_events s

-- A batch of before the cutoff that has no events.
abbrev pub is_expired_batch : ℕ → List PlaybackEvent → PlaybackBatch → Bool
is_expired_batch cutoff events b =
    ltb b.loop_started_at cutoff && not (any (λ (e : PlaybackEvent). e.batch == b.id) events)

abbrev pub batch_started : PlaybackBatch → ℕ
batch_started b = b.loop_started_at

-- The transaction that deletes batches.
abbrev pub delete_batches : ℕ → List ℕ → Archive → Archive
delete_batches cutoff ids s = record s {
  batches = delete_rows batch_id (is_expired_batch cutoff s.events) ids s.batches;
}

-- The last loop.
unfoldable pub delete_empty_batches : ℕ → ℕ → ℕ → Archive → Archive
delete_empty_batches fuel size cutoff s =
    drain fuel
      (λ (t : Archive).
        first_keys size batch_id batch_started (is_expired_batch cutoff t.events) t.batches)
      (delete_batches cutoff) s

-- `_delete_expired_playback_evidence`, without its counts
unfoldable pub delete_expired_playback_evidence : ℕ → ℕ → ℕ → Archive → Archive
delete_expired_playback_evidence fuel size cutoff s = delete_empty_batches fuel size cutoff (
    delete_status fuel size cutoff PlaybackStatus.failed (
      delete_status fuel size cutoff PlaybackStatus.interrupted
        (delete_status fuel size cutoff PlaybackStatus.completed s)))

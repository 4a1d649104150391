-- ===== src/Tests/Processing.antt =====
-- Tests of the processing and the deletion of media (backend/signage/services.py).
use digital_signage_project.Base.{
  eq_iff, ◌≡◌, ◌⊎◌, refl, String, true, false, none, some, List, [], ◌∷◌, get, Result, ok, err,
  Error, str_eq, filter, not,
}
use digital_signage_project.Models.{MediaAsset, MediaStatus, MediaDeletion}
use digital_signage_project.Media.{release, finalized, finalize}
use digital_signage_project.Media.Fencing.{Row, Step, Steps, finalize_fenced, finalize_once}
use digital_signage_project.Media.Deletion.{
  Files, open_deletion, delete_named, process_media_deletion,
}
use digital_signage_project.Media.Deletion.Outbox.{
  IsCompleted, after_outage, process_media_deletion_recovers,
}
use digital_signage_project.Tests.Rows.{asset}

-- An attempt with the token 42, and the row after its lease has expired.
abbrev attempt : MediaAsset
attempt = record (asset 5 MediaStatus.processing) {
  processing_attempts = 1;
  processing_token = some 42;
  processing_lease_expires_at = some 100;
}

abbrev begun : Row
begun = record { asset = attempt; drawn = 42 ∷ [] }

abbrev released : Row
released = record {
  asset = record attempt {
    status = MediaStatus.quarantined;
    processing_token = none;
    processing_lease_expires_at = none;
  };
  drawn = 42 ∷ [];
}

abbrev result : MediaAsset
result = record attempt { status = MediaStatus.ready }

finalize_fenced_example :
    ((released.asset.processing_token ≡ some 42) × (released.asset.processing_attempts ≡ 1))
    ⊎ (finalize 300 result 42 "staged.png" (released.asset ∷ [])
        ≡ ok (false, released.asset ∷ [], []))
unfolding release get
finalize_fenced_example =
    finalize_fenced 60 42 1 300 begun released result "staged.png" (released.asset ∷ [])
      (record { current = refl; attempt = refl; known = refl })
      (Steps.next Steps.here (Step.recover 200 refl refl)) refl

abbrev finished : MediaAsset
finished = record result {
  normalized_file = "staged.png";
  processing_token = none;
  processing_lease_expires_at = none;
  processing_finished_at = some 300;
}

finalize_once_example :
    finalize 400 result 42 "again.png" (finished ∷ []) ≡ ok (false, finished ∷ [], [])
unfolding finalized get
finalize_once_example =
    finalize_once 60 42 300 400 attempt (42 ∷ []) (record { asset = finished; drawn = 42 ∷ [] })
      result result "staged.png" "again.png" (finished ∷ []) refl Steps.here refl

abbrev entry : MediaDeletion
entry = record {
  id = 8;
  asset = 5;
  source_name = "source.png";
  normalized_name = "normalized.png";
  attempts = 0;
  last_attempt_at = none;
  last_error = "";
  completed_at = none;
}

abbrev files : Files (List String)
files = record {
  assets = asset 5 MediaStatus.archived ∷ [];
  deletions = entry ∷ [];
  store = "source.png" ∷ "normalized.png" ∷ "other.png" ∷ [];
}

abbrev erase : String → List String → Result (List String)
erase name store = ok (filter (λ x. not (str_eq x name)) store)

-- A storage that refuses every deletion.
abbrev refuse : String → List String → Result (List String)
refuse name store = err Error.database_error

abbrev text : Error → String
text e = "failed"

process_media_deletion_recovers_example :
    IsCompleted 8 700 3 entry (asset 5 MediaStatus.archived) ("other.png" ∷ []) (
      process_media_deletion erase text
        (λ x. x)
        600
        700
        8
        (after_outage erase text Error.database_error 8 (100 ∷ 300 ∷ []) files))
unfolding open_deletion get delete_named
process_media_deletion_recovers_example =
    process_media_deletion_recovers erase text Error.database_error (100 ∷ 300 ∷ []) 600 700 8 files
      entry (asset 5 MediaStatus.archived) ("other.png" ∷ []) refl refl
      (λ e. let z : false ≡ true = (eq_iff entry.source_name "").1 e in cc)
      (record { between = "normalized.png" ∷ "other.png" ∷ []; source = refl; normalized = refl })

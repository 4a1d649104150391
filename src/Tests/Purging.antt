-- ===== src/Tests/Purging.antt =====
-- Tests of apply_retention.py (backend/signage/management/commands).
use digital_signage_project.Base.{ℕ, refl, false, none, [], ◌∷◌, arith, get}
use digital_signage_project.Models.{PlaybackEvent, PlaybackBatch, PlaybackStatus}
use digital_signage_project.Retention.{Archive, delete_expired_playback_evidence}
use digital_signage_project.Retention.Evidence.{IsLinked}
use digital_signage_project.Retention.Purged.{IsPurged, delete_expired_playback_evidence-IsPurged}

abbrev event : ℕ → ℕ → ℕ → PlaybackEvent
event k b at = record {
  batch = b;
  evidence = record {
    id = k;
    playlist_item = 11;
    started_at = at;
    ended_at = none;
    duration_ms = 0;
    status = PlaybackStatus.interrupted;
    failure_reason = "app_update";
  };
}

abbrev batch : ℕ → ℕ → PlaybackBatch
batch k at = record {
  id = k;
  device = 3;
  playlist = 1;
  assignment = none;
  loop_started_at = at;
  loop_ended_at = none;
  captured_offline = false;
}

-- One batch of before the time 100 and one of after it.
abbrev archive : Archive
archive = record {
  corrections = record { id = 41; event = 31 } ∷ [];
  events = event 31 21 50 ∷ event 32 22 150 ∷ [];
  batches = batch 21 50 ∷ batch 22 150 ∷ [];
}

archive-IsLinked : IsLinked archive
unfolding get
archive-IsLinked = record { corrections = (refl, tt); events = (refl, (refl, tt)) }

delete_expired_playback_evidence-IsPurged_example :
    IsPurged 10 1 100 archive (delete_expired_playback_evidence 10 2 100 archive)
delete_expired_playback_evidence-IsPurged_example =
    delete_expired_playback_evidence-IsPurged 10 1 100 archive archive-IsLinked (λ k. ground arith)
      (omega arith) (omega arith)

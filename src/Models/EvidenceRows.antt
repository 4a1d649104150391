-- ===== src/Models/EvidenceRows.antt =====
-- `PlaybackBatch`, `PlaybackEvent` and `DeviceOperationalEvent` (backend/signage/models.py). `Evidence` are the columns of an
-- event besides its batch.
use digital_signage_project.Base.{ℕ, String, Bool, true, false, Option}
use digital_signage_project.Wire.{Fields}

pub data PlaybackStatus : Type 0 where
  completed interrupted failed : PlaybackStatus

abbrev pub playback_status_eq : PlaybackStatus → PlaybackStatus → Bool
playback_status_eq PlaybackStatus.completed PlaybackStatus.completed = true
playback_status_eq PlaybackStatus.interrupted PlaybackStatus.interrupted = true
playback_status_eq PlaybackStatus.failed PlaybackStatus.failed = true
playback_status_eq _ _ = false

pub record Evidence : Type 0 where
  pub id : ℕ
  pub playlist_item : ℕ
  pub started_at : ℕ
  pub ended_at : Option ℕ
  pub duration_ms : ℕ
  pub status : PlaybackStatus
  pub failure_reason : String

pub record PlaybackEvent : Type 0 where
  pub batch : ℕ
  pub evidence : Evidence

pub record PlaybackBatch : Type 0 where
  pub id : ℕ
  pub device : ℕ
  pub playlist : ℕ
  pub assignment : Option ℕ
  pub loop_started_at : ℕ
  pub loop_ended_at : Option ℕ
  pub captured_offline : Bool

abbrev pub batch_id : PlaybackBatch → ℕ
batch_id b = b.id

abbrev pub evidence_id : Evidence → ℕ
evidence_id e = e.id

abbrev pub event_id : PlaybackEvent → ℕ
event_id e = e.evidence.id

pub data OperationalKind : Type 0 where
  forced_queue_loss replacement_failed planned_shutdown abnormal_app_exit location_queue_loss
        location_point_rejected :
      OperationalKind

pub record OperationalEvent : Type 0 where
  pub id : ℕ
  pub device : ℕ
  pub kind : OperationalKind
  pub recorded_at : ℕ
  pub received_at : ℕ
  pub details : Fields

abbrev pub operational_id : OperationalEvent → ℕ
operational_id e = e.id

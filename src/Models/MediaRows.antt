-- ===== src/Models/MediaRows.antt =====
-- `MediaAsset` and `MediaDeletion` (backend/signage/models.py). An empty file name is the empty text.
use digital_signage_project.Base.{ℕ, String, Bool, true, false, Option}

pub data MediaKind : Type 0 where
  image video : MediaKind

abbrev pub is_image : MediaKind → Bool
is_image MediaKind.image = true
is_image MediaKind.video = false

pub data MediaStatus : Type 0 where
  quarantined processing ready rejected archived : MediaStatus

abbrev pub media_status_eq : MediaStatus → MediaStatus → Bool
media_status_eq MediaStatus.quarantined MediaStatus.quarantined = true
media_status_eq MediaStatus.processing MediaStatus.processing = true
media_status_eq MediaStatus.ready MediaStatus.ready = true
media_status_eq MediaStatus.rejected MediaStatus.rejected = true
media_status_eq MediaStatus.archived MediaStatus.archived = true
media_status_eq _ _ = false

pub record MediaAsset : Type 0 where
  pub id : ℕ
  pub created_at : ℕ
  pub kind : MediaKind
  pub status : MediaStatus
  pub source_file : String
  pub normalized_file : String
  pub sha256 : String
  pub mime_type : String
  pub file_size : ℕ
  pub duration_ms : ℕ
  pub width : Option ℕ
  pub height : Option ℕ
  pub rejection_reason : String
  pub archived_at : Option ℕ
  pub dispatch_attempts : ℕ
  pub last_dispatch_attempt_at : Option ℕ
  pub dispatched_at : Option ℕ
  pub processing_attempts : ℕ
  pub processing_token : Option ℕ
  pub processing_started_at : Option ℕ
  pub processing_lease_expires_at : Option ℕ
  pub processing_finished_at : Option ℕ

pub record MediaDeletion : Type 0 where
  pub id : ℕ
  pub asset : ℕ
  pub source_name : String
  pub normalized_name : String
  pub attempts : ℕ
  pub last_attempt_at : Option ℕ
  pub last_error : String
  pub completed_at : Option ℕ

abbrev pub asset_id : MediaAsset → ℕ
asset_id a = a.id

abbrev pub deletion_id : MediaDeletion → ℕ
deletion_id d = d.id

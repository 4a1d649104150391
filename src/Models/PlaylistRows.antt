-- ===== src/Models/PlaylistRows.antt =====
-- `Playlist`, `PlaylistItem` and `PlatformSettings` (backend/signage/models.py).
use digital_signage_project.Base.{ℕ, String, Bool, true, false, Option}

pub data PlaylistStatus : Type 0 where
  draft published cancelled archived : PlaylistStatus

abbrev pub playlist_status_eq : PlaylistStatus → PlaylistStatus → Bool
playlist_status_eq PlaylistStatus.draft PlaylistStatus.draft = true
playlist_status_eq PlaylistStatus.published PlaylistStatus.published = true
playlist_status_eq PlaylistStatus.cancelled PlaylistStatus.cancelled = true
playlist_status_eq PlaylistStatus.archived PlaylistStatus.archived = true
playlist_status_eq _ _ = false

pub record Playlist : Type 0 where
  pub id : ℕ
  pub name : String
  pub version : ℕ
  pub status : PlaylistStatus
  pub starts_at : ℕ
  pub ends_at : ℕ
  pub published_at : Option ℕ
  pub is_urgent : Bool
  pub created_by : ℕ
  pub superseded_by : Option ℕ

pub record PlaylistItem : Type 0 where
  pub id : ℕ
  pub playlist : ℕ
  pub media : ℕ
  pub position : ℕ

pub record PlatformSettings : Type 0 where
  pub singleton_id : ℕ
  pub playlist_max_entries : ℕ
  pub playlist_max_duration_seconds : ℕ

abbrev pub playlist_id : Playlist → ℕ
playlist_id p = p.id

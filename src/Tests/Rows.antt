-- ===== src/Tests/Rows.antt =====
-- Sample rows of the tables of backend/signage/models.py.
use digital_signage_project.Base.{ℕ, Bool, Option, none, some, Result, ok, err}
use digital_signage_project.Models.{
  Playlist, PlaylistStatus, MediaAsset, MediaKind, MediaStatus, Device, DeviceStatus,
}

-- The result of a call that returns, else `d`.
abbrev pub returned {ℓ} : {A : Type ℓ} → Result A → A → A
returned (ok a) d = a
returned (err e) d = d

-- A playlist with the window from `starts` to `ends`.
abbrev pub playlist : ℕ → ℕ → PlaylistStatus → ℕ → ℕ → Option ℕ → Bool → Playlist
playlist k v status starts ends published urgent = record {
  id = k;
  name = "Menu";
  version = v;
  status = status;
  starts_at = starts;
  ends_at = ends;
  published_at = published;
  is_urgent = urgent;
  created_by = 7;
  superseded_by = none;
}

abbrev pub asset : ℕ → MediaStatus → MediaAsset
asset k status = record {
  id = k;
  created_at = 5;
  kind = MediaKind.image;
  status = status;
  source_file = "source.png";
  normalized_file = "normalized.png";
  sha256 = "";
  mime_type = "image/png";
  file_size = 1000;
  duration_ms = 10000;
  width = some 1920;
  height = some 1080;
  rejection_reason = "";
  archived_at = none;
  dispatch_attempts = 1;
  last_dispatch_attempt_at = some 10;
  dispatched_at = some 10;
  processing_attempts = 0;
  processing_token = none;
  processing_started_at = none;
  processing_lease_expires_at = none;
  processing_finished_at = none;
}

abbrev pub device : ℕ → DeviceStatus → Device
device k status = record {
  id = k;
  created_at = 1;
  hardware_qualification = none;
  status = status;
  android_id_hash = none;
  hardware_model = "";
  hardware_firmware_version = "";
  hardware_security_patch = "";
  app_version = "";
  android_version = "";
  last_seen_at = none;
  last_heartbeat_recorded_at = none;
  last_location_reported_at = none;
  location_state = "unknown";
  location_state_updated_at = none;
  location_planned_gap_until = none;
  last_sync_at = none;
  last_playback_at = none;
  current_playlist = none;
  disabled_at = none;
  kiosk_pin_hash = "hash";
  kiosk_pin_reset_at = none;
}

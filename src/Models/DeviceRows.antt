-- ===== src/Models/DeviceRows.antt =====
-- `Device` and the tables of its assignments, credentials and commands (backend/signage/models.py).
use digital_signage_project.Base.{ℕ, String, Bool, true, false, Option}

pub data DeviceStatus : Type 0 where
  pending active disabled : DeviceStatus

abbrev pub device_status_eq : DeviceStatus → DeviceStatus → Bool
device_status_eq DeviceStatus.pending DeviceStatus.pending = true
device_status_eq DeviceStatus.active DeviceStatus.active = true
device_status_eq DeviceStatus.disabled DeviceStatus.disabled = true
device_status_eq _ _ = false

pub record Device : Type 0 where
  pub id : ℕ
  pub created_at : ℕ
  pub hardware_qualification : Option ℕ
  pub status : DeviceStatus
  pub android_id_hash : Option ℕ
  pub hardware_model : String
  pub hardware_firmware_version : String
  pub hardware_security_patch : String
  pub app_version : String
  pub android_version : String
  pub last_seen_at : Option ℕ
  pub last_heartbeat_recorded_at : Option ℕ
  pub last_location_reported_at : Option ℕ
  pub location_state : String
  pub location_state_updated_at : Option ℕ
  pub location_planned_gap_until : Option ℕ
  pub last_sync_at : Option ℕ
  pub last_playback_at : Option ℕ
  pub current_playlist : Option ℕ
  pub disabled_at : Option ℕ
  pub kiosk_pin_hash : String
  pub kiosk_pin_reset_at : Option ℕ

pub record DeviceAssignment : Type 0 where
  pub id : ℕ
  pub device : ℕ
  pub assigned_at : ℕ
  pub unassigned_at : Option ℕ

pub record EnrollmentCode : Type 0 where
  pub id : ℕ
  pub device : ℕ
  pub code_hash : ℕ
  pub expires_at : ℕ
  pub used_at : Option ℕ
  pub created_by : ℕ

pub record DeviceCredential : Type 0 where
  pub id : ℕ
  pub device : ℕ
  pub refresh_hash : ℕ
  pub created_at : ℕ
  pub revoked_at : Option ℕ

pub record DeviceManagementCredential : Type 0 where
  pub device : ℕ
  pub token_hash : ℕ

pub record DeviceAccessToken : Type 0 where
  pub credential : ℕ
  pub token_hash : ℕ
  pub expires_at : ℕ

pub data CommandKind : Type 0 where
  admin_mode sync_now : CommandKind

abbrev pub is_sync : CommandKind → Bool
is_sync CommandKind.admin_mode = false
is_sync CommandKind.sync_now = true

pub record DeviceCommand : Type 0 where
  pub id : ℕ
  pub created_at : ℕ
  pub device : ℕ
  pub kind : CommandKind
  pub requested_by : ℕ
  pub expires_at : ℕ
  pub delivered_at : Option ℕ
  pub acknowledged_at : Option ℕ

abbrev pub device_id : Device → ℕ
device_id d = d.id

abbrev pub command_id : DeviceCommand → ℕ
command_id c = c.id

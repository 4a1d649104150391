-- ===== src/Models/EnrollmentRows.antt =====
-- `EnrollmentChallenge` and `HardwareQualification` (backend/signage/models.py). A diagonal is in
-- hundredths of an inch.
use digital_signage_project.Base.{ℕ, String, Bool, Option}

pub record EnrollmentChallenge : Type 0 where
  pub id : ℕ
  pub enrollment : ℕ
  pub request_hash : ℕ
  pub android_id_hash : ℕ
  pub android_version : String
  pub app_version : String
  pub hardware_model : String
  pub firmware_version : String
  pub security_patch_level : String
  pub expires_at : ℕ
  pub used_at : Option ℕ

pub record HardwareQualification : Type 0 where
  pub id : ℕ
  pub model_name : String
  pub firmware_version : String
  pub security_patch_level : String
  pub measured_display_diagonal_inches : Option ℕ
  pub thermal_passed : Bool
  pub approved_for_pilot : Bool

-- ===== src/Tests/Fleets.antt =====
-- Tests of the credentials of devices (backend/signage/services.py and backend/signage/api.py).
use digital_signage_project.Base.{
  ℕ, ◌≡◌, ◌+◌, ◌==◌, refl, true, false, none, some, [], ◌∷◌, get, put, any, Result, ok, err, Error,
  str_eq,
}
use digital_signage_project.Models.{
  Device, DeviceStatus, EnrollmentCode, EnrollmentChallenge, DeviceAccessToken,
  DeviceManagementCredential,
}
use digital_signage_project.Credentials.{
  Fleet, revoke_device_credentials, disable_device, is_usable, issue_code, draw_code,
}
use digital_signage_project.Credentials.Requests.{
  Environment, Secrets, enroll_by_challenge, load_challenge, load_locked, challenge_usable,
  issue_device_credentials, check_enrollment, require_current_app_version, enrolled,
  issue_credential, issue_access_token, issue_management_token, device_matches_qualification,
}
use digital_signage_project.Credentials.Lockout.{
  IsLockedOut, IsDisabled, revoke_device_credentials-IsLockedOut, disable_device-IsLockedOut,
}
use digital_signage_project.Credentials.Single.{
  IsEnrolled, enroll_by_challenge-IsEnrolled, enroll_by_challenge_once,
}
use digital_signage_project.Credentials.Codes.{IsOnlyCode, issue_code-IsOnlyCode}
use digital_signage_project.Tests.Rows.{device, returned}

abbrev code : EnrollmentCode
code = record {
  id = 1;
  device = 3;
  code_hash = 77;
  expires_at = 1000;
  used_at = none;
  created_by = 7;
}

abbrev challenge : EnrollmentChallenge
challenge = record {
  id = 1;
  enrollment = 1;
  request_hash = 55;
  android_id_hash = 66;
  android_version = "13";
  app_version = "1";
  hardware_model = "";
  firmware_version = "";
  security_patch_level = "";
  expires_at = 1000;
  used_at = none;
}

-- An enrolled device with an open code and a challenge for it.
abbrev fleet : Fleet
fleet = record {
  devices = device 3 DeviceStatus.active ∷ [];
  qualifications = [];
  assignments = record { id = 1; device = 3; assigned_at = 1; unassigned_at = none } ∷ [];
  codes = code ∷ [];
  next_code = 2;
  challenges = challenge ∷ [];
  credentials =
      record { id = 1; device = 3; refresh_hash = 11; created_at = 1; revoked_at = none } ∷ [];
  next_credential = 2;
  tokens = record { credential = 1; token_hash = 12; expires_at = 900 } ∷ [];
  management = record { device = 3; token_hash = 13 } ∷ [];
  log = [];
}

revoke_device_credentials-IsLockedOut_example :
    (r : Fleet × ℕ) × (revoke_device_credentials 100 7 3 fleet ≡ ok r)
    × IsLockedOut 3 100 r.0
    × (any (λ (m : DeviceManagementCredential). m.device == 3) (r.0).management ≡ false)
unfolding get
revoke_device_credentials-IsLockedOut_example =
    revoke_device_credentials-IsLockedOut 100 7 3 fleet (device 3 DeviceStatus.active) refl

disable_device-IsLockedOut_example :
    (r : Fleet × Device) × (disable_device 100 7 3 fleet ≡ ok r)
    × IsDisabled 3 100 (device 3 DeviceStatus.active) r
unfolding get
disable_device-IsLockedOut_example =
    disable_device-IsLockedOut 100 7 3 fleet (device 3 DeviceStatus.active) refl

abbrev local : Environment
local = record { production = false; required_app_version = "1"; access_token_ttl = 60 }

abbrev raw : Secrets
raw = record { refresh_token = 21; access_token = 22; management_token = 23 }

-- The integrity service accepts every token.
abbrev accepted : ℕ → Result (Unit {0})
accepted hash = ok tt

abbrev no_access : DeviceAccessToken
no_access = record { credential = 0; token_hash = 0; expires_at = 0 }

abbrev enrollment : Result (Fleet × Device × DeviceAccessToken)
enrollment =
    enroll_by_challenge (λ s. str_eq s "") (λ n. n + 100) local accepted (λ f. f) 190 200 raw 1
      fleet

abbrev after : Fleet × Device × DeviceAccessToken
after = returned enrollment (fleet, device 3 DeviceStatus.pending, no_access)

enroll_by_challenge-IsEnrolled_example :
    (seen : EnrollmentChallenge × EnrollmentCode × Device) × (h : EnrollmentChallenge)
    × (c : EnrollmentCode) × (d : Device) × (load_challenge 1 fleet ≡ ok seen)
    × (challenge_usable 190 fleet seen ≡ true)
    × (accepted (seen.0).request_hash ≡ ok tt)
    × (load_locked seen fleet ≡ ok (h, c, d))
    × (challenge_usable 200 fleet (h, c, d) ≡ true)
    × IsEnrolled 200 d c fleet.credentials after
unfolding enroll_by_challenge load_locked load_challenge issue_device_credentials check_enrollment
    require_current_app_version enrolled issue_credential issue_access_token issue_management_token
    device_matches_qualification is_usable get put
enroll_by_challenge-IsEnrolled_example =
    enroll_by_challenge-IsEnrolled (λ s. str_eq s "") (λ n. n + 100) local accepted (λ f. f) 190 200
      raw 1 fleet after refl

enroll_by_challenge_once_example :
    enroll_by_challenge
      (λ s. str_eq s "")
      (λ n. n + 100)
      local
      accepted
      (λ f. f)
      300
      310
      raw
      1
      after.0
    ≡ err (Error.authentication_failed "Invalid or expired enrollment challenge.")
unfolding enroll_by_challenge load_locked load_challenge issue_device_credentials check_enrollment
    require_current_app_version enrolled issue_credential issue_access_token issue_management_token
    device_matches_qualification is_usable get put
enroll_by_challenge_once_example =
    enroll_by_challenge_once (λ s. str_eq s "") (λ n. n + 100) local accepted accepted (λ f. f)
      (λ f. f) 190 200 300 310 raw raw 1 1 fleet after.0 after
      (challenge, code, device 3 DeviceStatus.active)
      (challenge, code, device 3 DeviceStatus.active)
      (record challenge { used_at = some 200 }, record code { used_at = some 200 }, after.1) refl
      refl refl refl refl refl

abbrev issue : Result (Fleet × EnrollmentCode × ℕ)
issue = issue_code (λ n. n + 100) 600 150 (λ n. 500 + n) 3 7 fleet

abbrev issued : Fleet × EnrollmentCode × ℕ
issued = returned issue (fleet, code, 0)

issue_code-IsOnlyCode_example : IsOnlyCode (λ n. n + 100) 3 150 600000150 issued
unfolding issue_code draw_code get
issue_code-IsOnlyCode_example =
    issue_code-IsOnlyCode (λ n. n + 100) 600 150 (λ n. 500 + n) 3 7 fleet issued refl

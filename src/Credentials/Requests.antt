-- ===== src/Credentials/Requests.antt =====
-- The requests of devices: backend/signage/authentication.py, `_issue_device_credentials`, `enroll`
-- and `token_refresh` (backend/signage/api.py). A dangling foreign key reads as a missing row.
use digital_signage_project.Base.{
  ℕ, ◌+◌, ◌*◌, String, Bool, false, not, ◌&&◌, ◌||◌, Option, none, some, [], ◌∷◌, ◌++◌, ltb, leb,
  ◌==◌, if◌then◌else◌, str_eq, opt_eq, is_none, is_some, any, find?, update, get, put, Result, ok,
  err, Error, ◌>>=◌, ◌>>◌, raise_if, or_raise,
}
use digital_signage_project.Models.{
  Device, DeviceStatus, device_id, EnrollmentCode, EnrollmentChallenge, DeviceCredential,
  DeviceManagementCredential, DeviceAccessToken, HardwareQualification,
}
use digital_signage_project.Credentials.{
  Fleet, credential_id, code_id, challenge_id, is_disabled, is_assigned, is_usable, is_live_for,
  revoked, second,
}

pub record Environment : Type 0 where
  pub production : Bool
  pub required_app_version : String
  pub access_token_ttl : ℕ

-- What `enrollment_device_details` reads of a request, with the hash of the Android ID.
pub record Details : Type 0 where
  pub android_id_hash : ℕ
  pub android_version : String
  pub app_version : String
  pub hardware_model : String
  pub firmware_version : String
  pub security_patch_level : String

-- The raw secrets that `secrets.token_urlsafe` gives.
pub record Secrets : Type 0 where
  pub refresh_token : ℕ
  pub access_token : ℕ
  pub management_token : ℕ

abbrev pub invalid_device_token : Error
invalid_device_token = Error.authentication_failed "Invalid or expired device token."

abbrev pub invalid_code : Error
invalid_code = Error.authentication_failed "Invalid or expired enrollment code."

abbrev pub invalid_challenge : Error
invalid_challenge = Error.authentication_failed "Invalid or expired enrollment challenge."

abbrev pub invalid_credential : Error
invalid_credential = Error.authentication_failed "Invalid device credential."

abbrev pub other_hardware : Error
other_hardware =
    Error.permission_denied "This device does not match its enrollment-eligible hardware record."

-- `HardwareQualification.is_enrollment_eligible`; `is_blank` says that `strip` leaves nothing.
unfoldable pub is_enrollment_eligible : (String → Bool) → HardwareQualification → Bool
is_enrollment_eligible is_blank q =
    not (is_blank q.model_name)
    && not (is_blank q.firmware_version)
    && not (is_blank q.security_patch_level)
    && (elim q.measured_display_diagonal_inches [ none ↦ false | some x ↦ leb 900 x && leb x 1200 ])

abbrev qualification_id : HardwareQualification → ℕ
qualification_id q = q.id

unfoldable pub device_matches_qualification : (String → Bool) → Details → Device → Fleet → Bool
device_matches_qualification is_blank x d f = elim d.hardware_qualification [
  | none ↦ false
  | some k ↦ elim (get qualification_id k f.qualifications) [
    | none ↦ false
    | some q ↦
        is_enrollment_eligible is_blank q
        && str_eq q.model_name x.hardware_model
        && str_eq q.firmware_version x.firmware_version
        && str_eq q.security_patch_level x.security_patch_level
  ]
]

-- `DeviceCredential.issue`, for the hash of the new secret
unfoldable pub issue_credential : ℕ → ℕ → ℕ → Fleet → Result (Fleet × DeviceCredential)
issue_credential now d hash f = do
  raise_if (any (λ (c : DeviceCredential). c.refresh_hash == hash) f.credentials)
      Error.integrity_error
  let c : DeviceCredential = record {
    id = f.next_credential;
    device = d;
    refresh_hash = hash;
    created_at = now;
    revoked_at = none;
  } in
      ok (
        record f { credentials = f.credentials ++ c ∷ []; next_credential = f.next_credential + 1 },
        c,
      )

-- `DeviceAccessToken.issue`; `ttl` is DEVICE_ACCESS_TOKEN_TTL_SECONDS.
unfoldable pub issue_access_token : ℕ → ℕ → ℕ → ℕ → Fleet → Result (Fleet × DeviceAccessToken)
issue_access_token ttl now k hash f = do
  raise_if (any (λ (t : DeviceAccessToken). t.token_hash == hash) f.tokens) Error.integrity_error
  let t : DeviceAccessToken = record {
    credential = k;
    token_hash = hash;
    expires_at = now + ttl * second;
  } in
      ok (record f { tokens = f.tokens ++ t ∷ [] }, t)

abbrev management_of : ℕ → DeviceManagementCredential → Bool
management_of d m = m.device == d

-- `DeviceManagementCredential.issue`: `update_or_create(device=device, ...)`
unfoldable pub issue_management_token : ℕ → ℕ → Fleet → Result Fleet
issue_management_token d hash f = do
  raise_if
      (any (λ (m : DeviceManagementCredential). not (management_of d m) && m.token_hash == hash)
        f.management)
      Error.integrity_error
  ok (record f {
    management =
        if any (management_of d) f.management
        then update (management_of d)
            (λ (m : DeviceManagementCredential). record m { token_hash = hash }) f.management
        else f.management ++ record { device = d; token_hash = hash } ∷ [];
  })

-- The row that `_issue_device_credentials` saves.
abbrev pub enrolled_row : Details → Device → Device
enrolled_row x d = record d {
  android_id_hash = some x.android_id_hash;
  android_version = x.android_version;
  app_version = x.app_version;
  hardware_model = x.hardware_model;
  hardware_firmware_version = x.firmware_version;
  hardware_security_patch = x.security_patch_level;
  status = DeviceStatus.active;
}

abbrev pub challenge_details : EnrollmentChallenge → Details
challenge_details h = record {
  android_id_hash = h.android_id_hash;
  android_version = h.android_version;
  app_version = h.app_version;
  hardware_model = h.hardware_model;
  firmware_version = h.firmware_version;
  security_patch_level = h.security_patch_level;
}

-- The lookups of a challenge with its code and the code's device.
unfoldable pub load_challenge : ℕ → Fleet → Result (EnrollmentChallenge × EnrollmentCode × Device)
load_challenge k f = do
  h ← or_raise (get challenge_id k f.challenges) invalid_challenge
  c ← or_raise (get code_id h.enrollment f.codes) invalid_challenge
  d ← or_raise (get device_id c.device f.devices) invalid_challenge
  ok (h, c, d)

-- The rows that `enroll` locks and reads again: the device of the code seen before, the challenge and
-- its code.
unfoldable pub load_locked :
    EnrollmentChallenge × EnrollmentCode × Device
    → Fleet
    → Result (EnrollmentChallenge × EnrollmentCode × Device)
load_locked seen f = do
  d ← or_raise (get device_id (seen.1).device f.devices) Error.does_not_exist
  h ← or_raise (get challenge_id (seen.0).id f.challenges) Error.does_not_exist
  c ← or_raise (get code_id h.enrollment f.codes) Error.does_not_exist
  ok (h, c, d)

-- `EnrollmentChallenge.is_usable` and that of its code
abbrev pub challenge_usable : ℕ → Fleet → EnrollmentChallenge × EnrollmentCode × Device → Bool
challenge_usable now f (h, c, d) = is_none h.used_at && ltb now h.expires_at && is_usable now d f c

-- The rows that `_issue_device_credentials` writes before the new credential: the device, the used
-- code and the revoked credentials.
unfoldable pub enrolled : ℕ → Details → Device → EnrollmentCode → Fleet → Fleet
enrolled now x d c f = record f {
  devices = put device_id (enrolled_row x d) f.devices;
  codes = put code_id (record c { used_at = some now }) f.codes;
  credentials = update (is_live_for d.id) (revoked now) f.credentials;
}

module _ (is_blank : String → Bool) (token_hash : ℕ → ℕ) (env : Environment) where
  unfoldable pub require_current_app_version : String → Result (Unit {0})
  require_current_app_version v =
      raise_if (env.production && not (str_eq v env.required_app_version))
        (Error.permission_denied "This application version is not approved for the pilot.")

  -- The conditions under which `_issue_device_credentials` gives credentials to the row `d`.
  unfoldable pub check_enrollment : Details → Device → Fleet → Result (Unit {0})
  check_enrollment x d f = do
    raise_if (is_disabled d || str_eq d.kiosk_pin_hash "") invalid_code
    require_current_app_version x.app_version
    raise_if (env.production && not (device_matches_qualification is_blank x d f)) other_hardware
    raise_if (not (is_assigned d.id f))
        (Error.validation_error "Device must have an active assignment.")
    raise_if
        (any
          (λ (e : Device). not (e.id == d.id) && opt_eq e.android_id_hash (some x.android_id_hash))
          f.devices)
        (Error.permission_denied "This Android device is already enrolled.")

  -- `_issue_device_credentials`
  unfoldable pub issue_device_credentials :
      ℕ
      → Secrets
      → Details
      → Device
      → EnrollmentCode
      → Fleet
      → Result (Fleet × Device × DeviceAccessToken)
  issue_device_credentials now raw x d c f = do
    check_enrollment x d f
    r ← issue_credential now d.id (token_hash raw.refresh_token) (enrolled now x d c f)
    t ← issue_access_token env.access_token_ttl now r.1.id (token_hash raw.access_token) r.0
    f' ← issue_management_token d.id (token_hash raw.management_token) t.0
    ok (f', enrolled_row x d, t.1)

  -- `enroll` with a challenge. `verify` is what `verify_integrity_token` answers for its hash;
  -- `between` is what other transactions commit while it runs. The clock is read at `now` before that
  -- and at `later` under the locks.
  unfoldable pub enroll_by_challenge :
      (ℕ → Result (Unit {0}))
      → (Fleet → Fleet)
      → ℕ
      → ℕ
      → Secrets
      → ℕ
      → Fleet
      → Result (Fleet × Device × DeviceAccessToken)
  enroll_by_challenge verify between now later raw k f = do
    seen ← load_challenge k f
    raise_if (not (challenge_usable now f seen)) invalid_challenge
    verify (seen.0).request_hash
    locked ← load_locked seen (between f)
    raise_if (not (challenge_usable later (between f) locked)) invalid_challenge
    let (h, c, d) = locked in
        issue_device_credentials later raw (challenge_details h) d c (record (between f) {
          challenges = put challenge_id (record h { used_at = some later }) (between f).challenges;
        })

  -- `enroll` with a code, outside production. `compromised` is the request's field of that name.
  unfoldable pub enroll_by_code :
      (Fleet → Fleet)
      → ℕ
      → Secrets
      → ℕ
      → Result Details
      → Bool
      → Fleet
      → Result (Fleet × Device × DeviceAccessToken)
  enroll_by_code between now raw code details compromised f = do
    x ← details
    raise_if compromised (Error.permission_denied "Device integrity requirements were not met.")
    candidate ←
        or_raise (find? (λ (c : EnrollmentCode). c.code_hash == token_hash code) f.codes)
          invalid_code
    d ← or_raise (get device_id candidate.device (between f).devices) Error.does_not_exist
    c ← or_raise (get code_id candidate.id (between f).codes) Error.does_not_exist
    raise_if (not (is_usable now d (between f) c)) invalid_code
    issue_device_credentials now raw x d c (between f)

-- The row of `filter(token_hash=..., expires_at__gt=now)` with its credential and device.
unfoldable pub load_access : ℕ → ℕ → Fleet → Option (DeviceAccessToken × DeviceCredential × Device)
load_access now hash f =
    elim (find? (λ (t : DeviceAccessToken). t.token_hash == hash && ltb now t.expires_at)
      f.tokens) [
        | none ↦ none
        | some t ↦ elim (get credential_id t.credential f.credentials) [
          | none ↦ none
          | some c ↦ elim (get device_id c.device f.devices) [
            | none ↦ none
            | some d ↦ some (t, c, d)
          ]
        ]
      ]

-- `DeviceAccessTokenAuthentication.authenticate` after the header, for the hash of its token
unfoldable pub authenticate : ℕ → ℕ → Fleet → Result (Device × DeviceAccessToken)
authenticate now hash f = do
  r ← or_raise (load_access now hash f) invalid_device_token
  raise_if (is_disabled r.2) invalid_device_token
  raise_if (is_some (r.1).revoked_at) invalid_device_token
  ok (r.2, r.0)

-- `DeviceManagementTokenAuthentication.authenticate` after the header
unfoldable pub authenticate_management : ℕ → Fleet → Result Device
authenticate_management hash f =
    elim (find? (λ (m : DeviceManagementCredential). m.token_hash == hash) f.management) [
      | none ↦ err (Error.authentication_failed "Invalid management credential.")
      | some m ↦
          or_raise (get device_id m.device f.devices)
            (Error.authentication_failed "Invalid management credential.")
    ]

-- The row of `filter(refresh_hash=...)` with its device.
unfoldable pub load_credential : ℕ → Fleet → Option (DeviceCredential × Device)
load_credential hash f =
    elim (find? (λ (c : DeviceCredential). c.refresh_hash == hash) f.credentials) [
      | none ↦ none
      | some c ↦ elim (get device_id c.device f.devices) [ none ↦ none | some d ↦ some (c, d) ]
    ]

-- `token_refresh` after its throttle, for the hash of the refresh token and that of the new token
unfoldable pub token_refresh : ℕ → ℕ → ℕ → ℕ → Fleet → Result (Fleet × DeviceAccessToken)
token_refresh ttl now hash new_hash f = do
  r ← or_raise (load_credential hash f) invalid_credential
  raise_if (is_some (r.0).revoked_at || is_disabled r.1) invalid_credential
  issue_access_token ttl now (r.0).id new_hash f

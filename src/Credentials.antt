-- ===== src/Credentials.antt =====
-- Credentials of devices: `EnrollmentCode`, `DeviceCredential`, `DeviceAccessToken` and
-- `DeviceManagementCredential` (backend/signage/models.py), and the operations on them at the end of
-- backend/signage/services.py. `token_hash` of a secret is a parameter of what uses it.
pub mod Requests
pub mod Counting
pub mod Lockout
pub mod Single
pub mod Codes
use digital_signage_project.Base.{
  ℕ, ◌+◌, ◌*◌, ◌-◌, zero, suc, String, Bool, true, false, not, ◌&&◌, ◌||◌, Option, none, some, List,
  [], ◌∷◌, ◌++◌, ltb, leb, ◌==◌, if◌then◌else◌, str_eq, opt_eq, is_none, is_some, any, filter,
  find?, update, length, mem, map, get, put, Result, ok, err, Error, ◌>>=◌, ◌>>◌, raise_if,
  or_raise,
}
use digital_signage_project.Models.{
  Device, DeviceStatus, device_status_eq, device_id, DeviceAssignment, EnrollmentCode,
  EnrollmentChallenge, DeviceCredential, DeviceManagementCredential, DeviceAccessToken,
  HardwareQualification, AuditEvent, audit, Metadata,
}

abbrev pub second : ℕ
second = 1000000

-- The tables of devices. The sequences give the keys of new rows.
pub record Fleet : Type 0 where
  pub devices : List Device
  pub qualifications : List HardwareQualification
  pub assignments : List DeviceAssignment
  pub codes : List EnrollmentCode
  pub next_code : ℕ
  pub challenges : List EnrollmentChallenge
  pub credentials : List DeviceCredential
  pub next_credential : ℕ
  pub tokens : List DeviceAccessToken
  pub management : List DeviceManagementCredential
  pub log : List AuditEvent

abbrev pub credential_id : DeviceCredential → ℕ
credential_id c = c.id

abbrev pub code_id : EnrollmentCode → ℕ
code_id c = c.id

abbrev pub challenge_id : EnrollmentChallenge → ℕ
challenge_id c = c.id

abbrev pub is_disabled : Device → Bool
is_disabled d = device_status_eq d.status DeviceStatus.disabled

-- `assignments.filter(unassigned_at__isnull=True).exists()`
abbrev pub is_assigned : ℕ → Fleet → Bool
is_assigned d f =
    any (λ (a : DeviceAssignment). a.device == d && is_none a.unassigned_at) f.assignments

-- `EnrollmentCode.is_usable`, for the row `d` of its device
unfoldable pub is_usable : ℕ → Device → Fleet → EnrollmentCode → Bool
is_usable now d f c =
    is_none c.used_at
    && ltb now c.expires_at
    && not (str_eq d.kiosk_pin_hash "")
    && not (is_disabled d)
    && is_assigned d.id f

abbrev pub expired : ℕ → EnrollmentCode → EnrollmentCode
expired now c = record c { expires_at = now }

abbrev pub not_eligible : Error
not_eligible =
    Error.validation_error
      "Enrollment requires an enabled, assigned device with a kiosk administrator PIN."

abbrev pub no_unique_code : Error
no_unique_code = Error.validation_error "Could not issue a unique enrollment code."

abbrev pub insert_code : EnrollmentCode → Fleet → Fleet
insert_code c f = record f { codes = f.codes ++ c ∷ []; next_code = f.next_code + 1 }

-- The attempts that are left to `EnrollmentCode.issue`; `draw` are the codes that `randbelow` gives.
unfoldable pub draw_code :
    (ℕ → ℕ) → ℕ → ℕ → ℕ → (ℕ → ℕ) → ℕ → Fleet → Result (Fleet × EnrollmentCode × ℕ)
draw_code token_hash d until actor draw zero f = err no_unique_code
draw_code token_hash d until actor draw (suc n) f =
    let raw = draw n in
    let c : EnrollmentCode = record {
      id = f.next_code;
      device = d;
      code_hash = token_hash raw;
      expires_at = until;
      used_at = none;
      created_by = actor;
    } in
    let rest = draw_code token_hash d until actor draw n f in
    if any (λ (e : EnrollmentCode). e.code_hash == c.code_hash) f.codes
    then rest
    else ok (insert_code c f, c, raw)

-- `EnrollmentCode.issue`; `ttl` is ENROLLMENT_CODE_TTL_SECONDS.
unfoldable pub issue_code :
    (ℕ → ℕ) → ℕ → ℕ → (ℕ → ℕ) → ℕ → ℕ → Fleet → Result (Fleet × EnrollmentCode × ℕ)
issue_code token_hash ttl now draw k actor f = do
  d ← or_raise (get device_id k f.devices) Error.does_not_exist
  raise_if (is_disabled d || str_eq d.kiosk_pin_hash "" || not (is_assigned d.id f)) not_eligible
  let unused = λ (c : EnrollmentCode). c.device == d.id && is_none c.used_at in
      draw_code token_hash d.id (now + ttl * second) actor draw 10
        (record f { codes = update unused (expired now) f.codes })

-- `filter(device=device, revoked_at__isnull=True)`
abbrev pub is_live_for : ℕ → DeviceCredential → Bool
is_live_for d c = c.device == d && is_none c.revoked_at

abbrev pub revoked : ℕ → DeviceCredential → DeviceCredential
revoked now c = record c { revoked_at = some now }

abbrev pub live_ids : ℕ → Fleet → List ℕ
live_ids d f = map credential_id (filter (is_live_for d) f.credentials)

-- `_revoke_active_device_credentials`
unfoldable pub revoke_active_device_credentials : ℕ → ℕ → Fleet → ℕ × Fleet
revoke_active_device_credentials now d f =
    let keys = live_ids d f in
    if length keys == 0 then (0, f) else (
      length keys,
      record f {
        credentials = update (λ (c : DeviceCredential). mem c.id keys) (revoked now) f.credentials;
        tokens = filter (λ (t : DeviceAccessToken). not (mem t.credential keys)) f.tokens;
      },
    )

abbrev pub is_pending_code : ℕ → ℕ → EnrollmentCode → Bool
is_pending_code now d c = c.device == d && is_none c.used_at && ltb now c.expires_at

-- `_expire_unused_enrollment_codes`
unfoldable pub expire_unused_enrollment_codes : ℕ → ℕ → Fleet → ℕ × Fleet
expire_unused_enrollment_codes now d f = (
  length (filter (is_pending_code now d) f.codes),
  record f { codes = update (is_pending_code now d) (expired now) f.codes },
)

unfoldable pub revoke_device_credentials : ℕ → ℕ → ℕ → Fleet → Result (Fleet × ℕ)
revoke_device_credentials now actor k f = do
  d ← or_raise (get device_id k f.devices) Error.does_not_exist
  let (credential_count, f1) = revoke_active_device_credentials now d.id f in
      let of_device = λ (m : DeviceManagementCredential). m.device == d.id in
      let management_count = length (filter of_device f1.management) in
      let f2 = record f1 {
        management = filter (λ (m : DeviceManagementCredential). not (of_device m)) f1.management;
      } in
      let (enrollment_count, f3) = expire_unused_enrollment_codes now d.id f2 in
      let details = Metadata.revoked credential_count management_count enrollment_count in
      ok (
        record f3 {
          log = audit (some actor) "device.credentials.revoke" "signage.device" d.id details f3.log;
        },
        credential_count,
      )

abbrev pub disabled_row : ℕ → Device → Device
disabled_row now d = record d { status = DeviceStatus.disabled; disabled_at = some now }

unfoldable pub disable_device : ℕ → ℕ → ℕ → Fleet → Result (Fleet × Device)
disable_device now actor k f = do
  d ← or_raise (get device_id k f.devices) Error.does_not_exist
  let d' = disabled_row now d in
      let f0 = record f { devices = put device_id d' f.devices } in
      let (credential_count, f1) = revoke_active_device_credentials now d.id f0 in
      let (enrollment_count, f2) = expire_unused_enrollment_codes now d.id f1 in
      let details = Metadata.disabled credential_count enrollment_count in
      ok (
        record f2 {
          log = audit (some actor) "device.disable" "signage.device" d.id details f2.log;
        },
        d',
      )

unfoldable pub reactivate_device : ℕ → ℕ → Fleet → Result (Fleet × Device)
reactivate_device actor k f = do
  d ← or_raise (get device_id k f.devices) Error.does_not_exist
  let d' = record d { status = DeviceStatus.active; disabled_at = none } in
      ok (
        record f {
          devices = put device_id d' f.devices;
          log = audit (some actor) "device.reactivate" "signage.device" d.id Metadata.empty f.log;
        },
        d',
      )

-- ===== src/Credentials/Lockout.antt =====
-- `revoke_device_credentials` and `disable_device` (backend/signage/services.py): afterwards no
-- request of the device is let through.
use digital_signage_project.Base.{
  ℕ, ◌≤◌, ◌≡◌, refl, ◌∙◌, Bool, true, false, not, some, List, [], ◌∷◌, arith, ◌==◌, is_none,
  is_some, filter, find?, any, update, In, sym, ap, get-put, subst, inl, inr, get, put, In-get,
  get-key, ok, err, Bool-cases,
}
use digital_signage_project.Models.{
  Device, DeviceStatus, DeviceAccessToken, DeviceCredential, DeviceManagementCredential,
  EnrollmentCode, device_id,
}
use digital_signage_project.Credentials.{
  Fleet, credential_id, is_pending_code, expired, is_usable, is_disabled, revoke_device_credentials,
  disable_device, disabled_row, revoke_active_device_credentials, expire_unused_enrollment_codes,
}
use digital_signage_project.Credentials.Requests.{
  load_access, authenticate, load_credential, token_refresh, invalid_device_token,
  invalid_credential,
}
use digital_signage_project.Credentials.Counting.{live_count, In-live_count, live_count-revoke}

-- Every request of device `k` is refused: its access tokens, its refresh tokens and, from `now` on,
-- its enrollment codes.
pub record IsLockedOut (k now : ℕ) (f : Fleet) : Type 0 where
  pub no_access :
      (later hash : ℕ) (t : DeviceAccessToken) (c : DeviceCredential) (d : Device)
      → load_access later hash f ≡ some (t, c, d)
      → d.id ≡ k
      → authenticate later hash f ≡ err invalid_device_token
  pub no_refresh :
      (ttl later hash new_hash : ℕ) (c : DeviceCredential) (d : Device)
      → load_credential hash f ≡ some (c, d)
      → d.id ≡ k
      → token_refresh ttl later hash new_hash f ≡ err invalid_credential
  pub no_code :
      (later : ℕ) (d : Device) (c : EnrollmentCode)
      → now ≤ later
      → In c f.codes
      → c.device ≡ k
      → is_usable later d f c ≡ false

find?-In : {A : Type 0} (p : A → Bool) (xs : List A) {x : A} → find? p xs ≡ some x → In x xs
find?-In p [] h = absurd (cc)
find?-In p (y ∷ ys) {x} h = ground (arith, find?-In p ys {x = x})

load_access_lem :
    (now hash : ℕ) (f : Fleet) {t : DeviceAccessToken} {c : DeviceCredential} {d : Device}
    → load_access now hash f ≡ some (t, c, d)
    → In c f.credentials × (c.device ≡ d.id)
unfolding load_access
load_access_lem now hash f {t} {c} {d} h = ground (
  arith,
  In-get credential_id t.credential f.credentials {x = c},
  get-key device_id c.device f.devices {x = d},
)

load_credential_lem :
    (hash : ℕ) (f : Fleet) {c : DeviceCredential} {d : Device}
    → load_credential hash f ≡ some (c, d)
    → In c f.credentials × (c.device ≡ d.id)
unfolding load_credential
load_credential_lem hash f {c} {d} h = ground (
  arith,
  find?-In (λ (c : DeviceCredential). c.refresh_hash == hash) f.credentials {x = c},
  get-key device_id c.device f.devices {x = d},
)

revoked_lem :
    (k : ℕ) (cs : List DeviceCredential) (c : DeviceCredential)
    → live_count k cs ≡ 0
    → In c cs
    → c.device ≡ k
    → is_some c.revoked_at ≡ true
revoked_lem k cs c z i e = ground (arith, In-live_count k cs c i)

expired_lem :
    (now k : ℕ) (cs : List EnrollmentCode) (c : EnrollmentCode)
    → In c (update (is_pending_code now k) (expired now) cs)
    → c.device ≡ k
    → is_none c.used_at ≡ true
    → c.expires_at ≤ now
expired_lem now k [] c i e n = absurd i
expired_lem now k (x ∷ xs) c i e n = ground (arith, expired_lem now k xs c)

locked_out :
    (k now : ℕ) (f : Fleet)
    → live_count k f.credentials ≡ 0
    → ((c : EnrollmentCode)
        → In c f.codes
        → c.device ≡ k
        → is_none c.used_at ≡ true
        → c.expires_at ≤ now)
    → IsLockedOut k now f
unfolding authenticate token_refresh is_usable
locked_out k now f z old = record {
  no_access = λ later hash t c d h e.
      let (i, j) = load_access_lem later hash f h in
      rw (h, authenticate)
        (elim (Bool-cases (is_disabled d)) [
          | inl x ↦ rw x refl
          | inr x ↦ rw (x, revoked_lem k f.credentials c z i (j ∙ e)) refl
        ]);
  no_refresh = λ ttl later hash new_hash c d h e.
      let (i, j) = load_credential_lem hash f h in
      rw (h, token_refresh, revoked_lem k f.credentials c z i (j ∙ e)) refl;
  no_code = λ later d c w i e. ground (arith, old c i e);
}

any-filter-not :
    (k : ℕ) (ms : List DeviceManagementCredential)
    → any
        (λ (m : DeviceManagementCredential). m.device == k)
        (filter (λ (m : DeviceManagementCredential). not (m.device == k)) ms)
      ≡ false
any-filter-not k [] = refl
any-filter-not k (m ∷ ms) = ground (arith, any-filter-not k ms)

-- Revoking the credentials of a known device returns; from then on every access token and every
-- refresh token of the device is refused like an unknown one, none of its enrollment codes is usable,
-- and no management credential of it is left.
pub revoke_device_credentials-IsLockedOut :
    (now actor k : ℕ) (f : Fleet) (d : Device)
    → get device_id k f.devices ≡ some d
    → (r : Fleet × ℕ) × (revoke_device_credentials now actor k f ≡ ok r)
      × IsLockedOut k now r.0
      × (any (λ (m : DeviceManagementCredential). m.device == k) (r.0).management ≡ false)
unfolding revoke_device_credentials expire_unused_enrollment_codes
revoke_device_credentials-IsLockedOut now actor k f d h =
    let e : d.id ≡ k = get-key device_id k f.devices h in
    rw (h, revoke_device_credentials, e)
      (
        _,
        refl,
        locked_out k now _ (live_count-revoke now k f)
            (expired_lem now k (revoke_active_device_credentials now k f).1.codes),
        any-filter-not k (revoke_active_device_credentials now k f).1.management,
      )

load_access_device :
    (now hash : ℕ) (f : Fleet) {t : DeviceAccessToken} {c : DeviceCredential} {d : Device}
    → load_access now hash f ≡ some (t, c, d)
    → get device_id d.id f.devices ≡ some d
unfolding load_access
load_access_device now hash f {t} {c} {d} h =
    ground (arith, get-key device_id c.device f.devices {x = d})

load_credential_device :
    (hash : ℕ) (f : Fleet) {c : DeviceCredential} {d : Device}
    → load_credential hash f ≡ some (c, d)
    → get device_id d.id f.devices ≡ some d
unfolding load_credential
load_credential_device hash f {c} {d} h =
    ground (arith, get-key device_id c.device f.devices {x = d})

-- In every state of the tables in which device `k` has the row `d`, its requests are refused whatever
-- credentials, tokens and codes there are.
pub record IsBarred (k : ℕ) (d : Device) : Type 0 where
  pub no_access :
      (g : Fleet) (later hash : ℕ) (t : DeviceAccessToken) (c : DeviceCredential) (x : Device)
      → get device_id k g.devices ≡ some d
      → load_access later hash g ≡ some (t, c, x)
      → x.id ≡ k
      → authenticate later hash g ≡ err invalid_device_token
  pub no_refresh :
      (g : Fleet) (ttl later hash new_hash : ℕ) (c : DeviceCredential) (x : Device)
      → get device_id k g.devices ≡ some d
      → load_credential hash g ≡ some (c, x)
      → x.id ≡ k
      → token_refresh ttl later hash new_hash g ≡ err invalid_credential
  pub no_code : (g : Fleet) (later : ℕ) (c : EnrollmentCode) → is_usable later d g c ≡ false

same_row :
    (k : ℕ) (g : Fleet) (d x : Device)
    → get device_id k g.devices ≡ some d
    → get device_id x.id g.devices ≡ some x
    → x.id ≡ k
    → x ≡ d
same_row k g d x h i e =
    let z : some x ≡ some d = sym i ∙ (ap (λ j. get device_id j g.devices) e ∙ h) in cc

disabled-IsBarred : (k : ℕ) (d : Device) → is_disabled d ≡ true → IsBarred k d
unfolding authenticate token_refresh is_usable
disabled-IsBarred k d b = record {
  no_access = λ g later hash t c x h l e.
      let q = same_row k g d x h (load_access_device later hash g l) e in
      rw (l, authenticate, q, b) refl;
  no_refresh = λ g ttl later hash new_hash c x h l e.
      let q = same_row k g d x h (load_credential_device hash g l) e in
      rw (l, token_refresh, q, b) (ground arith);
  no_code = λ g later c. ground arith;
}

revoke_active_devices :
    (now k : ℕ) (f : Fleet) → (revoke_active_device_credentials now k f).1.devices ≡ f.devices
unfolding revoke_active_device_credentials
revoke_active_devices now k f = ground arith

-- What disabling the device leaves: the row is stored with the status `disabled`.
pub record IsDisabled (k now : ℕ) (d : Device) (r : Fleet × Device) : Type 0 where
  pub stored : get device_id k (r.0).devices ≡ some r.1
  pub status : (r.1).status ≡ DeviceStatus.disabled
  pub disabled_at : (r.1).disabled_at ≡ some now
  pub same_pin : (r.1).kiosk_pin_hash ≡ d.kiosk_pin_hash
  pub barred : IsBarred k r.1
  pub locked_out : IsLockedOut k now r.0

disable_device_key :
    (now actor : ℕ) (f : Fleet) (d : Device)
    → get device_id d.id f.devices ≡ some d
    → (r : Fleet × Device) × (disable_device now actor d.id f ≡ ok r) × IsDisabled d.id now d r
unfolding disable_device expire_unused_enrollment_codes
disable_device_key now actor f d h =
    let f0 = record f { devices = put device_id (disabled_row now d) f.devices } in
    rw (h, disable_device)
      (
        _,
        refl,
        record {
          stored =
              ap (get device_id d.id) (revoke_active_devices now d.id f0)
              ∙ get-put device_id d.id (disabled_row now d) f.devices {y = d} refl h;
          status = refl;
          disabled_at = refl;
          same_pin = refl;
          barred = disabled-IsBarred d.id (disabled_row now d) refl;
          locked_out =
              locked_out d.id now _ (live_count-revoke now d.id f0)
                (expired_lem now d.id (revoke_active_device_credentials now d.id f0).1.codes);
        },
      )

-- Disabling a known device returns, and the row that is stored has the status `disabled` since now. As
-- long as it has that row every access token and every refresh token of the device is refused like an
-- unknown one and none of its enrollment codes is usable, whatever else is written. Its credentials
-- are revoked too: in the tables that the call leaves these requests would be refused without the
-- status.
pub disable_device-IsLockedOut :
    (now actor k : ℕ) (f : Fleet) (d : Device)
    → get device_id k f.devices ≡ some d
    → (r : Fleet × Device) × (disable_device now actor k f ≡ ok r) × IsDisabled k now d r
disable_device-IsLockedOut now actor k f d h =
    let e : d.id ≡ k = get-key device_id k f.devices h in
    subst (λ j. (r : Fleet × Device) × (disable_device now actor j f ≡ ok r) × IsDisabled j now d r)
      e
      (disable_device_key now actor f d (subst (λ j. get device_id j f.devices ≡ some d) (sym e) h))

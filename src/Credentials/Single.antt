-- ===== src/Credentials/Single.antt =====
-- `enroll` (backend/signage/api.py): the credentials that an enrollment leaves, and the single use of
-- its code.
use digital_signage_project.Base.{
  ℕ, ◌+◌, ◌≤◌, ◌≡◌, refl, ◌≢◌, String, Bool, true, false, not, none, some, List, arith, ◌==◌,
  if◌then◌else◌, is_none, get, get-key, Result, ok, err, Error, >>=-eq-ok, raise_if-eq-ok, raise_if,
  length-filter-append_one, get-put_self, ok-injective, sym, ◌∙◌, subst,
}
use digital_signage_project.Models.{
  Device, DeviceStatus, DeviceAccessToken, DeviceCredential, EnrollmentCode, EnrollmentChallenge,
  device_id,
}
use digital_signage_project.Credentials.{Fleet, code_id, is_live_for, is_usable, is_disabled}
use digital_signage_project.Credentials.Requests.{
  Environment, Details, Secrets, issue_device_credentials, check_enrollment, enrolled, enrolled_row,
  issue_credential, issue_access_token, issue_management_token, enroll_by_challenge, load_challenge,
  load_locked, challenge_usable, challenge_details,
}
use digital_signage_project.Credentials.Counting.{
  live_count, live_count-update_self, live_count-update_le,
}

-- What an enrollment of device row `d` by code `c` leaves, where `credentials` was the table before.
pub record IsEnrolled (now : ℕ) (d : Device) (c : EnrollmentCode)
    (credentials : List DeviceCredential) (r : Fleet × Device × DeviceAccessToken) : Type 0 where
  pub one_credential : live_count d.id (r.0).credentials ≡ 1
  pub others_kept : (e : ℕ) → e ≢ d.id → live_count e (r.0).credentials ≤ live_count e credentials
  pub code_used : get code_id c.id (r.0).codes ≡ some (record c { used_at = some now })
  pub active : get device_id d.id (r.0).devices ≡ some r.1
  pub enabled : (r.1).status ≡ DeviceStatus.active

issue_credential_count :
    (now d hash : ℕ) (f : Fleet) (r : Fleet × DeviceCredential)
    → issue_credential now d hash f ≡ ok r
    → ((e : ℕ)
        → live_count e (r.0).credentials ≡ live_count e f.credentials + (if d == e then 1 else 0))
      × ((r.0).codes ≡ f.codes)
      × ((r.0).devices ≡ f.devices)
unfolding issue_credential
issue_credential_count now d hash f r h = (
  λ e. ground (
    arith,
    length-filter-append_one (is_live_for e) f.credentials (record {
      id = f.next_credential;
      device = d;
      refresh_hash = hash;
      created_at = now;
      revoked_at = none;
    }),
  ),
  ground arith,
  ground arith,
)

issue_access_token_keeps :
    (ttl now k hash : ℕ) (f : Fleet) (r : Fleet × DeviceAccessToken)
    → issue_access_token ttl now k hash f ≡ ok r
    → ((r.0).credentials ≡ f.credentials) × ((r.0).codes ≡ f.codes) × ((r.0).devices ≡ f.devices)
unfolding issue_access_token
issue_access_token_keeps ttl now k hash f r h = ground arith

issue_management_token_keeps :
    (d hash : ℕ) (f f' : Fleet)
    → issue_management_token d hash f ≡ ok f'
    → (f'.credentials ≡ f.credentials) × (f'.codes ≡ f.codes) × (f'.devices ≡ f.devices)
unfolding issue_management_token
issue_management_token_keeps d hash f f' h = ground arith

-- The rows of an enrollment, given what the three insertions keep.
enrolled-IsEnrolled :
    (now : ℕ) (x : Details) (d : Device) (c c' : EnrollmentCode) (d' : Device) (f : Fleet)
    (p : Fleet × DeviceCredential) (t : Fleet × DeviceAccessToken) (f' : Fleet)
    (r : Fleet × Device × DeviceAccessToken)
    → get device_id d.id f.devices ≡ some d'
    → get code_id c.id f.codes ≡ some c'
    → ((e : ℕ)
        → live_count e (p.0).credentials
          ≡ live_count e (enrolled now x d c f).credentials + (if d.id == e then 1 else 0))
      × ((p.0).codes ≡ (enrolled now x d c f).codes)
      × ((p.0).devices ≡ (enrolled now x d c f).devices)
    → ((t.0).credentials ≡ (p.0).credentials)
      × ((t.0).codes ≡ (p.0).codes)
      × ((t.0).devices ≡ (p.0).devices)
    → (f'.credentials ≡ (t.0).credentials) × (f'.codes ≡ (t.0).codes) × (f'.devices ≡ (t.0).devices)
    → ok (f', enrolled_row x d, t.1) ≡ ok r
    → IsEnrolled now d c f.credentials r
unfolding enrolled
enrolled-IsEnrolled now x d c c' d' f p t f' r hd hc a b g h =
    let e : (f', enrolled_row x d, t.1) ≡ r = cc in
    rw (← e, g.0, g.1, g.2, b.0, b.1, b.2, a.1, a.2)
      (record {
        one_credential =
            rw (a.0 d.id) (ground (arith, live_count-update_self now d.id f.credentials));
        others_kept = λ k n.
            rw (a.0 k)
              (ground (arith, live_count-update_le (is_live_for d.id) now k f.credentials));
        code_used = get-put_self code_id (record c { used_at = some now }) f.codes hc;
        active = get-put_self device_id (enrolled_row x d) f.devices hd;
        enabled = refl;
      })

used_lem :
    (now : ℕ) (c c' : EnrollmentCode) (f : Fleet)
    → get code_id c.id f.codes ≡ some (record c { used_at = some now })
    → get code_id c'.id f.codes ≡ some c'
    → c'.id ≡ c.id
    → is_none c'.used_at ≡ false
used_lem now c c' f h g e = ground arith

unusable_lem :
    (now : ℕ) (f : Fleet) (h : EnrollmentChallenge) (c : EnrollmentCode) (d : Device)
    → is_none c.used_at ≡ false
    → challenge_usable now f (h, c, d) ≡ false
unfolding is_usable
unusable_lem now f h c d u = ground arith

module _ (is_blank : String → Bool) (token_hash : ℕ → ℕ) (env : Environment) where
  check_enrollment_enabled :
      (x : Details) (d : Device) (f : Fleet)
      → check_enrollment is_blank token_hash env x d f ≡ ok tt
      → is_disabled d ≡ false
  unfolding check_enrollment
  check_enrollment_enabled x d f h = ground arith

  -- `_issue_device_credentials`: if it returns, the device row given to it is active, its code is used
  -- and it has exactly one credential that is not revoked.
  issue_device_credentials-IsEnrolled :
      (now : ℕ) (raw : Secrets) (x : Details) (d : Device) (c c' : EnrollmentCode) (d' : Device)
      (f : Fleet) (r : Fleet × Device × DeviceAccessToken)
      → get device_id d.id f.devices ≡ some d'
      → get code_id c.id f.codes ≡ some c'
      → issue_device_credentials is_blank token_hash env now raw x d c f ≡ ok r
      → IsEnrolled now d c f.credentials r
  unfolding issue_device_credentials
  issue_device_credentials-IsEnrolled now raw x d c c' d' f r hd hc h =
      let (u, h0, k0) = >>=-eq-ok (check_enrollment is_blank token_hash env x d f) _ h in
      let (p, h1, k1) =
        >>=-eq-ok (issue_credential now d.id (token_hash raw.refresh_token) (enrolled now x d c f))
          _ k0 in
      let (t, h2, k2) =
        >>=-eq-ok
          (issue_access_token env.access_token_ttl now (p.1).id (token_hash raw.access_token) p.0) _
          k1 in
      let (f', h3, k3) =
        >>=-eq-ok (issue_management_token d.id (token_hash raw.management_token) t.0) _ k2 in
      enrolled-IsEnrolled now x d c c' d' f p t f' r hd hc (issue_credential_count _ _ _ _ p h1)
        (issue_access_token_keeps _ _ _ _ _ t h2) (issue_management_token_keeps _ _ _ f' h3) k3

  load_locked_lem :
      (seen : EnrollmentChallenge × EnrollmentCode × Device) (f : Fleet) (h : EnrollmentChallenge)
      (c : EnrollmentCode) (d : Device)
      → load_locked seen f ≡ ok (h, c, d)
      → (get code_id c.id f.codes ≡ some c) × (get device_id d.id f.devices ≡ some d)
  unfolding load_locked
  load_locked_lem seen f h c d e = ground (
    arith,
    get-key code_id h.enrollment f.codes {x = c},
    get-key device_id (seen.1).device f.devices {x = d},
  )

  load_challenge_lem :
      (k : ℕ) (f : Fleet) (h : EnrollmentChallenge) (c : EnrollmentCode) (d : Device)
      → load_challenge k f ≡ ok (h, c, d)
      → (get code_id c.id f.codes ≡ some c) × (get device_id d.id f.devices ≡ some d)
  unfolding load_challenge
  load_challenge_lem k f h c d e = ground (
    arith,
    get-key code_id h.enrollment f.codes {x = c},
    get-key device_id c.device f.devices {x = d},
  )

  not-false : (b : Bool) → not b ≡ false → b ≡ true
  not-false true h = refl
  not-false false h = cc

  -- An enrollment by challenge that succeeds found the challenge and its code usable, had its
  -- integrity token verified, and found them usable again under its locks at a later reading of the
  -- clock; it leaves the code used, the device active, exactly one live credential of the device and no
  -- more live credentials of any other device than before, whatever other transactions commit in
  -- between.
  pub enroll_by_challenge-IsEnrolled :
      (verify : ℕ → Result (Unit {0})) (between : Fleet → Fleet) (now later : ℕ) (raw : Secrets)
      (k : ℕ) (f : Fleet) (r : Fleet × Device × DeviceAccessToken)
      → enroll_by_challenge is_blank token_hash env verify between now later raw k f ≡ ok r
      → (seen : EnrollmentChallenge × EnrollmentCode × Device) × (h : EnrollmentChallenge)
        × (c : EnrollmentCode) × (d : Device) × (load_challenge k f ≡ ok seen)
        × (challenge_usable now f seen ≡ true)
        × (verify (seen.0).request_hash ≡ ok tt)
        × (load_locked seen (between f) ≡ ok (h, c, d))
        × (challenge_usable later (between f) (h, c, d) ≡ true)
        × IsEnrolled later d c (between f).credentials r
  unfolding enroll_by_challenge
  enroll_by_challenge-IsEnrolled verify between now later raw k f r e =
      let (seen, e0, k0) = >>=-eq-ok (load_challenge k f) _ e in
      let (u1, e1, k1) = >>=-eq-ok (raise_if (not (challenge_usable now f seen)) _) _ k0 in
      let (u2, e2, k2) = >>=-eq-ok (verify (seen.0).request_hash) _ k1 in
      let ((h, c, d), e3, k3) = >>=-eq-ok (load_locked seen (between f)) _ k2 in
      let (u4, e4, k4) =
        >>=-eq-ok (raise_if (not (challenge_usable later (between f) (h, c, d))) _) _ k3 in
      let (i, j) = load_locked_lem seen (between f) h c d e3 in
      (
        seen,
        h,
        c,
        d,
        e0,
        not-false _ (raise_if-eq-ok _ _ e1),
        e2,
        e3,
        not-false _ (raise_if-eq-ok _ _ e4),
        issue_device_credentials-IsEnrolled later raw (challenge_details h) d c c d _ r j i k4,
      )

  -- The code that an enrollment has locked is recorded as used.
  locked_used :
      (verify : ℕ → Result (Unit {0})) (between : Fleet → Fleet) (now later : ℕ) (raw : Secrets)
      (k : ℕ) (f : Fleet) (r : Fleet × Device × DeviceAccessToken)
      (seen locked : EnrollmentChallenge × EnrollmentCode × Device)
      → load_challenge k f ≡ ok seen
      → load_locked seen (between f) ≡ ok locked
      → enroll_by_challenge is_blank token_hash env verify between now later raw k f ≡ ok r
      → get code_id (locked.1).id (r.0).codes ≡ some (record (locked.1) { used_at = some later })
  locked_used verify between now later raw k f r seen locked l m e =
      let (seen', h, c, d, l', _, _, m', _, v) =
        enroll_by_challenge-IsEnrolled verify between now later raw k f r e in
      let p : seen' ≡ seen = ok-injective (sym l' ∙ l) in
      let m'' : load_locked seen (between f) ≡ ok (h, c, d) =
        subst (λ x. load_locked x (between f) ≡ ok (h, c, d)) p m' in
      let q : (h, c, d) ≡ locked = ok-injective (sym m'' ∙ m) in
      subst
        (λ (x : EnrollmentChallenge × EnrollmentCode × Device).
          get code_id (x.1).id (r.0).codes ≡ some (record (x.1) { used_at = some later }))
        q v.code_used

  -- A code enrolls once: after an enrollment by a challenge has succeeded, every call with a challenge of
  -- the same code is refused, whenever it comes and whatever has been written in the meantime, as long as
  -- the row of the code is the one that the enrollment left.
  pub enroll_by_challenge_once :
      (verify verify' : ℕ → Result (Unit {0})) (between between' : Fleet → Fleet)
      (now later now' later' : ℕ) (raw raw' : Secrets) (k j : ℕ) (f g : Fleet)
      (r : Fleet × Device × DeviceAccessToken)
      (seen locked next : EnrollmentChallenge × EnrollmentCode × Device)
      → load_challenge k f ≡ ok seen
      → load_locked seen (between f) ≡ ok locked
      → enroll_by_challenge is_blank token_hash env verify between now later raw k f ≡ ok r
      → get code_id (locked.1).id g.codes ≡ get code_id (locked.1).id (r.0).codes
      → load_challenge j g ≡ ok next
      → (next.1).id ≡ (locked.1).id
      → enroll_by_challenge is_blank token_hash env verify' between' now' later' raw' j g
        ≡ err (Error.authentication_failed "Invalid or expired enrollment challenge.")
  unfolding enroll_by_challenge
  enroll_by_challenge_once verify verify' between between' now later now' later' raw raw' k j f g r
        seen locked next l m e s n i =
      let used = s ∙ locked_used verify between now later raw k f r seen locked l m e in
      let u : is_none (next.1).used_at ≡ false =
        used_lem later (locked.1) (next.1) g used
          (load_challenge_lem j g next.0 (next.1) (next.2) n).0 i in
      rw (n, enroll_by_challenge, unusable_lem now' g next.0 (next.1) (next.2) u) refl

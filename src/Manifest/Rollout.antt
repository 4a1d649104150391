-- ===== src/Manifest/Rollout.antt =====
-- The stepwise rollout of an update by `configured_app_update` (backend/signage/api.py).
use digital_signage_project.Base.{
  ℕ, ◌*◌, ◌%◌, ◌≡◌, refl, ◌≤◌, inl, inr, arith, true, false, not, Option, some, String, ltb, ok,
  pos, raise_if-cases, raise_if-eq-ok, >>=-cases, Bool-cases,
}
use digital_signage_project.Models.{Device}
use digital_signage_project.Manifest.{Urls}
use digital_signage_project.Manifest.Updates.{
  UpdateSettings, Update, is_zero, is_any_set, from_one, is_version_name, is_digest,
  is_storage_name, configuration_error, check_update, offer, check_origin, configured_app_update,
}

-- The settings with another share of the devices.
abbrev pub with_percent : ℕ → UpdateSettings → UpdateSettings
with_percent q c = record c { rollout_percent = pos q }

check_update-with_percent :
    (p q : ℕ) (c : UpdateSettings) (u : Unit {0})
    → p ≤ q
    → q ≤ 100
    → check_update (with_percent p c) ≡ ok u
    → check_update (with_percent q c) ≡ ok tt
unfolding check_update
check_update-with_percent p q c u l b h =
    raise_if-cases (not (from_one 2147483647 c.version_code)) _ _ h (λ h1 k1.
      raise_if-cases (not (is_version_name c.version_name)) _ _ k1 (λ h2 k2.
        raise_if-cases (not (is_digest c.sha256)) _ _ k2 (λ h3 k3.
          raise_if-cases (not (from_one (200 * 1024 * 1024) c.size_bytes)) _ _ k3 (λ h4 k4.
            raise_if-cases (not (from_one 100 (pos p))) _ _ k4 (λ h5 k5.
              let h6 =
                raise_if-eq-ok (not (is_storage_name c.storage_name)) configuration_error k5 in
              let w : not (from_one 100 (pos q)) ≡ false = ground arith in
              rw (check_update, h1, h2, h3, h4, w, h6) refl)))))

module _ (urls : Urls) (url_of : String → Option String) (rollout_digest : ℕ → ℕ) where
  -- Raising the share of the devices, up to 100 percent, withdraws no update: a device that is offered an
  -- update is offered the same one.
  pub configured_app_update_widens :
      (p q : ℕ) (c : UpdateSettings) (d : Device) (u : Update)
      → p ≤ q
      → q ≤ 100
      → configured_app_update urls url_of rollout_digest (with_percent p c) d ≡ ok (some u)
      → configured_app_update urls url_of rollout_digest (with_percent q c) d ≡ ok (some u)
  unfolding configured_app_update offer check_origin
  configured_app_update_widens p q c d u l b h = elim (Bool-cases (is_zero c.version_code)) [
    | inl z ↦ elim (Bool-cases (is_any_set (with_percent p c))) [
      | inl a ↦ absurd (let w = rw (configured_app_update, z, a) at h in cc)
      | inr a ↦ absurd (let w = rw (configured_app_update, z, a) at h in cc)
    ]
    | inr z ↦
        >>=-cases (check_update (with_percent p c)) _ (rw (configured_app_update, z) at h) (λ t g k.
          elim (Bool-cases (ltb (rollout_digest d.id % 100) p)) [
            | inr e ↦ absurd (let w = rw e at k in cc)
            | inl e ↦
                let f : ltb (rollout_digest d.id % 100) q ≡ true = ground arith in
                rw (configured_app_update, z, check_update-with_percent p q c t l b g, f)
                  (rw e at k)
          ])
  ]

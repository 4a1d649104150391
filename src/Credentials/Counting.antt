-- ===== src/Credentials/Counting.antt =====
-- Live credentials of a device (`DeviceCredential` in backend/signage/models.py) under the updates of
-- the table.
use digital_signage_project.Base.{
  ℕ, ◌≤◌, ◌≡◌, refl, Bool, true, List, [], ◌∷◌, arith, filter, update, length, mem, map, In, inl,
  inr,
}
use digital_signage_project.Models.{DeviceCredential}
use digital_signage_project.Credentials.{
  Fleet, credential_id, is_live_for, revoked, live_ids, revoke_active_device_credentials,
}

-- How many credentials of the device are not revoked.
abbrev pub live_count : ℕ → List DeviceCredential → ℕ
live_count d cs = length (filter (is_live_for d) cs)

pub In-live_count :
    (d : ℕ) (cs : List DeviceCredential) (c : DeviceCredential)
    → In c cs
    → is_live_for d c ≡ true
    → 1 ≤ live_count d cs
In-live_count d [] c i h = absurd i
In-live_count d (x ∷ xs) c i h = ground (arith, In-live_count d xs c)

-- The update of all live credentials of a device leaves none of its own and the others' as they are.
pub live_count-update_self :
    (now d : ℕ) (cs : List DeviceCredential)
    → live_count d (update (is_live_for d) (revoked now) cs) ≡ 0
live_count-update_self now d [] = refl
live_count-update_self now d (x ∷ xs) = ground (arith, live_count-update_self now d xs)

pub live_count-update_le :
    (p : DeviceCredential → Bool) (now e : ℕ) (cs : List DeviceCredential)
    → live_count e (update p (revoked now) cs) ≤ live_count e cs
live_count-update_le p now e [] = omega arith
live_count-update_le p now e (x ∷ xs) = ground (arith, live_count-update_le p now e xs)

mem-live_ids :
    (d : ℕ) (cs : List DeviceCredential) (c : DeviceCredential)
    → In c cs
    → is_live_for d c ≡ true
    → mem c.id (map credential_id (filter (is_live_for d) cs)) ≡ true
mem-live_ids d [] c i h = absurd i
mem-live_ids d (x ∷ xs) c i h = ground (arith, mem-live_ids d xs c)

length-map_ids : (cs : List DeviceCredential) → length (map credential_id cs) ≡ length cs
length-map_ids [] = refl
length-map_ids (x ∷ xs) = ground (arith, length-map_ids xs)

-- The update by the collected keys reaches every live credential of the device.
live_count-update_keys :
    (now d : ℕ) (keys : List ℕ) (cs : List DeviceCredential)
    → ((c : DeviceCredential) → In c cs → is_live_for d c ≡ true → mem c.id keys ≡ true)
    → live_count d (update (λ (c : DeviceCredential). mem c.id keys) (revoked now) cs) ≡ 0
live_count-update_keys now d keys [] h = refl
live_count-update_keys now d keys (x ∷ xs) h =
    ground (arith, live_count-update_keys now d keys xs (λ c i. h c (inr i)), h x (inl refl))

pub live_count-revoke :
    (now d : ℕ) (f : Fleet)
    → live_count d (revoke_active_device_credentials now d f).1.credentials ≡ 0
unfolding revoke_active_device_credentials
live_count-revoke now d f = ground (
  arith,
  length-map_ids (filter (is_live_for d) f.credentials),
  live_count-update_keys now d (live_ids d f) f.credentials (mem-live_ids d f.credentials),
)

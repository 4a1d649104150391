-- ===== src/Dispatch/Reservation.antt =====
-- `_reserve_dispatch_attempt` (backend/signage/media_dispatch.py): which attempt it gives, and what it
-- stores.
use digital_signage_project.Base.{
  ℕ, ◌+◌, ◌*◌, ◌≤◌, ◌≡◌, refl, ◌≢◌, ◌∙◌, Bool, true, false, not, ◌&&◌, ◌||◌, Option, none, some,
  List, arith, ltb, leb, if◌then◌else◌, get, put, get-key, get-put, get-put_ne, get-append_ne,
  Option-cases, Bool-cases, inl, inr, All, get-All,
}
use digital_signage_project.Models.{MediaAsset, MediaStatus, media_status_eq, asset_id}
use digital_signage_project.Throttle.{ApiThrottle, throttle_key, get_or_create}
use digital_signage_project.Dispatch.{
  Settings, Queue, is_reusable, marked, reserve_row, reserve, second, backs_off,
}

-- An asset whose last attempt was issued with an unknown outcome: the attempt is given again until the
-- reuse window since its first call has ended, then the next one, and none when all are used.
pub reserve_unknown_outcome :
    (c : Settings) (state_key : ℕ → ℕ) (now k : ℕ) (s : Queue) (a : MediaAsset) (t : ApiThrottle)
    → get asset_id k s.assets ≡ some a
    → a.status ≡ MediaStatus.quarantined
    → get throttle_key (state_key k) s.throttles ≡ some t
    → t.attempts ≡ a.dispatch_attempts
    → 1 ≤ a.dispatch_attempts
    → (reserve c state_key now true true k s).0 ≡ (
        if ltb now (t.window_started_at + c.ambiguity_reuse_seconds * second)
        then some a.dispatch_attempts
        else (if ltb a.dispatch_attempts c.max_dispatch_attempts
            then some (a.dispatch_attempts + 1)
            else none))
unfolding reserve reserve_row is_reusable
reserve_unknown_outcome c state_key now k s a t h q g e p = rw (h, reserve, q, g) (ground arith)

-- What a reservation with the marker stores for asset `k` when it gives attempt `n`.
pub record IsReserved (c : Settings) (now k n : ℕ) (assets : List MediaAsset) : Type 0 where
  pub bounded : n ≤ c.max_dispatch_attempts
  pub counted :
      (a : MediaAsset) × (get asset_id k assets ≡ some a)
      × (a.dispatch_attempts ≡ n)
      × (a.dispatched_at ≡ some now)

marked_ne :
    (now key j : ℕ) (reuse : Bool) (attempt : ℕ) (ts : List ApiThrottle)
    → j ≢ key
    → get throttle_key j (marked now key reuse attempt ts) ≡ get throttle_key j ts
unfolding marked get_or_create
marked_ne now key j reuse attempt ts n = elim (Option-cases (get throttle_key key ts)) [
  | inl e ↦
      rw (e, marked, get_or_create)
        (get-put_ne throttle_key j _ _ n ∙ get-append_ne throttle_key j ts _ n)
  | inr (t, e) ↦
      rw (e, marked, get_or_create)
        (get-put_ne throttle_key j _ ts (rw (get-key throttle_key key ts e) n))
]

pub none_lem :
    {P : Type 0} (s s' : Queue) (n : ℕ) → ◌≡◌ {A = Option ℕ × Queue} (none, s) (some n, s') → P
none_lem s s' n h = absurd (cc)

attempt_lem :
    (reuse : Bool) (a m : ℕ)
    → a ≤ m
    → (not reuse && leb m a) ≡ false
    → (if reuse then a else a + 1) ≤ m
attempt_lem reuse a m h x = ground arith

pub ap_assets :
    (m n : ℕ) (s s' : Queue)
    → ◌≡◌ {A = Option ℕ × Queue} (some m, s) (some n, s')
    → (s.assets ≡ s'.assets) × (s.throttles ≡ s'.throttles)
ap_assets m n s s' h = (ground arith, ground arith)

-- The row and the state that a reservation stores.
stored_lem :
    (c : Settings) (state_key : ℕ → ℕ) (now k attempt n : ℕ) (reuse : Bool) (a : MediaAsset)
    (s s' : Queue)
    → get asset_id k s.assets ≡ some a
    → attempt ≤ c.max_dispatch_attempts
    → ◌≡◌ {A = Option ℕ × Queue}
        (
          some attempt,
          record s {
            assets =
                put asset_id
                  (record a {
                    dispatch_attempts = attempt;
                    last_dispatch_attempt_at = some now;
                    dispatched_at = some now;
                  })
                  s.assets;
            throttles = marked now (state_key k) reuse attempt s.throttles;
          },
        )
        (some n, s')
    → IsReserved c now k n s'.assets
      × ((j : ℕ)
          → j ≢ state_key k
          → get throttle_key j s'.throttles ≡ get throttle_key j s.throttles)
stored_lem c state_key now k attempt n reuse a s s' h b e =
    let p : attempt ≡ n = ground arith in
    let q = get-key asset_id k s.assets h in
    let r = ap_assets _ _ _ _ e in
    (
      record {
        bounded = rw (← p) b;
        counted = (
          record a {
            dispatch_attempts = attempt;
            last_dispatch_attempt_at = some now;
            dispatched_at = some now;
          },
          rw (← r.0) (get-put asset_id k _ s.assets {y = a} q h),
          p,
          refl,
        );
      },
      λ j m. rw (← r.1) (marked_ne now (state_key k) j reuse attempt s.throttles m),
    )

reserve_row_lem :
    (c : Settings) (state_key : ℕ → ℕ) (now k n : ℕ) (state : Option ApiThrottle) (a : MediaAsset)
    (s s' : Queue)
    → get asset_id k s.assets ≡ some a
    → a.dispatch_attempts ≤ c.max_dispatch_attempts
    → reserve_row c now (state_key k) true state a s ≡ (some n, s')
    → IsReserved c now k n s'.assets
      × ((j : ℕ)
          → j ≢ state_key k
          → get throttle_key j s'.throttles ≡ get throttle_key j s.throttles)
unfolding reserve_row
reserve_row_lem c state_key now k n state a s s' h b e =
    elim (Bool-cases
      (not (is_reusable c now state a) && leb c.max_dispatch_attempts a.dispatch_attempts)) [
        | inl x ↦ none_lem _ _ _ (rw (x, reserve_row) at e)
        | inr x ↦
            stored_lem c state_key now k _ n (is_reusable c now state a) a s s' h
              (attempt_lem (is_reusable c now state a) a.dispatch_attempts c.max_dispatch_attempts b
                x)
              (rw (x, reserve_row) at e)
      ]

pub reserve-IsReserved :
    (c : Settings) (state_key : ℕ → ℕ) (now k n : ℕ) (bypass_backoff : Bool) (s s' : Queue)
    → All (λ (a : MediaAsset). a.dispatch_attempts ≤ c.max_dispatch_attempts) s.assets
    → reserve c state_key now bypass_backoff true k s ≡ (some n, s')
    → IsReserved c now k n s'.assets
      × ((j : ℕ)
          → j ≢ state_key k
          → get throttle_key j s'.throttles ≡ get throttle_key j s.throttles)
unfolding reserve
reserve-IsReserved c state_key now k n bypass_backoff s s' v h =
    elim (Option-cases (get asset_id k s.assets)) [
      | inl e ↦ absurd (ground arith)
      | inr (a, e) ↦
          let b : a.dispatch_attempts ≤ c.max_dispatch_attempts =
            get-All asset_id _ k s.assets v e in
          elim (Bool-cases (
            not (media_status_eq a.status MediaStatus.quarantined)
            || (not bypass_backoff && backs_off c now a))) [
              | inl x ↦ none_lem _ _ _ (rw (e, x, reserve) at h)
              | inr x ↦ reserve_row_lem c state_key now k n _ a s s' e b (rw (e, x, reserve) at h)
            ]
    ]

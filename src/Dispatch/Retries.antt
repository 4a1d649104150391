-- ===== src/Dispatch/Retries.antt =====
-- The retries of `_reserve_dispatch_attempt` (backend/signage/media_dispatch.py) while the outcome of a
-- call is not known.
use digital_signage_project.Base.{
  ℕ, ◌+◌, ◌*◌, ◌≤◌, ◌<◌, ◌≡◌, refl, sym, ◌∙◌, true, false, none, some, Bool, List, [], ◌∷◌, arith,
  ltb, leb, if◌then◌else◌, get, get-key, get-put, All, ap, ◌&&◌, ◌||◌, subst, not, Option,
}
use digital_signage_project.Models.{MediaAsset, MediaStatus, media_status_eq, asset_id}
use digital_signage_project.Throttle.{ApiThrottle, throttle_key, get_or_create}
use digital_signage_project.Dispatch.{
  Settings, Queue, second, backs_off, is_reusable, marked, reserve_row, reserve,
}
use digital_signage_project.Dispatch.Reservation.{reserve_unknown_outcome}
use digital_signage_project.Dispatch.Costs.{get_or_create-stored}

-- Attempt `n` of asset `k` is issued since `since`.
pub record IsIssued (state_key : ℕ → ℕ) (k n since : ℕ) (s : Queue) : Type 0 where
  pub asset : MediaAsset
  pub stored : get asset_id k s.assets ≡ some asset
  pub quarantined : asset.status ≡ MediaStatus.quarantined
  pub attempts : asset.dispatch_attempts ≡ n
  pub state : ApiThrottle
  pub found : get throttle_key (state_key k) s.throttles ≡ some state
  pub counted : state.attempts ≡ n
  pub window : state.window_started_at ≡ since

marked_found :
    (now key attempt : ℕ) (reuse : Bool) (ts : List ApiThrottle)
    → get throttle_key key (marked now key reuse attempt ts)
      ≡ some (record ((get_or_create now key ts).0) {
        attempts = attempt;
        window_started_at = if reuse then (get_or_create now key ts).0.window_started_at else now;
        blocked_until = some now;
      })
unfolding marked
marked_found now key attempt reuse ts =
    let (g, e) = get_or_create-stored now key ts in
    get-put throttle_key key _ (get_or_create now key ts).1 {y = (get_or_create now key ts).0} e g

get_or_create_found :
    (now key : ℕ) (ts : List ApiThrottle) (t : ApiThrottle)
    → get throttle_key key ts ≡ some t
    → (get_or_create now key ts).0 ≡ t
unfolding get_or_create
get_or_create_found now key ts t e = rw (get_or_create, e) refl

-- The row of an asset that waits is reserved as it is.
reserve-eq-reserve_row :
    (c : Settings) (state_key : ℕ → ℕ) (now k : ℕ) (s : Queue) (a : MediaAsset)
    → get asset_id k s.assets ≡ some a
    → a.status ≡ MediaStatus.quarantined
    → reserve c state_key now true true k s
      ≡ reserve_row c now (state_key k) true (get throttle_key (state_key k) s.throttles) a s
unfolding reserve
reserve-eq-reserve_row c state_key now k s a g q =
    let b : (not (media_status_eq a.status MediaStatus.quarantined)
          || (not true && backs_off c now a))
        ≡ false =
      rw q refl in
    rw (g, reserve, b) refl

-- What a reservation stores for an asset.
reserve_row-IsIssued :
    (c : Settings) (state_key : ℕ → ℕ) (now k : ℕ) (s : Queue) (a : MediaAsset)
    (state : Option ApiThrottle) (reuse : Bool)
    → get asset_id k s.assets ≡ some a
    → a.status ≡ MediaStatus.quarantined
    → is_reusable c now state a ≡ reuse
    → (not reuse && leb c.max_dispatch_attempts a.dispatch_attempts) ≡ false
    → let n = if reuse then a.dispatch_attempts else a.dispatch_attempts + 1 in
      let r = reserve_row c now (state_key k) true state a s in
      (r.0 ≡ some n)
      × IsIssued state_key k n
          (if reuse then (get_or_create now (state_key k) s.throttles).0.window_started_at else now)
          r.1
unfolding reserve_row
reserve_row-IsIssued c state_key now k s a state reuse g q u b =
    rw (reserve_row, u, b)
      (
        refl,
        record {
          asset = _;
          stored = get-put asset_id k _ s.assets {y = a} (get-key asset_id k s.assets g) g;
          quarantined = q;
          attempts = refl;
          state = _;
          found = marked_found now (state_key k) _ reuse s.throttles;
          counted = refl;
          window = refl;
        },
      )

-- A retry in the reuse window gives the same attempt and does not move the window.
IsIssued-again :
    (c : Settings) (state_key : ℕ → ℕ) (now k n since : ℕ) (s : Queue)
    → 1 ≤ n
    → now < since + c.ambiguity_reuse_seconds * second
    → IsIssued state_key k n since s
    → IsIssued state_key k n since (reserve c state_key now true true k s).1
unfolding is_reusable
IsIssued-again c state_key now k n since s p l v =
    let a = v.asset in
    let t = v.state in
    let state : Option ApiThrottle = get throttle_key (state_key k) s.throttles in
    let s' : Queue = (reserve_row c now (state_key k) true state a s).1 in
    let x = v.attempts in
    let y = v.counted in
    let z = v.window in
    let u : is_reusable c now (get throttle_key (state_key k) s.throttles) a ≡ true =
      rw (v.found, is_reusable) (ground arith) in
    let (_, w) =
      reserve_row-IsIssued c state_key now k s a state true v.stored v.quarantined u refl in
    let e = get_or_create_found now (state_key k) s.throttles t v.found in
    let w' : IsIssued state_key k n since
        (reserve_row c now (state_key k) true (get throttle_key (state_key k) s.throttles) a s).1 =
      subst (λ m. IsIssued state_key k m since s') x
        (subst (λ m. IsIssued state_key k a.dispatch_attempts m s')
          (ap (λ (r : ApiThrottle). r.window_started_at) e ∙ z) w) in
    subst (λ r. IsIssued state_key k n since r.1)
      (sym (reserve-eq-reserve_row c state_key now k s a v.stored v.quarantined)) w'

-- Reservations at the given times, one after the other.
abbrev pub retried : Settings → (ℕ → ℕ) → ℕ → List ℕ → Queue → Queue
retried c state_key k [] s = s
retried c state_key k (t ∷ ts) s = retried c state_key k ts (reserve c state_key t true true k s).1

IsIssued-retried :
    (c : Settings) (state_key : ℕ → ℕ) (k n since : ℕ) (times : List ℕ) (s : Queue)
    → 1 ≤ n
    → All (λ t. t < since + c.ambiguity_reuse_seconds * second) times
    → IsIssued state_key k n since s
    → IsIssued state_key k n since (retried c state_key k times s)
IsIssued-retried c state_key k n since [] s p h v = v
IsIssued-retried c state_key k n since (t ∷ ts) s p h v =
    IsIssued-retried c state_key k n since ts (reserve c state_key t true true k s).1 p h.1
      (IsIssued-again c state_key t k n since s p h.0 v)

-- What an issued attempt gives at the next call.
abbrev pub next_attempt : Settings → ℕ → ℕ → ℕ → Option ℕ
next_attempt c later n since =
    if ltb later (since + c.ambiguity_reuse_seconds * second)
    then some n
    else (if ltb n c.max_dispatch_attempts then some (n + 1) else none)

IsIssued-next_attempt :
    (c : Settings) (state_key : ℕ → ℕ) (later k n since : ℕ) (s : Queue)
    → 1 ≤ n
    → IsIssued state_key k n since s
    → (reserve c state_key later true true k s).0 ≡ next_attempt c later n since
IsIssued-next_attempt c state_key later k n since s p i =
    let given =
      reserve_unknown_outcome c state_key later k s i.asset i.state i.stored i.quarantined i.found
        (i.counted ∙ sym i.attempts) (rw i.attempts p) in
    given
    ∙ (ap (λ m. next_attempt c later m i.state.window_started_at) i.attempts
        ∙ ap (next_attempt c later n) i.window)

-- The attempts of an upload whose calls have unknown outcomes. The first call, which finds no dispatch
-- state, gets the next attempt. However often it is retried within the reuse window of that call, the
-- window does not move: a later call gets the same attempt until it has ended, and after that the
-- attempt that follows, or none when all are used.
pub reserve_retries :
    (c : Settings) (state_key : ℕ → ℕ) (now later k : ℕ) (s : Queue) (a : MediaAsset)
    (times : List ℕ)
    → get asset_id k s.assets ≡ some a
    → a.status ≡ MediaStatus.quarantined
    → get throttle_key (state_key k) s.throttles ≡ none
    → a.dispatch_attempts < c.max_dispatch_attempts
    → All (λ t. t < now + c.ambiguity_reuse_seconds * second) times
    → ((reserve c state_key now true true k s).0 ≡ some (a.dispatch_attempts + 1))
      × ((reserve c state_key later true true k (retried c state_key k (now ∷ times) s)).0
          ≡ next_attempt c later (a.dispatch_attempts + 1) now)
unfolding is_reusable
reserve_retries c state_key now later k s a times g q f l h =
    let n = a.dispatch_attempts + 1 in
    let state : Option ApiThrottle = get throttle_key (state_key k) s.throttles in
    let u : is_reusable c now (get throttle_key (state_key k) s.throttles) a ≡ false =
      rw (f, is_reusable) refl in
    let b : (not false && leb c.max_dispatch_attempts a.dispatch_attempts) ≡ false = ground arith in
    let e = reserve-eq-reserve_row c state_key now k s a g q in
    let (r, w) = reserve_row-IsIssued c state_key now k s a state false g q u b in
    let v : IsIssued state_key k n now (reserve c state_key now true true k s).1 =
      subst (λ z. IsIssued state_key k n now z.1) (sym e) w in
    let i =
      IsIssued-retried c state_key k n now times (reserve c state_key now true true k s).1
        (omega arith) h v in
    (ap (λ z. z.0) e ∙ r, IsIssued-next_attempt c state_key later k n now _ (omega arith) i)

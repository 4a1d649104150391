-- ===== src/Throttle/Window.antt =====
-- The window of `throttle_wait` (backend/signage/services.py): what it admits.
use digital_signage_project.Base.{
  ℕ, ◌+◌, ◌-◌, ◌*◌, ◌≤◌, ◌<◌, ◌≡◌, refl, true, none, some, List, [], ◌∷◌, min, arith, ltb, ◌==◌,
  if◌then◌else◌, length, inl, inr, Bool-cases,
}
use digital_signage_project.Throttle.{ApiThrottle, second, wait_row}

-- A row that is not blocked has counted at most the limit; a block lasts at least to the end of the
-- counted window.
pub record IsValid (limit window_seconds : ℕ) (t : ApiThrottle) : Type 0 where
  pub open_window : t.blocked_until ≡ none → t.attempts ≤ limit
  pub closed_window :
      (until : ℕ)
      → t.blocked_until ≡ some until
      → t.window_started_at + window_seconds * second ≤ until

-- The row that a request leaves is valid again, if its clock does not run backwards.
pub wait_row-IsValid :
    (limit window_seconds now later : ℕ) (t : ApiThrottle)
    → t.window_started_at ≤ now
    → IsValid limit window_seconds t
    → IsValid limit window_seconds (wait_row limit window_seconds now later t).1
unfolding wait_row
wait_row-IsValid limit window_seconds now later t s v = record {
  open_window = λ e. ground (arith, v.open_window);
  closed_window = λ until e. ground (arith, v.closed_window until);
}

-- The requests of a run: the two times that each reads.
abbrev pub Readings : Type 0
Readings = List (ℕ × ℕ)

-- How many requests of a run are let through.
pub admitted : ℕ → ℕ → Readings → ApiThrottle → ℕ
admitted limit window_seconds [] t = 0
admitted limit window_seconds ((now, later) ∷ rs) t =
    let (wait, t') = wait_row limit window_seconds now later t in
    (if wait == 0 then 1 else 0) + admitted limit window_seconds rs t'

abbrev pub Within : ℕ → ApiThrottle → ℕ × ℕ → Type 0
Within window_seconds t r =
    (t.window_started_at ≤ r.0)
    × (r.0 < t.window_started_at + window_seconds * second)
    × (r.1 < t.window_started_at + window_seconds * second)

abbrev pub AllWithin : ℕ → ℕ → Readings → Type 0
AllWithin from to [] = Unit
AllWithin from to (r ∷ rs) = (from ≤ r.0) × (r.0 < to) × (r.1 < to) × AllWithin from to rs

-- A blocked row lets nothing through before its block ends.
admitted_blocked :
    (limit window_seconds : ℕ) (rs : Readings) (t : ApiThrottle) (from until : ℕ)
    → t.blocked_until ≡ some until
    → AllWithin from until rs
    → admitted limit window_seconds rs t ≡ 0
unfolding admitted wait_row
admitted_blocked limit window_seconds [] t from until e w = refl
admitted_blocked limit window_seconds (r ∷ rs) t from until e w =
    ground (arith, admitted_blocked limit window_seconds rs t from until e w.3)

AllWithin-later :
    (from to to' : ℕ) (rs : Readings) → to ≤ to' → AllWithin from to rs → AllWithin from to' rs
AllWithin-later from to to' [] h w = tt
AllWithin-later from to to' (r ∷ rs) h w =
    (omega arith, omega arith, omega arith, AllWithin-later from to to' rs h w.3)

ltb_lem : (a b : ℕ) → ltb a b ≡ true → a < b
ltb_lem a b h = ground arith

module _ (limit window_seconds now later : ℕ) (t : ApiThrottle) (n : t.blocked_until ≡ none)
    (w : now < t.window_started_at + window_seconds * second) where
  wait_row_below :
      t.attempts < limit
      → wait_row limit window_seconds now later t ≡ (0, record t { attempts = t.attempts + 1 })
  unfolding wait_row
  wait_row_below h = ground arith

  wait_row_full :
      t.attempts ≡ limit
      → wait_row limit window_seconds now later t ≡ (
        window_seconds,
        record t {
          attempts = t.attempts + 1;
          blocked_until = some (now + window_seconds * second);
        },
      )
  unfolding wait_row
  wait_row_full h = ground arith

-- Of the requests that arrive before the window of an unblocked row ends, exactly as many are let
-- through as the limit has left, or all if they are fewer.
pub admitted-eq-min :
    (limit window_seconds : ℕ) (rs : Readings) (t : ApiThrottle)
    → 0 < window_seconds
    → t.blocked_until ≡ none
    → t.attempts ≤ limit
    → AllWithin t.window_started_at (t.window_started_at + window_seconds * second) rs
    → admitted limit window_seconds rs t ≡ min (length rs) (limit - t.attempts)
unfolding admitted
admitted-eq-min limit window_seconds [] t p n a w = omega arith
admitted-eq-min limit window_seconds ((now, later) ∷ rs) t p n a w =
    elim (Bool-cases (ltb t.attempts limit)) [
      | inl below ↦ rw (wait_row_below limit window_seconds now later t n w.1 (ground arith)) (
          omega (
            arith,
            admitted-eq-min limit window_seconds rs (record t { attempts = t.attempts + 1 }) p n
                (ground arith) w.3,
            ltb_lem t.attempts limit below,
          ))
      | inr full ↦
          let until = now + window_seconds * second in
          let t' : ApiThrottle = record t {
            attempts = t.attempts + 1;
            blocked_until = some until;
          } in
          let z : admitted limit window_seconds rs t' ≡ 0 =
            admitted_blocked limit window_seconds rs t' t.window_started_at until refl
              (AllWithin-later _ _ until rs (omega arith) w.3) in
          let e : t.attempts ≡ limit = ground arith in
          rw (wait_row_full limit window_seconds now later t n w.1 e, z) (ground arith)
    ]

-- A block ends: the first request after it is let through, and a new window counts it alone.
pub wait_row_recovers :
    (limit window_seconds now later : ℕ) (t : ApiThrottle) (until : ℕ)
    → 1 ≤ limit
    → IsValid limit window_seconds t
    → t.blocked_until ≡ some until
    → until ≤ now
    → now ≤ later
    → let (wait, t') = wait_row limit window_seconds now later t in
      (wait ≡ 0) × (t'.attempts ≡ 1) × (t'.window_started_at ≡ now) × (t'.blocked_until ≡ none)
unfolding wait_row
wait_row_recovers limit window_seconds now later t until p v e u h =
    ground (arith, v.closed_window until)

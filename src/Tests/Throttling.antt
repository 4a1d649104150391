-- ===== src/Tests/Throttling.antt =====
-- Tests of `throttle_wait` (backend/signage/services.py).
use digital_signage_project.Base.{◌≡◌, refl, none, some, [], ◌∷◌, arith}
use digital_signage_project.Throttle.{ApiThrottle, wait_row}
use digital_signage_project.Throttle.Window.{IsValid, admitted, admitted-eq-min, wait_row_recovers}

abbrev counted : ApiThrottle
counted = record { key_hash = 9; attempts = 2; window_started_at = 100; blocked_until = none }

abbrev blocked : ApiThrottle
blocked = record {
  key_hash = 9;
  attempts = 4;
  window_started_at = 100;
  blocked_until = some 60000200;
}

counted-IsValid : IsValid 3 60 counted
counted-IsValid = record { open_window = λ _. omega arith; closed_window = λ until e. absurd (cc) }

blocked-IsValid : IsValid 3 60 blocked
blocked-IsValid = record { open_window = λ e. absurd (cc); closed_window = λ until e. ground arith }

-- Of three requests one is let through.
admitted-eq-min_example : admitted 3 60 ((200, 200) ∷ (210, 210) ∷ (220, 220) ∷ []) counted ≡ 1
admitted-eq-min_example =
    admitted-eq-min 3 60 ((200, 200) ∷ (210, 210) ∷ (220, 220) ∷ []) counted (omega arith) refl
      (omega arith)
      (
        omega arith,
        omega arith,
        omega arith,
        (omega arith, omega arith, omega arith, (omega arith, omega arith, omega arith, tt)),
      )

wait_row_recovers_example :
    let (wait, t) = wait_row 3 60 60000200 60000201 blocked in
    (wait ≡ 0) × (t.attempts ≡ 1) × (t.window_started_at ≡ 60000200) × (t.blocked_until ≡ none)
wait_row_recovers_example =
    wait_row_recovers 3 60 60000200 60000201 blocked 60000200 (omega arith) blocked-IsValid refl
      (omega arith) (omega arith)

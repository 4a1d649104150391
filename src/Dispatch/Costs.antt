-- ===== src/Dispatch/Costs.antt =====
-- `dispatch_media_processing` (backend/signage/media_dispatch.py): the limits under which a task is
-- requested.
use digital_signage_project.Base.{
  ℕ, ◌+◌, ◌≤◌, ◌<◌, ◌≡◌, refl, Option, none, some, List, [], ◌∷◌, arith, leb, ◌==◌, if◌then◌else◌,
  filter, get, get-key, get-append_new, Option-cases, inl, inr, length,
}
use digital_signage_project.Throttle.{ApiThrottle, throttle_key, get_or_create}
use digital_signage_project.Dispatch.{Settings, Queue, recently_dispatched}
use digital_signage_project.Dispatch.Reservation.{IsReserved}

length-filter_absent :
    (key : ℕ) (ts : List ApiThrottle)
    → get throttle_key key ts ≡ none
    → length (filter (λ (t : ApiThrottle). throttle_key t == key) ts) ≡ 0
unfolding get
length-filter_absent key [] h = refl
length-filter_absent key (t ∷ ts) h = ground (arith, length-filter_absent key ts)

pub get_or_create-stored :
    (now key : ℕ) (ts : List ApiThrottle)
    → let (t, table) = get_or_create now key ts in
      (get throttle_key key table ≡ some t) × (t.key_hash ≡ key)
unfolding get_or_create
get_or_create-stored now key ts = elim (Option-cases (get throttle_key key ts)) [
  | inl e ↦
      rw (e, get_or_create) (get-append_new throttle_key ts _ (length-filter_absent key ts e), refl)
  | inr (t, e) ↦ rw (e, get_or_create) (e, get-key throttle_key key ts e)
]

-- The calls that the hourly budget has counted at `now`, by its row before: a window lasts an hour.
abbrev pub spent : ℕ → Option ApiThrottle → ℕ
spent now none = 0
spent now (some t) = if leb (t.window_started_at + 3600000000) now then 0 else t.attempts

-- What holds when the transaction gives attempt `n` to call the service with, from the tables `before`.
pub record WithinLimits (c : Settings) (budget_key now k n : ℕ) (active : Option (ℕ × List ℕ))
    (before s : Queue) : Type 0 where
  pub capacity :
      (count : ℕ) × (ids : List ℕ) × (active ≡ some (count, ids))
      × (count + length (recently_dispatched c now k ids before.assets) < c.max_concurrent_tasks)
  pub paid :
      (b : ApiThrottle) × (get throttle_key budget_key s.throttles ≡ some b)
      × (b.attempts ≡ spent now (get throttle_key budget_key before.throttles) + 1)
      × (b.attempts ≤ c.max_tasks_per_hour)
  pub reserved : IsReserved c now k n s.assets

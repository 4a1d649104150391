-- ===== src/Heartbeats/Forward.antt =====
-- The state of a device under `heartbeat` (backend/signage/api.py): it only moves forward, whatever
-- the order in which heartbeats arrive.
use digital_signage_project.Base.{
  ℕ, ◌≤◌, ◌≡◌, refl, ◌≢◌, Option, none, some, leb, arith, if◌then◌else◌, Bool-cases, inl, inr,
}
use digital_signage_project.Models.{Device}
use digital_signage_project.Heartbeats.{Report}
use digital_signage_project.Heartbeats.Handler.{is_newest, advanced, heard}

-- `a` is not later than `b`; nothing is earlier than every time.
abbrev pub NotAfter : Option ℕ → Option ℕ → Type 0
NotAfter none b = Unit
NotAfter (some t) none = ⊥
NotAfter (some t) (some u) = t ≤ u

pub advanced-NotAfter : (a b : Option ℕ) → NotAfter a (advanced a b)
advanced-NotAfter none b = tt
advanced-NotAfter (some t) none = omega arith
advanced-NotAfter (some t) (some u) = ground arith

advanced_comm : (a b c : Option ℕ) → advanced (advanced a b) c ≡ advanced (advanced a c) b
advanced_comm none none none = refl
advanced_comm none none (some u) = refl
advanced_comm none (some t) none = refl
advanced_comm none (some t) (some u) = ground arith
advanced_comm (some s) none none = refl
advanced_comm (some s) none (some u) = refl
advanced_comm (some s) (some t) none = refl
advanced_comm (some s) (some t) (some u) = ground arith

pub newest-NotAfter : (l : Option ℕ) (t : ℕ) → NotAfter l (if is_newest l t then some t else l)
newest-NotAfter none t = tt
newest-NotAfter (some u) t = elim (Bool-cases (leb u t)) [
  | inl e ↦ rw e (ground arith)
  | inr e ↦ rw e (omega arith)
]

-- The value of a column after two heartbeats.
newest_comm :
    {A : Type 0} (l : Option ℕ) (t u : ℕ) (x a b : A)
    → t ≢ u
    → (if is_newest (if is_newest l t then some t else l) u
        then b
        else (if is_newest l t then a else x))
      ≡ (if is_newest (if is_newest l u then some u else l) t
          then a
          else (if is_newest l u then b else x))
newest_comm none t u x a b h = ground arith
newest_comm (some s) t u x a b h = ground arith

-- Two heartbeats that were recorded at different times leave the same row in whichever order they
-- arrive.
pub heard_comm :
    (now later : ℕ) (r q : Report) (d : Device)
    → r.recorded_at ≢ q.recorded_at
    → heard later q (heard now r d) ≡ heard later r (heard now q d)
unfolding heard
heard_comm now later r q d h =
    let l = d.last_heartbeat_recorded_at in
    let c1 =
      newest_comm l r.recorded_at q.recorded_at l (some r.recorded_at) (some q.recorded_at) h in
    let c2 =
      newest_comm l r.recorded_at q.recorded_at d.app_version r.app_version q.app_version h in
    let c3 =
      newest_comm l r.recorded_at q.recorded_at d.android_version r.android_version
        q.android_version h in
    let c4 = newest_comm l r.recorded_at q.recorded_at d.current_playlist r.playlist q.playlist h in
    let c5 = advanced_comm d.last_sync_at r.last_sync q.last_sync in
    let c6 = advanced_comm d.last_playback_at r.last_playback q.last_playback in
    rw (c1, c2, c3, c4, c5, c6) refl

-- ===== src/Health/Watched.antt =====
-- The alerts that evaluate_device_health.py (backend/signage/management/commands) leaves open.
use digital_signage_project.Base.{
  ◌≢◌, ◌⊎◌, inl, inr, String, false, str_eq, eq_iff, Bool-cases, ℕ, ◌+◌, ◌*◌, ◌≤◌, ◌≡◌, refl, ◌<◌,
  true, Option, none, some, ◌++◌, leb, arith, length,
}
use digital_signage_project.Models.{Device}
use digital_signage_project.Alerts.{AlertTable}
use digital_signage_project.Alerts.Raising.{
  HasOpen, HasCritical, Raised, open_of, critical_of, Raised-append,
}
use digital_signage_project.Health.{
  minutes, hours, Telemetry, last_heartbeat_at, latest_credential_issued_at, last_report, lasts,
  availability_alerts, location_alerts, is_older, sync_alerts, exit_alerts, exit_count,
  in_planned_gap, failure_alerts, failure_count, failures_acknowledged_at, clock_alerts,
}

-- The device should report its location: it is not shut down, is in no planned gap that has not ended,
-- and reports no state that has an alert of its own.
pub record IsLocating (now : ℕ) (d : Device) : Type 0 where
  pub running : d.location_state ≢ "shutdown"
  pub no_gap :
      (d.location_state ≢ "planned_gap")
      ⊎ ((until : ℕ) × (d.location_planned_gap_until ≡ some until) × (until ≤ now))
  pub permitted : d.location_state ≢ "permission_disabled"
  pub enabled : d.location_state ≢ "location_disabled"
  pub genuine : d.location_state ≢ "mock"

-- What is open for a device after an evaluation that began with the alerts `before`.
pub record IsWatched (now : ℕ) (f : Telemetry) (before : AlertTable) (d : Device) (t : AlertTable)
    : Type 0 where
  pub unheard : last_heartbeat_at f d + 24 * hours ≤ now → HasOpen d.id "device_unavailable" t
  pub long_unheard :
      last_heartbeat_at f d + 48 * hours ≤ now → HasCritical d.id "device_unavailable" t
  pub never_synchronized : d.last_sync_at ≡ none → HasCritical d.id "sync_missing_3d" t
  pub long_unsynchronized :
      (at : ℕ)
      → d.last_sync_at ≡ some at
      → at + 72 * hours < now
      → HasCritical d.id "sync_missing_3d" t
  pub unsynchronized :
      (at : ℕ)
      → d.last_sync_at ≡ some at
      → at + 24 * hours < now
      → now ≤ at + 72 * hours
      → HasOpen d.id "sync_missing_1d" t
  pub no_permission :
      d.location_state ≡ "permission_disabled" → HasCritical d.id "location_permission_disabled" t
  pub disabled : d.location_state ≡ "location_disabled" → HasCritical d.id "location_disabled" t
  pub mocked : d.location_state ≡ "mock" → HasCritical d.id "location_mock" t
  pub unlocated :
      IsLocating now d
      → last_report f d + 10 * minutes ≤ now
      → HasCritical d.id "location_unavailable" t
  pub stale :
      IsLocating now d
      → last_report f d + 3 * minutes ≤ now
      → now < last_report f d + 10 * minutes
      → HasOpen d.id "location_stale" t
  pub failures :
      3 ≤ failure_count f d (failures_acknowledged_at d before) → HasOpen d.id "three_ad_failures" t
  pub exits : 3 ≤ exit_count now f d → HasOpen d.id "repeated_abnormal_app_exit" t

differs : {x y : String} → x ≢ y → str_eq x y ≡ false
differs {x} {y} n = elim (Bool-cases (str_eq x y)) [
  | inl e ↦ absurd (n ((eq_iff x y).0 e))
  | inr e ↦ e
]

not_in_gap : (now : ℕ) (d : Device) → IsLocating now d → in_planned_gap now d ≡ false
not_in_gap now d v = elim v.no_gap [
  | inl n ↦ rw (differs n) refl
  | inr (until, e, l) ↦ rw e (ground arith)
]

module _ (now : ℕ) (f : Telemetry) (d : Device) (t : AlertTable) where
  unheard_lem :
      Raised (availability_alerts now f d) t
      → last_heartbeat_at f d + 24 * hours ≤ now
      → HasOpen d.id "device_unavailable" t
  unfolding availability_alerts
  unheard_lem r h =
      let e : lasts (24 * hours) now (last_heartbeat_at f d) ≡ true = ground arith in
      open_of d "device_unavailable" _ _ t (rw e at r).0

  long_unheard_lem :
      Raised (availability_alerts now f d) t
      → last_heartbeat_at f d + 48 * hours ≤ now
      → HasCritical d.id "device_unavailable" t
  unfolding availability_alerts
  long_unheard_lem r h =
      let e : lasts (24 * hours) now (last_heartbeat_at f d) ≡ true = ground arith in
      let e' : lasts (48 * hours) now (last_heartbeat_at f d) ≡ true = ground arith in
      critical_of d "device_unavailable" _ t (rw (e, e') at r).0

  sync_lem :
      Raised (sync_alerts now d) t
      → is_older (24 * hours) now d.last_sync_at ≡ true
      → is_older (72 * hours) now d.last_sync_at ≡ true
      → HasCritical d.id "sync_missing_3d" t
  unfolding sync_alerts
  sync_lem r e e' = critical_of d "sync_missing_3d" _ t (rw (e, e') at r).0

  mocked_lem :
      Raised (location_alerts now f d) t
      → d.location_state ≡ "mock"
      → HasCritical d.id "location_mock" t
  unfolding location_alerts
  mocked_lem r h = critical_of d "location_mock" _ t (rw h at r).0

  permission_lem :
      Raised (location_alerts now f d) t
      → d.location_state ≡ "permission_disabled"
      → HasCritical d.id "location_permission_disabled" t
  unfolding location_alerts
  permission_lem r h = critical_of d "location_permission_disabled" _ t (rw h at r).0

  disabled_lem :
      Raised (location_alerts now f d) t
      → d.location_state ≡ "location_disabled"
      → HasCritical d.id "location_disabled" t
  unfolding location_alerts
  disabled_lem r h = critical_of d "location_disabled" _ t (rw h at r).0

  unlocated_lem :
      Raised (location_alerts now f d) t
      → IsLocating now d
      → last_report f d + 10 * minutes ≤ now
      → HasCritical d.id "location_unavailable" t
  unfolding location_alerts latest_credential_issued_at
  unlocated_lem r v l =
      let e : lasts (10 * minutes) now (last_report f d) ≡ true = ground arith in
      critical_of d "location_unavailable" _ t
        (rw
          (
            differs v.running,
            not_in_gap now d v,
            differs v.permitted,
            differs v.enabled,
            differs v.genuine,
            e,
          )
          at r).0

  stale_lem :
      Raised (location_alerts now f d) t
      → IsLocating now d
      → last_report f d + 3 * minutes ≤ now
      → now < last_report f d + 10 * minutes
      → HasOpen d.id "location_stale" t
  unfolding location_alerts latest_credential_issued_at
  stale_lem r v l m =
      let e : lasts (10 * minutes) now (last_report f d) ≡ false = ground arith in
      let e' : lasts (3 * minutes) now (last_report f d) ≡ true = ground arith in
      open_of d "location_stale" _ _ t
        (rw
          (
            differs v.running,
            not_in_gap now d v,
            differs v.permitted,
            differs v.enabled,
            differs v.genuine,
            e,
            e',
          )
          at r).0

  failures_lem :
      (before : AlertTable)
      → Raised (failure_alerts f d before) t
      → 3 ≤ failure_count f d (failures_acknowledged_at d before)
      → HasOpen d.id "three_ad_failures" t
  unfolding failure_alerts
  failures_lem before r h =
      let e : leb 3 (failure_count f d (failures_acknowledged_at d before)) ≡ true = ground arith in
      open_of d "three_ad_failures" _ _ t (rw e at r).0

  day_lem :
      Raised (sync_alerts now d) t
      → is_older (24 * hours) now d.last_sync_at ≡ true
      → is_older (72 * hours) now d.last_sync_at ≡ false
      → HasOpen d.id "sync_missing_1d" t
  unfolding sync_alerts
  day_lem r e e' = open_of d "sync_missing_1d" _ _ t (rw (e, e') at r).0

  exits_lem :
      Raised (exit_alerts now f d) t
      → 3 ≤ exit_count now f d
      → HasOpen d.id "repeated_abnormal_app_exit" t
  unfolding exit_alerts
  exits_lem r h =
      let e : leb 3 (exit_count now f d) ≡ true = ground arith in
      open_of d "repeated_abnormal_app_exit" _ _ t (rw e at r).0

older_none : (length now : ℕ) (o : Option ℕ) → o ≡ none → is_older length now o ≡ true
older_none length now o h = rw h refl

older_some :
    (length now : ℕ) (o : Option ℕ) (at : ℕ)
    → o ≡ some at
    → at + length < now
    → is_older length now o ≡ true
older_some length now o at h l = rw h (ground arith)

newer_some :
    (length now : ℕ) (o : Option ℕ) (at : ℕ)
    → o ≡ some at
    → now ≤ at + length
    → is_older length now o ≡ false
newer_some length now o at h l = rw h (ground arith)

pub IsWatched-of :
    (now : ℕ) (f : Telemetry) (before : AlertTable) (d : Device) (t : AlertTable)
    → Raised (clock_alerts now f d) t
    → Raised (failure_alerts f d before) t
    → Raised (exit_alerts now f d) t
    → IsWatched now f before d t
IsWatched-of now f before d t r y x =
    let (a, rest) =
      Raised-append (availability_alerts now f d) (location_alerts now f d ++ sync_alerts now d) t
        r in
    let (l, s) = Raised-append (location_alerts now f d) (sync_alerts now d) t rest in
    record {
      unheard = unheard_lem now f d t a;
      long_unheard = long_unheard_lem now f d t a;
      never_synchronized = λ h.
          sync_lem now f d t s (older_none (24 * hours) now d.last_sync_at h)
            (older_none (72 * hours) now d.last_sync_at h);
      long_unsynchronized = λ at h k.
          sync_lem now f d t s (older_some (24 * hours) now d.last_sync_at at h (omega (arith, k)))
            (older_some (72 * hours) now d.last_sync_at at h k);
      unsynchronized = λ at h k m.
          day_lem now f d t s (older_some (24 * hours) now d.last_sync_at at h k)
            (newer_some (72 * hours) now d.last_sync_at at h m);
      no_permission = permission_lem now f d t l;
      disabled = disabled_lem now f d t l;
      mocked = mocked_lem now f d t l;
      unlocated = unlocated_lem now f d t l;
      stale = stale_lem now f d t l;
      failures = failures_lem now f d t before y;
      exits = exits_lem now f d t x;
    }

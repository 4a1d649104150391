-- ===== src/Health/Evaluated.antt =====
-- The run of evaluate_device_health.py (backend/signage/management/commands) over the fleet.
use digital_signage_project.Base.{
  ℕ, ◌+◌, ◌*◌, ◌≡◌, refl, ◌<◌, false, List, [], ◌∷◌, leb, arith, filter, All, ok,
}
use digital_signage_project.Models.{Device}
use digital_signage_project.Alerts.{AlertTable}
use digital_signage_project.Alerts.Laws.{IsValid}
use digital_signage_project.Alerts.Raising.{Wanted, Raised, raise_alerts, IsRaised}
use digital_signage_project.Health.{
  minutes, hours, Telemetry, last_heartbeat_at, latest_credential_issued_at, last_report, lasts,
  availability_alerts, location_alerts, is_older, sync_alerts, failures_acknowledged_at,
  failure_count, failure_alerts, exit_alerts, exit_count, is_active, is_failure_alert, clock_alerts,
  evaluate_device, evaluate_devices, evaluate_health,
}

module _ (now : ℕ) (f : Telemetry) where
  -- What an evaluation of the devices leaves of the alerts.
  record IsEvaluated (ds : List Device) (t u : AlertTable) : Type 0 where
    valid : IsValid u
    clocks : All (λ d. Raised (clock_alerts now f d) u) ds
    exits : All (λ d. Raised (exit_alerts now f d) u) ds
    failures : All (λ d. Raised (failure_alerts f d t) u) ds
    acknowledged :
        (d : Device) → filter (is_failure_alert d) u.rows ≡ filter (is_failure_alert d) t.rows
    kept : (x : Wanted) → IsRaised x t → IsRaised x u

  -- Nothing is to be reported of the device.
  pub record IsHealthy (t : AlertTable) (d : Device) : Type 0 where
    pub heard : now < last_heartbeat_at f d + 24 * hours
    pub located : now < last_report f d + 3 * minutes
    pub trusted : d.location_state ≡ "fresh"
    pub synchronized : is_older (24 * hours) now d.last_sync_at ≡ false
    pub plays : failure_count f d (failures_acknowledged_at d t) < 3
    pub runs : exit_count now f d < 3

  healthy_clocks : (t : AlertTable) (d : Device) → IsHealthy t d → clock_alerts now f d ≡ []
  unfolding availability_alerts location_alerts sync_alerts latest_credential_issued_at
  healthy_clocks t d h =
      let a : lasts (24 * hours) now (last_heartbeat_at f d) ≡ false =
        (let z = h.heard in ground arith) in
      let b : lasts (10 * minutes) now (last_report f d) ≡ false =
        (let z = h.located in ground arith) in
      let c : lasts (3 * minutes) now (last_report f d) ≡ false =
        (let z = h.located in ground arith) in
      rw (a, h.trusted, b, c, h.synchronized) refl

  healthy_lem : (t : AlertTable) (d : Device) → IsHealthy t d → evaluate_device now f d t ≡ ok t
  unfolding evaluate_device raise_alerts failure_alerts exit_alerts
  healthy_lem t d h =
      let a : leb 3 (failure_count f d (failures_acknowledged_at d t)) ≡ false =
        (let z = h.plays in ground arith) in
      let b : leb 3 (exit_count now f d) ≡ false = (let z = h.runs in ground arith) in
      rw (healthy_clocks t d h, a, b) refl

  healthy_all :
      (t : AlertTable) (ds : List Device)
      → All (IsHealthy t) ds
      → evaluate_devices now f ds t ≡ ok t
  unfolding evaluate_devices
  healthy_all t [] h = refl
  healthy_all t (d ∷ ds) h = rw (healthy_lem t d h.0) (healthy_all t ds h.1)

  -- There are no false alarms: while every active device is healthy, an evaluation changes no alert.
  pub evaluate_health_quiet :
      (t : AlertTable)
      → All (IsHealthy t) (filter is_active f.devices)
      → evaluate_health now f t ≡ ok t
  unfolding evaluate_health
  evaluate_health_quiet t h = healthy_all t (filter is_active f.devices) h

-- ===== src/Health.antt =====
-- The evaluation of the fleet's health: management/commands/evaluate_device_health.py (under
-- backend/signage). Times are microseconds.
pub mod Watched
pub mod Evaluated
use digital_signage_project.Base.{
  ℕ, ◌+◌, ◌*◌, String, Bool, true, false, not, ◌&&◌, ◌||◌, Option, none, some, List, [], ◌∷◌, ◌++◌,
  map, max, ltb, leb, ◌==◌, if◌then◌else◌, str_eq, opt_eq, is_none, is_some, filter, first_by, get,
  length, to_set, Result, ok, err, ◌>>=◌,
}
use digital_signage_project.Models.{
  Device, DeviceStatus, device_status_eq, device_id, DeviceCredential, PlaybackBatch, PlaybackEvent,
  PlaybackStatus, playback_status_eq, batch_id, OperationalEvent, OperationalKind, operational_id,
}
use digital_signage_project.Alerts.{Severity, Alert, AlertTable}
use digital_signage_project.Alerts.Raising.{Wanted, wanted, when, raise_alerts}

abbrev pub minutes : ℕ
minutes = 60 * 1000000

abbrev pub hours : ℕ
hours = 60 * minutes

-- The tables that the command reads.
pub record Telemetry : Type 0 where
  pub devices : List Device
  pub credentials : List DeviceCredential
  pub batches : List PlaybackBatch
  pub events : List PlaybackEvent
  pub operational : List OperationalEvent

-- `Max(...)`
abbrev pub latest : List ℕ → Option ℕ
latest [] = none
latest (t ∷ ts) = elim (latest ts) [ none ↦ some t | some u ↦ some (max t u) ]

-- `latest_credential_issued_at`
unfoldable pub latest_credential_issued_at : Telemetry → Device → Option ℕ
latest_credential_issued_at f d = latest (
    map (λ (c : DeviceCredential). c.created_at)
      (filter (λ (c : DeviceCredential). c.device == d.id) f.credentials))

-- `a or b or c`
abbrev pub or_default : Option ℕ → Option ℕ → ℕ → ℕ
or_default (some a) b c = a
or_default none (some b) c = b
or_default none none c = c

-- `last_heartbeat_at`
abbrev pub last_heartbeat_at : Telemetry → Device → ℕ
last_heartbeat_at f d = or_default d.last_seen_at (latest_credential_issued_at f d) d.created_at

abbrev pub severity_of : Bool → Severity
severity_of severe = if severe then Severity.critical else Severity.warning

-- `now - at >= length`
abbrev pub lasts : ℕ → ℕ → ℕ → Bool
lasts length now at = leb (at + length) now

unfoldable pub availability_alerts : ℕ → Telemetry → Device → List Wanted
availability_alerts now f d =
    let severe = lasts (48 * hours) now (last_heartbeat_at f d) in
    when (lasts (24 * hours) now (last_heartbeat_at f d)) (
      wanted d "device_unavailable" (severity_of severe) (
        if severe
        then "Device has not sent a heartbeat for 48 hours."
        else "Device has not sent a heartbeat for 24 hours."))

-- `last_report`
abbrev pub last_report : Telemetry → Device → ℕ
last_report f d =
    or_default d.last_location_reported_at (latest_credential_issued_at f d) d.created_at

-- A planned gap that has not ended.
abbrev pub in_planned_gap : ℕ → Device → Bool
in_planned_gap now d =
    str_eq d.location_state "planned_gap"
    && (elim d.location_planned_gap_until [ none ↦ true | some t ↦ ltb now t ])

-- `_evaluate_location_health`
unfoldable pub location_alerts : ℕ → Telemetry → Device → List Wanted
location_alerts now f d =
    if str_eq d.location_state "shutdown"
    then []
    else if in_planned_gap now d
    then []
    else if str_eq d.location_state "permission_disabled"
    then wanted d "location_permission_disabled" Severity.critical
        "Device precise-location permission is disabled."
      ∷ []
    else if str_eq d.location_state "location_disabled"
    then wanted d "location_disabled" Severity.critical "Device location services are disabled."
      ∷ []
    else if str_eq d.location_state "mock"
    then wanted d "location_mock" Severity.critical "Device reported a mock location source." ∷ []
    else if lasts (10 * minutes) now (last_report f d)
    then wanted d "location_unavailable" Severity.critical
        "Device has not reported a valid location for ten minutes."
      ∷ []
    else when (lasts (3 * minutes) now (last_report f d))
        (wanted d "location_stale" Severity.warning "Device location report is stale.")

-- `not at or at < now - length`
abbrev pub is_older : ℕ → ℕ → Option ℕ → Bool
is_older length now none = true
is_older length now (some at) = ltb (at + length) now

unfoldable pub sync_alerts : ℕ → Device → List Wanted
sync_alerts now d =
    let severe = is_older (72 * hours) now d.last_sync_at in
    when (is_older (24 * hours) now d.last_sync_at) (
      wanted d (if severe then "sync_missing_3d" else "sync_missing_1d") (severity_of severe) (
        if severe
        then "Retrieve device: no sync for three days."
        else "Device has not synchronized for one day."))

-- `-acknowledged_at`
abbrev pub acknowledged_desc : Alert → Alert → Bool
acknowledged_desc a b = elim a.acknowledged_at [
  | none ↦ false
  | some t ↦ elim b.acknowledged_at [ none ↦ false | some u ↦ ltb u t ]
]

abbrev pub is_failure_alert : Device → Alert → Bool
is_failure_alert d a =
    opt_eq a.device (some d.id) && str_eq a.code "three_ad_failures" && is_some a.acknowledged_at

-- `last_failure_alert.acknowledged_at`
unfoldable pub failures_acknowledged_at : Device → AlertTable → Option ℕ
failures_acknowledged_at d t =
    elim (first_by acknowledged_desc (filter (is_failure_alert d) t.rows)) [
      | none ↦ none
      | some a ↦ a.acknowledged_at
    ]

-- A failed playback of the device, after the time of the acknowledgement.
abbrev pub is_failure : List PlaybackBatch → Device → Option ℕ → PlaybackEvent → Bool
is_failure batches d since e =
    (elim (get batch_id e.batch batches) [ none ↦ false | some b ↦ b.device == d.id ])
    && playback_status_eq e.evidence.status PlaybackStatus.failed
    && (elim since [ none ↦ true | some t ↦ ltb t e.evidence.started_at ])

-- `failures`
unfoldable pub failure_count : Telemetry → Device → Option ℕ → ℕ
failure_count f d since = length (filter (is_failure f.batches d since) f.events)

unfoldable pub failure_alerts : Telemetry → Device → AlertTable → List Wanted
failure_alerts f d t = when (leb 3 (failure_count f d (failures_acknowledged_at d t))) (
    wanted d "three_ad_failures" Severity.warning
      "Device reported at least three advertisement failures.")

abbrev pub is_abnormal_exit : OperationalKind → Bool
is_abnormal_exit OperationalKind.abnormal_app_exit = true
is_abnormal_exit _ = false

-- `abnormal_app_exits`
abbrev pub is_recent_exit : ℕ → Device → OperationalEvent → Bool
is_recent_exit now d e =
    e.device == d.id && is_abnormal_exit e.kind && leb now (e.received_at + 24 * hours)

unfoldable pub exit_count : ℕ → Telemetry → Device → ℕ
exit_count now f d =
    length (to_set (map operational_id (filter (is_recent_exit now d) f.operational)))

unfoldable pub exit_alerts : ℕ → Telemetry → Device → List Wanted
exit_alerts now f d = when (leb 3 (exit_count now f d)) (
    wanted d "repeated_abnormal_app_exit" Severity.warning
      "Device reported at least three abnormal application exits within 24 hours.")

abbrev pub is_active : Device → Bool
is_active d = device_status_eq d.status DeviceStatus.active

abbrev pub is_known : Telemetry → ℕ → Bool
is_known f k = is_some (get device_id k f.devices)

-- The calls before the first query of the alerts.
abbrev pub clock_alerts : ℕ → Telemetry → Device → List Wanted
clock_alerts now f d = availability_alerts now f d ++ (location_alerts now f d ++ sync_alerts now d)

-- The body of the loop.
unfoldable pub evaluate_device : ℕ → Telemetry → Device → AlertTable → Result AlertTable
evaluate_device now f d t = raise_alerts (is_known f) now (clock_alerts now f d) t >>= λ t1.
    raise_alerts (is_known f) now (failure_alerts f d t1) t1 >>= λ t2.
    raise_alerts (is_known f) now (exit_alerts now f d) t2

-- The loop over the active devices.
unfoldable pub evaluate_devices : ℕ → Telemetry → List Device → AlertTable → Result AlertTable
evaluate_devices now f [] t = ok t
evaluate_devices now f (d ∷ ds) t = evaluate_device now f d t >>= λ u. evaluate_devices now f ds u

-- `Command.handle`
unfoldable pub evaluate_health : ℕ → Telemetry → AlertTable → Result AlertTable
evaluate_health now f t = evaluate_devices now f (filter is_active f.devices) t

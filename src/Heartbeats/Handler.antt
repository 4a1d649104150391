-- ===== src/Heartbeats/Handler.antt =====
-- The handler `heartbeat` (backend/signage/api.py): the row of the device and the alerts.
use digital_signage_project.Base.{
  ℕ, ◌*◌, Bool, true, false, not, ◌&&◌, Option, none, some, List, [], ◌∷◌, ◌++◌, ltb, leb,
  if◌then◌else◌, str_eq, is_some, get, put, Result, ok, Error, ◌>>=◌, or_raise,
}
use digital_signage_project.Models.{Device, device_id, HardwareQualification}
use digital_signage_project.Alerts.{Severity}
use digital_signage_project.Alerts.Raising.{Wanted, wanted, when, raise_alerts}
use digital_signage_project.Wire.{Fields}
use digital_signage_project.Wire.Reading.{Readers, Conversions, optional_json_boolean}
use digital_signage_project.Heartbeats.{Limits, Monitor, Report, parse_report}

-- `stored is None or reported >= stored`
abbrev pub is_newest : Option ℕ → ℕ → Bool
is_newest none t = true
is_newest (some u) t = leb u t

-- The later of the stored and the reported time.
abbrev pub advanced : Option ℕ → Option ℕ → Option ℕ
advanced stored none = stored
advanced none (some t) = some t
advanced (some u) (some t) = if ltb u t then some t else some u

-- A column that only the newest heartbeat sets.
abbrev pub newest_or {ℓ} : {A : Type ℓ} → Device → Report → A → A → A
newest_or d r reported stored =
    if is_newest d.last_heartbeat_recorded_at r.recorded_at then reported else stored

-- The row that is saved.
unfoldable pub heard : ℕ → Report → Device → Device
heard now r d = record d {
  last_seen_at = some now;
  last_heartbeat_recorded_at = newest_or d r (some r.recorded_at) d.last_heartbeat_recorded_at;
  app_version = newest_or d r r.app_version d.app_version;
  android_version = newest_or d r r.android_version d.android_version;
  current_playlist = newest_or d r r.playlist d.current_playlist;
  last_sync_at = advanced d.last_sync_at r.last_sync;
  last_playback_at = advanced d.last_playback_at r.last_playback;
}

abbrev pub gigabyte : ℕ
gigabyte = 1024 * 1024 * 1024

-- The battery is known to be at most `limit` percent.
abbrev pub is_low : ℕ → Option ℕ → Bool
is_low limit none = false
is_low limit (some p) = leb p limit

abbrev pub may_overheat : HardwareQualification → Bool
may_overheat q = q.approved_for_pilot && q.thermal_passed

abbrev pub hardware_id : HardwareQualification → ℕ
hardware_id q = q.id

-- The device has a hardware on which the temperature is trusted.
unfoldable pub is_qualified : List HardwareQualification → Device → Bool
is_qualified table d = elim d.hardware_qualification [
  | none ↦ false
  | some k ↦ elim (get hardware_id k table) [ none ↦ false | some q ↦ may_overheat q ]
]

abbrev pub is_hot : Conversions → ℕ → Option ℕ → Bool
is_hot conv limit none = false
is_hot conv limit (some t) = conv.reaches limit t

-- The calls of `open_or_escalate_alert`.
abbrev pub storage_alerts : Report → Device → List Wanted
storage_alerts r d =
    when (ltb r.free_storage (2 * gigabyte))
      (wanted d "low_storage" Severity.warning "Device has less than 2 GB of free storage.")

abbrev pub battery_alerts : Report → Device → List Wanted
battery_alerts r d =
    let severe = is_low 10 r.battery_percent in
    when (is_low 20 r.battery_percent) (
      wanted d "low_battery" (if severe then Severity.critical else Severity.warning) (
        if severe
        then "Device battery is at or below 10%."
        else "Device battery is at or below 20%."))

abbrev pub version_alerts : Limits → Report → Device → List Wanted
version_alerts limits r d = when (not (str_eq r.app_version limits.required_app_version)) (
    wanted d "outdated_app" Severity.warning
      "Device application version does not match the required version.")

abbrev pub heat_alerts :
    Conversions → Limits → List HardwareQualification → Report → Device → List Wanted
heat_alerts conv limits qualifications r d =
    when (is_qualified qualifications d && is_hot conv limits.overheat_celsius r.temperature) (
      wanted d "overheating" Severity.critical
        "Device reported a temperature above the safe threshold.")

unfoldable pub report_alerts :
    Conversions → Limits → List HardwareQualification → Report → Device → List Wanted
report_alerts conv limits qualifications r d =
    storage_alerts r d
    ++ (battery_alerts r d
        ++ (version_alerts limits r d ++ heat_alerts conv limits qualifications r d))

abbrev pub is_registered : List Device → ℕ → Bool
is_registered devices k = is_some (get device_id k devices)

-- `heartbeat` of the device that has been authenticated
unfoldable pub heartbeat :
    Readers → Conversions → Limits → ℕ → ℕ → Fields → Monitor → Result Monitor
heartbeat lib conv limits now authenticated body s = do
  r ← parse_report lib conv now body s.playlists
  d ← or_raise (get device_id authenticated s.devices) Error.does_not_exist
  external_power ← optional_json_boolean "external_power" body
  charging ← optional_json_boolean "charging" body
  alerts ←
      raise_alerts (is_registered s.devices) now (report_alerts conv limits s.qualifications r d)
        s.alerts
  ok (record s {
    devices = put device_id (heard now r d) s.devices;
    heartbeats =
        s.heartbeats
        ++ record {
          device = d.id;
          received_at = now;
          external_power = external_power;
          charging = charging;
          report = r;
        }
          ∷ [];
    alerts = alerts;
  })

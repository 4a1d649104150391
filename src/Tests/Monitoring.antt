-- ===== src/Tests/Monitoring.antt =====
-- Tests of `heartbeat` (backend/signage/api.py) and of evaluate_device_health.py
-- (backend/signage/management/commands).
use digital_signage_project.Base.{
  ℕ, ℤ, pos, ◌≡◌, refl, String, true, false, Option, none, some, [], ◌∷◌, arith, first_by, get, put,
  ok,
}
use digital_signage_project.Models.{Device, DeviceStatus}
use digital_signage_project.Alerts.{
  AlertTable, open_alert_for, open_alert, open_or_escalate_alert, insert_or_load, load_raced,
  escalate, create_alert,
}
use digital_signage_project.Alerts.Laws.{IsValid}
use digital_signage_project.Alerts.Raising.{raise_alerts}
use digital_signage_project.Wire.{Json, boolean, int, text, Fields, end, entry}
use digital_signage_project.Wire.Texts.{lstrip_text, rstrip_text, strip_text, text_length}
use digital_signage_project.Wire.Reading.{
  Conversions, parse_required_datetime, required_short_string, required_json_boolean,
  optional_json_boolean,
}
use digital_signage_project.Health.{
  Telemetry, failures_acknowledged_at, failure_count, exit_count, evaluate_health,
}
use digital_signage_project.Health.Evaluated.{IsHealthy, evaluate_health_quiet}
use digital_signage_project.Heartbeats.{
  Report, Limits, Monitor, parse_free_storage, parse_battery, parse_temperature, parse_playlist,
  parse_optional_time, parse_report,
}
use digital_signage_project.Heartbeats.Handler.{heard, is_qualified, report_alerts, heartbeat}
use digital_signage_project.Heartbeats.Forward.{heard_comm}
use digital_signage_project.Heartbeats.Recorded.{IsRecorded, heartbeat-IsRecorded}
use digital_signage_project.Tests.Rows.{device, returned}
use digital_signage_project.Tests.Players.{readers}

abbrev pub no_alerts : AlertTable
no_alerts = record { rows = []; next_id = 1 }

pub no_alerts-IsValid : IsValid no_alerts
no_alerts-IsValid = record {
  fresh = tt;
  distinct = λ k. ground arith;
  unique = λ d c. ground arith;
}

-- A device that has not been heard of since its creation.
abbrev silent : Device
silent = device 3 DeviceStatus.active

abbrev telemetry : Device → Telemetry
telemetry d = record {
  devices = d ∷ [];
  credentials = [];
  batches = [];
  events = [];
  operational = [];
}

abbrev today : ℕ
today = 900000000000

abbrev healthy : Device
healthy = record silent {
  last_seen_at = some 899990000000;
  last_location_reported_at = some 899990000000;
  location_state = "fresh";
  last_sync_at = some 899000000000;
}

healthy-IsHealthy : IsHealthy today (telemetry healthy) no_alerts healthy
unfolding failure_count exit_count failures_acknowledged_at
healthy-IsHealthy = record {
  heard = omega arith;
  located = omega arith;
  trusted = refl;
  synchronized = refl;
  plays = ground arith;
  runs = ground arith;
}

evaluate_health_quiet_example : evaluate_health today (telemetry healthy) no_alerts ≡ ok no_alerts
evaluate_health_quiet_example =
    evaluate_health_quiet today (telemetry healthy) no_alerts (healthy-IsHealthy, tt)

-- Conversions of integers.
abbrev to_natural : Json → Option ℤ
to_natural (int n) = some (pos n)
to_natural _ = none

abbrev pub conversions : Conversions
conversions = record {
  to_int = to_natural;
  to_uuid = λ v. none;
  to_decimal = λ v. none;
  is_finite = λ x. true;
  in_range = λ l u x. true;
  quantize = λ places x. none;
  reaches = λ bound x. false;
}

abbrev limits : Limits
limits = record { required_app_version = "1.0"; overheat_celsius = 60 }

abbrev heartbeat_body : Fields
heartbeat_body = entry "recorded_at" (text "08:00:00") (
    entry "app_version" (text "1.0") (
      entry "android_version" (text "14") (
        entry "screen_on" (boolean true)
          (entry "playback_active" (boolean true) (entry "battery_percent" (int 5) end)))))

abbrev monitor : Monitor
monitor = record {
  devices = silent ∷ [];
  qualifications = [];
  playlists = [];
  heartbeats = [];
  alerts = no_alerts;
}

abbrev after_heartbeat : Monitor
unfolding heartbeat
after_heartbeat =
    returned (heartbeat readers conversions limits 120000000 3 heartbeat_body monitor) monitor

heartbeat-IsRecorded_example :
    IsRecorded readers conversions limits 120000000 3 heartbeat_body monitor after_heartbeat
unfolding heartbeat parse_report parse_required_datetime parse_free_storage required_short_string
    lstrip_text rstrip_text strip_text text_length required_json_boolean parse_battery
    parse_temperature parse_playlist parse_optional_time get put optional_json_boolean raise_alerts
    report_alerts open_alert open_or_escalate_alert open_alert_for first_by create_alert escalate
    insert_or_load load_raced heard is_qualified
heartbeat-IsRecorded_example =
    heartbeat-IsRecorded readers conversions limits 120000000 3 heartbeat_body monitor
      after_heartbeat no_alerts-IsValid refl

abbrev report : ℕ → String → Report
report at version = record {
  recorded_at = at;
  free_storage = 0;
  app_version = version;
  android_version = "14";
  screen_on = true;
  playback_active = true;
  battery_percent = none;
  temperature = none;
  playlist = none;
  last_sync = some at;
  last_playback = none;
}

heard_comm_example :
    heard 20 (report 9 "1.1") (heard 10 (report 8 "1.0") silent)
    ≡ heard 20 (report 8 "1.0") (heard 10 (report 9 "1.1") silent)
heard_comm_example =
    heard_comm 10 20 (report 8 "1.0") (report 9 "1.1") silent (λ e. absurd (omega (arith, e)))

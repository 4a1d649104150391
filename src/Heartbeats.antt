-- ===== src/Heartbeats.antt =====
-- `heartbeat` (backend/signage/api.py) and `DeviceHeartbeat` (backend/signage/models.py).
pub mod Handler
pub mod Forward
pub mod Recorded
use digital_signage_project.Base.{
  ℕ, ◌*◌, ◌+◌, ℤ, pos, negsuc, natural, String, Bool, true, false, not, ◌&&◌, ◌||◌, Option, none,
  some, List, [], ◌∷◌, ◌++◌, ltb, leb, ◌==◌, if◌then◌else◌, str_eq, is_some, get, put, Result, ok,
  err, Error, Place, ◌>>=◌, ◌>>◌, raise_if, or_raise,
}
use digital_signage_project.Models.{Device, device_id, Playlist, playlist_id, HardwareQualification}
use digital_signage_project.Alerts.{Severity, AlertTable}
use digital_signage_project.Alerts.Raising.{Wanted, wanted, when, raise_alerts}
use digital_signage_project.Wire.{Json, int, Fields, look_up, is_null, truthy}
use digital_signage_project.Wire.Reading.{
  Readers, Conversions, value_of, future_skew, parse_required_datetime, required_short_string,
  required_json_boolean, optional_json_boolean,
}

-- What a request reports, before its power telemetry is read.
pub record Report : Type 0 where
  pub recorded_at : ℕ
  pub free_storage : ℕ
  pub app_version : String
  pub android_version : String
  pub screen_on : Bool
  pub playback_active : Bool
  pub battery_percent : Option ℕ
  pub temperature : Option ℕ
  pub playlist : Option ℕ
  pub last_sync : Option ℕ
  pub last_playback : Option ℕ

-- `DeviceHeartbeat`; the row has a copy of the report.
pub record DeviceHeartbeat : Type 0 where
  pub device : ℕ
  pub received_at : ℕ
  pub external_power : Option Bool
  pub charging : Option Bool
  pub report : Report

-- The settings REQUIRED_APP_VERSION and DEVICE_OVERHEAT_CELSIUS.
pub record Limits : Type 0 where
  pub required_app_version : String
  pub overheat_celsius : ℕ

pub record Monitor : Type 0 where
  pub devices : List Device
  pub qualifications : List HardwareQualification
  pub playlists : List Playlist
  pub heartbeats : List DeviceHeartbeat
  pub alerts : AlertTable

abbrev pub refused : String → Error
refused = Error.validation_error

-- `request.data.get(field, 0)`
abbrev pub value_or_zero : String → Fields → Json
value_or_zero k body = elim (look_up k body) [ none ↦ int 0 | some v ↦ v ]

module _ (lib : Readers) (conv : Conversions) (now : ℕ) where
  unfoldable pub parse_free_storage : Fields → Result ℕ
  parse_free_storage body = do
    n ←
        or_raise (conv.to_int (value_or_zero "free_storage_bytes" body))
          (refused "Invalid free storage value.")
    or_raise (natural n) (refused "Free storage cannot be negative.")

  abbrev pub as_percentage : ℤ → Option ℕ
  as_percentage (pos n) = if leb n 100 then some n else none
  as_percentage (negsuc n) = none

  -- `battery_percent`
  unfoldable pub parse_battery : Json → Result (Option ℕ)
  parse_battery v =
      if is_null v
      then ok none
      else (or_raise (conv.to_int v) (refused "Invalid battery percentage.") >>= λ n.
          or_raise (as_percentage n) (refused "Battery percentage must be between 0 and 100.")
          >>= λ p. ok (some p))

  -- `temperature`
  unfoldable pub parse_temperature : Json → Result (Option ℕ)
  parse_temperature v =
      if is_null v
      then ok none
      else (or_raise (conv.to_decimal v) (refused "Invalid temperature value.") >>= λ t.
          raise_if (not (conv.is_finite t) || not (conv.in_range (negsuc 49) (pos 150) t))
            (refused "Temperature is outside safe bounds.")
          >> ok (some t))

  -- `reported_playlist`
  unfoldable pub parse_playlist : Json → List Playlist → Result (Option ℕ)
  parse_playlist v playlists =
      if truthy v
      then (or_raise (conv.to_uuid v) (refused "Invalid active playlist ID.") >>= λ k.
          raise_if (not (is_some (get playlist_id k playlists)))
            (refused "Unknown active playlist ID.")
          >> ok (some k))
      else ok none

  unfoldable pub parse_optional_time : String → Fields → Result (Option ℕ)
  parse_optional_time k body =
      if truthy (value_of k body)
      then (parse_required_datetime lib future_skew now (value_of k body) (Place.field k) >>= λ t.
          ok (some t))
      else ok none

  -- The part before the transaction.
  unfoldable pub parse_report : Fields → List Playlist → Result Report
  parse_report body playlists = do
    recorded_at ←
        parse_required_datetime lib future_skew now (value_of "recorded_at" body)
          (Place.field "recorded_at")
    free_storage ← parse_free_storage body
    app_version ← required_short_string "app_version" 32 body
    android_version ← required_short_string "android_version" 32 body
    screen_on ← required_json_boolean "screen_on" body
    playback_active ← required_json_boolean "playback_active" body
    battery_percent ← parse_battery (value_of "battery_percent" body)
    temperature ← parse_temperature (value_of "temperature_celsius" body)
    playlist ← parse_playlist (value_of "active_playlist_id" body) playlists
    last_sync ← parse_optional_time "last_successful_sync_at" body
    last_playback ← parse_optional_time "last_playback_at" body
    ok (record {
      recorded_at = recorded_at;
      free_storage = free_storage;
      app_version = app_version;
      android_version = android_version;
      screen_on = screen_on;
      playback_active = playback_active;
      battery_percent = battery_percent;
      temperature = temperature;
      playlist = playlist;
      last_sync = last_sync;
      last_playback = last_playback;
    })

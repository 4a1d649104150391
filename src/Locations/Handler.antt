-- ===== src/Locations/Handler.antt =====
-- The handler `location_batch` (backend/signage/api.py) and the alerts that it opens.
use digital_signage_project.Base.{
  ℕ, String, Bool, true, false, not, ◌||◌, Option, none, some, List, [], ◌∷◌, ltb, leb,
  if◌then◌else◌, length, str_eq, is_some, get, put, Result, ok, Error, Place, ◌>>=◌, ◌>>◌, raise_if,
  or_raise,
}
use digital_signage_project.Models.{Device, device_id, DeviceAssignment}
use digital_signage_project.Alerts.{Severity, AlertTable}
use digital_signage_project.Alerts.Raising.{Wanted, wanted, raise_alerts}
use digital_signage_project.Credentials.{is_disabled}
use digital_signage_project.Wire.{Json, array, nil, Fields, elements, keys, look_up}
use digital_signage_project.Wire.Texts.{subset}
use digital_signage_project.Wire.Reading.{Readers, Conversions, value_of}
use digital_signage_project.Locations.{Point, Rejection, screen_points}
use digital_signage_project.Locations.Batch.{
  LocationPoint, Progress, State, parse_current, store_points,
}

-- `state_is_newer`
abbrev pub state_is_newer : Device → Option State → Bool
state_is_newer d none = false
state_is_newer d (some c) = elim d.location_state_updated_at [
  | none ↦ true
  | some t ↦ leb t c.reported_at
]

-- The row with the state, if the state is newer.
unfoldable pub with_state : Option State → Device → Device
with_state none d = d
with_state (some c) d =
    if state_is_newer d (some c)
    then record d {
      location_state = c.state;
      location_state_updated_at = some c.reported_at;
      location_planned_gap_until = c.planned_gap_until;
    }
    else d

unfoldable pub located : ℕ → Option State → Bool → Device → Device
located now c new_points d =
    if state_is_newer d c || new_points
    then record (with_state c d) { last_location_reported_at = some now }
    else d

unfoldable pub state_alerts : Device → String → List Wanted
state_alerts d state =
    if str_eq state "permission_disabled"
    then wanted d "location_permission_disabled" Severity.critical
        "Device precise-location permission is disabled."
      ∷ []
    else if str_eq state "location_disabled"
    then wanted d "location_disabled" Severity.critical "Device location services are disabled."
      ∷ []
    else if str_eq state "mock"
    then wanted d "location_mock" Severity.critical "Device reported a mock location source." ∷ []
    else if str_eq state "stale"
    then wanted d "location_stale" Severity.warning "Device location report is stale." ∷ []
    else if str_eq state "unavailable"
    then wanted d "location_unavailable" Severity.critical "Device has no fresh valid location fix."
      ∷ []
    else []

unfoldable pub newer_alerts : Device → Option State → List Wanted
newer_alerts d none = []
newer_alerts d (some c) = if state_is_newer d (some c) then state_alerts d c.state else []

pub record Tracking : Type 0 where
  pub devices : List Device
  pub assignments : List DeviceAssignment
  pub points : List LocationPoint
  pub alerts : AlertTable

pub record LocationReply : Type 0 where
  pub acknowledged_ids : List ℕ
  pub rejections : List Rejection
  pub state_accepted : Bool

-- `request.data.get("points", [])`
abbrev pub points_of : Fields → Json
points_of body = elim (look_up "points" body) [ none ↦ array nil | some v ↦ v ]

abbrev pub as_points : Json → Option (List Json)
as_points (array js) = some (elements js)
as_points _ = none

abbrev pub started : List LocationPoint → List Rejection → Progress
started rows refused = record {
  rows = rows;
  acknowledged = [];
  refused = refused;
  new_points = false;
}

-- The transaction.
unfoldable pub record_locations :
    (List LocationPoint → List LocationPoint)
    → ℕ
    → ℕ
    → Option State
    → List Point
    → List Rejection
    → Tracking
    → Result (Tracking × LocationReply)
record_locations between now key current accepted refused s = do
  d ← or_raise (get device_id key s.devices) Error.does_not_exist
  let result = store_points between d.id s.assignments accepted (started s.points refused)
  alerts ←
      raise_alerts (λ k. is_some (get device_id k s.devices)) now (newer_alerts d current) s.alerts
  ok (
    record s {
      devices = put device_id (located now current result.new_points d) s.devices;
      points = result.rows;
      alerts = alerts;
    },
    record {
      acknowledged_ids = result.acknowledged;
      rejections = result.refused;
      state_accepted = is_some current;
    },
  )

-- `location_batch` of the device that has been authenticated
unfoldable pub location_batch :
    Readers
    → Conversions
    → (List LocationPoint → List LocationPoint)
    → ℕ
    → Device
    → Fields
    → Tracking
    → Result (Tracking × LocationReply)
location_batch lib conv between now device body s = do
  raise_if (is_disabled device)
      (Error.permission_denied "Disabled devices cannot submit locations.")
  raise_if (not (subset (keys body) ("current" ∷ "points" ∷ [])))
      (Error.validation_error "Location batch contains unknown fields.")
  points ←
      or_raise (as_points (points_of body))
        (Error.invalid (Place.field "points") "Use a JSON array.")
  raise_if (ltb 500 (length points))
      (Error.invalid (Place.field "points") "A location batch may contain at most 500 points.")
  current ← parse_current lib now (value_of "current" body)
  screened ← screen_points lib conv now points []
  record_locations between now device.id current screened.0 screened.1 s

-- ===== src/Locations/Batch.antt =====
-- `location_batch`, `_location_point_matches` and `_location_assignment` (backend/signage/api.py),
-- and `DeviceLocationPoint` (backend/signage/models.py).
use digital_signage_project.Base.{
  ℕ, ◌+◌, ◌*◌, int_eq, String, Bool, true, not, ◌&&◌, Option, none, some, List, [], ◌∷◌, ◌++◌, ltb,
  ◌==◌, if◌then◌else◌, str_eq, is_none, get, Result, ok, Error, Place, ◌>>=◌, ◌>>◌, raise_if,
  or_raise,
}
use digital_signage_project.Models.{DeviceAssignment}
use digital_signage_project.Playback.Receipt.{assignment_at}
use digital_signage_project.Wire.{Json, Fields, keys, is_null, truthy}
use digital_signage_project.Wire.Texts.{subset, mem_text}
use digital_signage_project.Wire.Reading.{
  Readers, second, value_of, future_skew, parse_required_datetime, required_short_string,
}
use digital_signage_project.Locations.{Point, Reason, Rejection, rejected, max_age, as_object}

-- `DeviceLocationPoint`; the columns that are reported are those of the point.
pub record LocationPoint : Type 0 where
  pub device : ℕ
  pub assignment : Option ℕ
  pub point : Point

abbrev pub location_id : LocationPoint → ℕ
location_id r = r.point.id

-- `_location_point_matches`
unfoldable pub location_point_matches : LocationPoint → ℕ → Point → Bool
location_point_matches existing device p =
    existing.device == device
    && existing.point.recorded_at == p.recorded_at
    && existing.point.device_recorded_at == p.device_recorded_at
    && int_eq existing.point.latitude p.latitude
    && int_eq existing.point.longitude p.longitude
    && int_eq existing.point.accuracy_m p.accuracy_m
    && str_eq existing.point.provider p.provider
    && str_eq existing.point.source p.source

-- The rows and the answers so far.
pub record Progress : Type 0 where
  pub rows : List LocationPoint
  pub acknowledged : List ℕ
  pub refused : List Rejection
  pub new_points : Bool

-- What follows when a row with the point's identifier is found: of another device, with other values
-- or with the same ones.
unfoldable pub answer_existing :
    ℕ → Point → LocationPoint → List LocationPoint → Progress → Progress
answer_existing device p existing rows s =
    if existing.device == device && location_point_matches existing device p
    then record s { rows = rows; acknowledged = s.acknowledged ++ p.id ∷ [] }
    else record s { rows = rows; refused = s.refused ++ rejected p.id Reason.id_collision }

abbrev pub new_row : ℕ → List DeviceAssignment → Point → LocationPoint
new_row device assignments p = record {
  device = device;
  assignment = assignment_at device p.recorded_at assignments;
  point = p;
}

-- The insertion in its savepoint, where the table is `seen`; a row that has appeared makes it fail.
unfoldable pub insert_point :
    ℕ → List DeviceAssignment → Point → List LocationPoint → Progress → Progress
insert_point device assignments p seen s = elim (get location_id p.id seen) [
  | some raced ↦ answer_existing device p raced seen s
  | none ↦ record {
    rows = seen ++ new_row device assignments p ∷ [];
    acknowledged = s.acknowledged ++ p.id ∷ [];
    refused = s.refused;
    new_points = true;
  }
]

-- One step of the loop; `between` is what other transactions commit before the insertion.
unfoldable pub store_point :
    (List LocationPoint → List LocationPoint)
    → ℕ
    → List DeviceAssignment
    → Point
    → Progress
    → Progress
store_point between device assignments p s = elim (get location_id p.id s.rows) [
  | some existing ↦ answer_existing device p existing s.rows s
  | none ↦ insert_point device assignments p (between s.rows) s
]

unfoldable pub store_points :
    (List LocationPoint → List LocationPoint)
    → ℕ
    → List DeviceAssignment
    → List Point
    → Progress
    → Progress
store_points between device assignments [] s = s
store_points between device assignments (p ∷ ps) s =
    store_points between device assignments ps (store_point between device assignments p s)

-- `current_values`
pub record State : Type 0 where
  pub state : String
  pub reported_at : ℕ
  pub planned_gap_until : Option ℕ

-- LOCATION_STATES
abbrev pub location_states : List String
location_states =
    "initializing" ∷ "fresh" ∷ "stale" ∷ "unavailable" ∷ "planned_gap" ∷ "shutdown"
    ∷ "permission_disabled" ∷ "location_disabled" ∷ "mock" ∷ []

-- MAX_PLANNED_GAP_FUTURE_SKEW
abbrev pub gap_skew : ℕ
gap_skew = 10 * 60 * second

module _ (lib : Readers) (now : ℕ) where
  -- `planned_gap_until`
  unfoldable pub parse_gap : Json → Result (Option ℕ)
  parse_gap v =
      if truthy v
      then (parse_required_datetime lib gap_skew now v (Place.field "planned_gap_until") >>= λ t.
          raise_if (ltb (now + gap_skew) t) (
            Error.invalid (Place.field "planned_gap_until")
              "Planned gaps may not exceed ten minutes.")
          >> ok (some t))
      else ok none

  unfoldable pub parse_state : Fields → Result State
  parse_state fs = do
    raise_if (not (subset (keys fs) ("state" ∷ "reported_at" ∷ "planned_gap_until" ∷ [])))
        (Error.validation_error "Location state contains unknown fields.")
    state ← required_short_string "state" 32 fs
    raise_if (not (mem_text state location_states))
        (Error.invalid (Place.field "current.state") "Unknown location state.")
    reported_at ←
        parse_required_datetime lib future_skew now (value_of "reported_at" fs)
          (Place.field "reported_at")
    raise_if (ltb (reported_at + max_age) now)
        (Error.invalid (Place.field "reported_at") "State is older than 30 days.")
    gap ← parse_gap (value_of "planned_gap_until" fs)
    raise_if (str_eq state "planned_gap" && is_none gap)
        (Error.invalid (Place.field "planned_gap_until") "Planned gaps require an end time.")
    ok (record { state = state; reported_at = reported_at; planned_gap_until = gap })

  unfoldable pub parse_current : Json → Result (Option State)
  parse_current v =
      if is_null v
      then ok none
      else (or_raise (as_object v) (Error.invalid (Place.field "current") "Use a JSON object.")
          >>= λ fs. parse_state fs >>= λ c. ok (some c))

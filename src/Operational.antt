-- ===== src/Operational.antt =====
-- The details of an operational event: `validate_operational_event_details` (backend/signage/api.py).
pub mod Handler
pub mod Stored
use digital_signage_project.Base.{
  ℕ, String, Bool, true, false, not, ◌&&◌, ◌||◌, Option, none, some, List, [], ◌∷◌, ◌++◌, ltb, ◌==◌,
  if◌then◌else◌, str_eq, is_none, is_some, all, get, Result, ok, err, Error, Place, ◌>>=◌, ◌>>◌,
  raise_if, or_raise, bool_eq,
}
use digital_signage_project.Models.{
  Device, device_id, OperationalEvent, OperationalKind, operational_id,
}
use digital_signage_project.Alerts.{Severity, AlertTable}
use digital_signage_project.Alerts.Raising.{Wanted, wanted, raise_alerts}
use digital_signage_project.Credentials.{is_disabled}
use digital_signage_project.Wire.{
  Json, null, boolean, int, negative, real, text, array, object, Fields, end, entry, look_up, keys,
}
use digital_signage_project.Wire.Texts.{text_length, mem_text, subset, same_texts}
use digital_signage_project.Wire.Reading.{
  Readers, Conversions, value_of, as_text, future_skew, parse_required_datetime,
}

-- The codes of `DeviceOperationalEvent.Kind`.
unfoldable pub parse_kind : String → Option OperationalKind
parse_kind s =
    if str_eq s "forced_queue_loss"
    then some OperationalKind.forced_queue_loss
    else if str_eq s "replacement_failed"
    then some OperationalKind.replacement_failed
    else if str_eq s "planned_shutdown"
    then some OperationalKind.planned_shutdown
    else if str_eq s "abnormal_app_exit"
    then some OperationalKind.abnormal_app_exit
    else if str_eq s "location_queue_loss"
    then some OperationalKind.location_queue_loss
    else if str_eq s "location_point_rejected"
    then some OperationalKind.location_point_rejected
    else none

-- ABNORMAL_APP_EXIT_REASONS
abbrev pub exit_reasons : List String
exit_reasons =
    "crash" ∷ "native_crash" ∷ "anr" ∷ "initialization_failure" ∷ "low_memory"
    ∷ "excessive_resource_usage" ∷ "freezer_termination" ∷ []

-- `type(value) is int and value >= 0`
abbrev pub is_natural : Json → Bool
is_natural (int n) = true
is_natural _ = false

abbrev pub field_is_natural : Fields → String → Bool
field_is_natural details k = is_natural (value_of k details)

abbrev pub details_error : String → Error
details_error = Error.invalid (Place.field "details")

-- `details` with the given fields, which are natural numbers.
unfoldable pub check_counts : List String → String → Fields → Result (Unit {0})
check_counts expected message details =
    raise_if
      (not (same_texts (keys details) expected) || not (all (field_is_natural details) expected))
      (details_error message)

abbrev pub is_listed : List String → Json → Bool
is_listed texts v = elim (as_text v) [ none ↦ false | some s ↦ mem_text s texts ]

-- The text is a UUID.
abbrev pub is_uuid_text : Readers → Json → Bool
is_uuid_text lib v = elim (as_text v) [ none ↦ false | some s ↦ is_some (lib.parse_uuid s) ]

abbrev pub is_short_reason : Json → Bool
is_short_reason v = elim (as_text v) [
  | none ↦ false
  | some s ↦ not (str_eq s "") && not (ltb 64 (text_length s))
]

-- `data.get("details", {})`, which has to be an object
abbrev pub as_details : Option Json → Option Fields
as_details none = some end
as_details (some (object fs)) = some fs
as_details (some _) = none

module _ (lib : Readers) (conv : Conversions) where
  -- The tests on the details of each kind; `provided` says that the request has the field.
  unfoldable pub check_details : OperationalKind → Bool → Fields → Result (Unit {0})
  check_details OperationalKind.forced_queue_loss provided details =
      check_counts ("removed_batches" ∷ "estimated_removed_bytes" ∷ "target_removed_bytes" ∷ [])
        "Forced queue loss details must contain non-negative integer removed_batches, estimated_removed_bytes, and target_removed_bytes values."
        details
  check_details OperationalKind.replacement_failed provided details = do
    raise_if (not (same_texts (keys details) ("playlist_id" ∷ "stage" ∷ [])))
        (details_error "Replacement failure details must contain only playlist_id and stage.")
    raise_if (not (is_uuid_text lib (value_of "playlist_id" details)))
        (Error.invalid (Place.field "details.playlist_id") "Use a playlist UUID.")
    raise_if (not (is_listed ("preparation" ∷ "activation" ∷ []) (value_of "stage" details)))
        (Error.invalid (Place.field "details.stage") "Use a recognized replacement stage.")
  check_details OperationalKind.planned_shutdown provided details =
      raise_if (not provided || not (same_texts (keys details) []))
        (details_error "Planned shutdown details must be exactly an empty object.")
  check_details OperationalKind.abnormal_app_exit provided details = do
    raise_if (not (same_texts (keys details) ("reason" ∷ [])))
        (details_error "Abnormal application exit details must contain only a reason.")
    raise_if (not (is_listed exit_reasons (value_of "reason" details)))
        (Error.invalid (Place.field "details.reason") "Use a recognized abnormal exit reason.")
  check_details OperationalKind.location_queue_loss provided details =
      check_counts ("removed_points" ∷ "estimated_removed_bytes" ∷ "retained_points" ∷ [])
        "Location queue loss details must contain non-negative integer removed_points, estimated_removed_bytes, and retained_points."
        details
  check_details OperationalKind.location_point_rejected provided details = do
    raise_if (not (same_texts (keys details) ("point_id" ∷ "reason" ∷ [])))
        (details_error "Location point rejection details are invalid.")
    raise_if (is_none (conv.to_uuid (value_of "point_id" details)))
        (Error.invalid (Place.field "details.point_id") "Use a location point UUID.")
    raise_if (not (is_short_reason (value_of "reason" details)))
        (Error.invalid (Place.field "details.reason") "Use a short rejection reason.")

  -- `validate_operational_event_details`
  unfoldable pub validate_details : OperationalKind → Fields → Result Fields
  validate_details kind body = do
    details ←
        or_raise (as_details (look_up "details" body))
          (details_error "Details must be a JSON object.")
    check_details kind (is_some (look_up "details" body)) details
    ok details

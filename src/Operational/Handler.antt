-- ===== src/Operational/Handler.antt =====
-- `operational_event_matches` and `operational_event` (backend/signage/api.py): how a notice of the player
-- is stored.
use digital_signage_project.Base.{
  ℕ, String, Bool, true, false, not, ◌&&◌, Option, none, some, List, [], ◌∷◌, ◌++◌, ◌==◌,
  if◌then◌else◌, str_eq, is_some, all, get, Result, ok, err, Error, Place, ◌>>=◌, ◌>>◌, raise_if,
  or_raise,
}
use digital_signage_project.Models.{
  Device, device_id, OperationalEvent, OperationalKind, operational_id,
}
use digital_signage_project.Alerts.{Severity, AlertTable}
use digital_signage_project.Alerts.Raising.{Wanted, wanted, raise_alerts}
use digital_signage_project.Credentials.{is_disabled}
use digital_signage_project.Wire.{Json, int, text, Fields, look_up, keys}
use digital_signage_project.Wire.Texts.{subset, same_texts}
use digital_signage_project.Wire.Reading.{
  Readers, Conversions, value_of, as_text, future_skew, parse_required_datetime,
}
use digital_signage_project.Operational.{parse_kind, validate_details}

abbrev pub kind_eq : OperationalKind → OperationalKind → Bool
kind_eq OperationalKind.forced_queue_loss OperationalKind.forced_queue_loss = true
kind_eq OperationalKind.replacement_failed OperationalKind.replacement_failed = true
kind_eq OperationalKind.planned_shutdown OperationalKind.planned_shutdown = true
kind_eq OperationalKind.abnormal_app_exit OperationalKind.abnormal_app_exit = true
kind_eq OperationalKind.location_queue_loss OperationalKind.location_queue_loss = true
kind_eq OperationalKind.location_point_rejected OperationalKind.location_point_rejected = true
kind_eq _ _ = false

-- Equality of the values that validated details can have: integers and texts.
abbrev pub value_eq : Option Json → Option Json → Bool
value_eq (some (int m)) (some (int n)) = m == n
value_eq (some (text s)) (some (text t)) = str_eq s t
value_eq _ _ = false

-- `details == details`: the same keys with equal values, in any order
unfoldable pub same_details : Fields → Fields → Bool
same_details d e =
    same_texts (keys d) (keys e) && all (λ k. value_eq (look_up k d) (look_up k e)) (keys d)

-- `operational_event_matches`
unfoldable pub operational_event_matches : OperationalEvent → OperationalKind → ℕ → Fields → Bool
operational_event_matches e kind recorded_at details =
    kind_eq e.kind kind && e.recorded_at == recorded_at && same_details e.details details

-- A request after its validation.
pub record Notice : Type 0 where
  pub id : ℕ
  pub kind : OperationalKind
  pub recorded_at : ℕ
  pub details : Fields

module _ (lib : Readers) (conv : Conversions) (now : ℕ) where
  abbrev pub kind_of : Json → Option OperationalKind
  kind_of v = elim (as_text v) [ none ↦ none | some s ↦ parse_kind s ]

  unfoldable pub parse_notice : Fields → Result Notice
  parse_notice body = do
    raise_if (not (subset (keys body) ("id" ∷ "kind" ∷ "recorded_at" ∷ "details" ∷ [])))
        (Error.validation_error "Operational event contains unknown fields.")
    kind ←
        or_raise (kind_of (value_of "kind" body))
          (Error.validation_error "Invalid operational event kind.")
    id ←
        or_raise (conv.to_uuid (value_of "id" body))
          (Error.validation_error "A valid operational event ID is required.")
    recorded_at ←
        parse_required_datetime lib future_skew now (value_of "recorded_at" body)
          (Place.field "recorded_at")
    details ← validate_details lib conv kind body
    ok (record { id = id; kind = kind; recorded_at = recorded_at; details = details })

pub record Journal : Type 0 where
  pub devices : List Device
  pub events : List OperationalEvent
  pub alerts : AlertTable

-- What follows when the identifier is taken; `message` says so.
unfoldable pub answer_taken :
    ℕ → Notice → String → OperationalEvent → Journal → Result (Journal × Bool)
answer_taken device n message e s =
    if not (e.device == device)
    then err (Error.permission_denied "Operational event identifier collision.")
    else if operational_event_matches e n.kind n.recorded_at n.details
    then ok (s, true)
    else err (Error.validation_error message)

unfoldable pub notice_alerts : Device → OperationalKind → List Wanted
notice_alerts d OperationalKind.location_queue_loss =
    wanted d "location_queue_loss" Severity.critical
      "Location queue overflow evicted unsent points."
    ∷ []
notice_alerts d OperationalKind.location_point_rejected =
    wanted d "location_point_rejected" Severity.critical
      "The server permanently rejected a location point."
    ∷ []
notice_alerts d _ = []

abbrev pub new_event : ℕ → ℕ → Notice → OperationalEvent
new_event now device n = record {
  id = n.id;
  device = device;
  kind = n.kind;
  recorded_at = n.recorded_at;
  received_at = now;
  details = n.details;
}

-- The insertion where the tables are `seen`, and the alert that follows it; `reloaded` is what the
-- lookup meets after the insertion has failed.
unfoldable pub insert_event : ℕ → Device → Notice → Journal → Journal → Result (Journal × Bool)
insert_event now device n seen reloaded = elim (get operational_id n.id seen.events) [
  | some raced ↦ (elim (get operational_id n.id reloaded.events) [
    | none ↦ err (Error.validation_error "Operational event identifier collision.")
    | some e ↦ answer_taken device.id n "Operational event identifier collision." e reloaded
  ])
  | none ↦
      raise_alerts (λ k. is_some (get device_id k seen.devices)) now (notice_alerts device n.kind)
        seen.alerts
      >>= λ alerts. ok (
        record seen { events = seen.events ++ new_event now device.id n ∷ []; alerts = alerts },
        false,
      )
]

-- `operational_event` of the device that has been authenticated; the result says whether the event was
-- a duplicate. `between` and `after` are what other transactions commit around the insertion.
unfoldable pub operational_event :
    Readers
    → Conversions
    → (Journal → Journal)
    → (Journal → Journal)
    → ℕ
    → Device
    → Fields
    → Journal
    → Result (Journal × Bool)
operational_event lib conv between after now device body s = do
  raise_if (is_disabled device) (Error.permission_denied "Disabled devices cannot submit events.")
  n ← parse_notice lib conv now body
  elim (get operational_id n.id s.events) [
    | some e ↦
        answer_taken device.id n
          "Operational event identifier was already used for different evidence." e s
    | none ↦ insert_event now device n (between s) (after (between s))
  ]

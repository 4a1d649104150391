-- ===== src/Alerts.antt =====
-- Operational alerts: `Alert` (backend/signage/models.py) and `open_or_escalate_alert`
-- (backend/signage/services.py).
pub mod Laws
pub mod Open
pub mod Raising
pub mod Acknowledged
use digital_signage_project.Base.{
  ℕ, ◌+◌, String, Bool, true, false, not, ◌&&◌, Option, none, some, List, [], ◌∷◌, ◌++◌, ltb, ◌==◌,
  if◌then◌else◌, str_eq, opt_eq, is_none, filter, any, first_by, put, Result, ok, err, Error,
}

pub data Severity : Type 0 where
  warning critical : Severity

abbrev pub is_critical : Severity → Bool
is_critical warning = false
is_critical critical = true

pub record Alert : Type 0 where
  pub id : ℕ
  pub created_at : ℕ
  pub device : Option ℕ
  pub code : String
  pub severity : Severity
  pub message : String
  pub acknowledged_at : Option ℕ
  pub acknowledged_by : Option ℕ

-- The table and its sequence of primary keys.
pub record AlertTable : Type 0 where
  pub rows : List Alert
  pub next_id : ℕ

-- `filter(device=device, code=code, acknowledged_at__isnull=True)`
abbrev pub is_open_for : Option ℕ → String → Alert → Bool
is_open_for device code a =
    opt_eq a.device device && str_eq a.code code && is_none a.acknowledged_at

abbrev pub alert_id : Alert → ℕ
alert_id a = a.id

abbrev created_before : Alert → Alert → Bool
created_before a b = ltb a.created_at b.created_at

unfoldable pub open_alert_for : Option ℕ → String → AlertTable → Option Alert
open_alert_for device code t = first_by created_before (filter (is_open_for device code) t.rows)

-- The row that `Alert.objects.create(...)` adds.
abbrev pub new_alert : ℕ → Option ℕ → String → Severity → String → AlertTable → Alert
new_alert now device code severity message t = record {
  id = t.next_id;
  created_at = now;
  device = device;
  code = code;
  severity = severity;
  message = message;
  acknowledged_at = none;
  acknowledged_by = none;
}

abbrev pub insert_alert : Alert → AlertTable → AlertTable
insert_alert a t = record { rows = t.rows ++ a ∷ []; next_id = t.next_id + 1 }

-- `Alert.objects.create(...)` under the two partial unique constraints
unfoldable pub create_alert :
    ℕ → Option ℕ → String → Severity → String → AlertTable → Result (AlertTable × Alert)
create_alert now device code severity message t =
    let a = new_alert now device code severity message t in
    if any (is_open_for device code) t.rows
    then err Error.integrity_error
    else ok (insert_alert a t, a)

abbrev pub raised : Severity → String → Alert → Alert
raised severity message a = record a { severity = severity; message = message }

unfoldable pub escalate : Severity → String → Alert → AlertTable → AlertTable × Alert × Bool
escalate severity message a t =
    if is_critical severity && not (is_critical a.severity)
    then (let a' = raised severity message a in
        (record t { rows = put alert_id a' t.rows }, a', false))
    else (t, a, false)

-- The second lookup, after the insertion has met a raced row.
unfoldable pub load_raced :
    Option ℕ → String → Severity → String → AlertTable → Result (AlertTable × Alert × Bool)
load_raced device code severity message t = elim (open_alert_for device code t) [
  | none ↦ err Error.integrity_error
  | some a ↦ ok (escalate severity message a t)
]

-- The insertion in its savepoint, which sees `seen`; after its failure the lookup sees `reloaded`.
unfoldable pub insert_or_load :
    ℕ
    → Option ℕ
    → String
    → Severity
    → String
    → AlertTable
    → AlertTable
    → Result (AlertTable × Alert × Bool)
insert_or_load now device code severity message seen reloaded =
    elim (create_alert now device code severity message seen) [
      | ok (t', a) ↦ ok (t', a, true)
      | err _ ↦ load_raced device code severity message reloaded
    ]

abbrev pub is_missing : (ℕ → Bool) → Option ℕ → Bool
is_missing known none = false
is_missing known (some d) = not (known d)

-- `between` and `after` are what other transactions commit before the insertion and after its
-- failure; `known` says whether the device's row exists.
unfoldable pub open_or_escalate_alert :
    (ℕ → Bool)
    → (AlertTable → AlertTable)
    → (AlertTable → AlertTable)
    → ℕ
    → Option ℕ
    → String
    → Severity
    → String
    → AlertTable
    → Result (AlertTable × Alert × Bool)
open_or_escalate_alert known between after now device code severity message t =
    if is_missing known device
    then err Error.does_not_exist
    else (elim (open_alert_for device code t) [
      | some a ↦ ok (escalate severity message a t)
      | none ↦ insert_or_load now device code severity message (between t) (after (between t))
    ])

-- `open_alert(device, code, severity, message)` where no other transaction comes in between
unfoldable pub open_alert :
    (ℕ → Bool)
    → ℕ
    → Option ℕ
    → String
    → Severity
    → String
    → AlertTable
    → Result (AlertTable × Alert × Bool)
unfolding open_or_escalate_alert
open_alert known = open_or_escalate_alert known (λ t. t) (λ t. t)

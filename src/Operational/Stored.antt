-- ===== src/Operational/Stored.antt =====
-- How a call of `operational_event` (backend/signage/api.py) ends.
use digital_signage_project.Base.{
  ℕ, ◌≡◌, ◌⊎◌, Bool, true, false, none, some, get, Result, ok, err, Error, is_some,
}
use digital_signage_project.Models.{Device, OperationalEvent, OperationalKind, operational_id}
use digital_signage_project.Alerts.{AlertTable}
use digital_signage_project.Alerts.Laws.{IsValid}
use digital_signage_project.Alerts.Raising.{HasCritical}
use digital_signage_project.Operational.Handler.{
  operational_event_matches, Notice, Journal, new_event,
}

-- The alerts that a notice of the kind calls for.
abbrev pub HasAlarm : ℕ → OperationalKind → AlertTable → Type 0
HasAlarm d OperationalKind.location_queue_loss t = HasCritical d "location_queue_loss" t
HasAlarm d OperationalKind.location_point_rejected t = HasCritical d "location_point_rejected" t
HasAlarm d _ t = Unit {0}

-- The tables `u` are `seen` with the notice.
pub record IsNoted (now : ℕ) (device : Device) (n : Notice) (seen u : Journal) : Type 0 where
  pub stored : get operational_id n.id u.events ≡ some (new_event now device.id n)
  pub kept :
      (k : ℕ) (e : OperationalEvent)
      → get operational_id k seen.events ≡ some e
      → get operational_id k u.events ≡ some e
  pub same_devices : u.devices ≡ seen.devices
  pub valid : IsValid u.alerts
  pub alarm : HasAlarm device.id n.kind u.alerts

-- How a call with the notice ends: the tables `t`, which are `s` or `reloaded`, have the same notice of
-- the device and are left as they are, or the identifier is taken by another one and the call is
-- refused, or the notice is stored.
pub data IsOutcome (now : ℕ) (device : Device) (n : Notice) (s seen reloaded : Journal)
    (r : Result (Journal × Bool)) : Type 0 where
  repeated :
      (t : Journal) (e : OperationalEvent)
      → (t ≡ s) ⊎ (t ≡ reloaded)
      → get operational_id n.id t.events ≡ some e
      → e.device ≡ device.id
      → operational_event_matches e n.kind n.recorded_at n.details ≡ true
      → r ≡ ok (t, true)
      → IsOutcome now device n s seen reloaded r
  refused :
      (error : Error)
      → (is_some (get operational_id n.id s.events) ≡ true)
        ⊎ (is_some (get operational_id n.id seen.events) ≡ true)
      → r ≡ err error
      → IsOutcome now device n s seen reloaded r
  noted :
      (u : Journal)
      → get operational_id n.id s.events ≡ none
      → get operational_id n.id seen.events ≡ none
      → IsNoted now device n seen u
      → r ≡ ok (u, false)
      → IsOutcome now device n s seen reloaded r

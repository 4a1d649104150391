-- ===== src/Tests/Alerting.antt =====
-- Tests of `open_or_escalate_alert` (backend/signage/services.py).
use digital_signage_project.Base.{refl, true, none, some, [], ◌∷◌, OnOk, Returns, arith}
use digital_signage_project.Alerts.{Severity, Alert, AlertTable, open_or_escalate_alert, open_alert}
use digital_signage_project.Alerts.Laws.{IsValid}
use digital_signage_project.Alerts.Open.{
  IsOpened, Keeps, open_or_escalate_alert-IsOpened, open_or_escalate_alert-Returns,
  open_alert_never_lowers,
}

-- One open warning of device 4.
abbrev warned : Alert
warned = record {
  id = 1;
  created_at = 10;
  device = some 4;
  code = "offline";
  severity = Severity.warning;
  message = "The device is offline.";
  acknowledged_at = none;
  acknowledged_by = none;
}

abbrev alerts : AlertTable
alerts = record { rows = warned ∷ []; next_id = 2 }

alerts-IsValid : IsValid alerts
alerts-IsValid = record {
  fresh = (omega arith, tt);
  distinct = λ k. ground arith;
  unique = λ device code. ground arith;
}

open_or_escalate_alert-IsOpened_example : OnOk (IsOpened (some 4) "offline" Severity.critical) (
    open_or_escalate_alert
      (λ _. true)
      (λ t. t)
      (λ t. t)
      20
      (some 4)
      "offline"
      Severity.critical
      "Offline."
      alerts)
open_or_escalate_alert-IsOpened_example =
    open_or_escalate_alert-IsOpened (λ _. true) (λ t. t) (λ t. t) 20 (some 4) "offline"
      Severity.critical "Offline." alerts (λ u v. v) (λ u v. v) alerts-IsValid

open_or_escalate_alert-Returns_example : Returns (
    open_or_escalate_alert
      (λ _. true)
      (λ t. t)
      (λ t. t)
      20
      (some 4)
      "offline"
      Severity.critical
      "Offline."
      alerts)
open_or_escalate_alert-Returns_example =
    open_or_escalate_alert-Returns (λ _. true) (λ t. t) 20 (some 4) "offline" Severity.critical
      "Offline." alerts refl

open_alert_never_lowers_example :
    OnOk
      (Keeps alerts)
      (open_alert (λ _. true) 20 (some 4) "offline" Severity.critical "Offline." alerts)
open_alert_never_lowers_example =
    open_alert_never_lowers (λ _. true) 20 (some 4) "offline" Severity.critical "Offline." alerts
      alerts-IsValid

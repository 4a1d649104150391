-- ===== src/Tests/Notices.antt =====
-- Tests of `operational_event` (backend/signage/api.py): the player reports that its location queue has
-- lost points.
use digital_signage_project.Base.{none, some, [], ◌∷◌}
use digital_signage_project.Models.{Device, DeviceStatus, OperationalKind}
use digital_signage_project.Wire.{text, int, object, Fields, end, entry}
use digital_signage_project.Wire.Reading.{Conversions, as_text}
use digital_signage_project.Operational.Handler.{Notice, Journal}
use digital_signage_project.Tests.Rows.{device}
use digital_signage_project.Tests.Players.{sample_uuid}
use digital_signage_project.Tests.Monitoring.{no_alerts, conversions}

abbrev keyed : Conversions
keyed = record conversions {
  to_uuid = λ v. elim (as_text v) [ none ↦ none | some s ↦ sample_uuid s ];
}

abbrev reporter : Device
reporter = device 3 DeviceStatus.active

abbrev loss : Fields
loss =
    entry "removed_points" (int 4)
      (entry "estimated_removed_bytes" (int 900) (entry "retained_points" (int 20) end))

abbrev loss_body : Fields
loss_body = entry "id" (text "event") (
    entry "kind" (text "location_queue_loss")
      (entry "recorded_at" (text "08:00:00") (entry "details" (object loss) end)))

abbrev queue_loss : Notice
queue_loss = record {
  id = 31;
  kind = OperationalKind.location_queue_loss;
  recorded_at = 100000000;
  details = loss;
}

abbrev journal : Journal
journal = record { devices = reporter ∷ []; events = []; alerts = no_alerts }

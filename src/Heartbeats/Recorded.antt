-- ===== src/Heartbeats/Recorded.antt =====
-- What a call of `heartbeat` (backend/signage/api.py) leaves in the tables.
use digital_signage_project.Base.{
  ◌≤◌, Option, none, ◌⊎◌, [], ◌∷◌, ℕ, ◌*◌, ◌<◌, ◌≡◌, refl, String, true, false, some, List, ◌++◌,
  ltb, arith, str_eq, eq_iff, get, get-key, get-put, All, All-append, ok, >>=-cases, or_raise,
  or_raise-some, ok-injective, subst, Bool-cases, inl, inr, sym, ◌∙◌, ◌≢◌,
}
use digital_signage_project.Models.{Device, device_id, HardwareQualification}
use digital_signage_project.Wire.{Fields}
use digital_signage_project.Wire.Reading.{Readers, Conversions, optional_json_boolean}
use digital_signage_project.Heartbeats.{Report, DeviceHeartbeat, Limits, Monitor, parse_report}
use digital_signage_project.Heartbeats.Handler.{
  heard, gigabyte, is_low, storage_alerts, battery_alerts, version_alerts, heat_alerts,
  report_alerts, is_registered, heartbeat, is_newest, advanced, is_qualified, is_hot, hardware_id,
}
use digital_signage_project.Heartbeats.Forward.{NotAfter, advanced-NotAfter, newest-NotAfter}
use digital_signage_project.Alerts.{Severity, AlertTable, is_missing}
use digital_signage_project.Alerts.Laws.{IsValid}
use digital_signage_project.Alerts.Raising.{
  Wanted, wanted, raise_alerts, raise_alerts-AllRaised, HasOpen, HasCritical, Raised, open_of,
  critical_of, Raised-append, when-All,
}

-- The row of the device before and after a report.
pub record IsForward (now : ℕ) (r : Report) (d d' : Device) : Type 0 where
  pub seen : d'.last_seen_at ≡ some now
  pub heartbeat_forward : NotAfter d.last_heartbeat_recorded_at d'.last_heartbeat_recorded_at
  pub sync_forward : NotAfter d.last_sync_at d'.last_sync_at
  pub playback_forward : NotAfter d.last_playback_at d'.last_playback_at
  pub stale :
      (t : ℕ)
      → d.last_heartbeat_recorded_at ≡ some t
      → r.recorded_at < t
      → (d'.app_version ≡ d.app_version) × (d'.current_playlist ≡ d.current_playlist)
  pub newest :
      NotAfter d.last_heartbeat_recorded_at (some r.recorded_at)
      → (d'.last_heartbeat_recorded_at ≡ some r.recorded_at)
        × (d'.app_version ≡ r.app_version)
        × (d'.android_version ≡ r.android_version)
        × (d'.current_playlist ≡ r.playlist)
  pub sync_reaches : NotAfter r.last_sync d'.last_sync_at
  pub playback_reaches : NotAfter r.last_playback d'.last_playback_at
  pub sync_known : (d'.last_sync_at ≡ d.last_sync_at) ⊎ (d'.last_sync_at ≡ r.last_sync)
  pub playback_known :
      (d'.last_playback_at ≡ d.last_playback_at) ⊎ (d'.last_playback_at ≡ r.last_playback)
  pub same_status : d'.status ≡ d.status
  pub same_pin : d'.kiosk_pin_hash ≡ d.kiosk_pin_hash

is_newest-true : (stored : Option ℕ) (t : ℕ) → NotAfter stored (some t) → is_newest stored t ≡ true
is_newest-true none t h = refl
is_newest-true (some u) t h = ground arith

advanced_reaches : (stored reported : Option ℕ) → NotAfter reported (advanced stored reported)
advanced_reaches stored none = tt
advanced_reaches none (some t) = omega arith
advanced_reaches (some u) (some t) = elim (Bool-cases (ltb u t)) [
  | inl e ↦ rw e (omega arith)
  | inr e ↦ rw e (ground arith)
]

advanced_known :
    (stored reported : Option ℕ)
    → (advanced stored reported ≡ stored) ⊎ (advanced stored reported ≡ reported)
advanced_known stored none = inl refl
advanced_known none (some t) = inr refl
advanced_known (some u) (some t) = elim (Bool-cases (ltb u t)) [
  | inl e ↦ inr (rw e refl)
  | inr e ↦ inl (rw e refl)
]

heard-IsForward : (now : ℕ) (r : Report) (d : Device) → IsForward now r d (heard now r d)
unfolding heard
heard-IsForward now r d = record {
  seen = refl;
  heartbeat_forward = newest-NotAfter d.last_heartbeat_recorded_at r.recorded_at;
  sync_forward = advanced-NotAfter d.last_sync_at r.last_sync;
  playback_forward = advanced-NotAfter d.last_playback_at r.last_playback;
  stale = λ t h l. (rw h (ground arith), rw h (ground arith));
  newest = λ n.
      let e = is_newest-true d.last_heartbeat_recorded_at r.recorded_at n in
      rw e (refl, refl, refl, refl);
  sync_reaches = advanced_reaches d.last_sync_at r.last_sync;
  playback_reaches = advanced_reaches d.last_playback_at r.last_playback;
  sync_known = advanced_known d.last_sync_at r.last_sync;
  playback_known = advanced_known d.last_playback_at r.last_playback;
  same_status = refl;
  same_pin = refl;
}

heard_key : (now : ℕ) (r : Report) (d : Device) → (heard now r d).id ≡ d.id
unfolding heard
heard_key now r d = refl

differs : (x y : String) → x ≢ y → str_eq x y ≡ false
differs x y n = elim (Bool-cases (str_eq x y)) [ inl e ↦ absurd (n ((eq_iff x y).0 e)) | inr e ↦ e ]

-- The alerts that a report of the device `d` asks for.
pub record IsWarned (conv : Conversions) (limits : Limits)
    (qualifications : List HardwareQualification) (r : Report) (d : Device) (t : AlertTable)
    : Type 0 where
  pub storage : r.free_storage < 2147483648 → HasOpen d.id "low_storage" t
  pub battery : (p : ℕ) → r.battery_percent ≡ some p → p ≤ 20 → HasOpen d.id "low_battery" t
  pub empty_battery :
      (p : ℕ) → r.battery_percent ≡ some p → p ≤ 10 → HasCritical d.id "low_battery" t
  pub outdated : r.app_version ≢ limits.required_app_version → HasOpen d.id "outdated_app" t
  pub overheated :
      (j temperature : ℕ) (q : HardwareQualification)
      → d.hardware_qualification ≡ some j
      → get hardware_id j qualifications ≡ some q
      → q.approved_for_pilot ≡ true
      → q.thermal_passed ≡ true
      → r.temperature ≡ some temperature
      → conv.reaches limits.overheat_celsius temperature ≡ true
      → HasCritical d.id "overheating" t

module _ (conv : Conversions) (limits : Limits) (qualifications : List HardwareQualification)
    (r : Report) (d : Device) where
  report_alerts-All :
      (P : Wanted → Type 0)
      → ((code : String) (s : Severity) (m : String) → P (wanted d code s m))
      → All P (report_alerts conv limits qualifications r d)
  unfolding report_alerts
  report_alerts-All P p =
      All-append P (storage_alerts r d)
        (battery_alerts r d
          ++ (version_alerts limits r d ++ heat_alerts conv limits qualifications r d))
        (when-All P d p _ _ _ _)
        (All-append P (battery_alerts r d)
          (version_alerts limits r d ++ heat_alerts conv limits qualifications r d)
          (when-All P d p _ _ _ _)
          (All-append P (version_alerts limits r d) (heat_alerts conv limits qualifications r d)
            (when-All P d p _ _ _ _) (when-All P d p _ _ _ _)))

  warned_of :
      (t : AlertTable)
      → Raised (report_alerts conv limits qualifications r d) t
      → IsWarned conv limits qualifications r d t
  unfolding report_alerts is_qualified
  warned_of t h =
      let (a, h1) = Raised-append (storage_alerts r d) _ t h in
      let (b, h2) = Raised-append (battery_alerts r d) _ t h1 in
      let (c, h3) = Raised-append (version_alerts limits r d) _ t h2 in
      record {
        storage = λ l.
            let e : ltb r.free_storage (2 * gigabyte) ≡ true = ground arith in
            open_of d "low_storage" _ _ t (rw e at a).0;
        battery = λ p f l.
            let e : is_low 20 r.battery_percent ≡ true = rw f (ground arith) in
            open_of d "low_battery" _ _ t (rw e at b).0;
        empty_battery = λ p f l.
            let e : is_low 20 r.battery_percent ≡ true = rw f (ground arith) in
            let e' : is_low 10 r.battery_percent ≡ true = rw f (ground arith) in
            critical_of d "low_battery" _ t (rw (e, e') at b).0;
        outdated = λ n.
            let e : str_eq r.app_version limits.required_app_version ≡ false =
              differs r.app_version limits.required_app_version n in
            open_of d "outdated_app" _ _ t (rw e at c).0;
        overheated = λ j temperature q f g u v x y.
            let e : is_qualified qualifications d ≡ true = rw (is_qualified, f, g, u, v) refl in
            let e' : is_hot conv limits.overheat_celsius r.temperature ≡ true = rw (x, y) refl in
            critical_of d "overheating" _ t (rw (e, e') at h3).0;
      }

-- What a call leaves that returns.
pub record IsRecorded (lib : Readers) (conv : Conversions) (limits : Limits) (now k : ℕ)
    (body : Fields) (s s' : Monitor) : Type 0 where
  pub report : Report
  pub row : Device
  pub reads : parse_report lib conv now body s.playlists ≡ ok report
  pub found : get device_id k s.devices ≡ some row
  pub stored : get device_id k s'.devices ≡ some (heard now report row)
  pub forward : IsForward now report row (heard now report row)
  pub heartbeat : DeviceHeartbeat
  pub added : s'.heartbeats ≡ s.heartbeats ++ heartbeat ∷ []
  pub same_report : heartbeat.report ≡ report
  pub same_device : heartbeat.device ≡ k
  pub received : heartbeat.received_at ≡ now
  pub valid : IsValid s'.alerts
  pub warned : IsWarned conv limits s.qualifications report row s'.alerts

module _ (lib : Readers) (conv : Conversions) (limits : Limits) (now k : ℕ) (body : Fields)
    (s s' : Monitor) where
  -- A call that returns stores one heartbeat more, with the report, for the device. The times of the
  -- device's row do not run back and reach those that are reported; version and playlist are those of
  -- the report if it is the newest, and stay as they are if it is older than the last one. The alerts
  -- that the report asks for are open then: low storage, a low battery, which is critical at 10 percent,
  -- another version than the required one, and a critical one for a temperature that reaches the
  -- threshold on hardware that has passed.
  pub heartbeat-IsRecorded :
      IsValid s.alerts
      → heartbeat lib conv limits now k body s ≡ ok s'
      → IsRecorded lib conv limits now k body s s'
  unfolding heartbeat
  heartbeat-IsRecorded v h = >>=-cases (parse_report lib conv now body s.playlists) _ h (λ r h1 k1.
      >>=-cases (or_raise (get device_id k s.devices) _) _ k1 (λ d h2 k2.
        >>=-cases (optional_json_boolean "external_power" body) _ k2 (λ power h3 k3.
          >>=-cases (optional_json_boolean "charging" body) _ k3 (λ charging h4 k4.
            >>=-cases
              (raise_alerts (is_registered s.devices) now
                (report_alerts conv limits s.qualifications r d) s.alerts)
              _ k4
              (λ alerts h5 k5.
                let f = or_raise-some _ _ h2 in
                let i = get-key device_id k s.devices f in
                let m : is_missing (is_registered s.devices) (some d.id) ≡ false = rw (i, f) refl in
                let (u, e, all) =
                  raise_alerts-AllRaised (is_registered s.devices) now
                    (report_alerts conv limits s.qualifications r d) s.alerts v
                    (report_alerts-All conv limits s.qualifications r d
                      (λ w. is_missing (is_registered s.devices) w.device ≡ false) (λ _ _ _. m)) in
                let q : u ≡ alerts = ok-injective (sym e ∙ h5) in
                subst (IsRecorded lib conv limits now k body s) (ok-injective k5) (record {
                  report = r;
                  row = d;
                  reads = h1;
                  found = f;
                  stored = get-put device_id k (heard now r d) s.devices (heard_key now r d ∙ i) f;
                  forward = heard-IsForward now r d;
                  heartbeat = _;
                  added = refl;
                  same_report = refl;
                  same_device = i;
                  received = refl;
                  valid = subst IsValid q all.valid;
                  warned = warned_of conv limits s.qualifications r d alerts (
                      subst (Raised (report_alerts conv limits s.qualifications r d)) q all.raised);
                }))))))

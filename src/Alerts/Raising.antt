-- ===== src/Alerts/Raising.antt =====
-- Alerts that a request or a command opens one after the other with `open_alert` or
-- `open_or_escalate_alert` (backend/signage/services.py).
use digital_signage_project.Base.{
  ℕ, ◌≡◌, refl, String, Bool, true, false, Option, some, List, [], ◌∷◌, ◌++◌, ap, get, get-key, All,
  OnOk-eq, Result, ok, ◌>>=◌, if◌then◌else◌, subst, sym, ◌∙◌,
}
use digital_signage_project.Models.{Device}
use digital_signage_project.Alerts.{
  Severity, critical, Alert, AlertTable, alert_id, is_open_for, is_missing, open_alert,
}
use digital_signage_project.Alerts.Laws.{IsValid}
use digital_signage_project.Alerts.Open.{
  IsOpened, NeverLowered, Keeps, open_or_escalate_alert-IsOpened, open_or_escalate_alert-Returns,
  open_alert_never_lowers,
}

-- The arguments of one call.
pub record Wanted : Type 0 where
  pub device : Option ℕ
  pub code : String
  pub severity : Severity
  pub message : String

-- A call for a device. A message is given without line breaks.
abbrev pub wanted : Device → String → Severity → String → Wanted
wanted d code severity message = record {
  device = some d.id;
  code = code;
  severity = severity;
  message = message;
}

-- The calls under an `if`.
abbrev pub when : Bool → Wanted → List Wanted
when b w = if b then w ∷ [] else []

unfoldable pub raise_alerts : (ℕ → Bool) → ℕ → List Wanted → AlertTable → Result AlertTable
raise_alerts known now [] t = ok t
raise_alerts known now (w ∷ ws) t =
    open_alert known now w.device w.code w.severity w.message t >>= λ r.
    raise_alerts known now ws r.0

-- The wanted alert is open, and critical if it was wanted so.
pub record IsRaised (w : Wanted) (t : AlertTable) : Type 0 where
  pub row : Alert
  pub stored : get alert_id row.id t.rows ≡ some row
  pub fits : is_open_for w.device w.code row ≡ true
  pub severe : w.severity ≡ critical → row.severity ≡ critical

lowered-IsRaised :
    (w : Wanted) (t u : AlertTable) (a b : Alert)
    → is_open_for w.device w.code a ≡ true
    → (w.severity ≡ critical → a.severity ≡ critical)
    → get alert_id a.id u.rows ≡ some b
    → NeverLowered a b
    → IsRaised w u
lowered-IsRaised w t u a b h s g n = record {
  row = b;
  stored = subst (λ k. get alert_id k u.rows ≡ some b) (sym (get-key alert_id a.id u.rows g)) g;
  fits = rw (n.same_device, n.same_code, n.same_acknowledged) h;
  severe = λ c. ap (λ (x : Alert). x.severity) (n.kept (s c)) ∙ s c;
}

module _ (known : ℕ → Bool) (now : ℕ) where
  -- One call: it returns, opens its alert and keeps the others that are open.
  open_alert-IsRaised :
      (w : Wanted) (t : AlertTable)
      → IsValid t
      → is_missing known w.device ≡ false
      → (r : AlertTable × Alert × Bool) × (open_alert known now w.device w.code w.severity w.message
            t
          ≡ ok r)
        × IsValid r.0
        × IsRaised w r.0
        × ((x : Wanted) → IsRaised x t → IsRaised x r.0)
  unfolding open_alert
  open_alert-IsRaised w t v m =
      let (r, e) =
        open_or_escalate_alert-Returns known (λ u. u) now w.device w.code w.severity w.message t
          m in
      let o : IsOpened w.device w.code w.severity r =
        OnOk-eq _ _
          (open_or_escalate_alert-IsOpened known (λ u. u) (λ u. u) now w.device w.code w.severity
            w.message t (λ u i. i) (λ u i. i) v)
          e in
      let k : Keeps t r =
        OnOk-eq _ _ (open_alert_never_lowers known now w.device w.code w.severity w.message t v)
          e in
      (
        r,
        e,
        o.valid,
        record { row = r.1; stored = o.stored; fits = o.fits; severe = o.severe },
        λ x i.
            let (b, g, n) = k i.row.id i.row i.stored in
            lowered-IsRaised x t r.0 i.row b i.fits i.severe g n,
      )

  -- What a sequence of calls leaves.
  pub record AllRaised (ws : List Wanted) (t u : AlertTable) : Type 0 where
    pub valid : IsValid u
    pub raised : All (λ w. IsRaised w u) ws
    pub kept : (x : Wanted) → IsRaised x t → IsRaised x u

  -- A sequence of calls for devices that exist returns; after it every wanted alert is open, critical
  -- if it was wanted so, and the alerts that were open are open still.
  pub raise_alerts-AllRaised :
      (ws : List Wanted) (t : AlertTable)
      → IsValid t
      → All (λ w. is_missing known w.device ≡ false) ws
      → (u : AlertTable) × (raise_alerts known now ws t ≡ ok u) × AllRaised ws t u
  unfolding raise_alerts
  raise_alerts-AllRaised [] t v m = (t, refl, record { valid = v; raised = tt; kept = λ x i. i })
  raise_alerts-AllRaised (w ∷ ws) t v m =
      let (r, e, v1, i, k) = open_alert-IsRaised w t v m.0 in
      let (u, f, rest) = raise_alerts-AllRaised ws r.0 v1 m.1 in
      (
        u,
        rw (e, raise_alerts) f,
        record {
          valid = rest.valid;
          raised = (rest.kept w i, rest.raised);
          kept = λ x j. rest.kept x (k x j);
        },
      )

-- An open alert of the device, and a critical one.
pub record HasOpen (d : ℕ) (code : String) (t : AlertTable) : Type 0 where
  pub row : Alert
  pub stored : get alert_id row.id t.rows ≡ some row
  pub fits : is_open_for (some d) code row ≡ true

pub record HasCritical (d : ℕ) (code : String) (t : AlertTable) : Type 0 where
  pub row : Alert
  pub stored : get alert_id row.id t.rows ≡ some row
  pub fits : is_open_for (some d) code row ≡ true
  pub severe : row.severity ≡ critical

pub open_of :
    (d : Device) (code : String) (s : Severity) (m : String) (t : AlertTable)
    → IsRaised (wanted d code s m) t
    → HasOpen d.id code t
open_of d code s m t r = record { row = r.row; stored = r.stored; fits = r.fits }

pub critical_of :
    (d : Device) (code m : String) (t : AlertTable)
    → IsRaised (wanted d code critical m) t
    → HasCritical d.id code t
critical_of d code m t r = record {
  row = r.row;
  stored = r.stored;
  fits = r.fits;
  severe = r.severe refl;
}

-- The wanted alerts are open.
abbrev pub Raised : List Wanted → AlertTable → Type 0
Raised ws t = All (λ w. IsRaised w t) ws

pub Raised-append :
    (ws vs : List Wanted) (t : AlertTable) → Raised (ws ++ vs) t → Raised ws t × Raised vs t
Raised-append [] vs t h = (tt, h)
Raised-append (w ∷ ws) vs t h = let (a, b) = Raised-append ws vs t h.1 in ((h.0, a), b)

pub if-All :
    (P : Wanted → Type 0) (b : Bool) (ws vs : List Wanted)
    → All P ws
    → All P vs
    → All P (if b then ws else vs)
if-All P true ws vs h k = h
if-All P false ws vs h k = k

-- Every alert is one of the device.
module _ (P : Wanted → Type 0) (d : Device)
    (p : (code : String) (s : Severity) (m : String) → P (wanted d code s m)) where
  pub when-All :
      (b : Bool) (code : String) (s : Severity) (m : String) → All P (when b (wanted d code s m))
  when-All b code s m = if-All P b _ [] (p code s m, tt) tt

  pub one-All : (code : String) (s : Severity) (m : String) → All P (wanted d code s m ∷ [])
  one-All code s m = (p code s m, tt)

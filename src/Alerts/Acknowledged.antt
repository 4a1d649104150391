-- ===== src/Alerts/Acknowledged.antt =====
-- What `open_alert` (backend/signage/services.py) leaves of the acknowledged alerts.
use digital_signage_project.Base.{
  ℕ, ◌≡◌, refl, ◌∙◌, String, Bool, true, false, not, ◌&&◌, Option, some, List, [], ◌∷◌, ◌++◌,
  is_none, arith, any, filter, get, put, ok, OnOk, OnOk-eq, >>=-cases, Bool-cases, Option-cases,
  inl, inr, ap, sym, ok-injective,
}
use digital_signage_project.Alerts.{
  Severity, Alert, AlertTable, alert_id, is_critical, is_open_for, is_missing, raised, escalate,
  open_alert_for, insert_or_load, load_raced, create_alert, new_alert, open_alert,
  open_or_escalate_alert,
}
use digital_signage_project.Alerts.Laws.{IsValid, open_alert_for-some}
use digital_signage_project.Alerts.Open.{IsOpened, open_or_escalate_alert-IsOpened}
use digital_signage_project.Alerts.Raising.{Wanted, raise_alerts}

module _ (p : Alert → Bool)
    (acknowledged : (a : Alert) → is_none a.acknowledged_at ≡ true → p a ≡ false) where
  filter-put_out :
      (x y : Alert) (rows : List Alert)
      → get alert_id x.id rows ≡ some y
      → p y ≡ false
      → p x ≡ false
      → filter p (put alert_id x rows) ≡ filter p rows
  unfolding get put
  filter-put_out x y [] h a b = refl
  filter-put_out x y (z ∷ zs) h a b = ground (arith, filter-put_out x y zs)

  filter-append_out :
      (x : Alert) (rows : List Alert) → p x ≡ false → filter p (rows ++ x ∷ []) ≡ filter p rows
  filter-append_out x [] h = rw h refl
  filter-append_out x (z ∷ zs) h = ground (arith, filter-append_out x zs h)

  open_unacknowledged :
      (device : Option ℕ) (code : String) (a : Alert)
      → is_open_for device code a ≡ true
      → is_none a.acknowledged_at ≡ true
  open_unacknowledged device code a h = ground arith

  escalate_out :
      (device : Option ℕ) (code : String) (severity : Severity) (message : String) (a : Alert)
      (t : AlertTable)
      → IsValid t
      → open_alert_for device code t ≡ some a
      → filter p ((escalate severity message a t).0.rows) ≡ filter p t.rows
  unfolding escalate
  escalate_out device code severity message a t v e =
      let (g, f) = open_alert_for-some device code t a v e in
      let n = open_unacknowledged device code a f in
      elim (Bool-cases (is_critical severity && not (is_critical a.severity))) [
        | inl c ↦
            rw (escalate, c)
              (filter-put_out (raised severity message a) a t.rows g (acknowledged a n)
                (acknowledged _ n))
        | inr c ↦ rw (escalate, c) refl
      ]

  open_alert_out :
      (known : ℕ → Bool) (now : ℕ) (device : Option ℕ) (code : String) (severity : Severity)
      (message : String) (t : AlertTable)
      → IsValid t
      → OnOk
          (λ (r : AlertTable × Alert × Bool). filter p (r.0).rows ≡ filter p t.rows)
          (open_alert known now device code severity message t)
  unfolding open_alert open_or_escalate_alert insert_or_load create_alert load_raced
  open_alert_out known now device code severity message t v =
      elim (Bool-cases (is_missing known device)) [
        | inl m ↦ rw m tt
        | inr m ↦ elim (Option-cases (open_alert_for device code t)) [
          | inr (a, e) ↦
              rw (m, e, open_alert, open_or_escalate_alert)
                (escalate_out device code severity message a t v e)
          | inl e ↦ elim (Bool-cases (any (is_open_for device code) t.rows)) [
            | inl x ↦
                rw
                  (
                    m, e, open_alert, open_or_escalate_alert, insert_or_load, create_alert, x,
                    load_raced, e,
                  )
                  tt
            | inr x ↦
                rw (m, e, open_alert, open_or_escalate_alert, insert_or_load, create_alert, x)
                  (filter-append_out (new_alert now device code severity message t) t.rows
                    (acknowledged _ refl))
          ]
        ]
      ]

  -- Calls of `open_alert` change no acknowledged alert.
  pub raise_alerts_out :
      (known : ℕ → Bool) (now : ℕ) (ws : List Wanted) (t u : AlertTable)
      → IsValid t
      → raise_alerts known now ws t ≡ ok u
      → filter p u.rows ≡ filter p t.rows
  unfolding raise_alerts open_alert
  raise_alerts_out known now [] t u v h =
      ap (λ (x : AlertTable). filter p x.rows) (sym (ok-injective h))
  raise_alerts_out known now (w ∷ ws) t u v h =
      >>=-cases (open_alert known now w.device w.code w.severity w.message t) _ h (λ r h1 k1.
        let o : IsOpened w.device w.code w.severity r =
          OnOk-eq _ _
            (open_or_escalate_alert-IsOpened known (λ u. u) (λ u. u) now w.device w.code w.severity
              w.message t (λ u i. i) (λ u i. i) v)
            h1 in
        raise_alerts_out known now ws r.0 u o.valid k1
        ∙ OnOk-eq _ _ (open_alert_out known now w.device w.code w.severity w.message t v) h1)

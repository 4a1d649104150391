-- ===== src/Alerts/Open.antt =====
-- `open_or_escalate_alert` (backend/signage/services.py): what a call leaves, under any interleaving.
use digital_signage_project.Base.{
  ℕ, ◌≡◌, refl, String, Bool, true, false, Option, some, arith, ◌==◌, any, put, get, OnOk, Returns,
  eq_iff, opt_eq_iff, Bool-cases, Option-cases, ==_iff, ◌∙◌, subst, inl, inr, get-put_self,
  get-put_ne, get-append_old,
}
use digital_signage_project.Alerts.{
  Severity, warning, critical, is_critical, Alert, AlertTable, is_open_for, alert_id,
  open_alert_for, create_alert, new_alert, insert_alert, raised, escalate, open_or_escalate_alert,
  open_alert, load_raced, insert_or_load, is_missing,
}
use digital_signage_project.Alerts.Laws.{
  IsValid, open_alert_for-some, open_alert_for-none, raised-IsValid, insert_alert-IsValid,
  inserted_found,
}

-- What a call for `device` and `code` at `severity` leaves: the returned row is stored, is the open
-- alert asked for, and is critical if a critical one was asked for.
pub record IsOpened (device : Option ℕ) (code : String) (severity : Severity)
    (r : AlertTable × Alert × Bool) : Type 0 where
  pub valid : IsValid r.0
  pub stored : get alert_id r.1.id r.0.rows ≡ some r.1
  pub fits : is_open_for device code r.1 ≡ true
  pub severe : severity ≡ critical → r.1.severity ≡ critical

critical_lem : (s : Severity) → is_critical s ≡ true → s ≡ critical
critical_lem warning h = cc
critical_lem critical h = refl

escalate-IsOpened :
    (device : Option ℕ) (code : String) (severity : Severity) (message : String) (a : Alert)
    (t : AlertTable)
    → IsValid t
    → open_alert_for device code t ≡ some a
    → IsOpened device code severity (escalate severity message a t)
unfolding escalate
escalate-IsOpened device code warning message a t v h =
    let (i, f) = open_alert_for-some device code t a v h in
    record { valid = v; stored = i; fits = f; severe = λ e. absurd (cc) }
escalate-IsOpened device code critical message a t v h =
    elim (Bool-cases (is_critical a.severity)) [
      | inl e ↦
          rw e (record { valid = v; stored = i; fits = f; severe = λ _. critical_lem a.severity e })
      | inr e ↦ rw e (record {
        valid = raised-IsValid critical message a t v i;
        stored = get-put_self alert_id (raised critical message a) t.rows i;
        fits = f;
        severe = λ _. refl;
      })
    ]
  where
    i : get alert_id a.id t.rows ≡ some a
    i = (open_alert_for-some device code t a v h).0

    f : is_open_for device code a ≡ true
    f = (open_alert_for-some device code t a v h).1

insert_alert-IsOpened :
    (now : ℕ) (device : Option ℕ) (code : String) (severity : Severity) (message : String)
    (t : AlertTable)
    → IsValid t
    → any (is_open_for device code) t.rows ≡ false
    → let a = new_alert now device code severity message t in
      IsOpened device code severity (insert_alert a t, a, true)
insert_alert-IsOpened now device code severity message t v h = record {
  valid = insert_alert-IsValid now device code severity message t v h;
  stored = inserted_found now device code severity message t v;
  fits = ground (arith, opt_eq_iff device device, eq_iff code code);
  severe = λ e. e;
}

load_raced-IsOpened :
    (device : Option ℕ) (code : String) (severity : Severity) (message : String) (t : AlertTable)
    → IsValid t
    → OnOk (IsOpened device code severity) (load_raced device code severity message t)
unfolding load_raced
load_raced-IsOpened device code severity message t v =
    elim (Option-cases (open_alert_for device code t)) [
      | inl e ↦ rw (e, load_raced) tt
      | inr (a, e) ↦ rw (e, load_raced) (escalate-IsOpened device code severity message a t v e)
    ]

insert_or_load-IsOpened :
    (now : ℕ) (device : Option ℕ) (code : String) (severity : Severity) (message : String)
    (seen reloaded : AlertTable)
    → IsValid seen
    → IsValid reloaded
    → OnOk
        (IsOpened device code severity)
        (insert_or_load now device code severity message seen reloaded)
unfolding insert_or_load create_alert
insert_or_load-IsOpened now device code severity message seen reloaded v w =
    elim (Bool-cases (any (is_open_for device code) seen.rows)) [
      | inl e ↦
          rw (e, insert_or_load, create_alert)
            (load_raced-IsOpened device code severity message reloaded w)
      | inr e ↦
          rw (e, insert_or_load, create_alert)
            (insert_alert-IsOpened now device code severity message seen v e)
    ]

-- Whatever valid changes other transactions commit before the insertion and after its failure, a
-- call that returns leaves a valid table, in which the returned alert is stored, is open for the
-- device and the code, and is critical if a critical alert was asked for.
pub open_or_escalate_alert-IsOpened :
    (known : ℕ → Bool) (between after : AlertTable → AlertTable) (now : ℕ) (device : Option ℕ)
    (code : String) (severity : Severity) (message : String) (t : AlertTable)
    → ((u : AlertTable) → IsValid u → IsValid (between u))
    → ((u : AlertTable) → IsValid u → IsValid (after u))
    → IsValid t
    → OnOk
        (IsOpened device code severity)
        (open_or_escalate_alert known between after now device code severity message t)
unfolding open_or_escalate_alert
open_or_escalate_alert-IsOpened known between after now device code severity message t kb ka v =
    elim (Bool-cases (is_missing known device)) [
      | inl m ↦ rw m tt
      | inr m ↦ rw m (elim (Option-cases (open_alert_for device code t)) [
        | inl e ↦
            rw (e, open_or_escalate_alert)
              (insert_or_load-IsOpened now device code severity message (between t)
                (after (between t)) (kb t v) (ka (between t) (kb t v)))
        | inr (a, e) ↦
            rw (e, open_or_escalate_alert) (escalate-IsOpened device code severity message a t v e)
      ])
    ]

insert_or_load-Returns :
    (now : ℕ) (device : Option ℕ) (code : String) (severity : Severity) (message : String)
    (seen : AlertTable)
    → Returns (insert_or_load now device code severity message seen seen)
unfolding insert_or_load load_raced create_alert
insert_or_load-Returns now device code severity message seen =
    elim (Bool-cases (any (is_open_for device code) seen.rows)) [
      | inl e ↦ elim (Option-cases (open_alert_for device code seen)) [
        | inl n ↦ absurd (ground (arith, open_alert_for-none device code seen))
        | inr (a, o) ↦
            rw (e, insert_or_load, create_alert, o, load_raced)
              (escalate severity message a seen, refl)
      ]
      | inr e ↦ rw (e, insert_or_load, create_alert) (_, refl)
    ]

-- A device that exists gets its alert: if no other transaction acknowledges alerts between the
-- failed insertion and the second lookup, the call returns, however the insertion was raced.
pub open_or_escalate_alert-Returns :
    (known : ℕ → Bool) (between : AlertTable → AlertTable) (now : ℕ) (device : Option ℕ)
    (code : String) (severity : Severity) (message : String) (t : AlertTable)
    → is_missing known device ≡ false
    → Returns (open_or_escalate_alert known between (λ u. u) now device code severity message t)
unfolding open_or_escalate_alert
open_or_escalate_alert-Returns known between now device code severity message t m =
    rw m (elim (Option-cases (open_alert_for device code t)) [
      | inl e ↦
          rw (e, open_or_escalate_alert)
            (insert_or_load-Returns now device code severity message (between t))
      | inr (a, e) ↦ rw (e, open_or_escalate_alert) (escalate severity message a t, refl)
    ])

-- `later` is an alert that the row `earlier` may become: the same alert, acknowledged or not as
-- before, and unchanged if it was critical.
pub record NeverLowered (earlier later : Alert) : Type 0 where
  pub same_device : later.device ≡ earlier.device
  pub same_code : later.code ≡ earlier.code
  pub same_time : later.created_at ≡ earlier.created_at
  pub same_acknowledged : later.acknowledged_at ≡ earlier.acknowledged_at
  pub kept : earlier.severity ≡ critical → later ≡ earlier

abbrev pub Keeps : AlertTable → AlertTable × Alert × Bool → Type 0
Keeps t r =
    (k : ℕ) (b : Alert)
    → get alert_id k t.rows ≡ some b
    → (b' : Alert) × (get alert_id k r.0.rows ≡ some b') × NeverLowered b b'

NeverLowered-refl : (b : Alert) → NeverLowered b b
NeverLowered-refl b = record {
  same_device = refl;
  same_code = refl;
  same_time = refl;
  same_acknowledged = refl;
  kept = λ _. refl;
}

put-Keeps :
    (message : String) (a : Alert) (t : AlertTable) (u : Alert × Bool)
    → IsValid t
    → get alert_id a.id t.rows ≡ some a
    → is_critical a.severity ≡ false
    → Keeps t (record t { rows = put alert_id (raised critical message a) t.rows }, u.0, u.1)
put-Keeps message a t u v i e k b h = elim (Bool-cases (k == a.id)) [
  | inl same ↦
      let p : k ≡ a.id = (==_iff k a.id).0 same in
      let q : a ≡ b = ground arith in
      (
        a',
        rw p (get-put_self alert_id a' t.rows i),
        subst (λ z. NeverLowered z a') q
            (record {
              same_device = refl;
              same_code = refl;
              same_time = refl;
              same_acknowledged = refl;
              kept = λ c. absurd (ground arith);
            }),
      )
  | inr other ↦ (b, get-put_ne alert_id k a' t.rows (ground arith) ∙ h, NeverLowered-refl b)
]
  where
    a' : Alert
    a' = raised critical message a

escalate-Keeps :
    (severity : Severity) (message : String) (a : Alert) (t : AlertTable)
    → IsValid t
    → get alert_id a.id t.rows ≡ some a
    → Keeps t (escalate severity message a t)
unfolding escalate
escalate-Keeps warning message a t v i = λ k b h. (b, h, NeverLowered-refl b)
escalate-Keeps critical message a t v i = elim (Bool-cases (is_critical a.severity)) [
  | inl e ↦ rw e (λ k b h. (b, h, NeverLowered-refl b))
  | inr e ↦ rw e (put-Keeps message a t (raised critical message a, false) v i e)
]

insert_or_load-Keeps :
    (now : ℕ) (device : Option ℕ) (code : String) (severity : Severity) (message : String)
    (t : AlertTable)
    → IsValid t
    → OnOk (Keeps t) (insert_or_load now device code severity message t t)
unfolding insert_or_load load_raced create_alert
insert_or_load-Keeps now device code severity message t v =
    elim (Bool-cases (any (is_open_for device code) t.rows)) [
      | inl e ↦
          rw (e, insert_or_load, create_alert)
            (elim (Option-cases (open_alert_for device code t)) [
              | inl n ↦ rw (n, load_raced) tt
              | inr (a, o) ↦
                  rw (o, load_raced)
                    (escalate-Keeps severity message a t v
                      (open_alert_for-some device code t a v o).0)
            ])
      | inr e ↦
          rw (e, insert_or_load, create_alert)
            (λ k b h. (b, get-append_old alert_id k t.rows _ h, NeverLowered-refl b))
    ]

-- A call loses no alert and never lowers one: every row that was stored is stored after it, for the
-- same device and code and acknowledged as before, and a critical row is unchanged.
pub open_alert_never_lowers :
    (known : ℕ → Bool) (now : ℕ) (device : Option ℕ) (code : String) (severity : Severity)
    (message : String) (t : AlertTable)
    → IsValid t
    → OnOk (Keeps t) (open_alert known now device code severity message t)
unfolding open_alert open_or_escalate_alert
open_alert_never_lowers known now device code severity message t v =
    elim (Bool-cases (is_missing known device)) [
      | inl m ↦ rw m tt
      | inr m ↦ rw m (elim (Option-cases (open_alert_for device code t)) [
        | inl e ↦
            rw (e, open_or_escalate_alert)
              (insert_or_load-Keeps now device code severity message t v)
        | inr (a, e) ↦
            rw (e, open_or_escalate_alert)
              (escalate-Keeps severity message a t v (open_alert_for-some device code t a v e).0)
      ])
    ]

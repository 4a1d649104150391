-- ===== src/Alerts/Laws.antt =====
-- Laws of the alert table (backend/signage/services.py, `open_or_escalate_alert`).
use digital_signage_project.Base.{
  ℕ, ◌+◌, ◌≤◌, ◌<◌, ◌≡◌, refl, String, Bool, true, false, Option, none, some, List, [], ◌∷◌, arith,
  ◌==◌, filter, any, put, get, All, length, eq_iff, opt_eq_iff, All-append, All-put,
  length-filter-put, length-filter-append_one, length-filter_none, In-filter, In-first_by,
  first_by-none, get-In, get-All, get-append_new,
}
use digital_signage_project.Alerts.{
  Severity, Alert, AlertTable, is_open_for, alert_id, open_alert_for, new_alert, insert_alert,
  raised,
}

-- Every key is below the sequence, and no device has two open alerts with one code.
pub record IsValid (t : AlertTable) : Type 0 where
  pub fresh : All (λ (a : Alert). a.id < t.next_id) t.rows
  pub distinct : (k : ℕ) → length (filter (λ (a : Alert). a.id == k) t.rows) ≤ 1
  pub unique :
      (device : Option ℕ) (code : String) → length (filter (is_open_for device code) t.rows) ≤ 1

-- What the query for the open alert returns: it is in the table, under its key, and fits.
pub open_alert_for-some :
    (device : Option ℕ) (code : String) (t : AlertTable) (a : Alert)
    → IsValid t
    → open_alert_for device code t ≡ some a
    → (get alert_id a.id t.rows ≡ some a) × (is_open_for device code a ≡ true)
unfolding open_alert_for
open_alert_for-some device code t a v h =
    let i = In-filter (is_open_for device code) t.rows {x = a} (In-first_by _ _ h) in
    (get-In alert_id t.rows (v.distinct a.id) i.0, i.1)

filter-nil_any : (p : Alert → Bool) (xs : List Alert) → filter p xs ≡ [] → any p xs ≡ false
filter-nil_any p [] h = refl
filter-nil_any p (x ∷ xs) h = ground (arith, filter-nil_any p xs)

pub open_alert_for-none :
    (device : Option ℕ) (code : String) (t : AlertTable)
    → open_alert_for device code t ≡ none
    → any (is_open_for device code) t.rows ≡ false
unfolding open_alert_for
open_alert_for-none device code t h =
    filter-nil_any (is_open_for device code) t.rows (first_by-none _ _ h)

pub raised-IsValid :
    (severity : Severity) (message : String) (a : Alert) (t : AlertTable)
    → IsValid t
    → get alert_id a.id t.rows ≡ some a
    → IsValid (record t { rows = put alert_id (raised severity message a) t.rows })
raised-IsValid severity message a t v h = record {
  fresh = All-put alert_id _ a' t.rows (get-All alert_id _ a.id t.rows v.fresh h) v.fresh;
  distinct = λ k.
      rw (length-filter-put alert_id (λ (b : Alert). b.id == k) a' a t.rows h refl) (v.distinct k);
  unique =
      λ d c. rw (length-filter-put alert_id (is_open_for d c) a' a t.rows h refl) (v.unique d c);
}
  where
    a' : Alert
    a' = raised severity message a

fresh_absent :
    (n k : ℕ) (rows : List Alert)
    → k ≡ n
    → All (λ (a : Alert). a.id < n) rows
    → length (filter (λ (a : Alert). a.id == k) rows) ≡ 0
fresh_absent n k [] e h = refl
fresh_absent n k (x ∷ xs) e h = ground (arith, fresh_absent n k xs e h.1)

fresh_weaken :
    (n : ℕ) (rows : List Alert)
    → All (λ (a : Alert). a.id < n) rows
    → All (λ (a : Alert). a.id < n + 1) rows
fresh_weaken n [] h = tt
fresh_weaken n (x ∷ xs) h = (omega arith, fresh_weaken n xs h.1)

-- A row of one device and code is no row of another.
is_open_for_same :
    (d e : Option ℕ) (c k : String) (a : Alert)
    → is_open_for d c a ≡ true
    → is_open_for e k a ≡ true
    → (d ≡ e) × (c ≡ k)
is_open_for_same d e c k a p q =
    ground (arith, opt_eq_iff a.device d, opt_eq_iff a.device e, eq_iff a.code c, eq_iff a.code k)

module _ (now : ℕ) (device : Option ℕ) (code : String) (severity : Severity) (message : String)
    (t : AlertTable) where
  abbrev pub inserted : Alert
  inserted = new_alert now device code severity message t

  inserted_only :
      (d : Option ℕ) (c : String)
      → any (is_open_for device code) t.rows ≡ false
      → is_open_for d c inserted ≡ true
      → length (filter (is_open_for d c) t.rows) ≡ 0
  inserted_only d c h e =
      let (p, q) =
        is_open_for_same device d code c inserted
          (ground (arith, opt_eq_iff device device, eq_iff code code)) e in
      rw (← p, ← q) (length-filter_none (is_open_for device code) t.rows h)

  pub insert_alert-IsValid :
      IsValid t → any (is_open_for device code) t.rows ≡ false → IsValid (insert_alert inserted t)
  insert_alert-IsValid v h = record {
    fresh = All-append _ t.rows _ (fresh_weaken t.next_id t.rows v.fresh) (omega arith, tt);
    distinct = λ k. ground (
      arith,
      length-filter-append_one (λ (a : Alert). a.id == k) t.rows inserted,
      fresh_absent t.next_id k t.rows,
      v.distinct k,
      v.fresh,
    );
    unique = λ d c. ground (
      arith,
      length-filter-append_one (is_open_for d c) t.rows inserted,
      inserted_only d c h,
      v.unique d c,
    );
  }

  pub inserted_found :
      IsValid t → get alert_id inserted.id (insert_alert inserted t).rows ≡ some inserted
  inserted_found v =
      get-append_new alert_id t.rows inserted (fresh_absent t.next_id t.next_id t.rows refl v.fresh)

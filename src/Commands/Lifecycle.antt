-- ===== src/Commands/Lifecycle.antt =====
-- The life of a command under `management_commands` (backend/signage/api.py).
use digital_signage_project.Base.{
  ℕ, ◌≤◌, ◌≡◌, refl, ap, ◌∙◌, subst, sym, true, false, some, List, ◌==◌, is_none, is_some, filter,
  first_by, get, put, length, In-filter, In-first_by, get-In, get-key, get-put, get-put_ne,
  length-filter-put, ==_iff, ok, err, Error, arith, Option-cases, Bool-cases, inl, inr,
}
use digital_signage_project.Models.{DeviceCommand, command_id}
use digital_signage_project.Commands.{
  is_available, created_asc, delivered, acknowledged, fetch_command, acknowledge_command,
}

-- Every key occurs once.
abbrev pub HasKeys : List DeviceCommand → Type 0
HasKeys commands = (k : ℕ) → length (filter (λ (c : DeviceCommand). c.id == k) commands) ≤ 1

-- The requests of any devices at any times.
pub data Request (commands : List DeviceCommand) : List DeviceCommand → Type 0 where
  fetch : (now device : ℕ) → Request commands (fetch_command now device commands).1
  acknowledge :
      {after : List DeviceCommand} (now device k : ℕ)
      → acknowledge_command now device k commands ≡ ok after
      → Request commands after

pub data Requests (commands : List DeviceCommand) : List DeviceCommand → Type 0 where
  here : Requests commands commands
  next : {t u : List DeviceCommand} → Requests commands t → Request t u → Requests commands u

-- `later` is what the command `earlier` may become: nothing but its two times changes, a time that is
-- set stays as it is, and it is acknowledged only after it was delivered.
pub record Evolves (earlier later : DeviceCommand) : Type 0 where
  pub same :
      record earlier { delivered_at = later.delivered_at; acknowledged_at = later.acknowledged_at }
      ≡ later
  pub delivery_kept :
      is_some earlier.delivered_at ≡ true → later.delivered_at ≡ earlier.delivered_at
  pub acknowledgement_kept :
      is_some earlier.acknowledged_at ≡ true → later.acknowledged_at ≡ earlier.acknowledged_at
  pub delivered_first :
      is_none earlier.acknowledged_at ≡ true
      → is_some later.acknowledged_at ≡ true
      → is_some later.delivered_at ≡ true

Evolves-refl : (c : DeviceCommand) → Evolves c c
Evolves-refl c = record {
  same = refl;
  delivery_kept = λ _. refl;
  acknowledgement_kept = λ _. refl;
  delivered_first = λ h k. absurd (ground arith);
}

delivered-Evolves :
    (now : ℕ) (o c : DeviceCommand)
    → Evolves o c
    → is_none c.delivered_at ≡ true
    → Evolves o (delivered now c)
delivered-Evolves now o c v n = record {
  same = ap (λ z. delivered now z) v.same;
  delivery_kept = λ h. absurd (ground (arith, v.delivery_kept));
  acknowledgement_kept = v.acknowledgement_kept;
  delivered_first = λ h k. refl;
}

acknowledged-Evolves :
    (now : ℕ) (o c : DeviceCommand)
    → Evolves o c
    → is_none c.acknowledged_at ≡ true
    → is_some c.delivered_at ≡ true
    → Evolves o (acknowledged now c)
acknowledged-Evolves now o c v n d = record {
  same = ap (λ z. acknowledged now z) v.same;
  delivery_kept = v.delivery_kept;
  acknowledgement_kept = λ h. absurd (ground (arith, v.acknowledgement_kept));
  delivered_first = λ h k. d;
}

-- The state of a table with regard to the command that was `o`.
abbrev pub Shows : ℕ → DeviceCommand → List DeviceCommand → Type 0
Shows k o commands = (c : DeviceCommand) × (get command_id k commands ≡ some c) × Evolves o c

put-HasKeys :
    (x y : DeviceCommand) (commands : List DeviceCommand)
    → get command_id x.id commands ≡ some y
    → HasKeys commands
    → HasKeys (put command_id x commands)
put-HasKeys x y commands g h k =
    let e = get-key command_id x.id commands g in
    rw
      (length-filter-put command_id (λ (q : DeviceCommand). q.id == k) x y commands g
        (ground arith))
      (h k)

-- A row that is written over `y` shows the command where its own row evolves.
put-Shows :
    (k : ℕ) (o x y : DeviceCommand) (commands : List DeviceCommand)
    → get command_id x.id commands ≡ some y
    → (Evolves o y → Evolves o x)
    → Shows k o commands
    → Shows k o (put command_id x commands)
put-Shows k o x y commands g f (c, h, v) = elim (Bool-cases (x.id == k)) [
  | inl same ↦
      let p : x.id ≡ k = (==_iff x.id k).0 same in
      let q : c ≡ y = ground (arith, subst (λ j. get command_id j commands ≡ some y) p g) in
      (x, get-put command_id k x commands {y = c} p h, f (subst (λ z. Evolves o z) q v))
  | inr other ↦ (c, get-put_ne command_id k x commands (ground arith) ∙ h, v)
]

fetch_keeps :
    (now device k : ℕ) (o : DeviceCommand) (commands : List DeviceCommand)
    → HasKeys commands
    → Shows k o commands
    → HasKeys (fetch_command now device commands).1
      × Shows k o (fetch_command now device commands).1
unfolding fetch_command
fetch_keeps now device k o commands h s =
    elim (Option-cases (first_by created_asc (filter (is_available now device) commands))) [
      | inl e ↦ rw (e, fetch_command) (h, s)
      | inr (c, e) ↦
          let i = In-filter (is_available now device) commands (In-first_by created_asc _ e) in
          let g = get-In command_id commands (h c.id) i.0 in
          elim (Bool-cases (is_none c.delivered_at)) [
            | inr d ↦ rw (e, d, fetch_command) (h, s)
            | inl d ↦
                rw (e, d, fetch_command)
                  (
                    put-HasKeys (delivered now c) c commands g h,
                    put-Shows k o (delivered now c) c commands g
                        (λ v. delivered-Evolves now o c v d) s,
                  )
          ]
    ]

-- What an acknowledgement that returns has found.
acknowledge_parts :
    (now device k : ℕ) (commands after : List DeviceCommand)
    → acknowledge_command now device k commands ≡ ok after
    → (c : DeviceCommand) × (get command_id k commands ≡ some c)
      × (is_none c.acknowledged_at ≡ true)
      × (is_some c.delivered_at ≡ true)
      × (after ≡ put command_id (acknowledged now c) commands)
unfolding acknowledge_command
acknowledge_parts now device k commands after h = elim (Option-cases (get command_id k commands)) [
  | inl e ↦ absurd (ground arith)
  | inr (c, e) ↦ (c, e, ground arith, ground arith, ground arith)
]

acknowledge_keeps :
    (now device j k : ℕ) (o : DeviceCommand) (commands after : List DeviceCommand)
    → acknowledge_command now device j commands ≡ ok after
    → HasKeys commands
    → Shows k o commands
    → HasKeys after × Shows k o after
acknowledge_keeps now device j k o commands after e h s =
    let (c, g, n, d, a) = acknowledge_parts now device j commands after e in
    let g' =
      subst (λ i. get command_id i commands ≡ some c) (sym (get-key command_id j commands g)) g in
    rw a (
      put-HasKeys (acknowledged now c) c commands g' h,
      put-Shows k o (acknowledged now c) c commands g' (λ v. acknowledged-Evolves now o c v n d) s,
    )

-- Whatever requests of devices follow, at any times, a stored command stays stored and evolves: only
-- its two times change, each is set at most once, and it is acknowledged only after a delivery. The
-- keys stay distinct.
pub Requests-Shows :
    (k : ℕ) (o : DeviceCommand) {t u : List DeviceCommand}
    → HasKeys t
    → get command_id k t ≡ some o
    → Requests t u
    → HasKeys u × Shows k o u
Requests-Shows k o h g here = (h, (o, g, Evolves-refl o))
Requests-Shows k o h g (next r (fetch now device)) =
    let (i, s) = Requests-Shows k o h g r in fetch_keeps now device k o _ i s
Requests-Shows k o h g (next r (acknowledge now device j e)) =
    let (i, s) = Requests-Shows k o h g r in acknowledge_keeps now device j k o _ _ e i s

-- A command is acknowledged at most once: after an acknowledgement that returns, and whatever requests
-- follow, every acknowledgement of the command is refused.
pub acknowledge_command_once :
    (now device later other k : ℕ) (t u v : List DeviceCommand)
    → HasKeys t
    → acknowledge_command now device k t ≡ ok u
    → Requests u v
    → acknowledge_command later other k v ≡ err (Error.validation_error "Command is unavailable.")
unfolding acknowledge_command
acknowledge_command_once now device later other k t u v h e r =
    let (c, g, n, d, a) = acknowledge_parts now device k t u e in
    let p = get-key command_id k t g in
    let g' = subst (λ i. get command_id i t ≡ some c) (sym p) g in
    let hu : HasKeys u = rw a (put-HasKeys (acknowledged now c) c t g' h) in
    let gu : get command_id k u ≡ some (acknowledged now c) =
      rw a (get-put command_id k (acknowledged now c) t {y = c} p g) in
    let (hv, (b, gv, w)) = Requests-Shows k (acknowledged now c) hu gu r in
    let z : is_none b.acknowledged_at ≡ false = ground (arith, w.acknowledgement_kept) in
    rw (gv, acknowledge_command) (ground arith)

-- ===== src/Retention/Evidence.antt =====
-- `_delete_expired_playback_evidence` of apply_retention.py (backend/signage/management/commands).
use digital_signage_project.Base.{
  ℕ, suc, ◌≤◌, ◌<◌, ◌≡◌, refl, Bool, true, false, not, List, [], ◌∷◌, ◌==◌, filter, any, length,
  mem, arith, is_some, get, In, ◌⊎◌, All, All-In, All-of_In, In-filter, ==_refl, ==_iff, subst, sym,
  ap, ◌∙◌, inl, inr, Bool-cases, length-filter-le,
}
use digital_signage_project.Models.{PlaybackEvent, PlaybackStatus, batch_id, event_id}
use digital_signage_project.Retention.{
  first_keys, drain, PlaybackCorrection, Archive, event_started, is_expired_event, delete_events,
  delete_status,
}
use digital_signage_project.Retention.Loops.{
  drain_keeps, drain_ends, first_keys-some, first_keys-none, first_keys_spare, length-filter-lt,
  filter_none, filter-filter_sub,
}

-- Every correction has its event and every event its batch.
pub record IsLinked (s : Archive) : Type 0 where
  pub corrections :
      All (λ (c : PlaybackCorrection). is_some (get event_id c.event s.events) ≡ true) s.corrections
  pub events : All (λ (e : PlaybackEvent). is_some (get batch_id e.batch s.batches) ≡ true) s.events

abbrev pub HasKeys : List PlaybackEvent → Type 0
HasKeys events = (k : ℕ) → length (filter (λ e. event_id e == k) events) ≤ 1

module _ {A : Type 0} (key : A → ℕ) where
  -- A filter that keeps all rows of a key keeps what is found under it.
  pub get-filter_keep :
      (k : ℕ) (q : A → Bool) (rows : List A)
      → ((x : A) → key x ≡ k → q x ≡ true)
      → get key k (filter q rows) ≡ get key k rows
  unfolding get
  get-filter_keep k q [] h = refl
  get-filter_keep k q (x ∷ xs) h = elim (Bool-cases (key x == k)) [
    | inl e ↦ rw (h x ((==_iff (key x) k).0 e), e) refl
    | inr e ↦ elim (Bool-cases (q x)) [
      | inl f ↦ rw (f, e) (get-filter_keep k q xs h)
      | inr f ↦ rw (f, e) (get-filter_keep k q xs h)
    ]
  ]

  length-filter-filter :
      (q p : A → Bool) (rows : List A) → length (filter p (filter q rows)) ≤ length (filter p rows)
  length-filter-filter q p [] = omega arith
  length-filter-filter q p (x ∷ xs) = ground (arith, length-filter-filter q p xs)

All-filter_In :
    {A : Type 0} (P : A → Type 0) (q : A → Bool) (rows : List A)
    → All P rows
    → All P (filter q rows)
All-filter_In P q rows h =
    All-of_In P (filter q rows) (λ x i. All-In P rows h (In-filter q rows i).0)

delete_events-IsLinked : (ids : List ℕ) (s : Archive) → IsLinked s → IsLinked (delete_events ids s)
delete_events-IsLinked ids s v = record {
  corrections = All-of_In _ _ (λ c i.
      let (j, q) = In-filter (λ (c : PlaybackCorrection). not (mem c.event ids)) s.corrections i in
      let g =
        get-filter_keep event_id c.event (λ e. not (mem (event_id e) ids)) s.events
          (λ x e. subst (λ k. not (mem k ids) ≡ true) (sym e) q) in
      rw g (
        All-In (λ (c : PlaybackCorrection). is_some (get event_id c.event s.events) ≡ true)
          s.corrections v.corrections j));
  events = All-filter_In _ (λ e. not (mem (event_id e) ids)) s.events v.events;
}

pub status_cases :
    (x : PlaybackStatus)
    → (x ≡ PlaybackStatus.completed)
      ⊎ ((x ≡ PlaybackStatus.interrupted) ⊎ (x ≡ PlaybackStatus.failed))
status_cases PlaybackStatus.completed = inl refl
status_cases PlaybackStatus.interrupted = inr (inl refl)
status_cases PlaybackStatus.failed = inr (inr refl)

pub shorter :
    (p : PlaybackEvent → Bool) (xs ys : List PlaybackEvent) {n : ℕ}
    → xs ≡ filter p ys
    → length ys < n
    → length xs < n
shorter p xs ys {n} e h =
    let l = length-filter-le p ys in subst (λ zs. length zs < n) (sym e) (omega (arith, l, h))

pub any-batch :
    (e : PlaybackEvent) (es : List PlaybackEvent)
    → In e es
    → any (λ (x : PlaybackEvent). x.batch == e.batch) es ≡ true
any-batch e [] i = absurd i
any-batch e (x ∷ xs) (inl q) =
    let z = ==_refl e.batch in
    subst (λ (y : PlaybackEvent). any (λ (x : PlaybackEvent). x.batch == e.batch) (y ∷ xs) ≡ true) q
      (rw z refl)
any-batch e (x ∷ xs) (inr i) = ground (arith, any-batch e xs i)

module _ (fuel size cutoff : ℕ) where
  -- The loop for one status leaves the other events, with all links.
  pub delete_status_lem :
      (status : PlaybackStatus) (s : Archive)
      → IsLinked s
      → HasKeys s.events
      → length s.events < fuel
      → let t = delete_status fuel (suc size) cutoff status s in
        (t.events ≡ filter (λ e. not (is_expired_event cutoff status e)) s.events)
        × IsLinked t
        × HasKeys t.events
        × (t.batches ≡ s.batches)
  unfolding delete_status
  delete_status_lem status s v d h =
      let p = is_expired_event cutoff status in
      let candidates = λ (t : Archive). first_keys (suc size) event_id event_started p t.events in
      let (kept, linked, keyed, same) =
        drain_keeps candidates delete_events
          (λ (t : Archive).
            (filter (λ e. not (p e)) t.events ≡ filter (λ e. not (p e)) s.events)
            × IsLinked t
            × HasKeys t.events
            × (t.batches ≡ s.batches))
          (λ t k ks e i. (
            filter-filter_sub p (λ x. not (mem (event_id x) (k ∷ ks))) t.events
                  (λ x j q.
                    let z =
                      first_keys_spare (suc size) event_id event_started p t.events i.2 x j q in
                    ap not (subst (λ ids. mem (event_id x) ids ≡ false) e z))
                ∙ i.0,
            delete_events-IsLinked (k ∷ ks) t i.1,
            λ j.
                let a =
                  length-filter-filter event_id (λ x. not (mem (event_id x) (k ∷ ks)))
                    (λ x. event_id x == j) t.events in
                let b = i.2 j in omega (arith, a, b),
            i.3,
          ))
          fuel s (refl, v, d, refl) in
      let ends =
        drain_ends candidates delete_events (λ (t : Archive). length t.events)
          (λ t k ks e.
            let (x, i, px, q) =
              first_keys-some (suc size) event_id event_started p t.events k ks e in
            length-filter-lt (λ x. not (mem (event_id x) (k ∷ ks))) t.events x i
              (rw (q, ==_refl k) refl))
          fuel s h in
      let final : Archive = drain fuel candidates delete_events s in
      (
        sym (
              filter_none p final.events
                (first_keys-none size event_id event_started p final.events ends))
            ∙ kept,
        linked,
        keyed,
        same,
      )

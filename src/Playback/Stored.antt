-- ===== src/Playback/Stored.antt =====
-- The evidence that `playback_batch` (backend/signage/api.py) stores.
use digital_signage_project.Base.{
  ℕ, ◌+◌, ◌≤◌, ◌≡◌, refl, Bool, true, false, none, some, List, [], ◌∷◌, ◌++◌, map, ◌==◌, arith, any,
  filter, is_some, All, All-append, All-map, ap, ==_iff, ==_refl, get, get-append_new,
  get-append_old, length, length-filter-append_one, length-filter_none, mem, subst, Bool-cases,
  Option-cases, inl, inr,
}
use digital_signage_project.Models.{
  DeviceAssignment, Evidence, evidence_id, event_id, PlaybackBatch, PlaybackEvent, batch_id,
}
use digital_signage_project.Playback.Submission.{Ledger, Normalized}
use digital_signage_project.Playback.Receipt.{
  stored_evidence, playback_batch_matches, new_batch, new_events, collides, recorded,
}
use digital_signage_project.Playback.Complete.{count, count-mem_none}
use digital_signage_project.Playback.Matching.{playback_batch_matches_iff}

-- The tables are sound: keys are distinct and every event has its batch.
pub record IsSound (s : Ledger) : Type 0 where
  pub batches_distinct : (k : ℕ) → length (filter (λ (b : PlaybackBatch). b.id == k) s.batches) ≤ 1
  pub events_distinct : (k : ℕ) → length (filter (λ e. event_id e == k) s.events) ≤ 1
  pub owned : All (λ (e : PlaybackEvent). is_some (get batch_id e.batch s.batches) ≡ true) s.events

stored_evidence-new_events : (b : ℕ) (es : List Evidence) → stored_evidence b (new_events b es) ≡ es
unfolding stored_evidence
stored_evidence-new_events b [] = refl
stored_evidence-new_events b (e ∷ es) =
    rw (==_refl b) (ap (λ l. e ∷ l) (stored_evidence-new_events b es))

-- A new batch has the events that are stored with it.
stored_evidence-append :
    (b : ℕ) (batches : List PlaybackBatch) (old : List PlaybackEvent) (es : List Evidence)
    → get batch_id b batches ≡ none
    → All (λ (e : PlaybackEvent). is_some (get batch_id e.batch batches) ≡ true) old
    → stored_evidence b (old ++ new_events b es) ≡ es
unfolding stored_evidence
stored_evidence-append b batches [] es h o = stored_evidence-new_events b es
stored_evidence-append b batches (x ∷ xs) es h o = elim (Bool-cases (x.batch == b)) [
  | inl e ↦ absurd (let q = (==_iff x.batch b).0 e in let z = o.0 in ground arith)
  | inr e ↦ rw e (stored_evidence-append b batches xs es h o.1)
]

length-filter-append :
    {A : Type 0} (p : A → Bool) (xs ys : List A)
    → length (filter p (xs ++ ys)) ≡ length (filter p xs) + length (filter p ys)
length-filter-append p [] ys = omega arith
length-filter-append p (x ∷ xs) ys = ground (arith, length-filter-append p xs ys)

count-new_events :
    (b k : ℕ) (es : List Evidence)
    → length (filter (λ e. event_id e == k) (new_events b es)) ≡ count k (map evidence_id es)
count-new_events b k [] = refl
count-new_events b k (e ∷ es) = ground (arith, count-new_events b k es)

free_key :
    (k : ℕ) (ids : List ℕ) (old : List PlaybackEvent)
    → any (λ (x : PlaybackEvent). mem x.evidence.id ids) old ≡ false
    → mem k ids ≡ true
    → length (filter (λ e. event_id e == k) old) ≡ 0
free_key k ids [] h i = refl
free_key k ids (x ∷ xs) h i = elim (Bool-cases (event_id x == k)) [
  | inl e ↦ absurd (let q = (==_iff (event_id x) k).0 e in ground arith)
  | inr e ↦ ground (arith, free_key k ids xs)
]

owned_new :
    (b : ℕ) (batches : List PlaybackBatch) (es : List Evidence)
    → is_some (get batch_id b batches) ≡ true
    → All (λ (e : PlaybackEvent). is_some (get batch_id e.batch batches) ≡ true) (new_events b es)
owned_new b batches [] h = tt
owned_new b batches (e ∷ es) h = (h, owned_new b batches es h)

is_some-get-append :
    (k : ℕ) (batches : List PlaybackBatch) (x : PlaybackBatch)
    → is_some (get batch_id k batches) ≡ true
    → is_some (get batch_id k (batches ++ x ∷ [])) ≡ true
is_some-get-append k batches x h = elim (Option-cases (get batch_id k batches)) [
  | inl e ↦ absurd (let z = rw e at h in cc)
  | inr (b, e) ↦ rw (get-append_old batch_id k batches x e) refl
]

module _ (now device : ℕ) (assignments : List DeviceAssignment) (n : Normalized) (s : Ledger)
    (free : collides (new_batch device assignments n) n.events s ≡ false) where
  pub batch_free : any (λ (x : PlaybackBatch). x.id == n.id) s.batches ≡ false
  unfolding collides
  batch_free = (let z = free in ground arith)

  events_free :
      any (λ (x : PlaybackEvent). mem x.evidence.id (map evidence_id n.events)) s.events ≡ false
  unfolding collides
  events_free = (let z = free in ground arith)

  batches_count :
      (k : ℕ)
      → length (filter (λ (x : PlaybackBatch). x.id == k) s.batches) ≤ 1
      → length (
          filter
            (λ (x : PlaybackBatch). x.id == k)
            (s.batches ++ new_batch device assignments n ∷ []))
        ≤ 1
  batches_count k h =
      let a =
        length-filter-append_one (λ (x : PlaybackBatch). x.id == k) s.batches
          (new_batch device assignments n) in
      elim (Bool-cases (n.id == k)) [
        | inl e ↦
            let z =
              length-filter_none (λ (x : PlaybackBatch). x.id == k) s.batches
                (subst (λ j. any (λ (x : PlaybackBatch). x.id == j) s.batches ≡ false)
                  ((==_iff n.id k).0 e) batch_free) in
            ground (arith, a, z)
        | inr e ↦ ground (arith, a)
      ]

  events_count :
      (k : ℕ)
      → length (filter (λ e. event_id e == k) s.events) ≤ 1
      → count k (map evidence_id n.events) ≤ 1
      → length (filter (λ e. event_id e == k) (s.events ++ new_events n.id n.events)) ≤ 1
  events_count k h d =
      let a = length-filter-append (λ e. event_id e == k) s.events (new_events n.id n.events) in
      let b = count-new_events n.id k n.events in
      elim (Bool-cases (mem k (map evidence_id n.events))) [
        | inl e ↦
            let z = free_key k (map evidence_id n.events) s.events events_free e in
            omega (arith, a, b, z, d)
        | inr e ↦ let z = count-mem_none k (map evidence_id n.events) e in omega (arith, a, b, z, h)
      ]

  pub new_found :
      get batch_id n.id (recorded now device assignments n s).batches
      ≡ some (new_batch device assignments n)
  new_found =
      get-append_new batch_id s.batches (new_batch device assignments n)
        (length-filter_none (λ (x : PlaybackBatch). x.id == n.id) s.batches batch_free)

  pub recorded-IsSound :
      ((k : ℕ) → count k (map evidence_id n.events) ≤ 1)
      → IsSound s
      → IsSound (recorded now device assignments n s)
  recorded-IsSound distinct v = record {
    batches_distinct = λ k. batches_count k (v.batches_distinct k);
    events_distinct = λ k. events_count k (v.events_distinct k) (distinct k);
    owned =
        All-append _ s.events (new_events n.id n.events)
          (All-map _ _ s.events
            (λ e. is_some-get-append e.batch s.batches (new_batch device assignments n)) v.owned)
          (owned_new n.id (recorded now device assignments n s).batches n.events
            (rw new_found refl));
  }

  -- The batch that is stored repeats the submission.
  pub recorded_matches :
      IsSound s
      → get batch_id n.id s.batches ≡ none
      → playback_batch_matches
          (recorded now device assignments n s).events
          (new_batch device assignments n)
          n
        ≡ true
  recorded_matches v h =
      (playback_batch_matches_iff (recorded now device assignments n s).events
          (new_batch device assignments n) n).1
        (record {
          playlist = refl;
          started_at = refl;
          ended_at = refl;
          offline = refl;
          evidence = λ k.
              ap (get evidence_id k)
                (stored_evidence-append n.id s.batches s.events n.events h v.owned);
        })

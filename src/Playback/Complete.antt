-- ===== src/Playback/Complete.antt =====
-- What `validate_playback_batch_payload` (backend/signage/api.py) guarantees of the evidence that it
-- returns.
use digital_signage_project.Base.{
  ℕ, ◌+◌, ◌≤◌, ◌≡◌, refl, Bool, true, false, not, List, [], ◌∷◌, map, ltb, ◌==◌, all, arith, All,
  length, filter, mem, to_set, ok, >>=-cases, raise_if-cases, raise_if-not, or_raise, ok-injective,
  subst, Bool-cases, inl, inr, sym, ==_iff, ◌∙◌,
}
use digital_signage_project.Models.{Playlist, Evidence, evidence_id}
use digital_signage_project.Wire.{Json, Fields}
use digital_signage_project.Wire.Reading.{Readers, required_value, as_boolean}
use digital_signage_project.Base.{Place}
use digital_signage_project.Playback.{Entry, entry_id, Loop, tolerance, validate_events}
use digital_signage_project.Playback.Submission.{
  has_duplicates, same_keys, Normalized, item_of, as_array, check_coverage, time_field, parse_loop,
  normalize_events, validate_playback_batch_payload,
}
use digital_signage_project.Playback.Checked.{IsConsistent}
use digital_signage_project.Playback.Consistent.{validate_events-IsConsistent}

-- How often a key stands in a list.
abbrev pub count : ℕ → List ℕ → ℕ
count k ks = length (filter (λ j. j == k) ks)

pub count-mem_none : (k : ℕ) (ks : List ℕ) → mem k ks ≡ false → count k ks ≡ 0
count-mem_none k [] h = refl
count-mem_none k (j ∷ js) h = ground (arith, count-mem_none k js)

count-mem_some : (k : ℕ) (ks : List ℕ) → mem k ks ≡ true → 1 ≤ count k ks
count-mem_some k [] h = absurd (cc)
count-mem_some k (j ∷ js) h = ground (arith, count-mem_some k js)

length-to_set-le : (ks : List ℕ) → length (to_set ks) ≤ length ks
length-to_set-le [] = ground arith
length-to_set-le (k ∷ ks) = ground (arith, length-to_set-le ks)

count-le_one : (k : ℕ) (ks : List ℕ) → length ks ≡ length (to_set ks) → count k ks ≤ 1
count-le_one k [] h = ground arith
count-le_one k (j ∷ js) h = elim (Bool-cases (mem j js)) [
  | inl e ↦ absurd (ground (arith, length-to_set-le js))
  | inr e ↦ ground (arith, count-le_one k js, count-mem_none j js e)
]

pub mem-all : (f : ℕ → Bool) (k : ℕ) (ks : List ℕ) → all f ks ≡ true → mem k ks ≡ true → f k ≡ true
mem-all f k [] h i = absurd (cc)
mem-all f k (j ∷ js) h i = elim (Bool-cases (k == j)) [
  | inl e ↦ subst (λ x. f x ≡ true) (sym ((==_iff k j).0 e)) (ground arith)
  | inr e ↦ mem-all f k js (ground arith) (ground arith)
]

-- Two lists that are the same set have the same members.
pub same_keys-mem : (js ks : List ℕ) (k : ℕ) → same_keys js ks ≡ true → mem k js ≡ mem k ks
same_keys-mem js ks k h = elim (Bool-cases (mem k js)) [
  | inl e ↦ e ∙ sym (mem-all (λ j. mem j ks) k js (ground arith) e)
  | inr e ↦ elim (Bool-cases (mem k ks)) [
    | inl f ↦ absurd (let z = mem-all (λ j. mem j js) k ks (ground arith) f in ground arith)
    | inr f ↦ e ∙ sym f
  ]
]

count-once : (k : ℕ) (ks : List ℕ) → has_duplicates ks ≡ false → count k ks ≤ 1
count-once k ks h = count-le_one k ks (ground arith)

-- The keys of the rows are distinct and the events stand for every item exactly once.
pub record IsCoverage (entries : List Entry) (events : List Evidence) : Type 0 where
  pub distinct : (k : ℕ) → count k (map evidence_id events) ≤ 1
  pub once : (k : ℕ) → mem k (map entry_id entries) ≡ true → count k (map item_of events) ≡ 1
  pub no_other : (k : ℕ) → mem k (map entry_id entries) ≡ false → count k (map item_of events) ≡ 0

check_coverage-IsCoverage :
    (entries : List Entry) (events : List Evidence) {u : Unit {0}}
    → check_coverage entries events ≡ ok u
    → IsCoverage entries events
unfolding check_coverage
check_coverage-IsCoverage entries events h =
    raise_if-cases (has_duplicates (map evidence_id events)) _ _ h (λ h1 k1.
      raise_if-cases (has_duplicates (map item_of events)) _ _ k1 (λ h2 k2.
        let same = raise_if-not (same_keys (map item_of events) (map entry_id entries)) _ k2 in
        record {
          distinct = λ k. count-once k (map evidence_id events) h1;
          once = λ k i.
              let j = same_keys-mem (map item_of events) (map entry_id entries) k same ∙ i in
              let a = count-mem_some k (map item_of events) j in
              let b = count-once k (map item_of events) h2 in omega (arith, a, b);
          no_other = λ k i.
              count-mem_none k (map item_of events)
                (same_keys-mem (map item_of events) (map entry_id entries) k same ∙ i);
        }))

-- The evidence that a submission for playlist `p` must give.
pub record IsEvidence (now : ℕ) (entries : List Entry) (p : Playlist) (n : Normalized)
    : Type 0 where
  pub ordered : n.loop_started_at ≤ n.loop_ended_at
  pub scheduled : p.starts_at ≤ n.loop_started_at + tolerance
  pub nonempty : 1 ≤ length entries
  pub coverage : IsCoverage entries n.events
  pub consistent :
      All
        (IsConsistent now entries
          (record { started_at = n.loop_started_at; ended_at = n.loop_ended_at }))
        n.events

module _ (lib : Readers) (now : ℕ) where
  parse_loop-ordered :
      (body : Fields) (p : Playlist) {l : Loop}
      → parse_loop lib now body p ≡ ok l
      → (l.started_at ≤ l.ended_at) × (p.starts_at ≤ l.started_at + tolerance)
  unfolding parse_loop
  parse_loop-ordered body p h =
      >>=-cases (time_field lib now "loop_started_at" body) _ h (λ started_at h1 k1.
        >>=-cases (time_field lib now "loop_ended_at" body) _ k1 (λ ended_at h2 k2.
          raise_if-cases (ltb ended_at started_at) _ _ k2 (λ h3 k3.
            raise_if-cases (ltb (started_at + tolerance) p.starts_at) _ _ k3 (λ h4 k4.
              subst
                (λ (l : Loop).
                  (l.started_at ≤ l.ended_at) × (p.starts_at ≤ l.started_at + tolerance))
                (ok-injective k4) (ground arith, ground arith)))))

  normalize_events-parts :
      (entries : List Entry) (l : Loop) (raw : List Json) {es : List Evidence}
      → normalize_events lib now entries l raw ≡ ok es
      → (1 ≤ length entries) × IsCoverage entries es × All (IsConsistent now entries l) es
  unfolding normalize_events
  normalize_events-parts entries l raw h = raise_if-cases (length entries == 0) _ _ h (λ h1 k1.
      raise_if-cases (not (length raw == length entries)) _ _ k1 (λ h2 k2.
        >>=-cases (validate_events lib now entries l 0 raw) _ k2 (λ es h3 k3.
          >>=-cases (check_coverage entries es) _ k3 (λ u h4 k4.
            subst
              (λ es.
                (1 ≤ length entries) × IsCoverage entries es × All (IsConsistent now entries l) es)
              (ok-injective k4)
              (
                ground arith,
                check_coverage-IsCoverage entries es h4,
                validate_events-IsConsistent lib now entries l 0 raw h3,
              )))))

  -- Evidence that is accepted covers a loop after the start of the playlist and has exactly one event
  -- for every item of the playlist and none for another, under distinct identifiers. Every event lies
  -- within the loop up to the tolerance and not ahead of the clock, ends after it starts, lasts no
  -- longer than its timestamps allow, and has the duration of its media and no reason if it was
  -- completed, else a recognized reason.
  pub validate_playback_batch_payload-IsEvidence :
      (entries : List Entry) (body : Fields) (p : Playlist) (id playlist_id : ℕ) (n : Normalized)
      → validate_playback_batch_payload lib now entries body p id playlist_id ≡ ok n
      → IsEvidence now entries p n
  unfolding validate_playback_batch_payload
  validate_playback_batch_payload-IsEvidence entries body p id playlist_id n h =
      >>=-cases (parse_loop lib now body p) _ h (λ l h1 k1.
        >>=-cases (required_value (Place.field "captured_offline") "captured_offline" body) _ k1
          (λ v h2 k2. >>=-cases (or_raise (as_boolean v) _) _ k2 (λ offline h3 k3.
            >>=-cases (required_value (Place.field "events") "events" body) _ k3 (λ listed h4 k4.
              >>=-cases (or_raise (as_array listed) _) _ k4 (λ raw h5 k5.
                >>=-cases (normalize_events lib now entries l raw) _ k5 (λ es h6 k6.
                  let (a, b) = parse_loop-ordered body p h1 in
                  let (c, d, e) = normalize_events-parts entries l raw h6 in
                  subst (IsEvidence now entries p) (ok-injective k6) (record {
                    ordered = a;
                    scheduled = b;
                    nonempty = c;
                    coverage = d;
                    consistent = e;
                  })))))))

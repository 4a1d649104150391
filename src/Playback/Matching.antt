-- ===== src/Playback/Matching.antt =====
-- `playback_batch_matches` (backend/signage/api.py) decides whether a submission repeats the stored
-- evidence.
use digital_signage_project.Base.{
  ℕ, ◌≡◌, refl, ◌↔◌, Bool, true, false, ◌&&◌, Option, none, some, List, [], ◌∷◌, map, all, arith,
  ap, ==_refl, is_some, get, get-key, mem, bool_eq, opt_eq_iff, eq_iff, Bool-cases, Option-cases,
  inl, inr, sym, ◌∙◌,
}
use digital_signage_project.Models.{
  Evidence, PlaybackBatch, PlaybackEvent, PlaybackStatus, playback_status_eq, evidence_id,
}
use digital_signage_project.Playback.Submission.{same_keys, Normalized}
use digital_signage_project.Playback.Receipt.{
  same_evidence, same_entry, stored_evidence, same_header, same_events, playback_batch_matches,
}
use digital_signage_project.Playback.Complete.{mem-all, same_keys-mem}

playback_status_eq_iff : (a b : PlaybackStatus) → (playback_status_eq a b ≡ true) ↔ (a ≡ b)
playback_status_eq_iff PlaybackStatus.completed PlaybackStatus.completed = (λ _. refl, λ _. refl)
playback_status_eq_iff PlaybackStatus.completed PlaybackStatus.interrupted =
    (λ h. absurd (cc), λ h. absurd (cc))
playback_status_eq_iff PlaybackStatus.completed PlaybackStatus.failed =
    (λ h. absurd (cc), λ h. absurd (cc))
playback_status_eq_iff PlaybackStatus.interrupted PlaybackStatus.completed =
    (λ h. absurd (cc), λ h. absurd (cc))
playback_status_eq_iff PlaybackStatus.interrupted PlaybackStatus.interrupted =
    (λ _. refl, λ _. refl)
playback_status_eq_iff PlaybackStatus.interrupted PlaybackStatus.failed =
    (λ h. absurd (cc), λ h. absurd (cc))
playback_status_eq_iff PlaybackStatus.failed PlaybackStatus.completed =
    (λ h. absurd (cc), λ h. absurd (cc))
playback_status_eq_iff PlaybackStatus.failed PlaybackStatus.interrupted =
    (λ h. absurd (cc), λ h. absurd (cc))
playback_status_eq_iff PlaybackStatus.failed PlaybackStatus.failed = (λ _. refl, λ _. refl)

bool_eq_iff : (a b : Bool) → (bool_eq a b ≡ true) ↔ (a ≡ b)
bool_eq_iff a b = ground arith

and_left : (a b : Bool) → (a && b) ≡ true → a ≡ true
and_left a b h = ground arith

and_right : (a b : Bool) → (a && b) ≡ true → b ≡ true
and_right a b h = ground arith

evidence_ext :
    (a b : Evidence)
    → a.id ≡ b.id
    → a.playlist_item ≡ b.playlist_item
    → a.started_at ≡ b.started_at
    → a.ended_at ≡ b.ended_at
    → a.duration_ms ≡ b.duration_ms
    → a.status ≡ b.status
    → a.failure_reason ≡ b.failure_reason
    → a ≡ b
evidence_ext a b h1 h2 h3 h4 h5 h6 h7 = cc

same_evidence-eq : (a b : Evidence) → a.id ≡ b.id → same_evidence a b ≡ true → a ≡ b
unfolding same_evidence
same_evidence-eq a b i h =
    evidence_ext a b i (ground arith) (ground arith)
      ((opt_eq_iff a.ended_at b.ended_at).0 (ground arith)) (ground arith)
      ((playback_status_eq_iff a.status b.status).0 (ground arith))
      ((eq_iff a.failure_reason b.failure_reason).0 (ground arith))

same_evidence_refl : (a : Evidence) → same_evidence a a ≡ true
unfolding same_evidence
same_evidence_refl a = ground (
  arith,
  opt_eq_iff a.ended_at a.ended_at,
  playback_status_eq_iff a.status a.status,
  eq_iff a.failure_reason a.failure_reason,
)

is_some-get :
    (k : ℕ) (es : List Evidence) → is_some (get evidence_id k es) ≡ mem k (map evidence_id es)
unfolding get
is_some-get k [] = refl
is_some-get k (e ∷ es) = ground (arith, is_some-get k es)

is_some-none : (o : Option Evidence) → is_some o ≡ false → o ≡ none
is_some-none none h = refl
is_some-none (some x) h = absurd (cc)

all-mem : (f : ℕ → Bool) (ks : List ℕ) → ((k : ℕ) → mem k ks ≡ true → f k ≡ true) → all f ks ≡ true
all-mem f [] h = refl
all-mem f (j ∷ js) h =
    let a : f j ≡ true = h j (ground (arith, ==_refl j)) in
    let b : all f js ≡ true = all-mem f js (λ k i. h k (ground arith)) in ground arith

same_entry-eq :
    (k : ℕ) (xs ys : List Evidence)
    → same_entry (get evidence_id k xs) (get evidence_id k ys) ≡ true
    → get evidence_id k xs ≡ get evidence_id k ys
same_entry-eq k xs ys h = elim (Option-cases (get evidence_id k xs)) [
  | inl e ↦ absurd (let z = rw e at h in cc)
  | inr (x, e) ↦ elim (Option-cases (get evidence_id k ys)) [
    | inl f ↦ absurd (let z = rw (e, f) at h in cc)
    | inr (y, f) ↦
        let z : same_evidence x y ≡ true = rw (e, f) at h in
        let i = get-key evidence_id k xs e ∙ sym (get-key evidence_id k ys f) in
        e ∙ ap some (same_evidence-eq x y i z) ∙ sym f
  ]
]

same_entry_refl :
    (k : ℕ) (xs ys : List Evidence)
    → mem k (map evidence_id ys) ≡ true
    → get evidence_id k xs ≡ get evidence_id k ys
    → same_entry (get evidence_id k xs) (get evidence_id k ys) ≡ true
same_entry_refl k xs ys i h = elim (Option-cases (get evidence_id k ys)) [
  | inl e ↦ absurd (let z = is_some-get k ys in let w = rw e at z in ground arith)
  | inr (y, e) ↦ rw (h, e) (same_evidence_refl y)
]

same_events-get :
    (xs ys : List Evidence)
    → same_events xs ys ≡ true
    → (k : ℕ) → get evidence_id k xs ≡ get evidence_id k ys
unfolding same_events
same_events-get xs ys h k =
    let f = λ (j : ℕ). same_entry (get evidence_id j xs) (get evidence_id j ys) in
    let s =
      same_keys-mem (map evidence_id ys) (map evidence_id xs) k
        (and_left _ (all f (map evidence_id ys)) h) in
    elim (Bool-cases (mem k (map evidence_id ys))) [
      | inl e ↦ same_entry-eq k xs ys (
          mem-all f k (map evidence_id ys)
            (and_right (same_keys (map evidence_id ys) (map evidence_id xs)) _ h) e)
      | inr e ↦
          is_some-none _ (is_some-get k xs ∙ sym s ∙ e)
          ∙ sym (is_some-none _ (is_some-get k ys ∙ e))
    ]

get-same_events :
    (xs ys : List Evidence)
    → ((k : ℕ) → get evidence_id k xs ≡ get evidence_id k ys)
    → same_events xs ys ≡ true
unfolding same_events
get-same_events xs ys h =
    let m = λ (k : ℕ). sym (is_some-get k xs) ∙ ap is_some (h k) ∙ is_some-get k ys in
    let a = all-mem (λ j. mem j (map evidence_id xs)) (map evidence_id ys) (λ k i. m k ∙ i) in
    let b = all-mem (λ j. mem j (map evidence_id ys)) (map evidence_id xs) (λ k i. sym (m k) ∙ i) in
    let c =
      all-mem (λ k. same_entry (get evidence_id k xs) (get evidence_id k ys)) (map evidence_id ys)
        (λ k i. same_entry_refl k xs ys i (h k)) in
    rw (a, b, c) refl

-- What it means that a submission repeats the stored batch `b`.
pub record IsRepeated (events : List PlaybackEvent) (b : PlaybackBatch) (n : Normalized)
    : Type 0 where
  pub playlist : b.playlist ≡ n.playlist_id
  pub started_at : b.loop_started_at ≡ n.loop_started_at
  pub ended_at : b.loop_ended_at ≡ some n.loop_ended_at
  pub offline : b.captured_offline ≡ n.captured_offline
  pub evidence :
      (k : ℕ) → get evidence_id k (stored_evidence b.id events) ≡ get evidence_id k n.events

-- The comparison holds exactly if the two loops have the same columns and the same event, or none,
-- under every identifier.
pub playback_batch_matches_iff :
    (events : List PlaybackEvent) (b : PlaybackBatch) (n : Normalized)
    → (playback_batch_matches events b n ≡ true) ↔ IsRepeated events b n
unfolding playback_batch_matches
playback_batch_matches_iff events b n = (
  λ h.
      let a = and_left (same_header b n) _ h in
      record {
        playlist = (ground arith);
        started_at = ground arith;
        ended_at = (opt_eq_iff b.loop_ended_at (some n.loop_ended_at)).0 (ground arith);
        offline = (bool_eq_iff b.captured_offline n.captured_offline).0 (ground arith);
        evidence =
            same_events-get (stored_evidence b.id events) n.events
              (and_right (same_header b n) _ h);
      },
  λ r.
      let c : same_header b n ≡ true = ground (
        arith,
        r.playlist,
        r.started_at,
        (opt_eq_iff b.loop_ended_at (some n.loop_ended_at)).1 r.ended_at,
        (bool_eq_iff b.captured_offline n.captured_offline).1 r.offline,
      ) in
      rw (c, get-same_events (stored_evidence b.id events) n.events r.evidence) refl,
)

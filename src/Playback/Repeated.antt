-- ===== src/Playback/Repeated.antt =====
-- What calls of `playback_batch` (backend/signage/api.py) leave in the tables, and what a repeated
-- submission does.
use digital_signage_project.Base.{
  ℕ, ◌≤◌, ◌≡◌, refl, true, false, none, some, List, [], ◌∷◌, ◌++◌, ◌==◌, arith, OnOk, sym, ap,
  ==_refl, get, ok, Result-cases, subst, inl, inr,
}
use digital_signage_project.Models.{Device, PlaybackBatch, PlaybackEvent, batch_id, event_id}
use digital_signage_project.Wire.{Fields}
use digital_signage_project.Wire.Reading.{Readers}
use digital_signage_project.Credentials.{is_disabled}
use digital_signage_project.Playback.Submission.{
  Ledger, Normalized, playlist_entries, validate_playback_batch_payload,
}
use digital_signage_project.Playback.Receipt.{
  Accepted, new_batch, collides, recorded, settle_batch, playback_batch,
}
use digital_signage_project.Playback.Complete.{validate_playback_batch_payload-IsEvidence}
use digital_signage_project.Playback.Later.{validate_playback_batch_payload-Later}
use digital_signage_project.Playback.Answered.{
  IsOutcome, repeated, stored, playback_batch-IsAnswered,
}
use digital_signage_project.Playback.Stored.{IsSound, recorded-IsSound, recorded_matches, new_found}

-- Every stored row stays as it is.
pub record Extends (s t : Ledger) : Type 0 where
  pub batches :
      (k : ℕ) (b : PlaybackBatch)
      → get batch_id k s.batches ≡ some b
      → get batch_id k t.batches ≡ some b
  pub events :
      (k : ℕ) (e : PlaybackEvent)
      → get event_id k s.events ≡ some e
      → get event_id k t.events ≡ some e

Extends-trans : (s t u : Ledger) → Extends s t → Extends t u → Extends s u
Extends-trans s t u f g = record {
  batches = λ k b h. g.batches k b (f.batches k b h);
  events = λ k e h. g.events k e (f.events k e h);
}

get-append :
    {A : Type 0} (key : A → ℕ) (k : ℕ) (t xs : List A) {y : A}
    → get key k t ≡ some y
    → get key k (t ++ xs) ≡ some y
unfolding get
get-append key k [] xs h = absurd (cc)
get-append key k (z ∷ zs) xs {y} h = ground (arith, get-append key k zs xs {y = y})

-- What holds of the tables that were read and of those with the new batch holds of the result.
outcome_all :
    (P : Ledger → Type 0) (now device : ℕ) (s seen reloaded : Ledger) (n : Normalized)
    (r : Ledger × Accepted)
    → P s
    → P reloaded
    → (collides (new_batch device s.assignments n) n.events seen ≡ false
        → P (recorded now device s.assignments n seen))
    → IsOutcome now device s seen reloaded n r
    → P r.0
outcome_all P now device s seen reloaded n r ps pt pn (repeated t b (inl q) h1 h2 h3 h4) =
    subst (λ (x : Ledger × Accepted). P x.0) (sym h4) (subst P (sym q) ps)
outcome_all P now device s seen reloaded n r ps pt pn (repeated t b (inr q) h1 h2 h3 h4) =
    subst (λ (x : Ledger × Accepted). P x.0) (sym h4) (subst P (sym q) pt)
outcome_all P now device s seen reloaded n r ps pt pn (stored h1 h2 h3) =
    subst (λ (x : Ledger × Accepted). P x.0) (sym h3) (pn h2)

-- A call that reports no duplicate has stored its batch.
stored_of :
    (now device : ℕ) (s seen reloaded : Ledger) (n : Normalized) (s' : Ledger)
    → IsOutcome now device s seen reloaded n (s', record { duplicate = false })
    → (get batch_id n.id s.batches ≡ none)
      × (collides (new_batch device s.assignments n) n.events seen ≡ false)
      × (s' ≡ recorded now device s.assignments n seen)
stored_of now device s seen reloaded n s' (repeated t b q h1 h2 h3 h4) = absurd (cc)
stored_of now device s seen reloaded n s' (stored h1 h2 h3) =
    (h1, h2, ap (λ (x : Ledger × Accepted). x.0) h3)

module _ (lib : Readers) (between after : Ledger → Ledger) (now : ℕ) (device : Device)
    (body : Fields) (s : Ledger) where
  -- Batches and events are never changed or lost: if other transactions keep the stored rows, then so
  -- does a call that returns.
  pub playback_batch-Extends :
      ((t : Ledger) → Extends t (between t))
      → ((t : Ledger) → Extends t (after t))
      → OnOk (λ r. Extends s r.0) (playback_batch lib between after now device body s)
  playback_batch-Extends kb ka =
      elim (Result-cases (playback_batch lib between after now device body s)) [
        | inl (x, e) ↦ rw e tt
        | inr (r, e) ↦
            let a = playback_batch-IsAnswered lib between after now device body s r e in
            rw e (
              outcome_all (Extends s) now device.id s (between s) (after (between s)) a.submitted r
                (record { batches = λ k b h. h; events = λ k x h. h })
                (Extends-trans s (between s) (after (between s)) (kb s) (ka (between s)))
                (λ h. record {
                  batches =
                      λ k b q. get-append batch_id k (between s).batches _ ((kb s).batches k b q);
                  events =
                      λ k x q. get-append event_id k (between s).events _ ((kb s).events k x q);
                })
                a.outcome)
      ]

  -- Sound tables stay sound: no two batches and no two events share an identifier, and every event has
  -- its batch, if other transactions keep it so.
  pub playback_batch-IsSound :
      ((t : Ledger) → IsSound t → IsSound (between t))
      → ((t : Ledger) → IsSound t → IsSound (after t))
      → IsSound s
      → OnOk (λ r. IsSound r.0) (playback_batch lib between after now device body s)
  playback_batch-IsSound kb ka v =
      elim (Result-cases (playback_batch lib between after now device body s)) [
        | inl (x, e) ↦ rw e tt
        | inr (r, e) ↦
            let a = playback_batch-IsAnswered lib between after now device body s r e in
            let i =
              validate_playback_batch_payload-IsEvidence lib now _ body a.playlist _ _ a.submitted
                a.validated in
            rw e (
              outcome_all IsSound now device.id s (between s) (after (between s)) a.submitted r v
                (ka (between s) (kb s v))
                (λ h.
                  recorded-IsSound now device.id s.assignments a.submitted (between s) h
                    i.coverage.distinct (kb s v))
                a.outcome)
      ]

module _ (lib : Readers) (now later : ℕ) (device device' : Device) (body : Fields)
    (s s' : Ledger) where
  -- A device that submits a stored batch again, at any later time and while it is enabled, is answered
  -- that it is a duplicate, and nothing is written.
  pub playback_batch_repeated :
      (between after : Ledger → Ledger)
      → IsSound s
      → now ≤ later
      → device'.id ≡ device.id
      → is_disabled device' ≡ false
      → playback_batch lib (λ t. t) (λ t. t) now device body s
        ≡ ok (s', record { duplicate = false })
      → playback_batch lib between after later device' body s'
        ≡ ok (s', record { duplicate = true })
  unfolding playback_batch settle_batch playlist_entries
  playback_batch_repeated between after v ahead same enabled h =
      let a = playback_batch-IsAnswered lib (λ t. t) (λ t. t) now device body s _ h in
      let n = a.submitted in
      let (o1, o2, o3) = stored_of now device.id s s s n s' a.outcome in
      let t = recorded now device.id s.assignments n s in
      let b = new_batch device.id s.assignments n in
      let f : get batch_id n.id t.batches ≡ some b = new_found now device.id s.assignments n s o2 in
      let m = recorded_matches now device.id s.assignments n s o2 v o1 in
      let w : validate_playback_batch_payload lib later (playlist_entries t a.playlist.id) body
            a.playlist n.id n.playlist_id
          ≡ ok n =
        validate_playback_batch_payload-Later lib now later ahead (playlist_entries s a.playlist.id)
          body a.playlist n.id n.playlist_id n a.validated in
      let d : (device.id == device'.id) ≡ true = (rw same (==_refl device.id)) in
      rw (o3, enabled, a.id_read, a.key_read, f, d, a.found, w, m) refl

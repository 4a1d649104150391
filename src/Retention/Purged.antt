-- ===== src/Retention/Purged.antt =====
-- What `_delete_expired_playback_evidence` of apply_retention.py (backend/signage/management/commands)
-- leaves of an archive.
use digital_signage_project.Base.{
  ℕ, suc, ◌<◌, ◌≡◌, refl, Bool, true, false, not, ◌&&◌, List, [], ◌∷◌, ltb, ◌==◌, filter, any,
  length, mem, arith, is_some, get, All-In, All-of_In, ==_refl, subst, sym, ap, ◌∙◌, inl, inr,
  Bool-cases,
}
use digital_signage_project.Models.{PlaybackEvent, PlaybackBatch, PlaybackStatus, batch_id}
use digital_signage_project.Retention.{
  first_keys, drain, Archive, event_started, is_expired_event, delete_status, is_expired_batch,
  batch_started, delete_batches, delete_empty_batches, delete_expired_playback_evidence,
}
use digital_signage_project.Retention.Loops.{
  drain_keeps, drain_ends, first_keys-some, first_keys-none, length-filter-lt, filter_none,
  filter-filter_sub,
}
use digital_signage_project.Retention.Evidence.{
  IsLinked, HasKeys, any-batch, delete_status_lem, get-filter_keep, shorter, status_cases,
}

module _ (fuel size cutoff : ℕ) where
  delete_batches-IsLinked :
      (ids : List ℕ) (s : Archive) → IsLinked s → IsLinked (delete_batches cutoff ids s)
  delete_batches-IsLinked ids s v = record {
    corrections = v.corrections;
    events = All-of_In _ _ (λ e i.
        let q =
          λ (b : PlaybackBatch). not (is_expired_batch cutoff s.events b && mem (batch_id b) ids) in
        let g = get-filter_keep batch_id e.batch q s.batches (λ b j.
          let u : any (λ (x : PlaybackEvent). x.batch == b.id) s.events ≡ true =
            subst (λ k. any (λ (x : PlaybackEvent). x.batch == k) s.events ≡ true) (sym j)
              (any-batch e s.events i) in
          rw u (ground arith)) in
        rw g (
          All-In (λ (x : PlaybackEvent). is_some (get batch_id x.batch s.batches) ≡ true) s.events
            v.events i));
  }

  -- The last loop deletes the old batches without events.
  delete_empty_batches_lem :
      (s : Archive)
      → IsLinked s
      → length s.batches < fuel
      → let t = delete_empty_batches fuel (suc size) cutoff s in
        (t.batches ≡ filter (λ b. not (is_expired_batch cutoff s.events b)) s.batches)
        × IsLinked t
        × (t.events ≡ s.events)
  unfolding delete_empty_batches
  delete_empty_batches_lem s v h =
      let p = is_expired_batch cutoff s.events in
      let candidates = λ (t : Archive).
        first_keys (suc size) batch_id batch_started (is_expired_batch cutoff t.events) t.batches in
      let (kept, linked, same) =
        drain_keeps candidates (delete_batches cutoff)
          (λ (t : Archive).
            (filter (λ b. not (p b)) t.batches ≡ filter (λ b. not (p b)) s.batches)
            × IsLinked t
            × (t.events ≡ s.events))
          (λ t k ks e i. (
            filter-filter_sub p
                  (λ b. not (is_expired_batch cutoff t.events b && mem (batch_id b) (k ∷ ks)))
                  t.batches
                  (λ b j q.
                    let z : is_expired_batch cutoff t.events b ≡ false =
                      subst (λ es. is_expired_batch cutoff es b ≡ false) (sym i.2) q in
                    rw z refl)
                ∙ i.0,
            delete_batches-IsLinked (k ∷ ks) t i.1,
            i.2,
          ))
          fuel s (refl, v, refl) in
      let ends =
        drain_ends candidates (delete_batches cutoff) (λ (t : Archive). length t.batches)
          (λ t k ks e.
            let (x, i, px, q) =
              first_keys-some (suc size) batch_id batch_started (is_expired_batch cutoff t.events)
                t.batches k ks e in
            length-filter-lt
              (λ b. not (is_expired_batch cutoff t.events b && mem (batch_id b) (k ∷ ks))) t.batches
              x i (rw (px, q, ==_refl k) refl))
          fuel s h in
      let final : Archive = drain fuel candidates (delete_batches cutoff) s in
      let none_left : filter p final.batches ≡ [] =
        subst (λ es. filter (is_expired_batch cutoff es) final.batches ≡ []) same
          (first_keys-none size batch_id batch_started (is_expired_batch cutoff final.events)
            final.batches ends) in
      (sym (filter_none p final.batches none_left) ∙ kept, linked, same)

  -- An event of before the cutoff.
  abbrev pub is_old : PlaybackEvent → Bool
  is_old e = ltb (event_started e) cutoff

  -- What is left of an archive.
  pub record IsPurged (s t : Archive) : Type 0 where
    pub events : t.events ≡ filter (λ e. not (is_old e)) s.events
    pub batches : t.batches ≡ filter (λ b. not (is_expired_batch cutoff t.events b)) s.batches
    pub linked : IsLinked t

  -- The three loops over the statuses leave the events that are not old.
  old_events :
      (es : List PlaybackEvent)
      → filter
          (λ e. not (is_expired_event cutoff PlaybackStatus.failed e))
          (filter
            (λ e. not (is_expired_event cutoff PlaybackStatus.interrupted e))
            (filter (λ e. not (is_expired_event cutoff PlaybackStatus.completed e)) es))
        ≡ filter (λ e. not (is_old e)) es
  old_events [] = refl
  old_events (e ∷ es) = elim (Bool-cases (ltb (event_started e) cutoff)) [
    | inr o ↦ ground (arith, old_events es)
    | inl o ↦ elim (status_cases e.evidence.status) [
      | inl q ↦ rw (q, o) (old_events es)
      | inr (inl q) ↦ rw (q, o) (old_events es)
      | inr (inr q) ↦ rw (q, o) (old_events es)
    ]
  ]

  -- With fuel for the rows the deletion ends. It deletes exactly the events of before the cutoff and
  -- exactly the batches of before the cutoff that are without events then, and no correction loses its
  -- event and no event its batch.
  pub delete_expired_playback_evidence-IsPurged :
      (s : Archive)
      → IsLinked s
      → HasKeys s.events
      → length s.events < fuel
      → length s.batches < fuel
      → IsPurged s (delete_expired_playback_evidence fuel (suc size) cutoff s)
  unfolding delete_expired_playback_evidence
  delete_expired_playback_evidence-IsPurged s v d he hb =
      let a = delete_status fuel (suc size) cutoff PlaybackStatus.completed s in
      let (ea, va, da, ba) = delete_status_lem fuel size cutoff PlaybackStatus.completed s v d he in
      let la : length a.events < fuel = shorter _ _ s.events ea he in
      let b = delete_status fuel (suc size) cutoff PlaybackStatus.interrupted a in
      let (eb, vb, db, bb) =
        delete_status_lem fuel size cutoff PlaybackStatus.interrupted a va da la in
      let lb : length b.events < fuel = shorter _ _ a.events eb la in
      let c = delete_status fuel (suc size) cutoff PlaybackStatus.failed b in
      let (ec, vc, dc, bc) = delete_status_lem fuel size cutoff PlaybackStatus.failed b vb db lb in
      let bs : c.batches ≡ s.batches = bc ∙ bb ∙ ba in
      let (et, vt, st) = delete_empty_batches_lem c vc (subst (λ l. length l < fuel) (sym bs) hb) in
      let es : c.events ≡ filter (λ e. not (is_old e)) s.events =
        ec
        ∙ ap (filter (λ e. not (is_expired_event cutoff PlaybackStatus.failed e)))
            (eb ∙ ap (filter (λ e. not (is_expired_event cutoff PlaybackStatus.interrupted e))) ea)
        ∙ old_events s.events in
      record {
        events = st ∙ es;
        batches =
            et
            ∙ ap (λ l. filter (λ x. not (is_expired_batch cutoff l x)) c.batches) (sym st)
            ∙ ap
                (filter (λ x. not (
                  is_expired_batch cutoff (delete_empty_batches fuel (suc size) cutoff c).events
                    x)))
                bs;
        linked = vt;
      }

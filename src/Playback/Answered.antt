-- ===== src/Playback/Answered.antt =====
-- How a call of `playback_batch` (backend/signage/api.py) ends.
use digital_signage_project.Base.{
  ℕ, ◌≡◌, refl, ◌⊎◌, String, true, false, none, some, ◌==◌, arith, sym, ap, get, Result, ok, Place,
  ◌>>=◌, >>=-cases, raise_if-cases, or_raise, subst, Bool-cases, Option-cases, inl, inr,
  or_raise-some, ok-injective, ◌∙◌,
}
use digital_signage_project.Models.{Playlist, Device, PlaybackBatch, batch_id, playlist_id}
use digital_signage_project.Wire.{Fields}
use digital_signage_project.Wire.Reading.{Readers, required_value, as_boolean, parse_required_uuid}
use digital_signage_project.Credentials.{is_disabled}
use digital_signage_project.Playback.Submission.{
  Ledger, Normalized, as_array, validate_playback_batch_payload, parse_loop, normalize_events,
  playlist_entries,
}
use digital_signage_project.Playback.Receipt.{
  Accepted, playback_batch_matches, new_batch, collides, recorded, insert_batch, load_raced_batch,
  record_batch, is_foreign, is_closed, settle_batch, playback_batch,
}

validated_key :
    (lib : Readers) (now : ℕ) (entries : _) (body : Fields) (p : Playlist) (id key : ℕ)
    (n : Normalized)
    → validate_playback_batch_payload lib now entries body p id key ≡ ok n
    → (n.id ≡ id) × (n.playlist_id ≡ key)
unfolding validate_playback_batch_payload
validated_key lib now entries body p id key n h =
    >>=-cases (parse_loop lib now body p) _ h (λ l h1 k1.
      >>=-cases (required_value (Place.field "captured_offline") "captured_offline" body) _ k1
        (λ v h2 k2. >>=-cases (or_raise (as_boolean v) _) _ k2 (λ offline h3 k3.
          >>=-cases (required_value (Place.field "events") "events" body) _ k3 (λ listed h4 k4.
            >>=-cases (or_raise (as_array listed) _) _ k4 (λ raw h5 k5.
              >>=-cases (normalize_events lib now entries l raw) _ k5 (λ es h6 k6.
                subst (λ (n : Normalized). (n.id ≡ id) × (n.playlist_id ≡ key)) (ok-injective k6)
                  (refl, refl)))))))

-- How a submission ends: it repeats a batch of the same device that the tables `t` show, or its batch
-- is stored in the tables `seen`.
pub data IsOutcome (now device : ℕ) (s seen reloaded : Ledger) (n : Normalized)
    (r : Ledger × Accepted) : Type 0 where
  repeated :
      (t : Ledger) (b : PlaybackBatch)
      → (t ≡ s) ⊎ (t ≡ reloaded)
      → get batch_id n.id t.batches ≡ some b
      → (b.device == device) ≡ true
      → playback_batch_matches t.events b n ≡ true
      → r ≡ (t, record { duplicate = true })
      → IsOutcome now device s seen reloaded n r
  stored :
      get batch_id n.id s.batches ≡ none
      → collides (new_batch device s.assignments n) n.events seen ≡ false
      → r ≡ (recorded now device s.assignments n seen, record { duplicate = false })
      → IsOutcome now device s seen reloaded n r

load_raced_batch-IsOutcome :
    (now device : ℕ) (s seen t : Ledger) (n : Normalized) (r : Ledger × Accepted)
    → load_raced_batch device n t ≡ ok r
    → IsOutcome now device s seen t n r
unfolding load_raced_batch
load_raced_batch-IsOutcome now device s seen t n r h =
    elim (Option-cases (get batch_id n.id t.batches)) [
      | inl e ↦ absurd (let z = rw (e, load_raced_batch) at h in cc)
      | inr (b, e) ↦ elim (Bool-cases (b.device == device)) [
        | inl f ↦ elim (Bool-cases (playback_batch_matches t.events b n)) [
          | inl g ↦
              repeated t b (inr refl) e f g
                (sym (ok-injective (rw (e, load_raced_batch, f, g) at h)))
          | inr g ↦ absurd (let z = rw (e, load_raced_batch, f, g) at h in cc)
        ]
        | inr f ↦ absurd (let z = rw (e, load_raced_batch, f) at h in cc)
      ]
    ]

settle_batch-IsOutcome :
    (now device : ℕ) (s seen t : Ledger) (n : Normalized) (r : Ledger × Accepted)
    → is_foreign device (get batch_id n.id s.batches) ≡ false
    → settle_batch now device s seen t n (get batch_id n.id s.batches) ≡ ok r
    → IsOutcome now device s seen t n r
unfolding settle_batch record_batch insert_batch
settle_batch-IsOutcome now device s seen t n r g h =
    elim (Option-cases (get batch_id n.id s.batches)) [
      | inl e ↦ elim (Bool-cases (collides (new_batch device s.assignments n) n.events seen)) [
        | inl c ↦
            load_raced_batch-IsOutcome now device s seen t n r
              (rw (e, settle_batch, record_batch, insert_batch, c) at h)
        | inr c ↦
            stored e c
              (sym (ok-injective (rw (e, settle_batch, record_batch, insert_batch, c) at h)))
      ]
      | inr (b, e) ↦ elim (Bool-cases (playback_batch_matches s.events b n)) [
        | inl m ↦
            repeated s b (inl refl) e (let z = rw e at g in ground arith) m
              (sym (ok-injective (rw (e, settle_batch, m) at h)))
        | inr m ↦ absurd (let z = rw (e, settle_batch, m) at h in cc)
      ]
    ]

abbrev pub key_field : Readers → String → Fields → Result ℕ
key_field lib k body =
    required_value (Place.field k) k body >>= λ v. parse_required_uuid lib v (Place.field k)

-- What is known of a call that returns `r`.
pub record IsAnswered (lib : Readers) (now : ℕ) (device : Device) (body : Fields)
    (s seen reloaded : Ledger) (r : Ledger × Accepted) : Type 0 where
  pub submitted : Normalized
  pub playlist : Playlist
  pub enabled : is_disabled device ≡ false
  pub id_read : key_field lib "id" body ≡ ok submitted.id
  pub key_read : key_field lib "playlist_id" body ≡ ok submitted.playlist_id
  pub found : get playlist_id submitted.playlist_id s.playlists ≡ some playlist
  pub accepts : is_closed (get batch_id submitted.id s.batches) playlist ≡ false
  pub validated :
      validate_playback_batch_payload lib now
        (playlist_entries s playlist.id)
        body
        playlist
        submitted.id
        submitted.playlist_id
      ≡ ok submitted
  pub outcome : IsOutcome now device.id s seen reloaded submitted r

module _ (lib : Readers) (between after : Ledger → Ledger) (now : ℕ) where
  -- A call that returns was made for an enabled device, named a known playlist and gave evidence that
  -- was validated. Either the evidence repeats a stored batch of the device, and nothing is written, or
  -- its keys were free, and the batch and its events are stored.
  pub playback_batch-IsAnswered :
      (device : Device) (body : Fields) (s : Ledger) (r : Ledger × Accepted)
      → playback_batch lib between after now device body s ≡ ok r
      → IsAnswered lib now device body s (between s) (after (between s)) r
  unfolding playback_batch
  playback_batch-IsAnswered device body s r h = raise_if-cases (is_disabled device) _ _ h (λ h1 k1.
      >>=-cases (key_field lib "id" body) _ k1 (λ id h2 k2.
        >>=-cases (key_field lib "playlist_id" body) _ k2 (λ key h3 k3.
          raise_if-cases (is_foreign device.id (get batch_id id s.batches)) _ _ k3 (λ h4 k4.
            >>=-cases (or_raise (get playlist_id key s.playlists) _) _ k4 (λ p h5 k5.
              raise_if-cases (is_closed (get batch_id id s.batches) p) _ _ k5 (λ h6 k6.
                >>=-cases
                  (validate_playback_batch_payload lib now (playlist_entries s p.id) body p id key)
                  _ k6
                  (λ n h7 k7.
                    let (i, j) = validated_key lib now _ body p id key n h7 in
                    let i' = sym i in
                    let j' = sym j in
                    let q = or_raise-some _ _ h5 in
                    record {
                      submitted = n;
                      playlist = p;
                      enabled = h1;
                      id_read = h2 ∙ ap ok i';
                      key_read = h3 ∙ ap ok j';
                      found = subst (λ x. get playlist_id x s.playlists ≡ some p) j' q;
                      accepts = subst (λ x. is_closed (get batch_id x s.batches) p ≡ false) i' h6;
                      validated =
                          subst
                            (λ x.
                              validate_playback_batch_payload lib now (playlist_entries s p.id) body
                                p n.id x
                              ≡ ok n)
                            j'
                            (subst
                              (λ x.
                                validate_playback_batch_payload lib now (playlist_entries s p.id)
                                  body p x key
                                ≡ ok n)
                              i' h7);
                      outcome =
                          settle_batch-IsOutcome now device.id s (between s) (after (between s)) n r
                            (subst (λ x. is_foreign device.id (get batch_id x s.batches) ≡ false) i'
                              h4)
                            (subst
                              (λ x.
                                settle_batch now device.id s (between s) (after (between s)) n
                                  (get batch_id x s.batches)
                                ≡ ok r)
                              i' k7);
                    })))))))

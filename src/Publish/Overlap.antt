-- ===== src/Publish/Overlap.antt =====
-- No two urgent playlists overlap: kept by `publish_playlist` (backend/signage/services.py).
use digital_signage_project.Base.{
  ℕ, ◌≤◌, ◌≡◌, refl, ◌≢◌, ◌⊎◌, inl, inr, Bool, true, false, ◌&&◌, some, List, [], ◌∷◌, ◌==◌, filter,
  get, put, mem, length, Result, ok, In, In-filter_intro, In-put, any-In, arith, Option-cases,
  Bool-cases, >>=-eq-ok, get-key, length-filter-put, subst, sym,
}
use digital_signage_project.Models.{Playlist, playlist_id, MediaAsset, AuditEvent}
use digital_signage_project.Playlists.{is_published, Column, written, store, save}
use digital_signage_project.Publish.{
  Catalogue, has_urgent_conflict, overlaps, ids, published_row, apply_publication, publish_playlist,
  publication_columns, correction_columns, cancelled_row, cancel_superseded,
  superseded_by_publication,
}
use digital_signage_project.Publish.Guards.{
  publish_playlist_parts, check_publication_parts, check_window_parts,
}

-- Every key occurs once.
abbrev pub HasKeys : List Playlist → Type 0
HasKeys table = (k : ℕ) → length (filter (λ (q : Playlist). q.id == k) table) ≤ 1

abbrev pub is_urgent_row : Playlist → Bool
is_urgent_row p = is_published p && p.is_urgent

-- The windows of two published urgent rows are disjoint.
abbrev pub NoUrgentOverlap : List Playlist → Type 0
NoUrgentOverlap table =
    (p q : Playlist)
    → In p table
    → In q table
    → p.id ≢ q.id
    → is_urgent_row p ≡ true
    → is_urgent_row q ≡ true
    → (p.ends_at ≤ q.starts_at) ⊎ (q.ends_at ≤ p.starts_at)

-- What a save of some columns does, if it returns: the row was stored, and is written.
save_columns :
    (c : Column → Bool) (p : Playlist) (table table' : List Playlist)
    → save (some c) p table ≡ ok table'
    → (o : Playlist) × (get playlist_id p.id table ≡ some o)
      × (table' ≡ put playlist_id (written (some c) p o) table)
unfolding save store
save_columns c p table table' h = elim (Option-cases (get playlist_id p.id table)) [
  | inl e ↦ absurd (ground arith)
  | inr (o, e) ↦ (o, e, ground arith)
]

put-HasKeys :
    (x o : Playlist) (table : List Playlist)
    → get playlist_id x.id table ≡ some o
    → HasKeys table
    → HasKeys (put playlist_id x table)
put-HasKeys x o table g h k =
    let e = get-key playlist_id x.id table g in
    rw (length-filter-put playlist_id (λ (q : Playlist). q.id == k) x o table g (ground arith))
      (h k)

-- The row that a save writes is stored under the key of the saved object.
saved_row :
    (c : Column → Bool) (p o : Playlist) (table : List Playlist)
    → get playlist_id p.id table ≡ some o
    → ((written (some c) p o).id ≡ p.id)
      × (get playlist_id (written (some c) p o).id table ≡ some o)
unfolding written
saved_row c p o table g =
    let e = get-key playlist_id p.id table g in
    (e, subst (λ k. get playlist_id k table ≡ some o) (sym e) g)

written_cancelled_unpublished :
    (k : ℕ) (q o : Playlist)
    → is_published (written correction_columns (cancelled_row k q) o) ≡ false
unfolding written
written_cancelled_unpublished k q o = refl

cancelled_step :
    (y x q : Playlist) (table table' qs : List Playlist)
    → HasKeys table
    → is_published y ≡ false
    → y.id ≡ x.id
    → table' ≡ put playlist_id y table
    → (is_published q ≡ false) ⊎ (In q table' × (mem q.id (ids qs) ≡ false))
    → (is_published q ≡ false) ⊎ (In q table × (mem q.id (ids (x ∷ qs)) ≡ false))
cancelled_step y x q table table' qs u c n w (inl d) = inl d
cancelled_step y x q table table' qs u c n w (inr (j, m)) =
    elim (In-put playlist_id y table (u y.id) (subst (λ l. In q l) w j)) [
      | inl e ↦ inl (subst (λ z. is_published z ≡ false) (sym e) c)
      | inr (a, b) ↦ inr (a, ground arith)
    ]

-- What the loop over the superseded rows leaves: rows that are not published, and rows that stood in
-- the table before it and are not superseded.
cancel_superseded_kept :
    (actor k : ℕ) (qs table : List Playlist) (log : List AuditEvent)
    (r : List Playlist × List AuditEvent)
    → HasKeys table
    → cancel_superseded actor k qs table log ≡ ok r
    → (q : Playlist) → In q r.0
    → (is_published q ≡ false) ⊎ (In q table × (mem q.id (ids qs) ≡ false))
unfolding cancel_superseded
cancel_superseded_kept actor k [] table log r u h q i =
    inr (subst (λ l. In q l) (ground arith) i, refl)
cancel_superseded_kept actor k (x ∷ qs) table log r u h q i =
    let (table', e, f) = >>=-eq-ok (save correction_columns (cancelled_row k x) table) _ h in
    let (o, g, w) = save_columns _ (cancelled_row k x) table table' e in
    let (n, g') = saved_row _ (cancelled_row k x) o table g in
    let y = written correction_columns (cancelled_row k x) o in
    let u' = subst HasKeys (sym w) (put-HasKeys y o table g' u) in
    cancelled_step y x q table table' qs u (written_cancelled_unpublished k x o) n w
      (cancel_superseded_kept actor k qs table' _ r u' f q i)

-- Where two published rows of the table after a publication come from: the published draft, or a row
-- that stood before and is not superseded.
abbrev Source : ℕ → Bool → List Playlist → Playlist → Playlist → Type 0
Source now urgent table p q =
    (q ≡ written publication_columns (published_row now urgent p) p)
    ⊎ (In q table
        × (q.id ≢ p.id)
        × (mem q.id (ids (superseded_by_publication urgent table p)) ≡ false))

module _ (now : ℕ) (urgent : Bool) (table : List Playlist) (p : Playlist) where
  old_disjoint :
      (q : Playlist)
      → is_urgent_row q ≡ true
      → In q table
      → q.id ≢ p.id
      → mem q.id (ids (superseded_by_publication true table p)) ≡ false
      → has_urgent_conflict table p ≡ false
      → (p.ends_at ≤ q.starts_at) ⊎ (q.ends_at ≤ p.starts_at)
  unfolding has_urgent_conflict
  old_disjoint q a i n m c = elim (Bool-cases (overlaps p q)) [
    | inl o ↦ absurd (ground (arith, any-In _ _ c (In-filter_intro (overlaps p) table i o)))
    | inr o ↦ ground arith
  ]

  -- The disjointness of two rows, from where they come.
  sources_disjoint :
      (q q' : Playlist)
      → NoUrgentOverlap table
      → (urgent ≡ true → has_urgent_conflict table p ≡ false)
      → q.id ≢ q'.id
      → is_urgent_row q ≡ true
      → is_urgent_row q' ≡ true
      → Source now urgent table p q
      → Source now urgent table p q'
      → (q.ends_at ≤ q'.starts_at) ⊎ (q'.ends_at ≤ q.starts_at)
  unfolding written
  sources_disjoint q q' v c d a b (inl e) (inl f) = absurd (d (ground arith))
  sources_disjoint q q' v c d a b (inl e) (inr (i, n, m)) =
      let t : urgent ≡ true = ground arith in
      let z =
        old_disjoint q' b i n
          (subst (λ t. mem q'.id (ids (superseded_by_publication t table p)) ≡ false) t m) (c t) in
      ground arith
  sources_disjoint q q' v c d a b (inr (i, n, m)) (inl e) =
      let t : urgent ≡ true = ground arith in
      let z =
        old_disjoint q a i n
          (subst (λ t. mem q.id (ids (superseded_by_publication t table p)) ≡ false) t m) (c t) in
      ground arith
  sources_disjoint q q' v c d a b (inr (i, n, m)) (inr (j, o, l)) = v q q' i j d a b

cancel_superseded-HasKeys :
    (actor k : ℕ) (qs table : List Playlist) (log : List AuditEvent)
    (r : List Playlist × List AuditEvent)
    → HasKeys table
    → cancel_superseded actor k qs table log ≡ ok r
    → HasKeys r.0
unfolding cancel_superseded
cancel_superseded-HasKeys actor k [] table log r u h = subst HasKeys (ground arith) u
cancel_superseded-HasKeys actor k (x ∷ qs) table log r u h =
    let (table', e, f) = >>=-eq-ok (save correction_columns (cancelled_row k x) table) _ h in
    let (o, g, w) = save_columns _ (cancelled_row k x) table table' e in
    let (n, g') = saved_row _ (cancelled_row k x) o table g in
    let y = written correction_columns (cancelled_row k x) o in
    cancel_superseded-HasKeys actor k qs table' _ r
      (subst HasKeys (sym w) (put-HasKeys y o table g' u)) f

module _ (validate : MediaAsset → Result (Unit {0})) (fresh : ℕ → ℕ) (now : ℕ) where
  apply_publication_parts :
      (actor : ℕ) (urgent : Bool) (s : Catalogue) (p : Playlist) (r : Catalogue × Playlist)
      → apply_publication validate fresh now actor urgent s p ≡ ok r
      → (table : List Playlist) × (t : List Playlist × List AuditEvent) × (save publication_columns
            (published_row now urgent p)
            s.playlists
          ≡ ok table)
        × (cancel_superseded actor p.id (superseded_by_publication urgent s.playlists p) table s.log
            ≡ ok t)
        × (r.0.playlists ≡ t.0)
  unfolding apply_publication
  apply_publication_parts actor urgent s p r h =
      let (table, e, f) =
        >>=-eq-ok (save publication_columns (published_row now urgent p) s.playlists) _ h in
      let (t, g, i) =
        >>=-eq-ok
          (cancel_superseded actor p.id (superseded_by_publication urgent s.playlists p) table
            s.log)
          _ f in
      (table, t, e, g, ground arith)

  Source-of :
      (actor : ℕ) (urgent : Bool) (s : Catalogue) (p : Playlist) (r : Catalogue × Playlist)
      → HasKeys s.playlists
      → get playlist_id p.id s.playlists ≡ some p
      → apply_publication validate fresh now actor urgent s p ≡ ok r
      → HasKeys r.0.playlists
        × ((q : Playlist)
            → In q r.0.playlists
            → is_published q ≡ true
            → Source now urgent s.playlists p q)
  Source-of actor urgent s p r u g a =
      let (table, t, e, f, l) = apply_publication_parts actor urgent s p r a in
      let (o, go, z) = save_columns _ (published_row now urgent p) s.playlists table e in
      let y = written publication_columns (published_row now urgent p) o in
      let (n, g') = saved_row _ (published_row now urgent p) o s.playlists go in
      let op : o ≡ p = ground arith in
      let u' = subst HasKeys (sym z) (put-HasKeys y o s.playlists g' u) in
      let qs = superseded_by_publication urgent s.playlists p in
      (
        subst HasKeys (sym l) (cancel_superseded-HasKeys actor p.id qs table s.log t u' f),
        λ q i b.
            elim (cancel_superseded_kept actor p.id qs table s.log t u' f q
              (subst (λ x. In q x) l i)) [
                | inl c ↦ absurd (cc (b, c))
                | inr (j, m) ↦
                    elim (In-put playlist_id y s.playlists (u y.id) (subst (λ x. In q x) z j)) [
                      | inl w ↦ inl (
                          subst
                            (λ x. q ≡ written publication_columns (published_row now urgent p) x) op
                            w)
                      | inr (v, w) ↦ inr (v, subst (λ x. q.id ≢ x) n w, m)
                    ]
              ],
      )

  -- A publication keeps the schedule free of overlapping urgent playlists: if every key occurs once
  -- and no two published urgent rows overlap, then so it is after a publication that succeeds.
  pub publish_playlist-NoUrgentOverlap :
      (k actor : ℕ) (urgent : Bool) (s : Catalogue) (r : Catalogue × Playlist)
      → HasKeys s.playlists
      → NoUrgentOverlap s.playlists
      → publish_playlist validate fresh now k actor urgent s ≡ ok r
      → HasKeys r.0.playlists × NoUrgentOverlap r.0.playlists
  publish_playlist-NoUrgentOverlap k actor urgent s r u v h =
      let (p, g, c, a) = publish_playlist_parts validate fresh now k actor urgent s r h in
      let (d, x, w) = check_publication_parts validate fresh now urgent s p tt c in
      let (n, m) = check_window_parts validate fresh now urgent s.playlists p tt w in
      let g' =
        subst (λ j. get playlist_id j s.playlists ≡ some p)
          (sym (get-key playlist_id k s.playlists g)) g in
      let (keys, source) = Source-of actor urgent s p r u g' a in
      (
        keys,
        λ q q' i j ne b b'.
            sources_disjoint now urgent s.playlists p q q' v m ne b b' (source q i (ground arith))
              (source q' j (ground arith)),
      )

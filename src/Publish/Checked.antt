-- ===== src/Publish/Checked.antt =====
-- What a successful `publish_playlist` (backend/signage/services.py) has checked.
use digital_signage_project.Base.{
  ℕ, ◌*◌, ◌≤◌, ◌<◌, ◌≡◌, ◌≢◌, refl, Bool, true, false, not, ◌&&◌, some, List, [], ◌∷◌, map, ◌==◌,
  ==_iff, eq_iff, any-In, In, In-filter_intro, In-filter, filter, get, mem, sum, length, ok, All,
  All-map, arith, Bool-cases, inl, inr, sym,
}
use digital_signage_project.Models.{
  Playlist, PlaylistItem, PlaylistStatus, playlist_id, MediaAsset, PlatformSettings, MediaStatus,
  is_image,
}
use digital_signage_project.Playlists.{is_published}
use digital_signage_project.Publish.{
  Catalogue, loaded_limits, playlist_media, join_media, sort_items, overlaps, is_superseded,
  superseded_by_publication, ids, check_contents, has_urgent_conflict, publish_playlist,
}
use digital_signage_project.Publish.Delivery.{
  Storage, validate_ready_media_delivery, IsDelivered, validate_ready_media_delivery-IsDelivered,
}
use digital_signage_project.Publish.Guards.{
  nonzero, not_ltb, All-ready, verify_images-All, join_media-stored, check_contents_parts,
  check_window_parts, check_publication_parts, apply_publication_result, publish_playlist_parts,
}

-- The row is an earlier version of `p` with the same name, window and urgency, which a publication of
-- `p` supersedes.
pub record IsEarlier (p x : Playlist) : Type 0 where
  pub name : x.name ≡ p.name
  pub older : x.version < p.version
  pub starts_at : x.starts_at ≡ p.starts_at
  pub ends_at : x.ends_at ≡ p.ends_at

-- Every other published urgent row of the table whose window meets that of `p` has the key of an earlier
-- version.
abbrev pub OnlyEarlier : List Playlist → Playlist → Type 0
OnlyEarlier table p =
    (q : Playlist)
    → In q table
    → is_published q ≡ true
    → q.is_urgent ≡ true
    → q.starts_at < p.ends_at
    → p.starts_at < q.ends_at
    → q.id ≢ p.id
    → (x : Playlist) × In x table × (x.id ≡ q.id) × IsEarlier p x

mem-ids :
    (k : ℕ) (xs : List Playlist) → mem k (ids xs) ≡ true → (x : Playlist) × In x xs × (x.id ≡ k)
mem-ids k [] h = absurd (cc)
mem-ids k (x ∷ xs) h = elim (Bool-cases (k == x.id)) [
  | inl e ↦ (x, inl refl, sym ((==_iff k x.id).0 e))
  | inr e ↦ let (y, i, p) = mem-ids k xs (ground arith) in (y, inr i, p)
]

is_superseded-IsEarlier : (p x : Playlist) → is_superseded true p x ≡ true → IsEarlier p x
is_superseded-IsEarlier p x h = record {
  name = (eq_iff x.name p.name).0 (ground arith);
  older = ground arith;
  starts_at = ground arith;
  ends_at = ground arith;
}

conflict_free :
    (table : List Playlist) (p : Playlist)
    → has_urgent_conflict table p ≡ false
    → OnlyEarlier table p
unfolding has_urgent_conflict superseded_by_publication
conflict_free table p h q i a b l r n =
    let o : overlaps p q ≡ true = ground arith in
    let z =
      any-In
        (λ (q : Playlist).
          q.is_urgent && not (mem q.id (ids (superseded_by_publication true table p))))
        (filter (overlaps p) table) h (In-filter_intro (overlaps p) table i o) in
    let (x, j, e) = mem-ids q.id (superseded_by_publication true table p) (ground arith) in
    let (j1, s) = In-filter (is_superseded true p) (filter (overlaps p) table) j in
    let (j2, _) = In-filter (overlaps p) table j1 in (x, j2, e, is_superseded-IsEarlier p x s)

module _ {File : Type 0} (files : Storage File) where
  -- The contents that a publication accepts.
  pub record HasContents (limits : PlatformSettings) (media : List MediaAsset) : Type 0 where
    pub nonempty : 1 ≤ length media
    pub entries : length media ≤ limits.playlist_max_entries
    pub ready : All (λ (a : MediaAsset). a.status ≡ MediaStatus.ready) media
    pub duration :
        sum (map (λ (a : MediaAsset). a.duration_ms) media)
        ≤ limits.playlist_max_duration_seconds * 1000
    pub delivered : All (λ (a : MediaAsset). is_image a.kind ≡ true → IsDelivered files a) media

  check_contents-HasContents :
      (limits : PlatformSettings) (table : List MediaAsset) (items : List PlaylistItem)
      → check_contents (validate_ready_media_delivery files) limits (join_media table items) ≡ ok tt
      → HasContents limits (join_media table items)
  check_contents-HasContents limits table items h =
      let media = join_media table items in
      let (a, b, c, d, e) =
        check_contents_parts (validate_ready_media_delivery files) limits media tt h in
      record {
        nonempty = nonzero (length media) a;
        entries = not_ltb limits.playlist_max_entries (length media) b;
        ready = All-ready media c;
        duration = not_ltb _ _ e;
        delivered =
            All-map
              (λ (a : MediaAsset).
                is_image a.kind ≡ true → validate_ready_media_delivery files a ≡ ok tt)
              (λ (a : MediaAsset). is_image a.kind ≡ true → IsDelivered files a) media
              (λ a v i. validate_ready_media_delivery-IsDelivered files a tt i (v i))
              (verify_images-All (validate_ready_media_delivery files) table [] media tt
                (join_media-stored (validate_ready_media_delivery files) table items) tt d);
      }

  -- What a successful publication of the row `p` has met, and the row that it returns.
  pub record WasChecked (now k : ℕ) (urgent : Bool) (s : Catalogue) (p r : Playlist) : Type 0 where
    pub stored : get playlist_id k s.playlists ≡ some p
    pub draft : p.status ≡ PlaylistStatus.draft
    pub contents : HasContents (loaded_limits s.limits) (playlist_media s p.id)
    pub covers_now : urgent ≡ true → (p.starts_at ≤ now) × (now < p.ends_at)
    pub no_conflict : urgent ≡ true → OnlyEarlier s.playlists p
    pub published : r.status ≡ PlaylistStatus.published
    pub published_at : r.published_at ≡ some now
    pub urgency : r.is_urgent ≡ urgent
    pub same_name : (r.id ≡ p.id) × (r.name ≡ p.name) × (r.version ≡ p.version)
    pub same_window : (r.starts_at ≡ p.starts_at) × (r.ends_at ≡ p.ends_at)

  -- A publication that succeeds was one of a draft whose contents are not empty, are within the limits
  -- of entries and duration, and are all ready; the stored file of each image has the size, the digest
  -- and the type that are recorded of it and decodes to an RGB image of the normalized size. An urgent
  -- one covers the current time, and every published urgent row that meets its window has the key of an
  -- earlier version of it. The row that it returns is the draft, published now with the urgency asked
  -- for.
  pub publish_playlist-WasChecked :
      (fresh : ℕ → ℕ) (now k actor : ℕ) (urgent : Bool) (s : Catalogue) (r : Catalogue × Playlist)
      → publish_playlist (validate_ready_media_delivery files) fresh now k actor urgent s ≡ ok r
      → (p : Playlist) × WasChecked now k urgent s p r.1
  unfolding playlist_media
  publish_playlist-WasChecked fresh now k actor urgent s r h =
      let validate = validate_ready_media_delivery files in
      let (p, g, c, a) = publish_playlist_parts validate fresh now k actor urgent s r h in
      let (d, v, w) = check_publication_parts validate fresh now urgent s p tt c in
      let (n, m) = check_window_parts validate fresh now urgent s.playlists p tt w in
      let e = sym (apply_publication_result validate fresh now actor urgent s p r a) in
      (
        p,
        rw⁻¹ e (record {
          stored = g;
          draft = d;
          contents =
              check_contents-HasContents (loaded_limits s.limits) s.media
                (sort_items (filter (λ (i : PlaylistItem). i.playlist == p.id) s.items)) v;
          covers_now = n;
          no_conflict = λ u. conflict_free s.playlists p (m u);
          published = refl;
          published_at = refl;
          urgency = refl;
          same_name = (refl, refl, refl);
          same_window = (refl, refl);
        }),
      )

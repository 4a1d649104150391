-- ===== src/Publish/Guards.antt =====
-- What a successful `publish_playlist` (backend/signage/services.py) has checked.
use digital_signage_project.Base.{
  ℕ, ◌*◌, ◌≤◌, ◌<◌, ◌≡◌, Bool, true, false, not, ◌&&◌, some, List, [], ◌∷◌, map, ltb, ◌==◌, any,
  get, get-key, ◌∙◌, mem, sum, length, Result, ok, All, arith, Option-cases, Bool-cases, subst, sym,
  ==_iff, inl, inr, >>=-eq-ok,
}
use digital_signage_project.Models.{
  Playlist, PlaylistItem, PlaylistStatus, asset_id, playlist_id, MediaAsset, PlatformSettings,
  MediaStatus, media_status_eq, is_image,
}
use digital_signage_project.Publish.{
  Catalogue, join_media, loaded_limits, playlist_media, verify_images, check_contents,
  has_urgent_conflict, check_window, published_row, check_publication, apply_publication,
  publish_playlist,
}

pub nonzero : (n : ℕ) → (n == 0) ≡ false → 1 ≤ n
nonzero n h = ground arith

pub not_ltb : (a b : ℕ) → ltb a b ≡ false → b ≤ a
not_ltb a b h = ground arith

pub All-ready :
    (media : List MediaAsset)
    → any (λ (a : MediaAsset). not (media_status_eq a.status MediaStatus.ready)) media ≡ false
    → All (λ (a : MediaAsset). a.status ≡ MediaStatus.ready) media
All-ready [] h = tt
All-ready (a ∷ rest) h = (ground arith, All-ready rest (ground arith))

module _ (validate : MediaAsset → Result (Unit {0})) where
  -- The stored row with this key has been validated.
  abbrev Validated : List MediaAsset → ℕ → Type 0
  Validated table k = (b : MediaAsset) × (get asset_id k table ≡ some b) × (validate b ≡ ok tt)

  mem-Validated :
      (table : List MediaAsset) (k : ℕ) (verified : List ℕ)
      → All (Validated table) verified
      → mem k verified ≡ true
      → Validated table k
  mem-Validated table k [] h e = absurd (cc)
  mem-Validated table k (v ∷ vs) h e = elim (Bool-cases (k == v)) [
    | inl same ↦ subst (Validated table) (sym ((==_iff k v).0 same)) h.0
    | inr other ↦ mem-Validated table k vs h.1 (ground arith)
  ]

  -- Every image among stored rows is validated.
  pub verify_images-All :
      (table : List MediaAsset) (verified : List ℕ) (media : List MediaAsset) (x : Unit {0})
      → All (λ (a : MediaAsset). get asset_id a.id table ≡ some a) media
      → All (Validated table) verified
      → verify_images validate verified media ≡ ok x
      → All (λ (a : MediaAsset). is_image a.kind ≡ true → validate a ≡ ok tt) media
  unfolding verify_images
  verify_images-All table verified [] x s v h = tt
  verify_images-All table verified (a ∷ rest) x s v h =
      elim (Bool-cases (is_image a.kind && not (mem a.id verified))) [
        | inl e ↦
            let (u, f, g) =
              >>=-eq-ok (validate a) (λ _. verify_images validate (a.id ∷ verified) rest)
                (rw (e, verify_images) at h) in
            let d : Validated table a.id = (a, s.0, f) in
            (λ _. f, verify_images-All table (a.id ∷ verified) rest x s.1 (d, v) g)
        | inr e ↦ (
          λ i.
              let (b, g, w) = mem-Validated table a.id verified v (ground arith) in
              let p : some b ≡ some a = sym g ∙ s.0 in let q : b ≡ a = cc in rw q at w,
          verify_images-All table verified rest x s.1 v (rw (e, verify_images) at h),
        )
      ]

  -- The rows that are joined are stored.
  pub join_media-stored :
      (table : List MediaAsset) (items : List PlaylistItem)
      → All (λ (a : MediaAsset). get asset_id a.id table ≡ some a) (join_media table items)
  unfolding join_media
  join_media-stored table [] = tt
  join_media-stored table (i ∷ rest) = elim (Option-cases (get asset_id i.media table)) [
    | inl e ↦ rw (e, join_media) (join_media-stored table rest)
    | inr (a, e) ↦
        rw (e, join_media)
          (
            subst (λ k. get asset_id k table ≡ some a) (sym (get-key asset_id i.media table e)) e,
            join_media-stored table rest,
          )
  ]

  pub check_contents_parts :
      (limits : PlatformSettings) (media : List MediaAsset) (x : Unit {0})
      → check_contents validate limits media ≡ ok x
      → ((length media == 0) ≡ false)
        × (ltb limits.playlist_max_entries (length media) ≡ false)
        × (any (λ (a : MediaAsset). not (media_status_eq a.status MediaStatus.ready)) media ≡ false)
        × (verify_images validate [] media ≡ ok tt)
        × (ltb
              (limits.playlist_max_duration_seconds * 1000)
              (sum (map (λ (a : MediaAsset). a.duration_ms) media))
            ≡ false)
  unfolding check_contents
  check_contents_parts limits media x h = ground arith

  module _ (fresh : ℕ → ℕ) (now : ℕ) where
    pub check_window_parts :
        (urgent : Bool) (table : List Playlist) (p : Playlist) (x : Unit {0})
        → check_window now urgent table p ≡ ok x
        → (urgent ≡ true → (p.starts_at ≤ now) × (now < p.ends_at))
          × (urgent ≡ true → has_urgent_conflict table p ≡ false)
    unfolding check_window
    check_window_parts urgent table p x h = ground arith

    pub check_publication_parts :
        (urgent : Bool) (s : Catalogue) (p : Playlist) (x : Unit {0})
        → check_publication validate fresh now urgent s p ≡ ok x
        → (p.status ≡ PlaylistStatus.draft)
          × (check_contents validate (loaded_limits s.limits) (playlist_media s p.id) ≡ ok tt)
          × (check_window now urgent s.playlists p ≡ ok tt)
    unfolding check_publication
    check_publication_parts urgent s p x h = ground arith

    pub apply_publication_result :
        (actor : ℕ) (urgent : Bool) (s : Catalogue) (p : Playlist) (r : Catalogue × Playlist)
        → apply_publication validate fresh now actor urgent s p ≡ ok r
        → r.1 ≡ published_row now urgent p
    unfolding apply_publication
    apply_publication_result actor urgent s p r h = ground arith

    pub publish_playlist_parts :
        (k actor : ℕ) (urgent : Bool) (s : Catalogue) (r : Catalogue × Playlist)
        → publish_playlist validate fresh now k actor urgent s ≡ ok r
        → (p : Playlist) × (get playlist_id k s.playlists ≡ some p)
          × (check_publication validate fresh now urgent s p ≡ ok tt)
          × (apply_publication validate fresh now actor urgent s p ≡ ok r)
    unfolding publish_playlist
    publish_playlist_parts k actor urgent s r h =
        elim (Option-cases (get playlist_id k s.playlists)) [
          | inl e ↦ absurd (ground arith)
          | inr (p, e) ↦ (p, e, ground arith, ground arith)
        ]

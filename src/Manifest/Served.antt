-- ===== src/Manifest/Served.antt =====
-- What `sync_manifest` (backend/signage/api.py) serves.
use digital_signage_project.Base.{
  ℕ, ◌≤◌, ◌≡◌, refl, String, Bool, true, false, not, Option, some, List, [], ◌∷◌, arith, All,
  Result, ok, get, subst, sym, ap, ◌∙◌, >>=-cases, raise_if-cases, or_raise, or_raise-some,
  ok-injective, Bool-cases, Option-cases, inl, inr, ◌⊎◌, none,
}
use digital_signage_project.Models.{
  Playlist, PlaylistItem, MediaAsset, MediaStatus, media_status_eq, asset_id, Device,
}
use digital_signage_project.Schedule.{active_playlist, next_playlist_transition_at}
use digital_signage_project.Schedule.Transition.{Before, WasPublished, active_playlist_stable}
use digital_signage_project.Credentials.{is_disabled}
use digital_signage_project.Manifest.{
  Urls, configured_media_origin, media_url_uses_origin, ManifestItem, manifest_item, is_deliverable,
  build_manifest, SyncSettings, Mode, maintenance, fallback, play, SyncReply, Signage,
  is_ineligible, ordered_items, play_mode, select_mode, sync_manifest,
}

-- The item is that of a row of the playlist whose media is ready and delivered from the origin.
pub record IsServed (urls : Urls) (url_of : String → String) (origin : String)
    (media : List MediaAsset) (i : PlaylistItem) (m : ManifestItem) : Type 0 where
  pub asset : MediaAsset
  pub found : get asset_id i.media media ≡ some asset
  pub ready : asset.status ≡ MediaStatus.ready
  pub item : m ≡ manifest_item (url_of asset.normalized_file) i asset
  pub delivered : media_url_uses_origin urls m.download_url origin ≡ true

-- The items are those of the rows, in the same order.
abbrev pub AllServed :
    Urls
    → (String → String)
    → String
    → List MediaAsset
    → List PlaylistItem
    → List ManifestItem
    → Type 0
AllServed urls url_of origin media [] [] = Unit
AllServed urls url_of origin media [] (m ∷ ms) = ⊥
AllServed urls url_of origin media (i ∷ is) [] = ⊥
AllServed urls url_of origin media (i ∷ is) (m ∷ ms) =
    IsServed urls url_of origin media i m × AllServed urls url_of origin media is ms

ready_lem : (s : MediaStatus) → media_status_eq s MediaStatus.ready ≡ true → s ≡ MediaStatus.ready
ready_lem MediaStatus.ready h = refl
ready_lem MediaStatus.quarantined h = absurd (cc)
ready_lem MediaStatus.processing h = absurd (cc)
ready_lem MediaStatus.rejected h = absurd (cc)
ready_lem MediaStatus.archived h = absurd (cc)

not-not : (b : Bool) → not b ≡ false → b ≡ true
not-not true h = refl
not-not false h = absurd (cc)

play_injective :
    (p q : Playlist) (x y : String) (ms ns : List ManifestItem)
    → play p x ms ≡ play q y ns
    → (p ≡ q) × (x ≡ y) × (ms ≡ ns)
play_injective p q x y ms ns h = (cc, cc, cc)

build_manifest-AllServed :
    (urls : Urls) (url_of : String → String) (origin : String) (media : List MediaAsset)
    (is : List PlaylistItem) (ms : List ManifestItem)
    → build_manifest urls url_of origin media is ≡ ok ms
    → AllServed urls url_of origin media is ms
unfolding build_manifest
build_manifest-AllServed urls url_of origin media [] ms h =
    subst (AllServed urls url_of origin media []) (ok-injective h) tt
build_manifest-AllServed urls url_of origin media (i ∷ is) ms h =
    >>=-cases (or_raise (get asset_id i.media media) _) _ h (λ a h1 k1.
      raise_if-cases (not (is_deliverable a)) _ _ k1 (λ h2 k2.
        raise_if-cases (not (media_url_uses_origin urls (url_of a.normalized_file) origin)) _ _ k2
          (λ h3 k3. >>=-cases (build_manifest urls url_of origin media is) _ k3 (λ others h4 k4.
            let d = not-not (is_deliverable a) h2 in
            subst (AllServed urls url_of origin media (i ∷ is)) (ok-injective k4) (
              record {
                asset = a;
                found = or_raise-some _ _ h1;
                ready = ready_lem a.status (ground arith);
                item = refl;
                delivered =
                    not-not (media_url_uses_origin urls (url_of a.normalized_file) origin) h3;
              },
              build_manifest-AllServed urls url_of origin media is others h4,
            )))))

Before-of_later : (later t : ℕ) (at : Option ℕ) → later ≤ t → Before t at → Before later at
Before-of_later later t none h b = tt
Before-of_later later t (some at) h b = omega arith

-- Nothing changes between a later reading of the clock and a time before the transition.
unchanged :
    (now read later t : ℕ) (table : List Playlist)
    → now ≤ read
    → read ≤ later
    → later ≤ t
    → All (WasPublished read) table
    → Before t (next_playlist_transition_at now read table)
    → active_playlist t table ≡ active_playlist later table
unchanged now read later t table a b c w before =
    active_playlist_stable now read t table a (omega arith) w before
    ∙ sym (
        active_playlist_stable now read later table a b w
          (Before-of_later later t (next_playlist_transition_at now read table) c before))

module _ (is_blank : String → Bool) (urls : Urls) (url_of : String → String)
    (settings : SyncSettings) {Update : Type 0}
    (configured_app_update : Device → Result (Option Update)) where
  -- The mode of a reply is right at the time `t`.
  pub record IsRight (d : Device) (s : Signage) (reply : SyncReply Update) (t : ℕ) : Type 0 where
    pub enabled : is_disabled d ≡ false
    pub plays :
        (p : Playlist) (origin : String) (ms : List ManifestItem)
        → reply.mode ≡ play p origin ms
        → (active_playlist t s.playlists ≡ some p)
          × (configured_media_origin urls settings.domain ≡ ok origin)
          × AllServed urls url_of origin s.media (ordered_items p s) ms
          × (is_ineligible is_blank settings d s ≡ false)
    pub falls_back : reply.mode ≡ fallback → active_playlist t s.playlists ≡ none
    pub maintains : reply.mode ≡ maintenance → is_ineligible is_blank settings d s ≡ true

  select_mode-cases :
      (later : ℕ) (d : Device) (s : Signage) (m : Mode)
      → select_mode is_blank urls url_of settings later d s ≡ ok m
      → ((m ≡ maintenance) × (is_ineligible is_blank settings d s ≡ true))
        ⊎ (((m ≡ fallback) × (active_playlist later s.playlists ≡ none))
            ⊎ ((p : Playlist) × (origin : String) × (ms : List ManifestItem) × (m
                  ≡ play p origin ms)
                × (active_playlist later s.playlists ≡ some p)
                × (configured_media_origin urls settings.domain ≡ ok origin)
                × (build_manifest urls url_of origin s.media (ordered_items p s) ≡ ok ms)
                × (is_ineligible is_blank settings d s ≡ false)))
  unfolding select_mode play_mode
  select_mode-cases later d s m h = elim (Bool-cases (is_ineligible is_blank settings d s)) [
    | inl e ↦ inl (sym (ok-injective (rw e at h)), e)
    | inr e ↦ elim (Option-cases (active_playlist later s.playlists)) [
      | inl n ↦ inr (inl (sym (ok-injective (rw (e, n) at h)), n))
      | inr (p, a) ↦
          let k : play_mode is_blank urls url_of settings s (some p) ≡ ok m = rw (e, a) at h in
          >>=-cases (configured_media_origin urls settings.domain) _ k (λ origin h1 k1.
            >>=-cases (build_manifest urls url_of origin s.media (ordered_items p s)) _ k1
              (λ ms h2 k2. inr (inr (p, origin, ms, sym (ok-injective k2), a, h1, h2, e))))
    ]
  ]

  IsRight-of :
      (later t : ℕ) (d : Device) (s : Signage) (reply : SyncReply Update)
      → is_disabled d ≡ false
      → select_mode is_blank urls url_of settings later d s ≡ ok reply.mode
      → active_playlist t s.playlists ≡ active_playlist later s.playlists
      → IsRight d s reply t
  IsRight-of later t d s reply h k q = elim (select_mode-cases later d s reply.mode k) [
    | inl (m, e) ↦ record {
      enabled = h;
      plays = λ p origin ms n. absurd (let z = sym m ∙ n in cc);
      falls_back = λ n. absurd (let z = sym m ∙ n in cc);
      maintains = λ n. e;
    }
    | inr (inl (m, e)) ↦ record {
      enabled = h;
      plays = λ p origin ms n. absurd (let z = sym m ∙ n in cc);
      falls_back = λ n. q ∙ e;
      maintains = λ n. absurd (let z = sym m ∙ n in cc);
    }
    | inr (inr (p, origin, ms, m, a, o, b, e)) ↦ record {
      enabled = h;
      plays = λ p' origin' ms' n.
          let (x, y, z) = play_injective p p' origin origin' ms ms' (sym m ∙ n) in
          (
            q ∙ a ∙ ap some x,
            o ∙ ap ok y,
            build_manifest-AllServed urls url_of origin' s.media (ordered_items p' s) ms'
                (rw (← x, ← y, ← z) b),
            e,
          );
      falls_back = λ n. absurd (let z = sym m ∙ n in cc);
      maintains = λ n. absurd (let z = sym m ∙ n in cc);
    }
  ]

  -- A reply is right until the transition that it announces, if no row is written meanwhile and every
  -- published row shows a time of publication that has passed. It plays the effective playlist, and
  -- exactly the items of it in their order, each with media that is ready and is delivered from the
  -- configured origin; it falls back only if there is no such playlist. A device whose hardware or
  -- version is not eligible is not served a playlist, and only such a device is put in maintenance.
  pub sync_manifest-IsRight :
      (now read later t : ℕ) (d : Device) (s s' : Signage) (reply : SyncReply Update)
      → now ≤ read
      → read ≤ later
      → later ≤ t
      → All (WasPublished read) s.playlists
      → Before t reply.next_transition
      → sync_manifest is_blank urls url_of settings configured_app_update now read later d s
        ≡ ok (s', reply)
      → IsRight d s reply t
  unfolding sync_manifest
  sync_manifest-IsRight now read later t d s s' reply a b c w before h =
      raise_if-cases (is_disabled d) _ _ h (λ h1 k1.
        >>=-cases (configured_app_update d) _ k1 (λ update h2 k2.
          >>=-cases (select_mode is_blank urls url_of settings later d s) _ k2 (λ m h3 k3.
            let e = ap (λ (r : Signage × SyncReply Update). r.1) (ok-injective k3) in
            let em : m ≡ reply.mode = ap (λ (r : SyncReply Update). r.mode) e in
            let en : next_playlist_transition_at now read s.playlists ≡ reply.next_transition =
              ap (λ (r : SyncReply Update). r.next_transition) e in
            IsRight-of later t d s reply h1 (h3 ∙ ap ok em)
              (unchanged now read later t s.playlists a b c w (subst (Before t) (sym en) before)))))

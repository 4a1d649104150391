-- ===== src/Manifest.antt =====
-- `sync_manifest`, `configured_media_origin` and `media_url_uses_origin` (backend/signage/api.py).
-- `urlsplit` and `ipaddress` are parameters; the domain of the settings is given stripped and in lower
-- case. What `configured_app_update` (Manifest/Updates) returns is an argument.
pub mod Served
pub mod Rollout
pub mod Updates
use Prim.Native.Char.{code}
use digital_signage_project.Base.{
  ℕ, String, Bool, true, false, not, ◌&&◌, ◌||◌, Option, none, some, List, [], ◌∷◌, ◌==◌,
  if◌then◌else◌, str_eq, filter, get, update, Result, ok, err, Error, ◌>>=◌, ◌>>◌, raise_if,
  or_raise,
}
use digital_signage_project.Models.{
  Playlist, PlaylistItem, MediaAsset, MediaKind, MediaStatus, media_status_eq, asset_id, Device,
  DeviceStatus, device_status_eq,
}
use digital_signage_project.Publish.{sort_items}
use digital_signage_project.Schedule.{active_playlist, next_playlist_transition_at}
use digital_signage_project.Credentials.{Fleet, is_disabled}
use digital_signage_project.Credentials.Requests.{
  Details, device_matches_qualification, invalid_device_token,
}

-- `parsed.port`, which may raise
pub data Port : Type 0 where
  raises absent : Port
  present : ℕ → Port

pub record SplitUrl : Type 0 where
  pub scheme : String
  pub netloc : String
  pub hostname : Option String
  pub port : Port
  pub has_userinfo : Bool
  pub fragment : String
  pub path : String

-- `urlsplit(url)`, `urlsplit("https://" + domain)` and `ipaddress.ip_address`; nothing where they
-- raise. `has_userinfo` says that there is a user name or a password.
pub record Urls : Type 0 where
  pub urlsplit : String → Option SplitUrl
  pub split_domain : String → Option SplitUrl
  pub is_ip_address : String → Bool

abbrev pub is_absent : Port → Bool
is_absent absent = true
is_absent _ = false

abbrev pub is_present : Port → Bool
is_present (present n) = true
is_present _ = false

-- `"." in s`
unfoldable pub has_dot : String → Bool
has_dot String.[] = false
has_dot (String.◌∷◌ c s) = code c == 46 || has_dot s

-- `s.endswith(".")`
unfoldable pub ends_with_dot : String → Bool
ends_with_dot String.[] = false
ends_with_dot (String.◌∷◌ c String.[]) = code c == 46
ends_with_dot (String.◌∷◌ c (String.◌∷◌ d s)) = ends_with_dot (String.◌∷◌ d s)

-- `s.startswith("/")`
abbrev pub starts_with_slash : String → Bool
starts_with_slash String.[] = false
starts_with_slash (String.◌∷◌ c s) = code c == 47

abbrev pub delivery_unavailable : Error
delivery_unavailable = Error.api_exception "Media delivery is unavailable."

-- A port that raises leaves the variables `parsed` and `origin` set and `port` unset.
abbrev pub is_plain : Urls → String → SplitUrl → String → Bool
is_plain urls domain parsed origin =
    not (str_eq origin "")
    && str_eq parsed.netloc domain
    && str_eq origin domain
    && not (is_present parsed.port)
    && not (str_eq origin "localhost")
    && not (ends_with_dot origin)
    && has_dot origin
    && not (urls.is_ip_address origin)

-- `configured_media_origin`
unfoldable pub configured_media_origin : Urls → String → Result String
configured_media_origin urls domain = do
  parsed ← or_raise (urls.split_domain domain) delivery_unavailable
  origin ← or_raise parsed.hostname delivery_unavailable
  raise_if (not (is_plain urls domain parsed origin)) delivery_unavailable
  ok origin

abbrev pub is_host : Option String → String → Bool
is_host none origin = false
is_host (some h) origin = str_eq h origin

-- `media_url_uses_origin`
unfoldable pub media_url_uses_origin : Urls → String → String → Bool
media_url_uses_origin urls url origin = elim (urls.urlsplit url) [
  | none ↦ false
  | some u ↦
      str_eq u.scheme "https"
      && is_host u.hostname origin
      && is_absent u.port
      && not u.has_userinfo
      && str_eq u.fragment ""
      && starts_with_slash u.path
]

pub record ManifestItem : Type 0 where
  pub entry_id : ℕ
  pub position : ℕ
  pub media_id : ℕ
  pub kind : MediaKind
  pub sha256 : String
  pub size_bytes : ℕ
  pub duration_ms : ℕ
  pub download_url : String

abbrev pub manifest_item : String → PlaylistItem → MediaAsset → ManifestItem
manifest_item url i a = record {
  entry_id = i.id;
  position = i.position;
  media_id = a.id;
  kind = a.kind;
  sha256 = a.sha256;
  size_bytes = a.file_size;
  duration_ms = a.duration_ms;
  download_url = url;
}

-- A stored file that is ready for delivery.
abbrev pub is_deliverable : MediaAsset → Bool
is_deliverable a = media_status_eq a.status MediaStatus.ready && not (str_eq a.normalized_file "")

-- The loop over the items; `url_of` is `url` of the storage. A dangling foreign key cannot occur.
unfoldable pub build_manifest :
    Urls
    → (String → String)
    → String
    → List MediaAsset
    → List PlaylistItem
    → Result (List ManifestItem)
build_manifest urls url_of origin media [] = ok []
build_manifest urls url_of origin media (i ∷ rest) = do
  a ← or_raise (get asset_id i.media media) Error.does_not_exist
  raise_if (not (is_deliverable a))
      (Error.api_exception "Published playlist contains unavailable media.")
  raise_if (not (media_url_uses_origin urls (url_of a.normalized_file) origin)) delivery_unavailable
  others ← build_manifest urls url_of origin media rest
  ok (manifest_item (url_of a.normalized_file) i a ∷ others)

-- The settings that the handler reads.
pub record SyncSettings : Type 0 where
  pub production : Bool
  pub required_app_version : String
  pub domain : String

pub data Mode : Type 0 where
  maintenance fallback : Mode
  play : Playlist → String → List ManifestItem → Mode

-- The reply, with what `configured_app_update` gives as the update.
pub record SyncReply (Update : Type 0) : Type 0 where
  pub mode : Mode
  pub kiosk_pin_verifier : String
  pub app_update : Option Update
  pub next_transition : Option ℕ

pub record Signage : Type 0 where
  pub fleet : Fleet
  pub playlists : List Playlist
  pub items : List PlaylistItem
  pub media : List MediaAsset

-- The details that the device's own row records; the hash of its Android ID is not compared.
abbrev pub recorded_details : Device → Details
recorded_details d = record {
  android_id_hash = 0;
  android_version = d.android_version;
  app_version = d.app_version;
  hardware_model = d.hardware_model;
  firmware_version = d.hardware_firmware_version;
  security_patch_level = d.hardware_security_patch;
}

abbrev pub is_ineligible : (String → Bool) → SyncSettings → Device → Signage → Bool
is_ineligible is_blank settings d s =
    settings.production
    && ((device_status_eq d.status DeviceStatus.active
          && not (device_matches_qualification is_blank (recorded_details d) d s.fleet))
        || not (str_eq d.app_version settings.required_app_version))

-- `mark_successful_sync`
abbrev pub mark_synchronized : ℕ → Device → Signage → Signage
mark_synchronized now d s = record s {
  fleet = record s.fleet {
    devices =
        update (λ (x : Device). x.id == d.id) (λ x. record x { last_sync_at = some now })
          s.fleet.devices;
  };
}

-- `playlist.items.select_related("media").all()`
abbrev pub ordered_items : Playlist → Signage → List PlaylistItem
ordered_items p s = sort_items (filter (λ (i : PlaylistItem). i.playlist == p.id) s.items)

module _ (is_blank : String → Bool) (urls : Urls) (url_of : String → String)
    (settings : SyncSettings) where
  unfoldable pub play_mode : Signage → Option Playlist → Result Mode
  play_mode s none = ok fallback
  play_mode s (some p) = do
    origin ← configured_media_origin urls settings.domain
    items ← build_manifest urls url_of origin s.media (ordered_items p s)
    ok (play p origin items)

  unfoldable pub select_mode : ℕ → Device → Signage → Result Mode
  select_mode later d s =
      let played = play_mode s (active_playlist later s.playlists) in
      if is_ineligible is_blank settings d s then ok maintenance else played

  -- `sync_manifest` of the device that has been authenticated. `next_playlist_transition_at` reads the
  -- clock at `now` for the next start and at `read` for the current playlist, and the handler reads it
  -- again at `later`.
  unfoldable pub sync_manifest :
      {Update : Type 0}
      → (Device → Result (Option Update))
      → ℕ
      → ℕ
      → ℕ
      → Device
      → Signage
      → Result (Signage × SyncReply Update)
  sync_manifest configured_app_update now read later d s = do
    raise_if (is_disabled d) invalid_device_token
    app_update ← configured_app_update d
    mode ← select_mode later d s
    ok (
      mark_synchronized later d s,
      record {
        mode = mode;
        kiosk_pin_verifier = d.kiosk_pin_hash;
        app_update = app_update;
        next_transition = next_playlist_transition_at now read s.playlists;
      },
    )

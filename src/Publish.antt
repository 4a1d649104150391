-- ===== src/Publish.antt =====
-- `publish_playlist` (backend/signage/services.py).
pub mod Delivery
pub mod Guards
pub mod Checked
pub mod Overlap
use digital_signage_project.Base.{
  ℕ, ◌+◌, ◌*◌, ◌<◌, String, Bool, true, false, not, ◌&&◌, ◌||◌, Option, none, some, List, [], ◌∷◌,
  ◌++◌, map, ltb, leb, ◌==◌, if◌then◌else◌, str_eq, bool_eq, is_none, any, all, filter, get, mem,
  sum, length, Result, ok, err, Error, ◌>>=◌, ◌>>◌, raise_if, or_raise,
}
use digital_signage_project.Models.{
  Playlist, PlaylistItem, PlatformSettings, PlaylistStatus, playlist_status_eq, playlist_id,
  MediaAsset, MediaStatus, media_status_eq, is_image, asset_id, Device, DeviceStatus,
  device_status_eq, DeviceCommand, CommandKind, is_sync, AuditEvent, audit, Metadata,
}
use digital_signage_project.Playlists.{
  is_published, clean, violates_constraints, Column, UpdateFields, save,
}

-- The tables that a publication reads and writes; `managed` has the devices with a management
-- credential.
pub record Catalogue : Type 0 where
  pub playlists : List Playlist
  pub items : List PlaylistItem
  pub media : List MediaAsset
  pub limits : Option PlatformSettings
  pub devices : List Device
  pub managed : List ℕ
  pub commands : List DeviceCommand
  pub log : List AuditEvent

abbrev pub invalid : String → Error
invalid message = Error.validation_error message

-- `PlatformSettings.objects.get_or_create(singleton_id=1)`
abbrev pub loaded_limits : Option PlatformSettings → PlatformSettings
loaded_limits none = record {
  singleton_id = 1;
  playlist_max_entries = 100;
  playlist_max_duration_seconds = 1800;
}
loaded_limits (some l) = l

-- An insertion sort for `Meta.ordering = ["position"]`.
unfoldable pub insert_item : PlaylistItem → List PlaylistItem → List PlaylistItem
insert_item i [] = i ∷ []
insert_item i (j ∷ js) = if leb i.position j.position then i ∷ j ∷ js else j ∷ insert_item i js

unfoldable pub sort_items : List PlaylistItem → List PlaylistItem
sort_items [] = []
sort_items (i ∷ rest) = insert_item i (sort_items rest)

-- The media of the items, joined by their keys.
unfoldable pub join_media : List MediaAsset → List PlaylistItem → List MediaAsset
join_media media [] = []
join_media media (i ∷ rest) = elim (get asset_id i.media media) [
  | none ↦ join_media media rest
  | some a ↦ a ∷ join_media media rest
]

-- `locked.items.select_related("media")`
unfoldable pub playlist_media : Catalogue → ℕ → List MediaAsset
playlist_media s k =
    join_media s.media (sort_items (filter (λ (i : PlaylistItem). i.playlist == k) s.items))

-- The loop over the images that are not yet verified.
unfoldable pub verify_images :
    (MediaAsset → Result (Unit {0})) → List ℕ → List MediaAsset → Result (Unit {0})
verify_images validate verified [] = ok tt
verify_images validate verified (a ∷ rest) = elim (is_image a.kind && not (mem a.id verified)) [
  | true ↦ validate a >> verify_images validate (a.id ∷ verified) rest
  | false ↦ verify_images validate verified rest
]

-- `full_clean` of a stored row: `clean`, the constraints and the foreign key to another version.
unfoldable pub full_clean : List Playlist → Playlist → Result (Unit {0})
full_clean table p = do
  clean table p
  raise_if (violates_constraints table p) (invalid "Constraint is violated.")

-- The tests on the playlist's contents.
unfoldable pub check_contents :
    (MediaAsset → Result (Unit {0})) → PlatformSettings → List MediaAsset → Result (Unit {0})
check_contents validate limits media = do
  raise_if (length media == 0) (invalid "A playlist cannot be empty.")
  raise_if (ltb limits.playlist_max_entries (length media))
      (invalid "Playlist exceeds the configured entry limit.")
  raise_if (any (λ (a : MediaAsset). not (media_status_eq a.status MediaStatus.ready)) media)
      (invalid "Every media item must be validated before publishing.")
  verify_images validate [] media
  raise_if
      (ltb (limits.playlist_max_duration_seconds * 1000)
        (sum (map (λ (a : MediaAsset). a.duration_ms) media)))
      (invalid "Playlist exceeds the configured duration limit.")

-- The filter of `overlapping`.
abbrev pub overlaps : Playlist → Playlist → Bool
overlaps p q =
    is_published q && ltb q.starts_at p.ends_at && ltb p.starts_at q.ends_at && not (q.id == p.id)

-- The filter of `superseded`, on an overlapping row.
abbrev pub is_superseded : Bool → Playlist → Playlist → Bool
is_superseded urgent p q =
    str_eq q.name p.name
    && ltb q.version p.version
    && q.starts_at == p.starts_at
    && q.ends_at == p.ends_at
    && bool_eq q.is_urgent urgent

unfoldable pub superseded_by_publication : Bool → List Playlist → Playlist → List Playlist
superseded_by_publication urgent table p =
    filter (is_superseded urgent p) (filter (overlaps p) table)

abbrev pub ids : List Playlist → List ℕ
ids = map (λ (q : Playlist). q.id)

-- An urgent row that overlaps and that the publication does not supersede.
unfoldable pub has_urgent_conflict : List Playlist → Playlist → Bool
has_urgent_conflict table p =
    any
      (λ (q : Playlist).
        q.is_urgent && not (mem q.id (ids (superseded_by_publication true table p))))
      (filter (overlaps p) table)

unfoldable pub check_window : ℕ → Bool → List Playlist → Playlist → Result (Unit {0})
check_window now urgent table p = do
  raise_if (urgent && not (leb p.starts_at now && ltb now p.ends_at))
      (invalid "An urgent replacement must cover the current time.")
  raise_if (urgent && has_urgent_conflict table p) (
      invalid
        "An urgent replacement already overlaps this schedule; create its next version to correct it.")

abbrev pub published_row : ℕ → Bool → Playlist → Playlist
published_row now urgent p = record p {
  status = PlaylistStatus.published;
  published_at = some now;
  is_urgent = urgent;
}

-- `update_fields=["status", "published_at", "is_urgent", "updated_at"]`
abbrev pub publication_columns : UpdateFields
publication_columns = some (elim [
  | Column.status ↦ true
  | Column.published_at ↦ true
  | Column.is_urgent ↦ true
  | _ ↦ false
])

-- `update_fields=["status", "superseded_by", "updated_at"]`
abbrev pub correction_columns : UpdateFields
correction_columns = some (elim [ Column.status ↦ true | Column.superseded_by ↦ true | _ ↦ false ])

abbrev pub cancelled_row : ℕ → Playlist → Playlist
cancelled_row k q = record q { status = PlaylistStatus.cancelled; superseded_by = some k }

-- The loop over `superseded`: the table and the log.
unfoldable pub cancel_superseded :
    ℕ
    → ℕ
    → List Playlist
    → List Playlist
    → List AuditEvent
    → Result (List Playlist × List AuditEvent)
cancel_superseded actor k [] table log = ok (table, log)
cancel_superseded actor k (q ∷ qs) table log =
    save correction_columns (cancelled_row k q) table >>= λ table'.
    cancel_superseded actor k qs table' (
      audit (some actor) "playlist.cancelled_by_correction" "signage.playlist" q.id
        (Metadata.replacement k) log)

-- A command that its device still has to fetch.
abbrev pub is_pending_sync : ℕ → ℕ → DeviceCommand → Bool
is_pending_sync now device c =
    c.device == device && is_sync c.kind && is_none c.acknowledged_at && ltb now c.expires_at

abbrev pub minute : ℕ
minute = 60000000

-- The active devices with a management credential and no pending command.
unfoldable pub devices_to_sync : ℕ → List ℕ → List DeviceCommand → List Device → List Device
devices_to_sync now managed commands devices =
    filter
      (λ (d : Device).
        device_status_eq d.status DeviceStatus.active
        && mem d.id managed
        && not (any (is_pending_sync now d.id) commands))
      devices

-- `fresh` gives the key of the command for a device.
abbrev pub sync_command : (ℕ → ℕ) → ℕ → ℕ → Device → DeviceCommand
sync_command fresh now actor d = record {
  id = fresh d.id;
  created_at = now;
  device = d.id;
  kind = CommandKind.sync_now;
  requested_by = actor;
  expires_at = now + 10 * minute;
  delivered_at = none;
  acknowledged_at = none;
}

unfoldable pub queue_sync : (ℕ → ℕ) → ℕ → ℕ → Catalogue → List DeviceCommand
queue_sync fresh now actor s =
    s.commands
    ++ map (sync_command fresh now actor) (devices_to_sync now s.managed s.commands s.devices)

-- `validate` is `validate_ready_media_delivery`; `now` is read once, after the contents are checked.
module _ (validate : MediaAsset → Result (Unit {0})) (fresh : ℕ → ℕ) (now : ℕ) where
  unfoldable pub check_publication : Bool → Catalogue → Playlist → Result (Unit {0})
  check_publication urgent s p = do
    raise_if (not (playlist_status_eq p.status PlaylistStatus.draft))
        (invalid "Only a draft playlist can be published.")
    full_clean s.playlists p
    check_contents validate (loaded_limits s.limits) (playlist_media s p.id)
    check_window now urgent s.playlists p

  unfoldable pub apply_publication : ℕ → Bool → Catalogue → Playlist → Result (Catalogue × Playlist)
  apply_publication actor urgent s p = do
    let p' = published_row now urgent p
    table ← save publication_columns p' s.playlists
    r ← cancel_superseded actor p.id (superseded_by_publication urgent s.playlists p) table s.log
    ok (
      record s {
        playlists = r.0;
        limits = some (loaded_limits s.limits);
        log =
            audit (some actor) "playlist.publish" "signage.playlist" p.id (Metadata.urgent urgent)
              r.1;
        commands = queue_sync fresh now actor s;
      },
      p',
    )

  -- `publish_playlist` of the playlist with the key `k`
  unfoldable pub publish_playlist : ℕ → ℕ → Bool → Catalogue → Result (Catalogue × Playlist)
  publish_playlist k actor urgent s = do
    p ← or_raise (get playlist_id k s.playlists) Error.does_not_exist
    check_publication urgent s p
    apply_publication actor urgent s p

-- ===== src/Playlists.antt =====
-- Versions of playlists: `Playlist.clean`, `save` and `delete`, `PlaylistItem.save` and `delete`
-- (backend/signage/models.py).
pub mod Lifecycle
pub mod History
use digital_signage_project.Base.{
  ℕ, ◌+◌, String, Bool, true, false, not, ◌&&◌, ◌||◌, Option, none, some, List, [], ◌∷◌, ◌++◌, ltb,
  leb, ◌==◌, if◌then◌else◌, str_eq, opt_eq, bool_eq, is_some, any, all, filter, get, put, Result,
  ok, err, Error, ◌>>=◌, ◌>>◌, raise_if,
}
use digital_signage_project.Models.{
  Playlist, PlaylistItem, PlaylistStatus, playlist_status_eq, playlist_id,
}

abbrev pub cancelled_immutable : Error
cancelled_immutable = Error.validation_error "Cancelled playlist versions are immutable."

abbrev pub published_immutable : Error
published_immutable = Error.validation_error "Published playlist versions are immutable."

abbrev pub only_by_correction : Error
only_by_correction =
    Error.validation_error "Published playlists can only be cancelled by a correction."

abbrev pub bad_replacement : Error
bad_replacement =
    Error.validation_error
      "A correction must link to a newer published version of the same playlist window."

abbrev pub incomplete_correction : Error
incomplete_correction =
    Error.validation_error "A correction must update status and replacement together."

abbrev pub undeletable : Error
undeletable = Error.validation_error "Published playlist versions cannot be deleted."

abbrev pub items_immutable : Error
items_immutable = Error.validation_error "Published playlist items are immutable."

abbrev pub is_published : Playlist → Bool
is_published p = playlist_status_eq p.status PlaylistStatus.published

abbrev pub is_cancelled : Playlist → Bool
is_cancelled p = playlist_status_eq p.status PlaylistStatus.cancelled

-- `locked_fields_changed`
unfoldable pub locked_fields_changed : Playlist → Playlist → Bool
locked_fields_changed original p =
    not (str_eq original.name p.name)
    || not (original.version == p.version)
    || not (original.starts_at == p.starts_at)
    || not (original.ends_at == p.ends_at)
    || not (opt_eq original.published_at p.published_at)
    || not (bool_eq original.is_urgent p.is_urgent)
    || not (original.created_by == p.created_by)

-- The tests on the row that replaces `original`.
unfoldable pub is_replacement : Playlist → Playlist → Bool
is_replacement original r =
    is_published r
    && str_eq r.name original.name
    && ltb original.version r.version
    && r.starts_at == original.starts_at
    && r.ends_at == original.ends_at

unfoldable pub validate_replacement : List Playlist → Playlist → Option ℕ → Result (Unit {0})
validate_replacement table original none = err only_by_correction
validate_replacement table original (some k) = elim (get playlist_id k table) [
  | none ↦ err bad_replacement
  | some r ↦ if is_replacement original r then ok tt else err bad_replacement
]

-- `_validate_locked_version`
unfoldable pub validate_locked_version : List Playlist → Playlist → Playlist → Result (Unit {0})
validate_locked_version table p original =
    if is_cancelled original
    then raise_if
        (locked_fields_changed original p
          || not (playlist_status_eq p.status original.status)
          || not (opt_eq p.superseded_by original.superseded_by))
        cancelled_immutable
    else if not (is_published original)
    then ok tt
    else if locked_fields_changed original p
    then err published_immutable
    else if is_published p
    then raise_if (not (opt_eq p.superseded_by original.superseded_by)) published_immutable
    else if not (is_cancelled p)
    then err only_by_correction
    else validate_replacement table original p.superseded_by

-- `clean`
unfoldable pub clean : List Playlist → Playlist → Result (Unit {0})
clean table p = elim (get playlist_id p.id table) [
  | none ↦ ok tt
  | some original ↦ validate_locked_version table p original
]

-- The columns of a playlist, for `update_fields`.
pub data Column : Type 0 where
  name version status starts_at ends_at published_at is_urgent created_by superseded_by : Column

-- `None` or the set of the columns to write.
abbrev pub UpdateFields : Type 0
UpdateFields = Option (Column → Bool)

abbrev pub writes : UpdateFields → Column → Bool
writes none c = true
writes (some u) c = u c

-- What `UPDATE` makes of the stored row.
unfoldable pub written : UpdateFields → Playlist → Playlist → Playlist
written u p old = record {
  id = old.id;
  name = if writes u Column.name then p.name else old.name;
  version = if writes u Column.version then p.version else old.version;
  status = if writes u Column.status then p.status else old.status;
  starts_at = if writes u Column.starts_at then p.starts_at else old.starts_at;
  ends_at = if writes u Column.ends_at then p.ends_at else old.ends_at;
  published_at = if writes u Column.published_at then p.published_at else old.published_at;
  is_urgent = if writes u Column.is_urgent then p.is_urgent else old.is_urgent;
  created_by = if writes u Column.created_by then p.created_by else old.created_by;
  superseded_by = if writes u Column.superseded_by then p.superseded_by else old.superseded_by;
}

-- The foreign key `superseded_by` names neither a stored row nor the row itself.
abbrev pub is_dangling : List Playlist → Playlist → Bool
is_dangling table p = elim p.superseded_by [
  | none ↦ false
  | some k ↦ not (k == p.id) && not (any (λ q. q.id == k) table)
]

-- `unique_playlist_name_version`, `playlist_end_after_start` and the foreign key
unfoldable pub violates_constraints : List Playlist → Playlist → Bool
violates_constraints table p =
    any (λ q. not (q.id == p.id) && str_eq q.name p.name && q.version == p.version) table
    || leb p.ends_at p.starts_at
    || is_dangling table p

-- `super().save()`
unfoldable pub store :
    UpdateFields → Playlist → Option Playlist → List Playlist → Result (List Playlist)
store none p none table =
    if violates_constraints table p then err Error.integrity_error else ok (table ++ p ∷ [])
store (some u) p none table = err Error.database_error
store u p (some old) table =
    let p' = written u p old in
    if violates_constraints table p'
    then err Error.integrity_error
    else ok (put playlist_id p' table)

-- The tests of `save` on the stored row.
unfoldable pub check_save : UpdateFields → List Playlist → Playlist → Playlist → Result (Unit {0})
check_save u table p original = do
  validate_locked_version table p original
  raise_if (is_cancelled original) cancelled_immutable
  raise_if (is_published original && is_published p) published_immutable
  raise_if
      (is_published original
        && is_cancelled p
        && is_some u
        && not (writes u Column.status && writes u Column.superseded_by))
      incomplete_correction

-- `save`
unfoldable pub save : UpdateFields → Playlist → List Playlist → Result (List Playlist)
save u p table = elim (get playlist_id p.id table) [
  | none ↦ store u p none table
  | some original ↦ check_save u table p original >> store u p (some original) table
]

unfoldable pub remove : ℕ → List Playlist → List Playlist
remove k table = filter (λ (q : Playlist). not (q.id == k)) table

-- `delete`; the foreign keys of `items`, of other versions and of devices are protected, which
-- `referenced` tests.
unfoldable pub delete : (ℕ → Bool) → Playlist → List Playlist → Result (List Playlist)
unfolding remove
delete referenced p table =
    if is_published p || is_cancelled p
    then err undeletable
    else if referenced p.id
    then err Error.integrity_error
    else ok (remove p.id table)

-- `PlaylistItem.playlist_is_locked`
unfoldable pub playlist_is_locked : List Playlist → ℕ → Result Bool
playlist_is_locked table k = elim (get playlist_id k table) [
  | none ↦ err Error.does_not_exist
  | some p ↦ ok (is_published p || is_cancelled p)
]

abbrev pub item_id : PlaylistItem → ℕ
item_id i = i.id

abbrev same_position : PlaylistItem → PlaylistItem → Bool
same_position i j = not (j.id == i.id) && j.playlist == i.playlist && j.position == i.position

-- `PlaylistItem.save`, under `unique_playlist_position`
unfoldable pub save_item :
    List Playlist → PlaylistItem → List PlaylistItem → Result (List PlaylistItem)
unfolding playlist_is_locked
save_item table i items = do
  locked ← playlist_is_locked table i.playlist
  raise_if locked items_immutable
  raise_if (any (same_position i) items) Error.integrity_error
  ok (if is_some (get item_id i.id items) then put item_id i items else items ++ i ∷ [])

-- `PlaylistItem.delete`
unfoldable pub delete_item :
    List Playlist → PlaylistItem → List PlaylistItem → Result (List PlaylistItem)
unfolding playlist_is_locked
delete_item table i items = do
  locked ← playlist_is_locked table i.playlist
  raise_if locked items_immutable
  ok (filter (λ (j : PlaylistItem). not (j.id == i.id)) items)

-- ===== src/Media.antt =====
-- The processing of uploads: attempts, leases and fencing tokens.
-- `_start_media_processing_attempt`, `_finalize_media_processing`,
-- `media_has_current_or_future_references`, `delete_media_binary` (backend/signage/services.py),
-- `_claim_asset` (management/commands/process_media.py) and `_recover_expired_lease`
-- (management/commands/reconcile_media_processing.py).
pub mod Fencing
pub mod Deletion
use digital_signage_project.Base.{
  ℕ, ◌+◌, ◌*◌, String, Bool, true, false, not, ◌&&◌, ◌||◌, Option, none, some, List, [], ◌∷◌, ◌++◌,
  ltb, leb, ◌==◌, if◌then◌else◌, str_eq, opt_eq, is_none, any, filter, first_by, get, put, Result,
  ok, err, Error, ◌>>=◌, ◌>>◌, raise_if, or_raise,
}
use digital_signage_project.Models.{
  MediaAsset, MediaStatus, media_status_eq, MediaDeletion, asset_id, Playlist, PlaylistItem,
  PlaylistStatus, playlist_status_eq, playlist_id, AuditEvent, audit, Metadata,
}

abbrev pub has_status : MediaStatus → MediaAsset → Bool
has_status s a = media_status_eq a.status s

abbrev pub second : ℕ
second = 1000000

-- The assignments by which an attempt begins, in `_start_media_processing_attempt` and in
-- `_claim_asset`; `lease` is MEDIA_PROCESSING_LEASE_SECONDS.
unfoldable pub begin_attempt : ℕ → ℕ → ℕ → MediaAsset → MediaAsset
begin_attempt lease now token a = record a {
  status = MediaStatus.processing;
  processing_attempts = a.processing_attempts + 1;
  processing_token = some token;
  processing_started_at = some now;
  processing_lease_expires_at = some (now + lease * second);
  processing_finished_at = none;
}

-- `_start_media_processing_attempt`: the token, or nothing, and the table.
unfoldable pub start_attempt : ℕ → ℕ → ℕ → ℕ → List MediaAsset → Result (Option ℕ × List MediaAsset)
start_attempt lease now token k table = elim (get asset_id k table) [
  | none ↦ err Error.does_not_exist
  | some a ↦
      if has_status MediaStatus.quarantined a
      then ok (some token, put asset_id (begin_attempt lease now token a) table)
      else ok (none, table)
]

-- A lease that is still running.
abbrev pub lease_running : ℕ → MediaAsset → Bool
lease_running now a = elim a.processing_lease_expires_at [
  | none ↦ false
  | some until ↦ ltb now until
]

-- The rows that `_claim_asset` takes.
abbrev pub is_claimable : ℕ → MediaAsset → Bool
is_claimable now a =
    has_status MediaStatus.quarantined a
    || (has_status MediaStatus.processing a && not (lease_running now a))

abbrev created_before : MediaAsset → MediaAsset → Bool
created_before a b = ltb a.created_at b.created_at

-- `_claim_asset` of a given asset or of the next in the queue.
unfoldable pub claim_asset :
    ℕ → ℕ → ℕ → Option ℕ → List MediaAsset → Result (Option MediaAsset × List MediaAsset)
claim_asset lease now token (some k) table = elim (get asset_id k table) [
  | none ↦ err Error.does_not_exist
  | some a ↦
      let a' = begin_attempt lease now token a in
      if is_claimable now a then ok (some a', put asset_id a' table) else ok (none, table)
]
claim_asset lease now token none table =
    elim (first_by created_before (filter (is_claimable now) table)) [
      | none ↦ ok (none, table)
      | some a ↦ let a' = begin_attempt lease now token a in ok (some a', put asset_id a' table)
    ]

-- The assignments of `_recover_expired_lease`.
unfoldable pub release : MediaAsset → MediaAsset
release a = record a {
  status = MediaStatus.quarantined;
  processing_token = none;
  processing_lease_expires_at = none;
}

-- `_recover_expired_lease`, before its alert.
unfoldable pub recover_lease : ℕ → ℕ → List MediaAsset → Bool × List MediaAsset
recover_lease now k table = elim (get asset_id k table) [
  | none ↦ (false, table)
  | some a ↦
      if has_status MediaStatus.processing a && not (lease_running now a)
      then (true, put asset_id (release a) table)
      else (false, table)
]

-- The assignments of `_finalize_media_processing` from the worker's copy `a` to the row `locked`.
unfoldable pub finalized : ℕ → MediaAsset → String → MediaAsset → MediaAsset
finalized now a staged_name locked = record locked {
  sha256 = a.sha256;
  file_size = a.file_size;
  mime_type = a.mime_type;
  duration_ms = a.duration_ms;
  width = a.width;
  height = a.height;
  rejection_reason = a.rejection_reason;
  status = a.status;
  normalized_file = if has_status MediaStatus.ready a then staged_name else locked.normalized_file;
  processing_token = none;
  processing_lease_expires_at = none;
  processing_finished_at = some now;
}

abbrev pub holds_token : ℕ → MediaAsset → Bool
holds_token token a = has_status MediaStatus.processing a && opt_eq a.processing_token (some token)

-- The files that are deleted once the transaction has committed.
unfoldable pub replaced_file : String → MediaAsset → List String
replaced_file staged_name locked =
    if not (str_eq locked.normalized_file "")
      && not (str_eq staged_name "")
      && not (str_eq locked.normalized_file staged_name)
    then locked.normalized_file ∷ []
    else []

-- `_finalize_media_processing`: whether the attempt still held the row, the table, and the files to
-- delete.
unfoldable pub finalize :
    ℕ → MediaAsset → ℕ → String → List MediaAsset → Result (Bool × List MediaAsset × List String)
finalize now a token staged_name table = elim (get asset_id a.id table) [
  | none ↦ err Error.does_not_exist
  | some locked ↦
      if holds_token token locked
      then ok (
        true,
        put asset_id (finalized now a staged_name locked) table,
        replaced_file staged_name locked,
      )
      else ok (false, table, [])
]

-- `media_has_current_or_future_references`
unfoldable pub has_references : ℕ → List Playlist → List PlaylistItem → ℕ → Bool
has_references now playlists items k =
    any
      (λ (i : PlaylistItem). i.media == k && (elim (get playlist_id i.playlist playlists) [
        | none ↦ false
        | some p ↦
            (playlist_status_eq p.status PlaylistStatus.draft
              || playlist_status_eq p.status PlaylistStatus.published)
            && leb now p.ends_at
      ]))
      items

-- The assignments of `delete_media_binary`.
unfoldable pub archive : ℕ → MediaAsset → MediaAsset
archive now a = record a {
  status = MediaStatus.archived;
  archived_at = some now;
  processing_token = none;
  processing_lease_expires_at = none;
  processing_finished_at =
      if has_status MediaStatus.processing a then some now else a.processing_finished_at;
}

-- `MediaDeletion.objects.get_or_create(asset=locked, ...)`
unfoldable pub outbox : ℕ → MediaAsset → List MediaDeletion → List MediaDeletion
outbox fresh a deletions =
    if any (λ (d : MediaDeletion). d.asset == a.id) deletions
    then deletions
    else deletions
      ++ record {
        id = fresh;
        asset = a.id;
        source_name = a.source_file;
        normalized_name = a.normalized_file;
        attempts = 0;
        last_attempt_at = none;
        last_error = "";
        completed_at = none;
      }
        ∷ []

-- The tables of the library of media.
pub record Library : Type 0 where
  pub assets : List MediaAsset
  pub deletions : List MediaDeletion
  pub playlists : List Playlist
  pub items : List PlaylistItem
  pub log : List AuditEvent

abbrev pub still_referenced : Error
still_referenced =
    Error.validation_error "Media is referenced by a draft, current, or future playlist."

-- `delete_media_binary`; `fresh` is the key of a new entry of the outbox.
unfoldable pub delete_media_binary : ℕ → ℕ → ℕ → ℕ → Library → Result (Library × MediaAsset)
delete_media_binary now fresh actor k s = do
  a ← or_raise (get asset_id k s.assets) Error.does_not_exist
  raise_if (has_references now s.playlists s.items a.id) still_referenced
  ok (
    record s {
      assets = put asset_id (archive now a) s.assets;
      deletions = outbox fresh a s.deletions;
      log = audit (some actor) "media.delete_binary" "signage.mediaasset" a.id Metadata.empty s.log;
    },
    archive now a,
  )

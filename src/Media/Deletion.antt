-- ===== src/Media/Deletion.antt =====
-- The outbox of file deletions: `process_media_deletion` (backend/signage/services.py). The object
-- storage is not part of the repository: its type and its `delete` are parameters.
pub mod Outbox
use digital_signage_project.Base.{
  ℕ, ◌+◌, String, Bool, true, false, ◌&&◌, Option, none, some, List, ◌==◌, if◌then◌else◌, str_eq,
  is_none, update, get, put, Result, ok, err, Error,
}
use digital_signage_project.Models.{MediaAsset, MediaDeletion, asset_id, deletion_id}

-- The tables and the storage.
pub record Files (Store : Type 0) : Type 0 where
  pub assets : List MediaAsset
  pub deletions : List MediaDeletion
  pub store : Store

-- The entry, if it is not completed.
unfoldable pub open_deletion : ℕ → List MediaDeletion → Option MediaDeletion
open_deletion k deletions = elim (get deletion_id k deletions) [
  | none ↦ none
  | some d ↦ if is_none d.completed_at then some d else none
]

-- The first transaction counts the attempt.
abbrev pub attempted : ℕ → MediaDeletion → MediaDeletion
attempted now d = record d { attempts = d.attempts + 1; last_attempt_at = some now }

-- The fields of the asset that still name the deleted files are cleared.
unfoldable pub cleared : MediaDeletion → MediaAsset → MediaAsset
cleared d a = record a {
  source_file = if str_eq a.source_file d.source_name then "" else a.source_file;
  normalized_file = if str_eq a.normalized_file d.normalized_name then "" else a.normalized_file;
}

abbrev pub completed : ℕ → MediaDeletion → MediaDeletion
completed now d = record d { completed_at = some now; last_error = "" }

-- `str(exc)[:255]` is `text`.
module _ {Store : Type 0} (delete : String → Store → Result Store) (text : Error → String) where
  -- `if name: storage.delete(name)`
  unfoldable pub delete_named : String → Store → Result Store
  delete_named name store = if str_eq name "" then ok store else delete name store

  -- The two deletions: the storage, and the exception that ended them. What the first has deleted
  -- stays deleted when the second fails.
  unfoldable pub delete_files : MediaDeletion → Store → Store × Option Error
  delete_files d store = elim (delete_named d.source_name store) [
    | err e ↦ (store, some e)
    | ok store' ↦ elim (delete_named d.normalized_name store') [
      | err e ↦ (store', some e)
      | ok store'' ↦ (store'', none)
    ]
  ]

  -- The transaction after a failure.
  unfoldable pub record_failure : ℕ → Error → Files Store → Files Store
  record_failure k e s = record s {
    deletions =
        update (λ (d : MediaDeletion). d.id == k && is_none d.completed_at)
          (λ (d : MediaDeletion). record d { last_error = text e }) s.deletions;
  }

  -- The transaction after the deletions; the asset of an entry exists, since its key is protected.
  unfoldable pub complete : ℕ → ℕ → Files Store → Bool × Files Store
  complete now k s = elim (open_deletion k s.deletions) [
    | none ↦ (false, s)
    | some d ↦ (
      true,
      record s {
        assets = elim (get asset_id d.asset s.assets) [
          | none ↦ s.assets
          | some a ↦ put asset_id (cleared d a) s.assets
        ];
        deletions = put deletion_id (completed now d) s.deletions;
      },
    )
  ]

  -- `process_media_deletion`; `between` is what other transactions do during the deletions.
  unfoldable pub process_media_deletion :
      (Files Store → Files Store) → ℕ → ℕ → ℕ → Files Store → Bool × Files Store
  process_media_deletion between now later k s = elim (open_deletion k s.deletions) [
    | none ↦ (false, s)
    | some d ↦
        let d' = attempted now d in
        let (store', failure) = delete_files d' s.store in
        let s' =
          between (record s { deletions = put deletion_id d' s.deletions; store = store' }) in
        (elim failure [ some e ↦ (false, record_failure k e s') | none ↦ complete later k s' ])
  ]

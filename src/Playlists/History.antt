-- ===== src/Playlists/History.antt =====
-- Whole histories of the playlist table under `Playlist.save` and `delete`
-- (backend/signage/models.py).
use digital_signage_project.Base.{
  ℕ, ◌≡◌, refl, ◌⊎◌, inl, inr, Bool, true, some, List, get, ok, OnOk, Raises, Result-cases,
  Bool-cases, get-put_self, sym, subst, get-key,
}
use digital_signage_project.Models.{Playlist, playlist_id}
use digital_signage_project.Playlists.{
  is_published, is_cancelled, UpdateFields, violates_constraints, store, check_save, save, delete,
  validate_locked_version,
}
use digital_signage_project.Playlists.Lifecycle.{
  WasCorrected, Corrects, cancelled_by, check_save_published, validate_locked_version_published,
  validate_replacement_lem, written-cancelled, locked_fields-SameVersion,
}

stored-WasCorrected :
    (u : UpdateFields) (table : List Playlist) (p o : Playlist)
    → get playlist_id p.id table ≡ some o
    → is_published o ≡ true
    → check_save u table p o ≡ ok tt
    → OnOk (WasCorrected table o) (store u p (some o) table)
unfolding store
stored-WasCorrected u table p o g a h =
    let (b, v, w) = check_save_published u table p o tt a h in
    let (l, c, q) = validate_locked_version_published table p o tt a b v in
    let (k, r, e, f, x) = validate_replacement_lem table o p.superseded_by tt q in
    let s = locked_fields-SameVersion o p l in
    let i = get-key playlist_id p.id table g in
    let z = written-cancelled u p o k s c e (w c).0 (w c).1 in
    let g' = subst (λ j. get playlist_id j table ≡ some o) (sym i) g in
    rw z (elim (Bool-cases (violates_constraints table (cancelled_by k o))) [
      | inl bad ↦ rw bad tt
      | inr good ↦ rw good (k, r, f, x, get-put_self playlist_id (cancelled_by k o) table g')
    ])

-- A save of a published row fails, or it cancels the row by a correction: some row of the table that
-- is published, has the same name and window and a higher version is recorded as the replacement,
-- and no other column changes, whatever columns were to be written.
pub save-WasCorrected :
    (u : UpdateFields) (table : List Playlist) (p o : Playlist)
    → get playlist_id p.id table ≡ some o
    → is_published o ≡ true
    → OnOk (WasCorrected table o) (save u p table)
unfolding save
save-WasCorrected u table p o g a =
    rw (g, save)
      (elim (Result-cases (check_save u table p o)) [
        | inl (e, bad) ↦ rw bad tt
        | inr (x, good) ↦ rw good (stored-WasCorrected u table p o g a good)
      ])

check_save_cancelled :
    (u : UpdateFields) (table : List Playlist) (p o : Playlist)
    → is_cancelled o ≡ true
    → Raises (check_save u table p o)
unfolding check_save
check_save_cancelled u table p o c = elim (Result-cases (validate_locked_version table p o)) [
  | inl (e, bad) ↦ rw bad (e, refl)
  | inr (x, good) ↦ rw (good, c) (_, refl)
]

-- A cancelled row is final: every save of it fails.
pub save-cancelled :
    (u : UpdateFields) (table : List Playlist) (p o : Playlist)
    → get playlist_id p.id table ≡ some o
    → is_cancelled o ≡ true
    → Raises (save u p table)
unfolding save
save-cancelled u table p o g c =
    let (e, bad) = check_save_cancelled u table p o c in rw (g, save, bad) (e, refl)

-- A change of the table: a save of any object, or a deletion of an object that shows the stored
-- row's status.
pub data Change (table table' : List Playlist) : Type 0 where
  saved : (u : UpdateFields) (p : Playlist) → save u p table ≡ ok table' → Change table table'
  deleted :
      (referenced : ℕ → Bool) (p : Playlist)
      → (x : Playlist) → get playlist_id p.id table ≡ some x
      → x.status ≡ p.status
      → delete referenced p table ≡ ok table'
      → Change table table'

pub data Reach (table : List Playlist) : List Playlist → Type 0 where
  here : Reach table table
  next : {t u : List Playlist} → Reach table t → Change t u → Reach table u

-- What may become of a published row: nothing, or its cancellation by a correction, which is a published
-- row of the same name and window with a higher version.
abbrev pub Stands : ℕ → Playlist → List Playlist → Type 0
Stands k o table =
    (get playlist_id k table ≡ some o)
    ⊎ ((r : Playlist) × Corrects o r × (get playlist_id k table ≡ some (cancelled_by r.id o)))

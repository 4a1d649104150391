-- ===== src/Playlists/Lifecycle.antt =====
-- The life of a playlist version under `Playlist.save` and `delete` (backend/signage/models.py).
use digital_signage_project.Base.{
  ℕ, ◌<◌, ◌≡◌, refl, Bool, true, false, Option, none, some, List, bool_eq, get, ok, arith, eq_iff,
  opt_eq_iff, Option-cases, inl, inr,
}
use digital_signage_project.Models.{Playlist, PlaylistStatus, playlist_status_eq, playlist_id}
use digital_signage_project.Playlists.{
  is_published, is_cancelled, locked_fields_changed, is_replacement, validate_replacement,
  validate_locked_version, Column, UpdateFields, writes, written, check_save,
}

-- The columns that publication fixes.
pub record SameVersion (p q : Playlist) : Type 0 where
  pub name : q.name ≡ p.name
  pub version : q.version ≡ p.version
  pub starts_at : q.starts_at ≡ p.starts_at
  pub ends_at : q.ends_at ≡ p.ends_at
  pub published_at : q.published_at ≡ p.published_at
  pub is_urgent : q.is_urgent ≡ p.is_urgent
  pub created_by : q.created_by ≡ p.created_by

bool_eq_lem : (a b : Bool) → bool_eq a b ≡ true → b ≡ a
bool_eq_lem true true h = refl
bool_eq_lem true false h = cc
bool_eq_lem false true h = cc
bool_eq_lem false false h = refl

pub locked_fields-SameVersion :
    (p q : Playlist) → locked_fields_changed p q ≡ false → SameVersion p q
unfolding locked_fields_changed
locked_fields-SameVersion p q h = ground (
  arith,
  eq_iff p.name q.name,
  opt_eq_iff p.published_at q.published_at,
  bool_eq_lem p.is_urgent q.is_urgent,
)

-- A correction of `original`: a published row of the same name and window with a higher version.
pub record Corrects (original r : Playlist) : Type 0 where
  pub published : r.status ≡ PlaylistStatus.published
  pub name : r.name ≡ original.name
  pub newer : original.version < r.version
  pub starts_at : r.starts_at ≡ original.starts_at
  pub ends_at : r.ends_at ≡ original.ends_at

published_lem :
    (s : PlaylistStatus)
    → playlist_status_eq s PlaylistStatus.published ≡ true
    → s ≡ PlaylistStatus.published
published_lem s h = ground arith

is_replacement-Corrects :
    (original r : Playlist) → is_replacement original r ≡ true → Corrects original r
unfolding is_replacement
is_replacement-Corrects original r h =
    ground (arith, eq_iff r.name original.name, published_lem r.status)

pub validate_replacement_lem :
    (table : List Playlist) (o : Playlist) (s : Option ℕ) (x : Unit {0})
    → validate_replacement table o s ≡ ok x
    → (k : ℕ) × (r : Playlist) × (s ≡ some k) × (get playlist_id k table ≡ some r) × Corrects o r
unfolding validate_replacement
validate_replacement_lem table o none x h = absurd (cc)
validate_replacement_lem table o (some k) x h = elim (Option-cases (get playlist_id k table)) [
  | inl e ↦ absurd (ground arith)
  | inr (r, e) ↦ (k, r, refl, e, is_replacement-Corrects o r (ground arith))
]

pub validate_locked_version_published :
    (table : List Playlist) (p o : Playlist) (x : Unit {0})
    → is_published o ≡ true
    → is_published p ≡ false
    → validate_locked_version table p o ≡ ok x
    → (locked_fields_changed o p ≡ false)
      × (is_cancelled p ≡ true)
      × (validate_replacement table o p.superseded_by ≡ ok x)
unfolding validate_locked_version
validate_locked_version_published table p o x a b h = ground arith

abbrev pub cancelled_by : ℕ → Playlist → Playlist
cancelled_by k o = record o { status = PlaylistStatus.cancelled; superseded_by = some k }

pub written-cancelled :
    (u : UpdateFields) (p o : Playlist) (k : ℕ)
    → SameVersion o p
    → is_cancelled p ≡ true
    → p.superseded_by ≡ some k
    → writes u Column.status ≡ true
    → writes u Column.superseded_by ≡ true
    → written u p o ≡ cancelled_by k o
unfolding written
written-cancelled u p o k s c e a b = ground arith

-- What a successful save makes of a published row `o`: it is cancelled by a correction that stood in
-- the table, and nothing else of it changes.
abbrev pub WasCorrected : List Playlist → Playlist → List Playlist → Type 0
WasCorrected table o table' =
    (k : ℕ) × (r : Playlist) × (get playlist_id k table ≡ some r)
    × Corrects o r
    × (get playlist_id o.id table' ≡ some (cancelled_by k o))

pub check_save_published :
    (u : UpdateFields) (table : List Playlist) (p o : Playlist) (x : Unit {0})
    → is_published o ≡ true
    → check_save u table p o ≡ ok x
    → (is_published p ≡ false)
      × (validate_locked_version table p o ≡ ok tt)
      × ((is_cancelled p ≡ true)
          → (writes u Column.status ≡ true) × (writes u Column.superseded_by ≡ true))
unfolding check_save
check_save_published none table p o x a h = ground arith
check_save_published (some u) table p o x a h = ground arith

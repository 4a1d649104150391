-- ===== src/Media/Deletion/Outbox.antt =====
-- What `process_media_deletion` (backend/signage/services.py) leaves in the tables and the storage.
use digital_signage_project.Base.{
  ℕ, ◌+◌, ◌≡◌, ◌≢◌, refl, String, Bool, true, false, ◌&&◌, none, some, List, [], ◌∷◌, ◌==◌,
  if◌then◌else◌, str_eq, eq_iff, is_none, update, get, put, Result, ok, err, Error, arith,
  Option-cases, Bool-cases, inl, inr, get-put_self, get-key, get-update, sym, subst, ap, length,
}
use digital_signage_project.Models.{MediaAsset, MediaDeletion, asset_id, deletion_id}
use digital_signage_project.Media.Deletion.{
  Files, open_deletion, attempted, cleared, completed, delete_named, delete_files, record_failure,
  complete, process_media_deletion,
}

open_deletion_lem :
    (k : ℕ) (d : MediaDeletion) (deletions : List MediaDeletion)
    → open_deletion k deletions ≡ some d
    → (d.id ≡ k) × (get deletion_id k deletions ≡ some d) × (d.completed_at ≡ none)
unfolding open_deletion
open_deletion_lem k d deletions e = elim (Option-cases (get deletion_id k deletions)) [
  | inl n ↦ absurd (ground arith)
  | inr (c, g) ↦
      let i = get-key deletion_id k deletions g in
      let j : c ≡ d = ground arith in (ground arith, ground arith, ground arith)
]

-- A row that is saved under the key of an entry is found under it.
get-put_entry :
    (k : ℕ) (d x : MediaDeletion) (deletions : List MediaDeletion)
    → get deletion_id k deletions ≡ some d
    → x.id ≡ k
    → get deletion_id k (put deletion_id x deletions) ≡ some x
get-put_entry k d x deletions g e =
    subst (λ j. get deletion_id j (put deletion_id x deletions) ≡ some x) e
      (get-put_self deletion_id x deletions
        (subst (λ j. get deletion_id j deletions ≡ some d) (sym e) g))

open_deletion-put :
    (now k : ℕ) (d : MediaDeletion) (deletions : List MediaDeletion)
    → open_deletion k deletions ≡ some d
    → (get deletion_id k (put deletion_id (attempted now d) deletions) ≡ some (attempted now d))
      × (open_deletion k (put deletion_id (attempted now d) deletions) ≡ some (attempted now d))
unfolding open_deletion
open_deletion-put now k d deletions e =
    let (i, g, n) = open_deletion_lem k d deletions e in
    let h = get-put_entry k d (attempted now d) deletions g i in (h, rw (h, open_deletion, n))

get-update_entry :
    (k : ℕ) (p : MediaDeletion → Bool) (f : MediaDeletion → MediaDeletion) (d : MediaDeletion)
    (deletions : List MediaDeletion)
    → ((x : MediaDeletion) → (f x).id ≡ x.id)
    → get deletion_id k deletions ≡ some d
    → p d ≡ true
    → get deletion_id k (update p f deletions) ≡ some (f d)
get-update_entry k p f d deletions i h e = get-update deletion_id k p f deletions i h e

differs : {x y : String} → x ≢ y → str_eq x y ≡ false
differs {x} {y} n = elim (Bool-cases (str_eq x y)) [
  | inl e ↦ absurd (n ((eq_iff x y).0 e))
  | inr e ↦ e
]

cleared_equal : (x y : String) → x ≡ y → (if str_eq x y then "" else x) ≡ ""
cleared_equal x y h = rw ((eq_iff x y).1 h) refl

cleared_other : (x y : String) → x ≢ y → (if str_eq x y then "" else x) ≡ x
cleared_other x y n = rw (differs n) refl

-- What a run leaves that has deleted the files of the entry `d` of asset `a`: `v` is the storage.
pub record IsCompleted {Store : Type 0} (k later attempts : ℕ) (d : MediaDeletion) (a : MediaAsset)
    (v : Store) (r : Bool × Files Store) : Type 0 where
  pub done : r.0 ≡ true
  pub store : (r.1).store ≡ v
  pub entry : MediaDeletion
  pub stored : get deletion_id k (r.1).deletions ≡ some entry
  pub completed_at : entry.completed_at ≡ some later
  pub last_error : entry.last_error ≡ ""
  pub counted : entry.attempts ≡ attempts
  pub asset : MediaAsset
  pub found : get asset_id a.id (r.1).assets ≡ some asset
  pub no_source : a.source_file ≡ d.source_name → asset.source_file ≡ ""
  pub no_normalized : a.normalized_file ≡ d.normalized_name → asset.normalized_file ≡ ""
  pub other_source : a.source_file ≢ d.source_name → asset.source_file ≡ a.source_file
  pub other_normalized :
      a.normalized_file ≢ d.normalized_name → asset.normalized_file ≡ a.normalized_file
  pub same_status : asset.status ≡ a.status

-- What a run leaves whose deletions have ended with an error of this text.
pub record IsKept {Store : Type 0} (k attempts : ℕ) (message : String) (d : MediaDeletion)
    (s : Files Store) (w : Store) (r : Bool × Files Store) : Type 0 where
  pub failed : r.0 ≡ false
  pub store : (r.1).store ≡ w
  pub entry : MediaDeletion
  pub still_open : open_deletion k (r.1).deletions ≡ some entry
  pub last_error : entry.last_error ≡ message
  pub counted : entry.attempts ≡ attempts
  pub same_names : (entry.source_name ≡ d.source_name) × (entry.normalized_name ≡ d.normalized_name)
  pub same_asset : entry.asset ≡ d.asset
  pub assets : (r.1).assets ≡ s.assets

module _ {Store : Type 0} (delete : String → Store → Result Store) (text : Error → String) where
  -- Both files are deleted, one after the other.
  pub record Deleted (d : MediaDeletion) (u v : Store) : Type 0 where
    pub between : Store
    pub source : delete_named delete text d.source_name u ≡ ok between
    pub normalized : delete_named delete text d.normalized_name between ≡ ok v

  -- The first or the second deletion fails with the error.
  pub data Failed (d : MediaDeletion) (u w : Store) (x : Error) : Type 0 where
    at_source : delete_named delete text d.source_name u ≡ err x → w ≡ u → Failed d u w x
    at_normalized :
        delete_named delete text d.source_name u ≡ ok w
        → delete_named delete text d.normalized_name w ≡ err x
        → Failed d u w x

  delete_files-Deleted :
      (now : ℕ) (d : MediaDeletion) (u v : Store)
      → Deleted d u v
      → delete_files delete text (attempted now d) u ≡ (v, none)
  unfolding delete_files
  delete_files-Deleted now d u v h = rw (delete_files, h.source, h.normalized) refl

  delete_files-Failed :
      (now : ℕ) (d : MediaDeletion) (u w : Store) (x : Error)
      → Failed d u w x
      → delete_files delete text (attempted now d) u ≡ (w, some x)
  unfolding delete_files
  delete_files-Failed now d u w x (at_source e p) = rw (delete_files, e, p) refl
  delete_files-Failed now d u w x (at_normalized e f) = rw (delete_files, e, f) refl

  completes :
      (now later k : ℕ) (s : Files Store) (d : MediaDeletion) (a : MediaAsset) (v : Store)
      → open_deletion k s.deletions ≡ some d
      → get asset_id d.asset s.assets ≡ some a
      → Deleted d s.store v
      → IsCompleted k later
          (d.attempts + 1)
          d
          a
          v
          (process_media_deletion delete text (λ x. x) now later k s)
  unfolding process_media_deletion complete cleared
  completes now later k s d a v e g h =
      let f = delete_files-Deleted now d s.store v h in
      let (i, _, n) = open_deletion_lem k d s.deletions e in
      let (p, q) = open_deletion-put now k d s.deletions e in
      let ga =
        subst (λ j. get asset_id j s.assets ≡ some a) (sym (get-key asset_id d.asset s.assets g))
          g in
      rw (e, process_media_deletion, f, q, complete, g)
        (record {
          done = refl;
          store = ap (λ z. z.0) f;
          entry = completed later (attempted now d);
          stored = get-put_entry k (attempted now d) (completed later (attempted now d)) _ p i;
          completed_at = refl;
          last_error = refl;
          counted = refl;
          asset = cleared (attempted now d) a;
          found = get-put_self asset_id (cleared (attempted now d) a) s.assets ga;
          no_source = cleared_equal a.source_file d.source_name;
          no_normalized = cleared_equal a.normalized_file d.normalized_name;
          other_source = cleared_other a.source_file d.source_name;
          other_normalized = cleared_other a.normalized_file d.normalized_name;
          same_status = refl;
        })

  Failed-run :
      (now later k : ℕ) (s : Files Store) (d : MediaDeletion) (w : Store) (x : Error)
      → open_deletion k s.deletions ≡ some d
      → Failed d s.store w x
      → let r = process_media_deletion delete text (λ x. x) now later k s in
        (r.0 ≡ false)
        × ((r.1).store ≡ w)
        × ((r.1).assets ≡ s.assets)
        × (open_deletion k (r.1).deletions
            ≡ some (record (attempted now d) { last_error = text x }))
  unfolding process_media_deletion record_failure open_deletion delete_files
  Failed-run now later k s d w x e h =
      let f = delete_files-Failed now d s.store w x h in
      let (i, _, n) = open_deletion_lem k d s.deletions e in
      let (p, q) = open_deletion-put now k d s.deletions e in
      let u =
        get-update_entry k (λ (z : MediaDeletion). z.id == k && is_none z.completed_at)
          (λ (z : MediaDeletion). record z { last_error = text x }) (attempted now d)
          (put deletion_id (attempted now d) s.deletions) (λ z. refl) p (ground arith) in
      rw (e, process_media_deletion, f, u, open_deletion, n) (refl, ap (λ z. z.0) f, refl, refl)

  -- The tables after runs at the given times while the storage refuses every deletion.
  abbrev pub after_outage : Error → ℕ → List ℕ → Files Store → Files Store
  after_outage x k [] s = s
  after_outage x k (t ∷ ts) s =
      after_outage x k ts (process_media_deletion (λ name store. err x) text (λ x. x) t t k s).1

module _ {Store : Type 0} (delete : String → Store → Result Store) (text : Error → String) where
  -- However often the storage has refused the deletions of an entry with a source file, the first run
  -- after that whose deletions succeed completes the entry: every run is counted as an attempt, and the
  -- fields of the asset that name the deleted files are empty.
  pub process_media_deletion_recovers :
      (x : Error) (times : List ℕ) (now later k : ℕ) (s : Files Store) (d : MediaDeletion)
      (a : MediaAsset) (v : Store)
      → open_deletion k s.deletions ≡ some d
      → get asset_id d.asset s.assets ≡ some a
      → d.source_name ≢ ""
      → Deleted delete text d s.store v
      → IsCompleted k later (d.attempts + length times + 1) d a v (
          process_media_deletion delete text
            (λ x. x)
            now
            later
            k
            (after_outage delete text x k times s))
  unfolding delete_named
  process_media_deletion_recovers x [] now later k s d a v e g n h =
      let z : d.attempts + 1 ≡ d.attempts + length {A = ℕ} [] + 1 = omega arith in
      subst
        (λ m.
          IsCompleted k later m d a v (process_media_deletion delete text (λ x. x) now later k s))
        z (completes delete text now later k s d a v e g h)
  process_media_deletion_recovers x (t ∷ ts) now later k s d a v e g n h =
      let outage : String → Store → Result Store = λ name store. err x in
      let refused : delete_named outage text d.source_name s.store ≡ err x =
        rw (delete_named, differs n) refl in
      let (_, c, f, o) = Failed-run outage text t t k s d s.store x e (at_source refused refl) in
      let u = (process_media_deletion outage text (λ x. x) t t k s).1 in
      let d' = record (attempted t d) { last_error = text x } in
      let h' : Deleted delete text d' u.store v =
        rw c (record { between = h.between; source = h.source; normalized = h.normalized }) in
      let r = process_media_deletion_recovers x ts now later k u d' a v o (rw f g) n h' in
      let z : d'.attempts + length ts + 1 ≡ d.attempts + length (t ∷ ts) + 1 = omega arith in
      let q =
        process_media_deletion delete text (λ x. x) now later k
          (after_outage delete text x k ts u) in
      subst (λ m. IsCompleted k later m d a v q) z
        (record {
          done = r.done;
          store = r.store;
          entry = r.entry;
          stored = r.stored;
          completed_at = r.completed_at;
          last_error = r.last_error;
          counted = r.counted;
          asset = r.asset;
          found = r.found;
          no_source = r.no_source;
          no_normalized = r.no_normalized;
          other_source = r.other_source;
          other_normalized = r.other_normalized;
          same_status = r.same_status;
        })

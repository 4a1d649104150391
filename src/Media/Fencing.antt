-- ===== src/Media/Fencing.antt =====
-- Fencing of workers: an attempt that has lost its row cannot write a result
-- (backend/signage/services.py, `_finalize_media_processing`).
use digital_signage_project.Base.{
  ℕ, ◌≡◌, ◌≢◌, ◌⊎◌, inl, inr, String, true, false, some, List, [], ◌∷◌, mem, arith, get, ok, subst,
  ◌∙◌, opt_eq_iff,
}
use digital_signage_project.Models.{MediaAsset, MediaStatus, asset_id}
use digital_signage_project.Media.{
  has_status, begin_attempt, lease_running, is_claimable, release, finalized, holds_token, archive,
  finalize,
}

-- One row, and the tokens that have been drawn for it.
pub record Row : Type 0 where
  pub asset : MediaAsset
  pub drawn : List ℕ

-- The transactions on a row, in any order and by any process: `start` and `claim` draw a fresh
-- token; `other` stands for the rest of the code, which leaves the attempt alone.
pub data Step (lease : ℕ) (s : Row) : Row → Type 0 where
  claim :
      (now token : ℕ)
      → mem token s.drawn ≡ false
      → is_claimable now s.asset ≡ true
      → Step lease s
          (record { asset = begin_attempt lease now token s.asset; drawn = token ∷ s.drawn })
  recover :
      (now : ℕ)
      → has_status MediaStatus.processing s.asset ≡ true
      → lease_running now s.asset ≡ false
      → Step lease s (record s { asset = release s.asset })
  finish :
      (now token : ℕ) (a : MediaAsset) (staged_name : String)
      → holds_token token s.asset ≡ true
      → Step lease s (record s { asset = finalized now a staged_name s.asset })
  discard : (now : ℕ) → Step lease s (record s { asset = archive now s.asset })
  other :
      (a : MediaAsset)
      → a.processing_token ≡ s.asset.processing_token
      → a.processing_attempts ≡ s.asset.processing_attempts
      → Step lease s (record s { asset = a })

pub data Steps (lease : ℕ) (s : Row) : Row → Type 0 where
  here : Steps lease s s
  next : {t u : Row} → Steps lease s t → Step lease t u → Steps lease s u

-- The attempt `n` holds the row by its token.
pub record Holds (token n : ℕ) (s : Row) : Type 0 where
  pub current : s.asset.processing_token ≡ some token
  pub attempt : s.asset.processing_attempts ≡ n
  pub known : mem token s.drawn ≡ true

-- The row has passed on.
pub record Lost (token : ℕ) (s : Row) : Type 0 where
  pub replaced : s.asset.processing_token ≢ some token
  pub known : mem token s.drawn ≡ true

fresh_ne :
    (k token : ℕ) (drawn : List ℕ) → mem k drawn ≡ false → mem token drawn ≡ true → (k ≡ token) → ⊥
fresh_ne k token drawn f m e = cc (subst (λ j. mem j drawn ≡ false) e f, m)

Step-Lost : {lease token : ℕ} {s t : Row} → Step lease s t → Lost token s → Lost token t
unfolding begin_attempt release finalized archive
Step-Lost {token = j} {s} (claim now k f c) l = record {
  replaced = λ e. fresh_ne k j s.drawn f l.known (ground arith);
  known = ground arith;
}
Step-Lost (recover now p r) l = record { replaced = λ e. absurd (cc); known = l.known }
Step-Lost (finish now k a n h) l = record { replaced = λ e. absurd (cc); known = l.known }
Step-Lost (discard now) l = record { replaced = λ e. absurd (cc); known = l.known }
Step-Lost (other a p q) l = record { replaced = λ e. l.replaced (ground arith); known = l.known }

Step-Holds :
    {lease token n : ℕ} {s t : Row}
    → Step lease s t
    → Holds token n s
    → Holds token n t ⊎ Lost token t
unfolding begin_attempt release finalized archive
Step-Holds {token = j} {s = s} (claim now k f c) h =
    inr (record {
      replaced = λ e. fresh_ne k j s.drawn f h.known (ground arith);
      known = ground arith;
    })
Step-Holds (recover now p r) h = inr (record { replaced = λ e. absurd (cc); known = h.known })
Step-Holds (finish now k a n i) h = inr (record { replaced = λ e. absurd (cc); known = h.known })
Step-Holds (discard now) h = inr (record { replaced = λ e. absurd (cc); known = h.known })
Step-Holds (other a p q) h =
    inl (record { current = p ∙ h.current; attempt = q ∙ h.attempt; known = h.known })

Steps-Holds :
    {lease token n : ℕ} {s t : Row}
    → Holds token n s
    → Steps lease s t
    → Holds token n t ⊎ Lost token t
Steps-Holds h here = inl h
Steps-Holds h (next r st) = elim (Steps-Holds h r) [
  | inl k ↦ Step-Holds st k
  | inr l ↦ inr (Step-Lost st l)
]

-- Once the row has been claimed again, released, finished or discarded, the token is lost for good.
pub Steps-Lost : {lease token : ℕ} {s t : Row} → Lost token s → Steps lease s t → Lost token t
Steps-Lost l here = l
Steps-Lost l (next r st) = Step-Lost st (Steps-Lost l r)

finalize_lost :
    (now : ℕ) (a locked : MediaAsset) (token : ℕ) (staged_name : String) (table : List MediaAsset)
    → get asset_id a.id table ≡ some locked
    → locked.processing_token ≢ some token
    → finalize now a token staged_name table ≡ ok (false, table, [])
unfolding finalize
finalize_lost now a locked token staged_name table g n =
    rw (g, finalize) (ground (arith, opt_eq_iff locked.processing_token (some token)))

-- A worker's result is written only by the attempt that it belongs to: after the worker has begun
-- its attempt, let any transactions follow. If it then writes a result, the row still shows the same
-- token and the same number of attempts; else the call leaves the table and the files as they are.
pub finalize_fenced :
    (lease token n now : ℕ) (s t : Row) (a : MediaAsset) (staged_name : String)
    (table : List MediaAsset)
    → Holds token n s
    → Steps lease s t
    → get asset_id a.id table ≡ some t.asset
    → ((t.asset.processing_token ≡ some token) × (t.asset.processing_attempts ≡ n))
      ⊎ (finalize now a token staged_name table ≡ ok (false, table, []))
finalize_fenced lease token n now s t a staged_name table h r g = elim (Steps-Holds h r) [
  | inl k ↦ inl (k.current, k.attempt)
  | inr l ↦ inr (finalize_lost now a t.asset token staged_name table g l.replaced)
]

finish-Lost :
    (now token : ℕ) (a locked : MediaAsset) (staged_name : String) (drawn : List ℕ)
    → mem token drawn ≡ true
    → Lost token (record { asset = finalized now a staged_name locked; drawn = drawn })
unfolding finalized
finish-Lost now token a locked staged_name drawn k = record {
  replaced = λ e. absurd (cc);
  known = k;
}

-- A token writes at most one result: after the row has been finished, every later call with the
-- token, whatever transactions come in between, leaves the table as it is.
pub finalize_once :
    (lease token now later : ℕ) (locked : MediaAsset) (drawn : List ℕ) (t : Row) (a b : MediaAsset)
    (staged_name other_name : String) (table : List MediaAsset)
    → mem token drawn ≡ true
    → Steps lease (record { asset = finalized now a staged_name locked; drawn = drawn }) t
    → get asset_id b.id table ≡ some t.asset
    → finalize later b token other_name table ≡ ok (false, table, [])
finalize_once lease token now later locked drawn t a b staged_name other_name table k r g =
    let l = Steps-Lost (finish-Lost now token a locked staged_name drawn k) r in
    finalize_lost later b t.asset token other_name table g l.replaced

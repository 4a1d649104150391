-- ===== src/Schedule/Effective.antt =====
-- What `active_playlist` (backend/signage/services.py) selects.
use digital_signage_project.Base.{
  ℕ, ◌≡◌, ◌≤◌, ◌<◌, ◌↔◌, refl, sym, ◌∙◌, inl, inr, Bool, true, false, Option, none, some, List,
  arith, In, Option-cases, opt_eq, opt_eq_iff,
}
use digital_signage_project.Models.{Playlist, PlaylistStatus, playlist_status_eq}
use digital_signage_project.Schedule.{
  is_live, is_urgent_live, is_fallback, published_by, desc, published_desc, schedule_desc,
  urgent_playlist, scheduled_playlist, fallback_playlist, active_playlist,
}
use digital_signage_project.Schedule.Query.{
  published_desc-IsOrder, schedule_desc-IsOrder, NoneFits, IsFirst, query-IsFirst, query_none,
}

-- An urgent version in its window whose publication has passed.
pub record IsUrgentNow (now : ℕ) (p : Playlist) : Type 0 where
  pub published : p.status ≡ PlaylistStatus.published
  pub urgent : p.is_urgent ≡ true
  pub published_at : (t : ℕ) × (p.published_at ≡ some t) × (t ≤ now)
  pub started : p.starts_at ≤ now
  pub not_ended : now < p.ends_at

-- A version in its window.
pub record IsInWindow (now : ℕ) (p : Playlist) : Type 0 where
  pub published : p.status ≡ PlaylistStatus.published
  pub started : p.starts_at ≤ now
  pub not_ended : now < p.ends_at

-- A version that has started and whose publication has passed.
pub record HasBegun (now : ℕ) (p : Playlist) : Type 0 where
  pub published : p.status ≡ PlaylistStatus.published
  pub published_at : (t : ℕ) × (p.published_at ≡ some t) × (t ≤ now)
  pub started : p.starts_at ≤ now

pub published_iff :
    (s : PlaylistStatus)
    → playlist_status_eq s PlaylistStatus.published ≡ true ↔ s ≡ PlaylistStatus.published
published_iff PlaylistStatus.draft = (λ h. absurd (cc), λ h. absurd (cc))
published_iff PlaylistStatus.published = (λ h. refl, λ h. refl)
published_iff PlaylistStatus.archived = (λ h. absurd (cc), λ h. absurd (cc))
published_iff PlaylistStatus.cancelled = (λ h. absurd (cc), λ h. absurd (cc))

published_by_lem :
    (now : ℕ) (p : Playlist)
    → published_by now p ≡ true
    → (t : ℕ) × (p.published_at ≡ some t) × (t ≤ now)
published_by_lem now p h = elim (Option-cases p.published_at) [
  | inl e ↦ absurd (let z = rw e at h in cc)
  | inr (t, e) ↦ (t, e, let z = rw e at h in ground arith)
]

published_by_intro :
    (now t : ℕ) (p : Playlist) → p.published_at ≡ some t → t ≤ now → published_by now p ≡ true
published_by_intro now t p e l = rw e (ground arith)

IsUrgentNow-of : (now : ℕ) (p : Playlist) → is_urgent_live now p ≡ true → IsUrgentNow now p
IsUrgentNow-of now p h = record {
  published = (published_iff p.status).0 (ground arith);
  urgent = ground arith;
  published_at = published_by_lem now p (ground arith);
  started = ground arith;
  not_ended = ground arith;
}

is_urgent_live-true : (now : ℕ) (p : Playlist) → IsUrgentNow now p → is_urgent_live now p ≡ true
is_urgent_live-true now p v =
    let a = (published_iff p.status).1 v.published in
    let b = published_by_intro now v.published_at.0 p v.published_at.1 v.published_at.2 in
    let u = v.urgent in let x = v.started in let y = v.not_ended in rw (a, u, b) (ground arith)

IsInWindow-of : (now : ℕ) (p : Playlist) → is_live now p ≡ true → IsInWindow now p
IsInWindow-of now p h = record {
  published = (published_iff p.status).0 (ground arith);
  started = ground arith;
  not_ended = ground arith;
}

is_live-true : (now : ℕ) (p : Playlist) → IsInWindow now p → is_live now p ≡ true
is_live-true now p v =
    let a = (published_iff p.status).1 v.published in
    let x = v.started in let y = v.not_ended in rw a (ground arith)

HasBegun-of : (now : ℕ) (p : Playlist) → is_fallback now p ≡ true → HasBegun now p
HasBegun-of now p h = record {
  published = (published_iff p.status).0 (ground arith);
  published_at = published_by_lem now p (ground arith);
  started = ground arith;
}

is_fallback-true : (now : ℕ) (p : Playlist) → HasBegun now p → is_fallback now p ≡ true
is_fallback-true now p v =
    let a = (published_iff p.status).1 v.published in
    let b = published_by_intro now v.published_at.0 p v.published_at.1 v.published_at.2 in
    let x = v.started in rw (a, b) (ground arith)

-- No row of the table is one.
abbrev pub NoRow : (Playlist → Type 0) → List Playlist → Type 0
NoRow P table = (q : Playlist) → In q table → ¬ P q

-- `a` is not the later of two times of publication, where none is the latest.
abbrev pub NotLater : Option ℕ → Option ℕ → Type 0
NotLater a none = Unit {0}
NotLater none (some u) = ⊥
NotLater (some t) (some u) = t ≤ u

-- The row of the table that was published last, of those that satisfy `P`.
pub record IsLastPublished (P : Playlist → Type 0) (table : List Playlist) (w : Playlist)
    : Type 0 where
  pub stored : In w table
  pub fits : P w
  pub last : (q : Playlist) → In q table → P q → NotLater q.published_at w.published_at

-- The row in its window that starts last, of those the one published last, of those the one with the
-- highest key.
pub record IsScheduled (now : ℕ) (table : List Playlist) (w : Playlist) : Type 0 where
  pub stored : In w table
  pub fits : IsInWindow now w
  pub latest : (q : Playlist) → In q table → IsInWindow now q → q.starts_at ≤ w.starts_at
  pub last :
      (q : Playlist)
      → In q table
      → IsInWindow now q
      → q.starts_at ≡ w.starts_at
      → NotLater q.published_at w.published_at
  pub highest :
      (q : Playlist)
      → In q table
      → IsInWindow now q
      → q.starts_at ≡ w.starts_at
      → q.published_at ≡ w.published_at
      → q.id ≤ w.id

desc-NotLater : (a b : Option ℕ) → desc a b ≡ false → NotLater a b
desc-NotLater a none h = tt
desc-NotLater none (some u) h = absurd (cc)
desc-NotLater (some t) (some u) h = ground arith

pub NoRow-of :
    (p : Playlist → Bool) (P : Playlist → Type 0) (table : List Playlist)
    → ((q : Playlist) → P q → p q ≡ true)
    → NoneFits p table
    → NoRow P table
NoRow-of p P table f h q i v =
    let z = h q i in let y = f q v in let x : true ≡ false = sym y ∙ z in cc

IsLastPublished-of :
    (p : Playlist → Bool) (P : Playlist → Type 0) (table : List Playlist) (w : Playlist)
    → ((q : Playlist) → p q ≡ true → P q)
    → ((q : Playlist) → P q → p q ≡ true)
    → IsFirst published_desc p table w
    → IsLastPublished P table w
IsLastPublished-of p P table w f g v = record {
  stored = v.stored;
  fits = f w v.fits;
  last = λ q i x. desc-NotLater q.published_at w.published_at (v.first q i (g q x));
}

schedule_desc-false :
    (q w : Playlist)
    → schedule_desc q w ≡ false
    → (q.starts_at ≤ w.starts_at)
      × (q.starts_at ≡ w.starts_at → desc q.published_at w.published_at ≡ false)
      × (q.starts_at ≡ w.starts_at → opt_eq q.published_at w.published_at ≡ true → q.id ≤ w.id)
schedule_desc-false q w h = ground arith

IsScheduled-of :
    (now : ℕ) (table : List Playlist) (w : Playlist)
    → IsFirst schedule_desc (is_live now) table w
    → IsScheduled now table w
IsScheduled-of now table w v =
    let parts : (q : Playlist) → In q table → IsInWindow now q → _ =
      λ q i x. schedule_desc-false q w (v.first q i (is_live-true now q x)) in
    record {
      stored = v.stored;
      fits = IsInWindow-of now w v.fits;
      latest = λ q i x. (parts q i x).0;
      last = λ q i x e. desc-NotLater q.published_at w.published_at ((parts q i x).1 e);
      highest = λ q i x e f. (parts q i x).2 e ((opt_eq_iff q.published_at w.published_at).1 f);
    }

-- The rule of selection: the urgent playlist in its window that was published last; else the
-- playlist in its window that starts last, of those the one published last, of those the one with
-- the highest key; else, of those that have started, the one published last; else none.
pub data IsEffective (now : ℕ) (table : List Playlist) : Option Playlist → Type 0 where
  urgent :
      {w : Playlist} → IsLastPublished (IsUrgentNow now) table w → IsEffective now table (some w)
  scheduled :
      {w : Playlist}
      → NoRow (IsUrgentNow now) table
      → IsScheduled now table w
      → IsEffective now table (some w)
  continued :
      {w : Playlist}
      → NoRow (IsUrgentNow now) table
      → NoRow (IsInWindow now) table
      → IsLastPublished (HasBegun now) table w
      → IsEffective now table (some w)
  nothing :
      NoRow (IsUrgentNow now) table
      → NoRow (IsInWindow now) table
      → NoRow (HasBegun now) table
      → IsEffective now table none

-- `active_playlist` follows the rule of selection.
pub active_playlist-IsEffective :
    (now : ℕ) (table : List Playlist) → IsEffective now table (active_playlist now table)
unfolding active_playlist urgent_playlist scheduled_playlist fallback_playlist
active_playlist-IsEffective now table =
    let no_urgent : urgent_playlist now table ≡ none → NoRow (IsUrgentNow now) table = λ e.
      NoRow-of (is_urgent_live now) (IsUrgentNow now) table (is_urgent_live-true now)
        (query_none published_desc _ table e) in
    let no_live : scheduled_playlist now table ≡ none → NoRow (IsInWindow now) table = λ e.
      NoRow-of (is_live now) (IsInWindow now) table (is_live-true now)
        (query_none schedule_desc _ table e) in
    elim (Option-cases (urgent_playlist now table)) [
      | inr (u, e) ↦ rw e (
          urgent (
            IsLastPublished-of (is_urgent_live now) (IsUrgentNow now) table u (IsUrgentNow-of now)
              (is_urgent_live-true now)
              (query-IsFirst published_desc published_desc-IsOrder _ table e)))
      | inl e ↦ elim (Option-cases (scheduled_playlist now table)) [
        | inr (s, f) ↦
            rw (e, f)
              (scheduled (no_urgent e) (
                IsScheduled-of now table s
                  (query-IsFirst schedule_desc schedule_desc-IsOrder _ table f)))
        | inl f ↦ elim (Option-cases (fallback_playlist now table)) [
          | inr (c, g) ↦
              rw (e, f, g)
                (continued (no_urgent e) (no_live f) (
                  IsLastPublished-of (is_fallback now) (HasBegun now) table c (HasBegun-of now)
                    (is_fallback-true now)
                    (query-IsFirst published_desc published_desc-IsOrder _ table g)))
          | inl g ↦
              rw (e, f, g)
                (nothing (no_urgent e) (no_live f) (
                  NoRow-of (is_fallback now) (HasBegun now) table (is_fallback-true now)
                    (query_none published_desc _ table g)))
        ]
      ]
    ]

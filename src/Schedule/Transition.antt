-- ===== src/Schedule/Transition.antt =====
-- `next_playlist_transition_at` (backend/signage/services.py): until then the effective playlist
-- stays the same.
use digital_signage_project.Base.{
  ℕ, ◌≤◌, ◌<◌, ◌≡◌, refl, inl, inr, Bool, true, ◌&&◌, Option, none, some, List, [], ◌∷◌, ltb,
  filter, first_by, arith, In, In-filter, In-filter_intro, In-first_by, first_by-none,
  first_by_best, Option-cases, subst, first_by-filter, filter-filter, All-of_In, All-zip, All-map,
  All, ap,
}
use digital_signage_project.Models.{Playlist}
use digital_signage_project.Playlists.{is_published}
use digital_signage_project.Schedule.{
  published_by, is_live, is_urgent_live, is_fallback, published_desc, schedule_desc,
  urgent_playlist, scheduled_playlist, fallback_playlist, active_playlist, starts_asc, starts_after,
  next_start, current_end, earliest, next_playlist_transition_at,
}
use digital_signage_project.Schedule.Query.{
  published_desc-IsOrder, schedule_desc-IsOrder, starts_asc-IsOrder,
}

-- `t` comes before the transition, if there is one.
abbrev pub Before : ℕ → Option ℕ → Type 0
Before t none = Unit
Before t (some at) = t < at

-- A published row has been published.
abbrev pub WasPublished : ℕ → Playlist → Type 0
WasPublished now p = is_published p ≡ true → published_by now p ≡ true

-- No published row starts after `now` and up to `t`.
abbrev NoStart : ℕ → ℕ → Playlist → Type 0
NoStart now t p = starts_after now p ≡ true → t < p.starts_at

module _ (now t : ℕ) (later : now ≤ t) where
  urgent_narrows :
      (p : Playlist)
      → WasPublished now p
      → NoStart now t p
      → is_urgent_live t p ≡ (is_urgent_live now p && ltb t p.ends_at)
  urgent_narrows p w n = ground arith

  live_narrows : (p : Playlist) → NoStart now t p → is_live t p ≡ (is_live now p && ltb t p.ends_at)
  live_narrows p n = ground arith

  fallback_same :
      (p : Playlist)
      → WasPublished now p
      → NoStart now t p
      → is_fallback t p ≡ (is_fallback now p && true)
  fallback_same p w n = ground arith

NoStart-All :
    (now t : ℕ) (table : List Playlist)
    → Before t (next_start now table)
    → All (NoStart now t) table
unfolding next_start
NoStart-All now t table h = All-of_In (NoStart now t) table (λ x i s.
    elim (Option-cases (first_by starts_asc (filter (starts_after now) table))) [
      | inl e ↦ absurd (
          subst (λ l. In x l) (first_by-none starts_asc _ e)
            (In-filter_intro (starts_after now) table i s))
      | inr (p, e) ↦
          let b =
            first_by_best starts_asc starts_asc-IsOrder _ e
              (In-filter_intro (starts_after now) table i s) in
          ground arith
    ])

NoStart-later : (now now' t : ℕ) (p : Playlist) → now ≤ now' → NoStart now t p → NoStart now' t p
NoStart-later now now' t p h n s = n (ground arith)

Before-earliest : (t : ℕ) (a b : Option ℕ) → Before t (earliest a b) → Before t a × Before t b
Before-earliest t none b h = (tt, h)
Before-earliest t (some a) none h = (h, tt)
Before-earliest t (some a) (some b) h = (omega arith, omega arith)

current_end_lem :
    (now t : ℕ) (p : Playlist)
    → Before t (current_end now (some p))
    → now < p.ends_at
    → t < p.ends_at
current_end_lem now t p h e = ground arith

-- The narrowing of the three queries from `now` to `t`, where nothing starts in between.
module _ (now t : ℕ) (later : now ≤ t) (table : List Playlist)
    (published : All (WasPublished now) table) (quiet : All (NoStart now t) table) where
  abbrev lasts : Playlist → Bool
  lasts p = ltb t p.ends_at

  urgent_filter : filter (is_urgent_live t) table ≡ filter lasts (filter (is_urgent_live now) table)
  urgent_filter =
      filter-filter (is_urgent_live now) lasts (is_urgent_live t) table
        (All-zip _ _ _ table (λ p w n. urgent_narrows now t later p w n) published quiet)

  live_filter : filter (is_live t) table ≡ filter lasts (filter (is_live now) table)
  live_filter =
      filter-filter (is_live now) lasts (is_live t) table
        (All-zip _ _ _ table (λ p w n. live_narrows now t later p n) published quiet)

  fallback_filter :
      filter (is_fallback t) table ≡ filter (λ _. true) (filter (is_fallback now) table)
  fallback_filter =
      filter-filter (is_fallback now) (λ _. true) (is_fallback t) table
        (All-zip _ _ _ table (λ p w n. fallback_same now t later p w n) published quiet)

  urgent_kept :
      (u : Playlist)
      → urgent_playlist now table ≡ some u
      → t < u.ends_at
      → urgent_playlist t table ≡ some u
  unfolding urgent_playlist
  urgent_kept u e h =
      rw urgent_filter
        (first_by-filter published_desc published_desc-IsOrder lasts _ e (ground arith))

  urgent_none : urgent_playlist now table ≡ none → urgent_playlist t table ≡ none
  unfolding urgent_playlist first_by
  urgent_none e =
      rw (urgent_filter, first_by-none published_desc (filter (is_urgent_live now) table) e)

  scheduled_kept :
      (s : Playlist)
      → scheduled_playlist now table ≡ some s
      → t < s.ends_at
      → scheduled_playlist t table ≡ some s
  unfolding scheduled_playlist
  scheduled_kept s e h =
      rw live_filter (first_by-filter schedule_desc schedule_desc-IsOrder lasts _ e (ground arith))

  scheduled_none : scheduled_playlist now table ≡ none → scheduled_playlist t table ≡ none
  unfolding scheduled_playlist first_by
  scheduled_none e = rw (live_filter, first_by-none schedule_desc (filter (is_live now) table) e)

  filter-true : (l : List Playlist) → filter (λ _. true) l ≡ l
  filter-true [] = refl
  filter-true (x ∷ l) = ap (◌∷◌ x) (filter-true l)

  fallback_kept : fallback_playlist t table ≡ fallback_playlist now table
  unfolding fallback_playlist
  fallback_kept = rw (fallback_filter, filter-true)

  urgent_ends : (u : Playlist) → urgent_playlist now table ≡ some u → now < u.ends_at
  unfolding urgent_playlist
  urgent_ends u e =
      let i = (In-filter (is_urgent_live now) table (In-first_by published_desc _ e)).1 in
      ground arith

  scheduled_ends : (s : Playlist) → scheduled_playlist now table ≡ some s → now < s.ends_at
  unfolding scheduled_playlist
  scheduled_ends s e =
      let i = (In-filter (is_live now) table (In-first_by schedule_desc _ e)).1 in ground arith

-- Between two times that both readings of the clock and the announced transition enclose, the
-- effective playlist does not change, if no row is written and every published row shows a time of
-- publication that has passed.
pub active_playlist_stable :
    (now now' t : ℕ) (table : List Playlist)
    → now ≤ now'
    → now' ≤ t
    → All (WasPublished now') table
    → Before t (next_playlist_transition_at now now' table)
    → active_playlist t table ≡ active_playlist now' table
unfolding next_playlist_transition_at active_playlist
active_playlist_stable now now' t table h k w b =
    let (bs, be) =
      Before-earliest t (next_start now table) (current_end now (active_playlist now' table)) b in
    let quiet =
      All-map (NoStart now t) (NoStart now' t) table (λ p n. NoStart-later now now' t p h n)
        (NoStart-All now t table bs) in
    elim (Option-cases (urgent_playlist now' table)) [
      | inr (u, e) ↦
          let m = urgent_ends now' t k table w quiet u e in
          let f = current_end_lem now t u (subst ends {y = some u} (rw e) be) (omega arith) in
          rw (e, urgent_kept now' t k table w quiet u e f)
      | inl e ↦
          let ut = urgent_none now' t k table w quiet e in
          elim (Option-cases (scheduled_playlist now' table)) [
            | inr (s, g) ↦
                let m = scheduled_ends now' t k table w quiet s g in
                let f =
                  current_end_lem now t s (subst ends {y = some s} (rw (e, g)) be) (omega arith) in
                rw (e, g, ut, scheduled_kept now' t k table w quiet s g f)
            | inl g ↦ rw (
              e,
              g,
              ut,
              scheduled_none now' t k table w quiet g,
              fallback_kept now' t k table w quiet,
            )
          ]
    ]
  where
    ends : Option Playlist → Type 0
    ends o = Before t (current_end now o)

-- An announced transition lies ahead of the first reading of the clock.
pub next_playlist_transition_at_ahead :
    (now now' : ℕ) (table : List Playlist) (at : ℕ)
    → next_playlist_transition_at now now' table ≡ some at
    → now < at
unfolding next_playlist_transition_at next_start
next_playlist_transition_at_ahead now now' table at h =
    elim (Option-cases (first_by starts_asc (filter (starts_after now) table))) [
      | inl e ↦ ground (arith, active_playlist now' table)
      | inr (p, e) ↦
          let i = (In-filter (starts_after now) table (In-first_by starts_asc _ e)).1 in
          ground arith
    ]

-- ===== src/Schedule.antt =====
-- Which playlist is played: `active_playlist` and `next_playlist_transition_at`
-- (backend/signage/services.py).
pub mod Query
pub mod Effective
pub mod Replacement
pub mod Transition
use digital_signage_project.Base.{
  ℕ, Bool, true, false, ◌&&◌, ◌||◌, Option, none, some, List, [], ◌∷◌, map, ltb, leb, ◌==◌,
  if◌then◌else◌, filter, first_by, min, opt_eq,
}
use digital_signage_project.Models.{Playlist, PlaylistStatus, playlist_status_eq}
use digital_signage_project.Playlists.{is_published}

-- `published_at__lte=now`, which a null does not meet
abbrev pub published_by : ℕ → Playlist → Bool
published_by now p = elim p.published_at [ none ↦ false | some at ↦ leb at now ]

abbrev pub has_started : ℕ → Playlist → Bool
has_started now p = leb p.starts_at now

abbrev pub is_live : ℕ → Playlist → Bool
is_live now p = is_published p && has_started now p && ltb now p.ends_at

-- The three filters of `active_playlist`.
abbrev pub is_urgent_live : ℕ → Playlist → Bool
is_urgent_live now p =
    is_published p && p.is_urgent && published_by now p && has_started now p && ltb now p.ends_at

abbrev pub is_fallback : ℕ → Playlist → Bool
is_fallback now p = is_published p && published_by now p && has_started now p

-- `-published_at`: a null comes first, as PostgreSQL orders descending.
abbrev pub desc : Option ℕ → Option ℕ → Bool
desc none none = false
desc none (some b) = true
desc (some a) none = false
desc (some a) (some b) = ltb b a

abbrev pub published_desc : Playlist → Playlist → Bool
published_desc p q = desc p.published_at q.published_at

-- `-starts_at, -published_at, -id`
abbrev pub schedule_desc : Playlist → Playlist → Bool
schedule_desc p q =
    ltb q.starts_at p.starts_at
    || (p.starts_at == q.starts_at
        && (published_desc p q || (opt_eq p.published_at q.published_at && ltb q.id p.id)))

unfoldable pub urgent_playlist : ℕ → List Playlist → Option Playlist
urgent_playlist now table = first_by published_desc (filter (is_urgent_live now) table)

unfoldable pub scheduled_playlist : ℕ → List Playlist → Option Playlist
scheduled_playlist now table = first_by schedule_desc (filter (is_live now) table)

unfoldable pub fallback_playlist : ℕ → List Playlist → Option Playlist
fallback_playlist now table = first_by published_desc (filter (is_fallback now) table)

abbrev pub or_else : Option Playlist → Option Playlist → Option Playlist
or_else none q = q
or_else (some p) q = some p

-- `active_playlist`
unfoldable pub active_playlist : ℕ → List Playlist → Option Playlist
active_playlist now table =
    or_else (urgent_playlist now table)
      (or_else (scheduled_playlist now table) (fallback_playlist now table))

abbrev pub starts_asc : Playlist → Playlist → Bool
starts_asc p q = ltb p.starts_at q.starts_at

abbrev pub starts_after : ℕ → Playlist → Bool
starts_after now p = is_published p && ltb now p.starts_at

-- `next_start`
unfoldable pub next_start : ℕ → List Playlist → Option ℕ
next_start now table = elim (first_by starts_asc (filter (starts_after now) table)) [
  | none ↦ none
  | some p ↦ some p.starts_at
]

-- The end of the current playlist, where it lies ahead.
abbrev pub current_end : ℕ → Option Playlist → Option ℕ
current_end now none = none
current_end now (some p) = if ltb now p.ends_at then some p.ends_at else none

-- `min(candidates, default=None)`
abbrev pub earliest : Option ℕ → Option ℕ → Option ℕ
earliest none b = b
earliest (some a) none = some a
earliest (some a) (some b) = some (min a b)

-- `next_playlist_transition_at`; `active_playlist` reads the time again, as `later`.
unfoldable pub next_playlist_transition_at : ℕ → ℕ → List Playlist → Option ℕ
next_playlist_transition_at now later table =
    earliest (next_start now table) (current_end now (active_playlist later table))

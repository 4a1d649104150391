-- ===== src/Schedule/Replacement.antt =====
-- evaluate_playlists.py (backend/signage/management/commands): the warning that nothing follows the
-- scheduled playlist. What the command prints is left out.
use digital_signage_project.Base.{
  get, ℕ, ◌+◌, ◌*◌, ◌≡◌, refl, inl, inr, ◌≤◌, ◌<◌, Bool, true, false, not, ◌&&◌, ◌||◌, Option, none,
  some, List, [], ◌∷◌, ltb, leb, ◌==◌, arith, any, any-In, filter, first_by, In, IsOrder,
  Option-cases, Bool-cases, Result, ok,
}
use digital_signage_project.Models.{Playlist, PlaylistStatus}
use digital_signage_project.Playlists.{is_published}
use digital_signage_project.Alerts.{Severity, Alert, AlertTable, alert_id, is_open_for}
use digital_signage_project.Alerts.Laws.{IsValid}
use digital_signage_project.Alerts.Raising.{
  Wanted, when, raise_alerts, IsRaised, raise_alerts-AllRaised,
}
use digital_signage_project.Schedule.{has_started}
use digital_signage_project.Schedule.Query.{IsFirst, query-IsFirst, query_none}
use digital_signage_project.Schedule.Effective.{NoRow, NoRow-of, published_iff}

-- The filter of `active`.
abbrev pub is_current : ℕ → Playlist → Bool
is_current now p = is_published p && has_started now p && ltb now p.ends_at && not p.is_urgent

-- `-starts_at, -version`
abbrev pub version_desc : Playlist → Playlist → Bool
version_desc p q =
    ltb q.starts_at p.starts_at || (p.starts_at == q.starts_at && ltb q.version p.version)

-- The filter of `replacement_exists`.
abbrev pub follows : ℕ → Playlist → Bool
follows end p = is_published p && leb end p.starts_at && not p.is_urgent

-- `timedelta(days=2)`
abbrev pub notice_time : ℕ
notice_time = 172800 * 1000000

abbrev pub missing_replacement : Wanted
missing_replacement = record {
  device = none;
  code = "missing_playlist_replacement";
  severity = Severity.warning;
  message = "No published scheduled replacement exists; current content will continue.";
}

unfoldable pub current_playlist : ℕ → List Playlist → Option Playlist
current_playlist now table = first_by version_desc (filter (is_current now) table)

unfoldable pub replacement_alerts : ℕ → List Playlist → List Wanted
replacement_alerts now table = elim (current_playlist now table) [
  | none ↦ []
  | some p ↦
      when (not (any (follows p.ends_at) table) && leb p.ends_at (now + notice_time))
        missing_replacement
]

-- `Command.handle`
unfoldable pub evaluate_playlists : ℕ → List Playlist → AlertTable → Result AlertTable
evaluate_playlists now table t = raise_alerts (λ k. false) now (replacement_alerts now table) t

version_desc-IsOrder : IsOrder version_desc
version_desc-IsOrder = record { asym = λ a b h. ground arith; weak = λ a b c h k. ground arith }

-- A published scheduled version in its window.
pub record IsCurrent (now : ℕ) (p : Playlist) : Type 0 where
  pub published : p.status ≡ PlaylistStatus.published
  pub scheduled : p.is_urgent ≡ false
  pub started : p.starts_at ≤ now
  pub not_ended : now < p.ends_at

-- A published scheduled version that starts at `end` or later.
pub record IsReplacement (end : ℕ) (q : Playlist) : Type 0 where
  pub published : q.status ≡ PlaylistStatus.published
  pub scheduled : q.is_urgent ≡ false
  pub later : end ≤ q.starts_at

-- The current version that starts last, and of those the highest version.
pub record IsPlayed (now : ℕ) (table : List Playlist) (p : Playlist) : Type 0 where
  pub stored : In p table
  pub current : IsCurrent now p
  pub latest : (q : Playlist) → In q table → IsCurrent now q → q.starts_at ≤ p.starts_at
  pub highest :
      (q : Playlist)
      → In q table
      → IsCurrent now q
      → q.starts_at ≡ p.starts_at
      → q.version ≤ p.version

-- The warning is open, and what was open is open still.
pub record IsWarned (t u : AlertTable) : Type 0 where
  pub row : Alert
  pub stored : get alert_id row.id u.rows ≡ some row
  pub open_row : is_open_for none "missing_playlist_replacement" row ≡ true
  pub kept : (w : Wanted) → IsRaised w t → IsRaised w u

-- What the alerts `t` become; times are microseconds.
pub data IsEvaluated (now : ℕ) (table : List Playlist) (t u : AlertTable) : Type 0 where
  idle : NoRow (IsCurrent now) table → u ≡ t → IsEvaluated now table t u
  replaced :
      (p q : Playlist)
      → IsPlayed now table p
      → In q table
      → IsReplacement p.ends_at q
      → u ≡ t
      → IsEvaluated now table t u
  lasting :
      (p : Playlist)
      → IsPlayed now table p
      → now + 172800000000 < p.ends_at
      → u ≡ t
      → IsEvaluated now table t u
  warned :
      (p : Playlist)
      → IsPlayed now table p
      → NoRow (IsReplacement p.ends_at) table
      → p.ends_at ≤ now + 172800000000
      → IsWarned t u
      → IsEvaluated now table t u

not-true : (b : Bool) → not b ≡ true → b ≡ false
not-true false h = refl
not-true true h = absurd (cc)

IsCurrent-of : (now : ℕ) (p : Playlist) → is_current now p ≡ true → IsCurrent now p
IsCurrent-of now p h = record {
  published = (published_iff p.status).0 (ground arith);
  scheduled = not-true p.is_urgent (ground arith);
  started = ground arith;
  not_ended = ground arith;
}

is_current-true : (now : ℕ) (p : Playlist) → IsCurrent now p → is_current now p ≡ true
is_current-true now p v =
    let x = v.started in
    let y = v.not_ended in rw ((published_iff p.status).1 v.published, v.scheduled) (ground arith)

IsReplacement-of : (end : ℕ) (q : Playlist) → follows end q ≡ true → IsReplacement end q
IsReplacement-of end q h = record {
  published = (published_iff q.status).0 (ground arith);
  scheduled = not-true q.is_urgent (ground arith);
  later = ground arith;
}

follows-true : (end : ℕ) (q : Playlist) → IsReplacement end q → follows end q ≡ true
follows-true end q v =
    let x = v.later in rw ((published_iff q.status).1 v.published, v.scheduled) (ground arith)

version_desc-false :
    (q p : Playlist)
    → version_desc q p ≡ false
    → (q.starts_at ≤ p.starts_at) × (q.starts_at ≡ p.starts_at → q.version ≤ p.version)
version_desc-false q p h = ground arith

IsPlayed-of :
    (now : ℕ) (table : List Playlist) (p : Playlist)
    → IsFirst version_desc (is_current now) table p
    → IsPlayed now table p
IsPlayed-of now table p v = record {
  stored = v.stored;
  current = IsCurrent-of now p v.fits;
  latest = λ q i x. (version_desc-false q p (v.first q i (is_current-true now q x))).0;
  highest = λ q i x. (version_desc-false q p (v.first q i (is_current-true now q x))).1;
}

any-eq-In :
    (f : Playlist → Bool) (table : List Playlist)
    → any f table ≡ true
    → (q : Playlist) × In q table × (f q ≡ true)
any-eq-In f [] h = absurd (cc)
any-eq-In f (x ∷ xs) h = elim (Bool-cases (f x)) [
  | inl e ↦ (x, inl refl, e)
  | inr e ↦ let (q, i, k) = any-eq-In f xs (ground arith) in (q, inr i, k)
]

module _ (now : ℕ) (table : List Playlist) (t : AlertTable) (valid : IsValid t) where
  -- The command returns and leaves valid alerts. It warns exactly when the scheduled playlist that is
  -- current ends within two days and no published scheduled version starts at its end or later; the
  -- alerts that were open are open still. Else it changes nothing.
  pub evaluate_playlists-IsEvaluated :
      (u : AlertTable) × (evaluate_playlists now table t ≡ ok u)
      × IsValid u
      × IsEvaluated now table t u
  unfolding evaluate_playlists replacement_alerts current_playlist raise_alerts
  evaluate_playlists-IsEvaluated = elim (Option-cases (current_playlist now table)) [
    | inl e ↦ (
      t,
      rw (evaluate_playlists, replacement_alerts, e) refl,
      valid,
      idle
          (NoRow-of (is_current now) (IsCurrent now) table (is_current-true now)
            (query_none version_desc _ table e))
          refl,
    )
    | inr (p, e) ↦
        let first =
          IsPlayed-of now table p
            (query-IsFirst version_desc version_desc-IsOrder (is_current now) table e) in
        elim (Bool-cases (any (follows p.ends_at) table)) [
          | inl f ↦
              let (q, i, k) = any-eq-In (follows p.ends_at) table f in
              (
                t,
                rw (evaluate_playlists, replacement_alerts, e, f) refl,
                valid,
                replaced p q first i (IsReplacement-of p.ends_at q k) refl,
              )
          | inr f ↦ elim (Bool-cases (leb p.ends_at (now + notice_time))) [
            | inr g ↦ (
              t,
              rw (evaluate_playlists, replacement_alerts, e, f, g) refl,
              valid,
              lasting p first (ground arith) refl,
            )
            | inl g ↦
                let (u, k, a) =
                  raise_alerts-AllRaised (λ k. false) now (missing_replacement ∷ []) t valid
                    (refl, tt) in
                (
                  u,
                  rw (evaluate_playlists, replacement_alerts, e, f, g) k,
                  a.valid,
                  warned p first
                      (NoRow-of (follows p.ends_at) (IsReplacement p.ends_at) table
                        (follows-true p.ends_at) (λ q i. any-In (follows p.ends_at) table f i))
                      (ground arith)
                      (record {
                        row = a.raised.0.row;
                        stored = a.raised.0.stored;
                        open_row = a.raised.0.fits;
                        kept = a.kept;
                      }),
                )
          ]
        ]
  ]

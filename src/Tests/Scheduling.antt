-- ===== src/Tests/Scheduling.antt =====
-- Tests of `active_playlist` and `next_playlist_transition_at` (backend/signage/services.py), and of
-- evaluate_playlists.py (backend/signage/management/commands).
use digital_signage_project.Base.{◌≡◌, refl, true, false, some, List, ok, [], ◌∷◌, first_by, arith}
use digital_signage_project.Models.{Playlist, PlaylistStatus}
use digital_signage_project.Schedule.{
  active_playlist, urgent_playlist, scheduled_playlist, fallback_playlist, next_start,
  next_playlist_transition_at,
}
use digital_signage_project.Schedule.Effective.{IsEffective, active_playlist-IsEffective}
use digital_signage_project.Schedule.Transition.{active_playlist_stable}
use digital_signage_project.Alerts.{AlertTable}
use digital_signage_project.Alerts.Laws.{IsValid}
use digital_signage_project.Schedule.Replacement.{
  evaluate_playlists, IsEvaluated, evaluate_playlists-IsEvaluated,
}
use digital_signage_project.Tests.Rows.{playlist}
use digital_signage_project.Tests.Monitoring.{no_alerts, no_alerts-IsValid}

-- A daily playlist, an urgent one, and one that starts later.
abbrev daily : Playlist
daily = playlist 1 1 PlaylistStatus.published 100 900 (some 50) false

abbrev alarm : Playlist
alarm = playlist 2 2 PlaylistStatus.published 200 300 (some 60) true

abbrev evening : Playlist
evening = playlist 3 3 PlaylistStatus.published 500 800 (some 70) false

abbrev schedule : List Playlist
schedule = daily ∷ alarm ∷ evening ∷ []

urgent_wins : active_playlist 250 schedule ≡ some alarm
unfolding active_playlist urgent_playlist scheduled_playlist fallback_playlist first_by
urgent_wins = refl

latest_start_wins : active_playlist 600 schedule ≡ some evening
unfolding active_playlist urgent_playlist scheduled_playlist fallback_playlist first_by
latest_start_wins = refl

-- After its window the playlist published last goes on.
goes_on : active_playlist 1000 schedule ≡ some evening
unfolding active_playlist urgent_playlist scheduled_playlist fallback_playlist first_by
goes_on = refl

next_is_evening : next_playlist_transition_at 350 350 schedule ≡ some 500
unfolding next_playlist_transition_at next_start active_playlist urgent_playlist scheduled_playlist
    fallback_playlist first_by
next_is_evening = refl

active_playlist-IsEffective_example : IsEffective 250 schedule (active_playlist 250 schedule)
active_playlist-IsEffective_example = active_playlist-IsEffective 250 schedule

active_playlist_stable_example : active_playlist 450 schedule ≡ active_playlist 350 schedule
unfolding next_playlist_transition_at next_start active_playlist urgent_playlist scheduled_playlist
    fallback_playlist first_by
active_playlist_stable_example =
    active_playlist_stable 350 350 450 schedule (omega arith) (omega arith)
      (λ _. refl, (λ _. refl, (λ _. refl, tt))) (omega arith)

-- Nothing starts at the end of the daily playlist.
evaluate_playlists-IsEvaluated_example :
    (u : AlertTable) × (evaluate_playlists 350 schedule no_alerts ≡ ok u)
    × IsValid u
    × IsEvaluated 350 schedule no_alerts u
evaluate_playlists-IsEvaluated_example =
    evaluate_playlists-IsEvaluated 350 schedule no_alerts no_alerts-IsValid

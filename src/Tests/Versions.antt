-- ===== src/Tests/Versions.antt =====
-- Tests of `Playlist.save` (backend/signage/models.py).
use digital_signage_project.Base.{refl, false, none, some, List, [], ◌∷◌, get, OnOk}
use digital_signage_project.Models.{Playlist, PlaylistStatus}
use digital_signage_project.Playlists.{save}
use digital_signage_project.Playlists.Lifecycle.{WasCorrected, cancelled_by}
use digital_signage_project.Playlists.History.{save-WasCorrected}
use digital_signage_project.Tests.Rows.{playlist}

abbrev first : Playlist
first = playlist 1 1 PlaylistStatus.published 100 900 (some 50) false

abbrev second : Playlist
second = playlist 2 2 PlaylistStatus.published 100 900 (some 60) false

-- The first version, cancelled in favour of the second.
abbrev corrected : Playlist
corrected = cancelled_by 2 first

abbrev versions : List Playlist
versions = first ∷ second ∷ []

save-WasCorrected_example : OnOk (WasCorrected versions first) (save none corrected versions)
unfolding get
save-WasCorrected_example = save-WasCorrected none versions corrected first refl refl

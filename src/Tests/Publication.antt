-- ===== src/Tests/Publication.antt =====
-- Tests of `publish_playlist` (backend/signage/services.py).
use digital_signage_project.Base.{
  ℕ, refl, true, false, none, some, [], ◌∷◌, get, put, arith, inl, inr, Result, ok,
}
use digital_signage_project.Models.{Playlist, PlaylistStatus, MediaAsset, MediaStatus, DeviceStatus}
use digital_signage_project.Playlists.{
  save, store, check_save, clean, validate_locked_version, validate_replacement, is_replacement,
  locked_fields_changed, violates_constraints, written,
}
use digital_signage_project.Publish.{
  Catalogue, publish_playlist, check_publication, apply_publication, full_clean, check_contents,
  check_window, verify_images, playlist_media, join_media, sort_items, insert_item,
  superseded_by_publication, has_urgent_conflict, cancel_superseded, queue_sync, devices_to_sync,
}
use digital_signage_project.Publish.Delivery.{
  Storage, validate_normalized_image, validate_ready_media_delivery,
}
use digital_signage_project.Publish.Checked.{WasChecked, publish_playlist-WasChecked}
use digital_signage_project.Publish.Overlap.{
  HasKeys, NoUrgentOverlap, publish_playlist-NoUrgentOverlap,
}
use digital_signage_project.Tests.Rows.{playlist, asset, device, returned}

abbrev old : Playlist
old = playlist 1 1 PlaylistStatus.published 100 900 (some 50) true

abbrev draft : Playlist
draft = playlist 2 2 PlaylistStatus.draft 100 900 none false

-- An urgent version in force and its correction, with one image and one device.
abbrev catalogue : Catalogue
catalogue = record {
  playlists = old ∷ draft ∷ [];
  items = record { id = 1; playlist = 2; media = 5; position = 1 } ∷ [];
  media = asset 5 MediaStatus.ready ∷ [];
  limits = none;
  devices = device 3 DeviceStatus.active ∷ [];
  managed = 3 ∷ [];
  commands = [];
  log = [];
}

abbrev validated : MediaAsset → Result (Unit {0})
validated a = ok tt

abbrev publication : Result (Catalogue × Playlist)
publication = publish_playlist validated (λ d. d) 300 2 7 true catalogue

abbrev corrected : Catalogue × Playlist
corrected = returned publication (catalogue, draft)

-- A storage with one image.
abbrev files : Storage ℕ
files = record {
  read = λ name. ok 1;
  size = λ f. 1000;
  sha256 = λ f. "";
  sniff_image_mime = λ f. ok "image/png";
  decode = λ f. ok (record { width = 1920; height = 1080; mode = "RGB" });
  image_width = 1920;
  image_height = 1080;
}

abbrev checked : Catalogue × Playlist
checked =
    returned
      (publish_playlist (validate_ready_media_delivery files) (λ d. d) 300 2 7 true catalogue)
      (catalogue, draft)

publish_playlist-WasChecked_example :
    (p : Playlist) × WasChecked files 300 2 true catalogue p checked.1
unfolding publish_playlist check_publication apply_publication full_clean check_contents
    check_window verify_images playlist_media join_media sort_items insert_item
    superseded_by_publication has_urgent_conflict cancel_superseded queue_sync devices_to_sync save
    store check_save clean validate_locked_version validate_replacement is_replacement
    locked_fields_changed violates_constraints written get put validate_ready_media_delivery
    validate_normalized_image
publish_playlist-WasChecked_example =
    publish_playlist-WasChecked files (λ d. d) 300 2 7 true catalogue checked refl

catalogue-HasKeys : HasKeys catalogue.playlists
catalogue-HasKeys k = ground arith

catalogue-NoUrgentOverlap : NoUrgentOverlap catalogue.playlists
catalogue-NoUrgentOverlap p q (inl e) (inl f) n a b = absurd (ground arith)
catalogue-NoUrgentOverlap p q (inl e) (inr j) n a b = ground arith
catalogue-NoUrgentOverlap p q (inr i) j n a b = ground arith

publish_playlist-NoUrgentOverlap_example :
    HasKeys (corrected.0).playlists × NoUrgentOverlap (corrected.0).playlists
unfolding publish_playlist check_publication apply_publication full_clean check_contents
    check_window verify_images playlist_media join_media sort_items insert_item
    superseded_by_publication has_urgent_conflict cancel_superseded queue_sync devices_to_sync save
    store check_save clean validate_locked_version validate_replacement is_replacement
    locked_fields_changed violates_constraints written get put
publish_playlist-NoUrgentOverlap_example =
    publish_playlist-NoUrgentOverlap validated (λ d. d) 300 2 7 true catalogue corrected
      catalogue-HasKeys catalogue-NoUrgentOverlap refl

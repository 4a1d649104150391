-- ===== src/Tests/Serving.antt =====
-- Tests of `location_batch` and `sync_manifest` (backend/signage/api.py).
use digital_signage_project.Base.{
  ℕ, pos, refl, String, true, false, Option, none, some, [], ◌∷◌, arith, first_by, get, put, Result,
  ok,
}
use digital_signage_project.Models.{Device, DeviceStatus, Playlist, PlaylistStatus, MediaStatus}
use digital_signage_project.Alerts.Raising.{raise_alerts}
use digital_signage_project.Credentials.{Fleet}
use digital_signage_project.Wire.{int, text, array, object, nil, item, Fields, end, entry}
use digital_signage_project.Wire.Texts.{lstrip_text, rstrip_text, strip_text, text_length}
use digital_signage_project.Wire.Reading.{
  Conversions, parse_required_uuid, parse_required_datetime, required_short_string,
}
use digital_signage_project.Locations.{
  is_lower_of, provider_of, location_decimal, parse_point, parse_point_id, same_point, screen_point,
  screen_points,
}
use digital_signage_project.Locations.Batch.{
  answer_existing, insert_point, store_point, store_points, parse_current, parse_state, parse_gap,
}
use digital_signage_project.Locations.Handler.{
  located, with_state, newer_alerts, state_alerts, Tracking, LocationReply, record_locations,
  location_batch,
}
use digital_signage_project.Locations.Settled.{IsAnsweredBatch, location_batch-IsAnsweredBatch}
use digital_signage_project.Playback.Receipt.{assignment_at}
use digital_signage_project.Publish.{insert_item, sort_items}
use digital_signage_project.Schedule.{
  active_playlist, urgent_playlist, scheduled_playlist, fallback_playlist, next_start,
  next_playlist_transition_at,
}
use digital_signage_project.Manifest.{
  Port, absent, SplitUrl, Urls, has_dot, ends_with_dot, configured_media_origin,
  media_url_uses_origin, build_manifest, SyncSettings, SyncReply, Signage, play_mode, select_mode,
  sync_manifest,
}
use digital_signage_project.Manifest.Served.{IsRight, sync_manifest-IsRight}
use digital_signage_project.Tests.Rows.{playlist, asset, device, returned}
use digital_signage_project.Tests.Players.{readers}

-- Conversions that read one number.
abbrev decimals : Conversions
decimals = record {
  to_int = λ v. none;
  to_uuid = λ v. none;
  to_decimal = λ v. some 7;
  is_finite = λ x. true;
  in_range = λ l u x. true;
  quantize = λ places x. some (pos 7000000);
  reaches = λ bound x. false;
}

abbrev point_body : Fields
point_body = entry "id" (text "event") (
    entry "recorded_at" (text "08:00:00") (
      entry "device_recorded_at" (text "08:00:00") (
        entry "latitude" (int 7) (
          entry "longitude" (int 7) (
            entry "accuracy_m" (int 7)
              (entry "provider" (text "GPS") (entry "source" (text "location_manager") end)))))))

abbrev location_body : Fields
location_body = entry "points" (array (item (object point_body) nil)) end

abbrev player : Device
player = device 3 DeviceStatus.active

abbrev tracking : Tracking
tracking = record {
  devices = player ∷ [];
  assignments = [];
  points = [];
  alerts = record { rows = []; next_id = 1 };
}

abbrev tracked : Tracking × LocationReply
unfolding location_batch
tracked =
    returned (location_batch readers decimals (λ t. t) 120000000 player location_body tracking)
      (tracking, record { acknowledged_ids = []; rejections = []; state_accepted = true })

location_batch-IsAnsweredBatch_example :
    IsAnsweredBatch readers decimals 120000000 player location_body tracking tracked
unfolding location_batch record_locations screen_points parse_point_id parse_required_uuid
    parse_point parse_required_datetime required_short_string lstrip_text rstrip_text strip_text
    text_length provider_of is_lower_of location_decimal screen_point same_point get put
    store_points store_point insert_point answer_existing assignment_at first_by parse_current
    parse_state parse_gap located with_state newer_alerts state_alerts raise_alerts
location_batch-IsAnsweredBatch_example =
    location_batch-IsAnsweredBatch readers decimals (λ t. t) (λ rows k r h. h) 120000000 player
      location_body tracking tracked refl

abbrev media_url : String
media_url = "https://media.example.org/normalized.png"

abbrev split_media : SplitUrl
split_media = record {
  scheme = "https";
  netloc = "media.example.org";
  hostname = some "media.example.org";
  port = absent;
  has_userinfo = false;
  fragment = "";
  path = "/normalized.png";
}

abbrev urls : Urls
urls = record {
  urlsplit = λ u. some split_media;
  split_domain = λ d. some split_media;
  is_ip_address = λ h. false;
}

abbrev settings : SyncSettings
settings = record { production = false; required_app_version = "1.0"; domain = "media.example.org" }

abbrev menu : Playlist
menu = playlist 1 1 PlaylistStatus.published 100 900 (some 50) false

abbrev fleet : Fleet
fleet = record {
  devices = player ∷ [];
  qualifications = [];
  assignments = [];
  codes = [];
  next_code = 1;
  challenges = [];
  credentials = [];
  next_credential = 1;
  tokens = [];
  management = [];
  log = [];
}

abbrev signage : Signage
signage = record {
  fleet = fleet;
  playlists = menu ∷ [];
  items = record { id = 11; playlist = 1; media = 5; position = 1 } ∷ [];
  media = asset 5 MediaStatus.ready ∷ [];
}

abbrev no_update : Device → Result (Option ℕ)
no_update d = ok none

abbrev synchronized : Signage × SyncReply ℕ
unfolding sync_manifest
synchronized =
    returned
      (sync_manifest (λ x. false) urls (λ name. media_url) settings no_update 200 201 202 player
        signage)
      (
        signage,
        record {
          mode = digital_signage_project.Manifest.maintenance;
          kiosk_pin_verifier = "";
          app_update = none;
          next_transition = none;
        },
      )

sync_manifest-IsRight_example :
    IsRight
      (λ x. false)
      urls
      (λ name. media_url)
      settings
      no_update
      player
      signage
      synchronized.1
      899
unfolding sync_manifest select_mode play_mode configured_media_origin has_dot ends_with_dot
    build_manifest media_url_uses_origin get sort_items insert_item active_playlist urgent_playlist
    scheduled_playlist fallback_playlist next_start next_playlist_transition_at first_by
sync_manifest-IsRight_example =
    sync_manifest-IsRight (λ x. false) urls (λ name. media_url) settings no_update 200 201 202 899
      player signage synchronized.0 synchronized.1 (omega arith) (omega arith) (omega arith)
      ((λ _. refl), tt) (omega arith) refl

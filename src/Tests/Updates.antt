-- ===== src/Tests/Updates.antt =====
-- Tests of `configured_app_update` (backend/signage/api.py).
use digital_signage_project.Base.{pos, ◌≡◌, refl, true, false, none, some, ok, arith}
use digital_signage_project.Models.{DeviceStatus}
use digital_signage_project.Wire.Texts.{text_length}
use digital_signage_project.Manifest.{Urls}
use digital_signage_project.Manifest.Updates.{
  UpdateSettings, Update, all_chars, is_version_suffix, is_version_rest, is_version_name, is_digest,
  after_prefix, ends_with, is_storage_name, check_update, check_origin, offer,
  configured_app_update,
}
use digital_signage_project.Manifest.Rollout.{with_percent, configured_app_update_widens}
use digital_signage_project.Tests.Rows.{device}

no_patch_number : is_version_name "1.2" ≡ false
unfolding is_version_name is_version_rest
no_patch_number = refl

build_suffix : is_version_name "1.20.3-rc.1" ≡ true
unfolding is_version_name is_version_rest is_version_suffix all_chars
build_suffix = refl

empty_file_name : is_storage_name "updates/.apk" ≡ false
unfolding is_storage_name after_prefix all_chars ends_with text_length
empty_file_name = refl

abbrev urls : Urls
urls = record { urlsplit = λ s. none; split_domain = λ s. none; is_ip_address = λ s. false }

abbrev update_settings : UpdateSettings
update_settings = record {
  version_code = pos 12;
  version_name = "1.2.0";
  storage_name = "updates/player.apk";
  sha256 = "0123456789abcdef0123456789abcdef0123456789abcdef0123456789abcdef";
  size_bytes = pos 1000;
  rollout_percent = pos 40;
  production = false;
  domain = "";
}

abbrev update : Update
update = record {
  version_code = pos 12;
  version_name = "1.2.0";
  download_url = "/media";
  sha256 = update_settings.sha256;
  size_bytes = pos 1000;
}

configured_app_update_widens_example :
    configured_app_update urls
      (λ s. some "/media")
      (λ d. 1234)
      (with_percent 60 update_settings)
      (device 3 DeviceStatus.active)
    ≡ ok (some update)
unfolding configured_app_update check_update is_version_name is_version_rest is_version_suffix
    all_chars is_digest text_length is_storage_name after_prefix ends_with offer check_origin
configured_app_update_widens_example =
    configured_app_update_widens urls (λ s. some "/media") (λ d. 1234) 40 60 update_settings
      (device 3 DeviceStatus.active) update (omega arith) (omega arith) refl

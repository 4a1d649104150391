-- ===== src/Manifest/Updates.antt =====
-- `configured_app_update` (backend/signage/api.py). The storage and the digest are parameters.
use Prim.Native.Char.{code}
use digital_signage_project.Base.{
  ℕ, zero, suc, ◌*◌, Bool, true, false, not, ◌&&◌, ◌||◌, Option, none, some, String, ltb, leb, ◌==◌,
  ◌%◌, if◌then◌else◌, str_eq, Result, ok, err, Error, ◌>>=◌, ◌>>◌, raise_if, or_raise, ℤ, pos,
  negsuc,
}
use digital_signage_project.Models.{Device}
use digital_signage_project.Wire.Texts.{is_empty, text_length}
use digital_signage_project.Manifest.{Urls, configured_media_origin, media_url_uses_origin}

-- The settings APP_UPDATE_* and the two others that the function reads.
pub record UpdateSettings : Type 0 where
  pub version_code : ℤ
  pub version_name : String
  pub storage_name : String
  pub sha256 : String
  pub size_bytes : ℤ
  pub rollout_percent : ℤ
  pub production : Bool
  pub domain : String

-- The update in the reply.
pub record Update : Type 0 where
  pub version_code : ℤ
  pub version_name : String
  pub download_url : String
  pub sha256 : String
  pub size_bytes : ℤ

abbrev pub is_zero : ℤ → Bool
is_zero (pos n) = n == 0
is_zero (negsuc n) = false

-- `1 <= x <= upper`
abbrev pub from_one : ℕ → ℤ → Bool
from_one upper (pos n) = leb 1 n && leb n upper
from_one upper (negsuc n) = false

-- `[0-9]`, `[0-9a-f]`, `[0-9A-Za-z.-]` and `[A-Za-z0-9._/-]`
abbrev pub is_digit : ℕ → Bool
is_digit c = leb 48 c && leb c 57

abbrev pub is_hex : ℕ → Bool
is_hex c = is_digit c || (leb 97 c && leb c 102)

abbrev pub is_suffix_char : ℕ → Bool
is_suffix_char c =
    is_digit c || (leb 65 c && leb c 90) || (leb 97 c && leb c 122) || c == 46 || c == 45

abbrev pub is_name_char : ℕ → Bool
is_name_char c = is_suffix_char c || c == 95 || c == 47

unfoldable pub all_chars : (ℕ → Bool) → String → Bool
all_chars p String.[] = true
all_chars p (String.◌∷◌ c s) = p (code c) && all_chars p s

-- `(?:[-+][0-9A-Za-z.-]+)?`
unfoldable pub is_version_suffix : String → Bool
is_version_suffix String.[] = true
is_version_suffix (String.◌∷◌ c s) =
    (code c == 45 || code c == 43) && not (is_empty s) && all_chars is_suffix_char s

-- The rest of a version that has `numbers` further numbers after the one being read; `begun` says that
-- it has a digit.
unfoldable pub is_version_rest : Bool → ℕ → String → Bool
is_version_rest begun numbers String.[] = begun && numbers == 0
is_version_rest begun zero (String.◌∷◌ c s) =
    let more = is_version_rest true 0 s in
    if is_digit (code c) then more else begun && is_version_suffix (String.◌∷◌ c s)
is_version_rest begun (suc numbers) (String.◌∷◌ c s) =
    let more = is_version_rest true (suc numbers) s in
    let next = is_version_rest false numbers s in
    if is_digit (code c) then more else begun && code c == 46 && next

-- `[0-9]+\.[0-9]+\.[0-9]+(?:[-+][0-9A-Za-z.-]+)?`
unfoldable pub is_version_name : String → Bool
is_version_name s = is_version_rest false 2 s

-- `[0-9a-f]{64}`
unfoldable pub is_digest : String → Bool
is_digest s = text_length s == 64 && all_chars is_hex s

-- What follows the prefix.
unfoldable pub after_prefix : String → String → Option String
after_prefix String.[] s = some s
after_prefix (String.◌∷◌ c p) String.[] = none
after_prefix (String.◌∷◌ c p) (String.◌∷◌ d s) = if code c == code d then after_prefix p s else none

unfoldable pub ends_with : String → String → Bool
ends_with suffix String.[] = is_empty suffix
ends_with suffix (String.◌∷◌ c s) = str_eq suffix (String.◌∷◌ c s) || ends_with suffix s

-- `updates/[A-Za-z0-9._/-]+\.apk`
unfoldable pub is_storage_name : String → Bool
is_storage_name s = elim (after_prefix "updates/" s) [
  | none ↦ false
  | some name ↦ all_chars is_name_char name && ends_with ".apk" name && ltb 4 (text_length name)
]

abbrev pub configuration_error : Error
configuration_error = Error.api_exception "Application update configuration is unavailable."

abbrev pub update_unavailable : Error
update_unavailable = Error.api_exception "Application update delivery is unavailable."

-- One of the settings is set although there is no update.
abbrev pub is_any_set : UpdateSettings → Bool
is_any_set c =
    not (is_empty c.version_name)
    || not (is_empty c.storage_name)
    || not (is_empty c.sha256)
    || not (is_zero c.size_bytes)
    || not (is_zero c.rollout_percent)

unfoldable pub check_update : UpdateSettings → Result (Unit {0})
check_update c = do
  raise_if (not (from_one 2147483647 c.version_code)) configuration_error
  raise_if (not (is_version_name c.version_name)) configuration_error
  raise_if (not (is_digest c.sha256)) configuration_error
  raise_if (not (from_one (200 * 1024 * 1024) c.size_bytes)) configuration_error
  raise_if (not (from_one 100 c.rollout_percent)) configuration_error
  raise_if (not (is_storage_name c.storage_name)) configuration_error

-- `rollout_bucket < percent`
abbrev pub is_in_rollout : ℕ → ℤ → Bool
is_in_rollout bucket (pos n) = ltb bucket n
is_in_rollout bucket (negsuc n) = false

module _ (urls : Urls) (url_of : String → Option String) (rollout_digest : ℕ → ℕ) where
  unfoldable pub check_origin : UpdateSettings → String → Result (Unit {0})
  check_origin c url =
      if c.production
      then (configured_media_origin urls c.domain >>= λ origin.
          raise_if (not (media_url_uses_origin urls url origin)) update_unavailable)
      else ok tt

  unfoldable pub offer : UpdateSettings → Result (Option Update)
  offer c = do
    url ← or_raise (url_of c.storage_name) update_unavailable
    check_origin c url
    ok (
        some (record {
          version_code = c.version_code;
          version_name = c.version_name;
          download_url = url;
          sha256 = c.sha256;
          size_bytes = c.size_bytes;
        }))

  -- `configured_app_update`; `rollout_digest` is the number of the first eight digits of the digest.
  unfoldable pub configured_app_update : UpdateSettings → Device → Result (Option Update)
  configured_app_update c d =
      if is_zero c.version_code
      then (if is_any_set c then err configuration_error else ok none)
      else check_update c >>= λ u.
          if is_in_rollout (rollout_digest d.id % 100) c.rollout_percent then offer c else ok none

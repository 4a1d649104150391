-- ===== src/Locations.antt =====
-- The validation of locations: `_location_decimal` and the loop over the points of `location_batch`
-- (backend/signage/api.py). Coordinates are in units of their last place.
pub mod Batch
pub mod Handler
pub mod Answered
pub mod Screened
pub mod Settled
use Prim.Native.Char.{code}
use digital_signage_project.Base.{
  ℕ, suc, ◌+◌, ◌*◌, ℤ, pos, negsuc, int_eq, String, Bool, true, false, not, ◌&&◌, ◌||◌, Option,
  none, some, List, [], ◌∷◌, ◌++◌, ltb, leb, ◌==◌, if◌then◌else◌, str_eq, get, Result, ok, err,
  Error, Place, ◌>>=◌, ◌>>◌, raise_if, or_raise,
}
use digital_signage_project.Wire.{Json, object, Fields, keys}
use digital_signage_project.Wire.Texts.{subset, mem_text}
use digital_signage_project.Wire.Reading.{
  Readers, Conversions, second, value_of, future_skew, parse_required_uuid, parse_required_datetime,
  required_short_string,
}

-- MAX_LOCATION_AGE
abbrev pub max_age : ℕ
max_age = 30 * 24 * 60 * 60 * second

-- A point of the batch, with its values normalized.
pub record Point : Type 0 where
  pub id : ℕ
  pub recorded_at : ℕ
  pub device_recorded_at : ℕ
  pub latitude : ℤ
  pub longitude : ℤ
  pub accuracy_m : ℤ
  pub provider : String
  pub source : String

abbrev pub point_id : Point → ℕ
point_id p = p.id

pub data Reason : Type 0 where
  invalid_point id_collision : Reason

pub record Rejection : Type 0 where
  pub id : ℕ
  pub reason : Reason

-- The code of the lower-case letter. Of the characters beyond ASCII only the Kelvin sign has a lower
-- case that stands in the name of a provider.
abbrev pub lower_code : ℕ → ℕ
lower_code c = if leb 65 c && leb c 90 then c + 32 else if c == 8490 then 107 else c

-- `s.lower() == t`
unfoldable pub is_lower_of : String → String → Bool
is_lower_of String.[] String.[] = true
is_lower_of (String.◌∷◌ c s) (String.◌∷◌ d t) = lower_code (code c) == code d && is_lower_of s t
is_lower_of _ _ = false

-- The lower case of the provider, if it is in LOCATION_PROVIDERS.
unfoldable pub provider_of : String → Option String
provider_of s =
    if is_lower_of s "gps"
    then some "gps"
    else if is_lower_of s "network"
    then some "network"
    else none

abbrev pub point_fields : List String
point_fields =
    "id" ∷ "recorded_at" ∷ "device_recorded_at" ∷ "latitude" ∷ "longitude" ∷ "accuracy_m"
    ∷ "provider" ∷ "source" ∷ []

abbrev pub as_object : Json → Option Fields
as_object (object fs) = some fs
as_object _ = none

abbrev pub rejected : ℕ → Reason → List Rejection
rejected k reason = record { id = k; reason = reason } ∷ []

-- `prior == normalized`
unfoldable pub same_point : Point → Point → Bool
same_point p q =
    p.id == q.id
    && p.recorded_at == q.recorded_at
    && p.device_recorded_at == q.device_recorded_at
    && int_eq p.latitude q.latitude
    && int_eq p.longitude q.longitude
    && int_eq p.accuracy_m q.accuracy_m
    && str_eq p.provider q.provider
    && str_eq p.source q.source

-- What one point adds to the accepted and to the rejected ones; `seen` has the accepted points.
unfoldable pub screen_point : ℕ → Result Point → List Point → List Point × List Rejection
screen_point k (err e) seen = ([], rejected k Reason.invalid_point)
screen_point k (ok p) seen = elim (get point_id k seen) [
  | none ↦ (p ∷ [], [])
  | some prior ↦ if same_point prior p then ([], []) else ([], rejected k Reason.id_collision)
]

module _ (conv : Conversions) where
  -- `_location_decimal`, for bounds that are integers
  unfoldable pub location_decimal : Json → String → ℤ → ℤ → ℕ → Result ℤ
  location_decimal v k lower upper places = do
    x ← or_raise (conv.to_decimal v) (Error.invalid (Place.field k) "Use a finite number.")
    raise_if (not (conv.is_finite x) || not (conv.in_range lower upper x))
        (Error.invalid (Place.field k) "Value is outside the allowed range.")
    or_raise (conv.quantize places x) (Error.invalid (Place.field k) "Number precision is invalid.")

module _ (lib : Readers) (conv : Conversions) (now : ℕ) where
  abbrev pub time_of : String → Fields → Result ℕ
  time_of k raw = parse_required_datetime lib future_skew now (value_of k raw) (Place.field k)

  -- The body of the `try` statement.
  unfoldable pub parse_point : ℕ → Fields → Result Point
  parse_point id raw = do
    raise_if (not (subset (keys raw) point_fields))
        (Error.validation_error "Point contains unknown fields.")
    recorded_at ← time_of "recorded_at" raw
    device_recorded_at ← time_of "device_recorded_at" raw
    raise_if (ltb (recorded_at + max_age) now)
        (Error.validation_error "Point is older than 30 days.")
    named ← required_short_string "provider" 16 raw
    provider ←
        or_raise (provider_of named) (Error.validation_error "Unsupported location provider.")
    source ← required_short_string "source" 32 raw
    raise_if (not (str_eq source "location_manager"))
        (Error.validation_error "Unsupported location source.")
    latitude ← location_decimal conv (value_of "latitude" raw) "latitude" (negsuc 89) (pos 90) 6
    longitude ←
        location_decimal conv (value_of "longitude" raw) "longitude" (negsuc 179) (pos 180) 6
    accuracy_m ← location_decimal conv (value_of "accuracy_m" raw) "accuracy_m" (pos 0) (pos 100) 2
    ok (record {
      id = id;
      recorded_at = recorded_at;
      device_recorded_at = device_recorded_at;
      latitude = latitude;
      longitude = longitude;
      accuracy_m = accuracy_m;
      provider = provider;
      source = source;
    })

  -- `point_id`
  unfoldable pub parse_point_id : Fields → Result ℕ
  parse_point_id raw = elim (parse_required_uuid lib (value_of "id" raw) (Place.field "id")) [
    | ok k ↦ ok k
    | err e ↦ err (Error.invalid (Place.field "points") "Each point needs a UUID id.")
  ]

  -- The loop over the points; `seen` are the points that it has accepted before.
  unfoldable pub screen_points : List Json → List Point → Result (List Point × List Rejection)
  screen_points [] seen = ok (seen, [])
  screen_points (v ∷ vs) seen = do
    raw ←
        or_raise (as_object v)
          (Error.invalid (Place.field "points") "Each point must be an object.")
    k ← parse_point_id raw
    let step = screen_point k (parse_point k raw) seen
    rest ← screen_points vs (seen ++ step.0)
    ok (rest.0, step.1 ++ rest.1)

-- ===== src/Wire/Reading.antt =====
-- `parse_required_datetime`, `parse_required_uuid`, `required_value`, `required_short_string` and the
-- readers of Booleans (backend/signage/api.py).
use digital_signage_project.Base.{
  ℕ, ℤ, ◌+◌, ◌*◌, String, Bool, ◌||◌, Option, none, some, ltb, Result, ok, err, Error, Place, ◌>>=◌,
  ◌>>◌, raise_if, or_raise,
}
use digital_signage_project.Wire.{Json, null, boolean, text, Fields, look_up}
use digital_signage_project.Wire.Texts.{text_length, is_empty, strip_text}

abbrev pub second : ℕ
second = 1000000

-- MAX_DEVICE_TIMESTAMP_FUTURE_SKEW
abbrev pub future_skew : ℕ
future_skew = 5 * 60 * second

-- The library functions that a request is read with.
pub record Readers : Type 0 where
  pub parse_uuid : String → Option ℕ
  pub parse_datetime : String → Option ℕ

-- The conversions that the code applies to values of any kind: `int(value)`, `uuid.UUID(str(value))`
-- and `Decimal(str(value))`, which give nothing where they raise. A decimal number is known by its
-- position in a list of them: `is_finite`, `in_range lower upper`, `quantize places`, in units of the
-- last place, and `float(value) >= bound` are read by it.
pub record Conversions : Type 0 where
  pub to_int : Json → Option ℤ
  pub to_uuid : Json → Option ℕ
  pub to_decimal : Json → Option ℕ
  pub is_finite : ℕ → Bool
  pub in_range : ℤ → ℤ → ℕ → Bool
  pub quantize : ℕ → ℕ → Option ℤ
  pub reaches : ℕ → ℕ → Bool

-- `data.get(field)`: null for a field that is not there.
abbrev pub value_of : String → Fields → Json
value_of k fs = elim (look_up k fs) [ none ↦ null | some v ↦ v ]

abbrev pub as_text : Json → Option String
as_text (text s) = some s
as_text _ = none

abbrev pub as_boolean : Json → Option Bool
as_boolean (boolean b) = some b
as_boolean _ = none

-- `required_value`, with the place of its error
abbrev pub required_value : Place → String → Fields → Result Json
required_value at k fs = or_raise (look_up k fs) (Error.invalid at "This field is required.")

module _ (lib : Readers) where
  -- `parse_required_uuid`
  unfoldable pub parse_required_uuid : Json → Place → Result ℕ
  parse_required_uuid v at = do
    s ← or_raise (as_text v) (Error.invalid at "Use a UUID string.")
    or_raise (lib.parse_uuid s) (Error.invalid at "Use a valid UUID string.")

  abbrev pub timestamp_of : Json → Option ℕ
  timestamp_of v = elim (as_text v) [ none ↦ none | some s ↦ lib.parse_datetime s ]

  -- `parse_required_datetime` at the time `now`
  unfoldable pub parse_required_datetime : ℕ → ℕ → Json → Place → Result ℕ
  parse_required_datetime skew now v at = do
    t ← or_raise (timestamp_of v) (Error.invalid at "Use an ISO-8601 timestamp.")
    raise_if (ltb (now + skew) t) (Error.invalid at "Timestamp is too far ahead of server time.")
    ok t

-- `optional_json_boolean`
unfoldable pub optional_json_boolean : String → Fields → Result (Option Bool)
optional_json_boolean k fs = elim (value_of k fs) [
  | null ↦ ok none
  | boolean b ↦ ok (some b)
  | _ ↦ err (Error.invalid (Place.field k) "Use a JSON boolean or null.")
]

-- `required_json_boolean`
unfoldable pub required_json_boolean : String → Fields → Result Bool
required_json_boolean k fs =
    or_raise (as_boolean (value_of k fs)) (Error.invalid (Place.field k) "Use a JSON boolean.")

-- `required_short_string`; the message does not name the limit here.
unfoldable pub required_short_string : String → ℕ → Fields → Result String
required_short_string k maximum fs = do
  s ← or_raise (as_text (value_of k fs)) (Error.invalid (Place.field k) "Use a non-empty string.")
  raise_if (is_empty (strip_text s) || ltb maximum (text_length (strip_text s)))
      (Error.invalid (Place.field k) "Use a non-empty string of limited length.")
  ok (strip_text s)

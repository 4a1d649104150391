-- ===== src/Wire.antt =====
-- The bodies of requests: JSON values and the readers of their fields in backend/signage/api.py.
-- `uuid.UUID` and Django's `parse_datetime` are parameters: they give the number or the time of a
-- text, or nothing where they raise.
pub mod Texts
pub mod Reading
use digital_signage_project.Base.{
  ℕ, String, Bool, true, false, not, ◌==◌, Option, none, some, List, [], ◌∷◌, if◌then◌else◌, str_eq,
}

-- `negative n` is -(n + 1); `real` names a number that is written with a fraction, and `real 0` is zero.
mutual
  pub data Json : Type 0 where
    null : Json
    boolean : Bool → Json
    int : ℕ → Json
    negative : ℕ → Json
    real : ℕ → Json
    text : String → Json
    array : Items → Json
    object : Fields → Json

  pub data Items : Type 0 where
    nil : Items
    item : Json → Items → Items

  pub data Fields : Type 0 where
    end : Fields
    entry : String → Json → Fields → Fields

-- `list(items)`
abbrev pub elements : Items → List Json
elements nil = []
elements (item j js) = j ∷ elements js

-- `data.get(field)`, with nothing for a field that is not there
abbrev pub look_up : String → Fields → Option Json
look_up k end = none
look_up k (entry j v fs) = if str_eq j k then some v else look_up k fs

abbrev pub keys : Fields → List String
keys end = []
keys (entry k v fs) = k ∷ keys fs

-- `value is None`
abbrev pub is_null : Json → Bool
is_null null = true
is_null _ = false

-- `bool(value)`
abbrev pub truthy : Json → Bool
truthy null = false
truthy (boolean b) = b
truthy (int n) = not (n == 0)
truthy (negative n) = true
truthy (real n) = not (n == 0)
truthy (text s) = not (str_eq s "")
truthy (array nil) = false
truthy (array (item j js)) = true
truthy (object end) = false
truthy (object (entry k j fs)) = true

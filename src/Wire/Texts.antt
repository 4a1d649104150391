-- ===== src/Wire/Texts.antt =====
-- `len`, `str.strip` and membership of texts, as Python has them.
use Prim.Native.Char.{code}
use digital_signage_project.Base.{
  ℕ, suc, String, Bool, true, false, ◌&&◌, ◌||◌, List, [], ◌∷◌, leb, ◌==◌, if◌then◌else◌, str_eq,
}

-- The characters for which `str.isspace` holds.
abbrev pub is_space : ℕ → Bool
is_space c =
    (leb 9 c && leb c 13)
    || (leb 28 c && leb c 32)
    || c == 133
    || c == 160
    || c == 5760
    || (leb 8192 c && leb c 8202)
    || c == 8232
    || c == 8233
    || c == 8239
    || c == 8287
    || c == 12288

unfoldable pub text_length : String → ℕ
text_length String.[] = 0
text_length (String.◌∷◌ c s) = suc (text_length s)

abbrev pub is_empty : String → Bool
is_empty String.[] = true
is_empty (String.◌∷◌ c s) = false

unfoldable pub lstrip_text : String → String
lstrip_text String.[] = ""
lstrip_text (String.◌∷◌ c s) = if is_space (code c) then lstrip_text s else String.◌∷◌ c s

unfoldable pub rstrip_text : String → String
rstrip_text String.[] = ""
rstrip_text (String.◌∷◌ c s) =
    let rest = rstrip_text s in if is_empty rest && is_space (code c) then "" else String.◌∷◌ c rest

-- `str.strip()`
unfoldable pub strip_text : String → String
unfolding lstrip_text rstrip_text
strip_text s = rstrip_text (lstrip_text s)

abbrev pub mem_text : String → List String → Bool
mem_text k [] = false
mem_text k (x ∷ xs) = str_eq k x || mem_text k xs

abbrev pub subset : List String → List String → Bool
subset [] ys = true
subset (x ∷ xs) ys = mem_text x ys && subset xs ys

-- `set(xs) == set(ys)`
abbrev pub same_texts : List String → List String → Bool
same_texts xs ys = subset xs ys && subset ys xs

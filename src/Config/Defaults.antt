-- ===== src/Config/Defaults.antt =====
-- The defaults of internal/config/config.go, and the tests of single values.
use umleitung.Base.{
  ℕ, Bool, true, false, ◌&&◌, ◌||◌, ltb, leb, ◌==◌ as nat_eq, Option, none, some, [], ◌∷◌, map,
  if◌then◌else◌,
}
use umleitung.Base.Text.{Text, codes, lower, ◌==◌, contains, ℤ, pos, negsuc}
use umleitung.Config.{Node, absent, null_node, value_node}

unfoldable pub default_str : Text → Text → Text
default_str v def = if v == codes "" then def else v

-- also of a duration
unfoldable pub default_int : ℤ → ℤ → ℤ
default_int (pos n) def = if nat_eq n 0 then def else pos n
default_int (negsuc n) def = negsuc n

unfoldable pub default_bool : Option Bool → Bool → Bool
default_bool none def = def
default_bool (some b) def = b

-- `optString`: the value, whether the key is set, or an error
pub data OptString : Type 0 where
  unset undecoded : OptString
  set_to : Text → OptString

unfoldable pub opt_string : Node → OptString
opt_string absent = unset
opt_string null_node = set_to (codes "")
opt_string (value_node none) = undecoded
opt_string (value_node (some v)) = set_to v

-- `strings.ToLower`, as far as it makes ASCII letters: U+0130 and U+212A are the only characters
-- besides A to Z that it turns into one
unfoldable pub lower_word : Text → Text
lower_word = map (λ c. if nat_eq c 0x130 then b'i' else if nat_eq c 0x212a then b'k' else lower c)

unfoldable pub is_log_level : Text → Bool
is_log_level = contains (codes "debug" ∷ codes "info" ∷ codes "warn" ∷ codes "error" ∷ [])

unfoldable pub is_seed_mode : Text → Bool
is_seed_mode = contains (codes "empty" ∷ codes "always" ∷ codes "never" ∷ [])

-- `isKeywordChar`
unfoldable pub is_keyword_char : ℕ → Bool
is_keyword_char b =
    (leb b'a' b && leb b b'z')
    || ((leb b'A' b && leb b b'Z')
        || ((leb b'0' b && leb b b'9') || (nat_eq b b'-' || nat_eq b b'_')))

-- `nameRe`: `^[a-z0-9_-]+$`
abbrev pub is_name_char : ℕ → Bool
is_name_char b =
    (leb b'a' b && leb b b'z') || ((leb b'0' b && leb b b'9') || (nat_eq b b'_' || nat_eq b b'-'))

abbrev pub all_name_chars : Text → Bool
all_name_chars [] = true
all_name_chars (c ∷ s) = is_name_char c && all_name_chars s

unfoldable pub name_matches : Text → Bool
name_matches [] = false
name_matches (c ∷ s) = all_name_chars (c ∷ s)

-- a single keyword character
unfoldable pub is_replacement : Text → Bool
is_replacement [] = false
is_replacement (c ∷ []) = is_keyword_char c
is_replacement (c ∷ d ∷ s) = false

abbrev pub is_negative : ℤ → Bool
is_negative (pos n) = false
is_negative (negsuc n) = true

-- `v < 1`
abbrev pub below_one : ℤ → Bool
below_one (pos n) = nat_eq n 0
below_one (negsuc n) = true

-- `v < 1 || v > 65535`
abbrev pub is_port : ℤ → Bool
is_port (pos n) = ltb 0 n && leb n 65535
is_port (negsuc n) = false

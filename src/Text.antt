-- ===== src/Text.antt =====
-- What the program uses of the Go packages strings and unicode: TrimSpace, ToLower, EqualFold,
-- Cut, HasPrefix. A text is a list of code points, that is valid UTF-8, which is what the JSON
-- decoder hands over and, but for U+0000, what PostgreSQL stores.
pub mod Laws
pub mod Lines
pub mod Numbers
use Prim.Native.Char.{Char, code}
use Prim.Native.String.{[], ◌∷◌}
use anime_request_server.Prelude.{
  ℕ, ◌≤◌, String, Bool, true, false, ◌&&◌, ◌||◌, Option, none, some, leb, ltb, ◌+◌, same_id,
  if◌then◌else◌,
}

-- unicode.IsSpace: the code points with the property White_Space.
unfoldable pub is_space : Char → Bool
is_space c =
    let n = code c in
    (leb 9 n && leb n 13)
    || same_id n 32
    || same_id n 0x85
    || same_id n 0xa0
    || same_id n 0x1680
    || (leb 0x2000 n && leb n 0x200a)
    || same_id n 0x2028
    || same_id n 0x2029
    || same_id n 0x202f
    || same_id n 0x205f
    || same_id n 0x3000

unfoldable pub trim_left : String → String
trim_left [] = []
trim_left (c ∷ s) = let rest = trim_left s in if is_space c then rest else c ∷ s

abbrev pub is_empty : String → Bool
is_empty [] = true
is_empty (c ∷ s) = false

-- A code point stays unless it and all behind it are spaces.
unfoldable pub trim_right : String → String
trim_right [] = []
trim_right (c ∷ s) = let rest = trim_right s in if is_space c && is_empty rest then [] else c ∷ rest

unfoldable pub trim_space : String → String
unfolding trim_left trim_right is_space
trim_space s = trim_right (trim_left s)

-- The Unicode tables that the standard library is generated from.
pub record Unicode : Type 0 where
  -- unicode.ToUpper
  pub upper_char : Char → Char
  -- unicode.ToLower
  pub lower_char : Char → Char
  -- equality under simple case folding, as strings.EqualFold decides it for one code point
  pub fold_char : Char → Char → Bool

-- strings.ToLower maps unicode.ToLower over the text.
unfoldable pub to_lower : Unicode → String → String
to_lower u [] = []
to_lower u (c ∷ s) = u.lower_char c ∷ to_lower u s

unfoldable pub to_upper : Unicode → String → String
to_upper u [] = []
to_upper u (c ∷ s) = u.upper_char c ∷ to_upper u s

-- strings.ReplaceAll(s, c, ""), for one code point
unfoldable pub without : ℕ → String → String
without n [] = []
without n (c ∷ s) = let rest = without n s in if same_id (code c) n then rest else c ∷ rest

-- strings.TrimRight(s, c), for one code point
unfoldable pub trim_right_char : ℕ → String → String
trim_right_char n [] = []
trim_right_char n (c ∷ s) =
    let rest = trim_right_char n s in if same_id (code c) n && is_empty rest then [] else c ∷ rest

abbrev pub push : Char → String → String
push c s = c ∷ s

-- The bytes of a code point in UTF-8.
abbrev char_bytes : ℕ → ℕ
char_bytes n = if ltb n 0x80 then 1 else if ltb n 0x800 then 2 else if ltb n 0x10000 then 3 else 4

-- len of a text
unfoldable pub byte_length : String → ℕ
byte_length [] = 0
byte_length (c ∷ s) = char_bytes (code c) + byte_length s

-- strings.EqualFold
unfoldable pub equal_fold : Unicode → String → String → Bool
equal_fold u [] [] = true
equal_fold u (c ∷ s) (d ∷ t) = u.fold_char c d && equal_fold u s t
equal_fold u s t = false

-- The part of strings.Cut(s, sep) before the first separator, a single code point.
unfoldable pub before : ℕ → String → String
before sep [] = []
before sep (c ∷ s) = let rest = before sep s in if same_id (code c) sep then [] else c ∷ rest

-- strings.HasPrefix and strings.TrimPrefix in one: what follows the prefix.
unfoldable pub strip_prefix : String → String → Option String
strip_prefix [] s = some s
strip_prefix (p ∷ ps) [] = none
strip_prefix (p ∷ ps) (c ∷ s) = if same_id (code p) (code c) then strip_prefix ps s else none

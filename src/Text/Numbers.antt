-- ===== src/Text/Numbers.antt =====
-- What the program uses of Go's package strconv: Atoi and ParseBool. An `int` has 64 bits.
use Prim.Native.Char.{code}
use Prim.Native.String.{[], ◌∷◌}
use anime_request_server.Prelude.{
  ℕ, ◌+◌, ◌-◌, ◌*◌, ◌^◌, String, Bool, true, false, ◌&&◌, ◌||◌, ◌==◌, Option, none, some, ltb, leb,
  same_id, if◌then◌else◌,
}

-- A signed number: `negsuc n` is -(n + 1).
pub data ℤ : Type 0 where
  pos : ℕ → ℤ
  negsuc : ℕ → ℤ

abbrev is_digit : ℕ → Bool
is_digit n = leb b'0' n && leb n b'9'

-- The digits behind a number; `none` for another character.
unfoldable pub digits_from : ℕ → String → Option ℕ
digits_from n [] = some n
digits_from n (c ∷ s) =
    let rest = digits_from (n * 10 + (code c - b'0')) s in if is_digit (code c) then rest else none

-- At least one digit.
unfoldable pub digits_of : String → Option ℕ
unfolding digits_from
digits_of [] = none
digits_of (c ∷ s) = digits_from 0 (c ∷ s)

abbrev pub below : ℕ → Option ℕ → Option ℕ
below bound none = none
below bound (some n) = if ltb n bound then some n else none

abbrev pub positive : Option ℕ → Option ℤ
positive none = none
positive (some n) = some (pos n)

abbrev pub negative : Option ℕ → Option ℤ
negative none = none
negative (some n) = some (if same_id n 0 then pos 0 else negsuc (n - 1))

-- strconv.Atoi, `none` for a syntax error and for a number out of range.
unfoldable pub atoi : String → Option ℤ
unfolding digits_of
atoi [] = none
atoi (c ∷ s) =
    if same_id (code c) b'-'
    then negative (below (2 ^ 63 + 1) (digits_of s))
    else if same_id (code c) b'+'
    then positive (below (2 ^ 63) (digits_of s))
    else positive (below (2 ^ 63) (digits_of (c ∷ s)))

-- strconv.ParseBool, `none` for a syntax error.
unfoldable pub parse_bool : String → Option Bool
parse_bool s =
    if s == "1" || s == "t" || s == "T" || s == "true" || s == "TRUE" || s == "True"
    then some true
    else if s == "0" || s == "f" || s == "F" || s == "false" || s == "FALSE" || s == "False"
    then some false
    else none

abbrev pub at_least_one : ℕ → Option ℤ → ℕ
at_least_one def none = def
at_least_one def (some (negsuc n)) = def
at_least_one def (some (pos n)) = if ltb n 1 then def else n

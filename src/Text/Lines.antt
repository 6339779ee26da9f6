-- ===== src/Text/Lines.antt =====
-- strings.Split of Go, for a separator of a single code point.
use Prim.Native.Char.{Char, code}
use anime_request_server.Prelude.{ℕ, String, List, [], ◌∷◌, same_id, if◌then◌else◌}

abbrev pub put_first : Char → List String → List String
put_first c [] = String.◌∷◌ c String.[] ∷ []
put_first c (l ∷ ls) = String.◌∷◌ c l ∷ ls

unfoldable pub split : ℕ → String → List String
split sep String.[] = String.[] ∷ []
split sep (String.◌∷◌ c s) =
    let rest = split sep s in if same_id (code c) sep then String.[] ∷ rest else put_first c rest

-- ===== src/Tokens.antt =====
-- internal/auth/auth.go: passwords, tokens and codes, over the libraries that it calls. What is drawn at random
-- is an argument, `none` where the draw fails.
mod Examples
use Prim.Native.String.{slice}
use Prim.Native.String
use anime_request_server.Prelude.{
  ℕ, ◌+◌, ◌/◌, ◌%◌, String, Bool, Option, none, some, List, [], ◌∷◌, ◌==◌, is_some,
}

-- bcrypt, with the salt that it draws, and SHA-256.
pub record Hashes : Type 0 where
  pub generate_from_password : (salt : ℕ) → String → (cost : ℕ) → Option String
  pub compare_hash_and_password : String → String → Option (Unit {0})
  pub sum256 : String → List ℕ

abbrev pub bcrypt_cost : ℕ
bcrypt_cost = 12

-- The table of hex.EncodeToString
unfoldable hex_digit : ℕ → String
hex_digit n = slice "0123456789abcdef" n (n + 1)

-- hex.EncodeToString of bytes
unfoldable pub encode_to_string : List ℕ → String
unfolding hex_digit
encode_to_string [] = ""
encode_to_string (b ∷ bs) =
    String.◌++◌ (hex_digit (b / 16)) (String.◌++◌ (hex_digit (b % 16)) (encode_to_string bs))

module _ (lib : Hashes) where
  -- HashPassword
  unfoldable pub hash_password : (salt : ℕ) → String → Option String
  hash_password salt password = lib.generate_from_password salt password bcrypt_cost

  -- CheckPassword; `none` is the error of a mismatch.
  unfoldable pub check_password : String → String → Bool
  check_password hash password = is_some (lib.compare_hash_and_password hash password)

  -- HashToken
  unfoldable pub hash_token : String → String
  unfolding encode_to_string
  hash_token token = encode_to_string (lib.sum256 token)

  -- GenerateSessionToken, of 32 bytes: the token and its hash.
  unfoldable pub generate_session_token : Option (List ℕ) → Option (String × String)
  unfolding hash_token
  generate_session_token none = none
  generate_session_token (some bytes) =
      some (encode_to_string bytes, hash_token (encode_to_string bytes))

-- GenerateInviteCode, of 16 bytes
unfoldable pub generate_invite_code : Option (List ℕ) → Option String
unfolding encode_to_string
generate_invite_code none = none
generate_invite_code (some bytes) = some (encode_to_string bytes)

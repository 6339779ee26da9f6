-- ===== src/Tokens/Examples.antt =====
-- Tests of tokens and codes.
use anime_request_server.Prelude.{◌≡◌, refl, none, some, [], ◌∷◌}
use anime_request_server.Tokens.{
  Hashes, encode_to_string, generate_invite_code, generate_session_token,
}

abbrev plain : Hashes
plain = record {
  generate_from_password = λ salt password cost. some password;
  compare_hash_and_password = λ hash password. none;
  sum256 = λ token. 1 ∷ [];
}

bytes_in_hex : encode_to_string (0 ∷ 171 ∷ 255 ∷ []) ≡ "00abff"
unfolding encode_to_string
bytes_in_hex = refl

code_of_bytes : generate_invite_code (some (18 ∷ 52 ∷ [])) ≡ some "1234"
unfolding generate_invite_code
code_of_bytes = refl

token_with_hash : generate_session_token plain (some (7 ∷ [])) ≡ some ("07", "01")
unfolding generate_session_token
token_with_hash = refl

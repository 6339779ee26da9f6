-- ===== src/Totp/Examples.antt =====
-- The theorems on TOTP at concrete inputs.
use anime_request_server.Prelude.{
  ℕ, ◌+◌, ◌*◌, ◌<◌, ◌≢◌, ◌≡◌, refl, true, some, List, [], ◌∷◌, arith,
}
use anime_request_server.Text.{trim_space}
use anime_request_server.Server.Sample.{sample_system}
use anime_request_server.Totp.{second, decode_base32_secret, generate_hotp, validate_totp}
use anime_request_server.Totp.Window.{counter_at, validate_totp-near, validate_totp-recent}

validate_totp-near_example :
    validate_totp sample_system "abcd"
      (generate_hotp sample_system (1 ∷ []) (counter_at (75 * second)))
      (100 * second)
    ≡ true
unfolding decode_base32_secret anime_request_server.Text.trim_space
    anime_request_server.Text.to_upper anime_request_server.Text.without
    anime_request_server.Text.trim_right_char
validate_totp-near_example =
    validate_totp-near sample_system "abcd" 1 [] (100 * second) (75 * second) refl (omega arith)
      (omega arith) (omega arith)

-- The code of twenty zero bytes.
validate_totp-recent_example :
    (key : List ℕ) × (made : ℕ) × (decode_base32_secret sample_system "abcd" ≡ some key)
    × (key ≢ [])
    × (100 * second < made + 60 * second)
    × (made < 100 * second + 60 * second)
    × (trim_space " 000000" ≡ generate_hotp sample_system key (counter_at made))
unfolding validate_totp decode_base32_secret generate_hotp anime_request_server.Totp.matches_skewed
    anime_request_server.Totp.matches_key anime_request_server.Totp.truncated
    anime_request_server.Totp.last_digits anime_request_server.Totp.digit
    anime_request_server.Totp.byte_at anime_request_server.Totp.big_endian
    anime_request_server.Text.byte_length anime_request_server.Text.trim_space
    anime_request_server.Text.to_upper anime_request_server.Text.without
    anime_request_server.Text.trim_right_char
validate_totp-recent_example =
    validate_totp-recent sample_system "abcd" " 000000" (100 * second) refl (omega arith)
      (omega arith)

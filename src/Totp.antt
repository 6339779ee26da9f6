-- ===== src/Totp.antt =====
-- internal/auth/totp.go: the check of a time-based one-time password. Bytes are numbers below 256.
pub mod Window
mod Examples
use Prim.Native.Char.{Char}
use anime_request_server.Prelude.{
  ℕ, zero, suc, ◌+◌, ◌-◌, ◌*◌, ◌/◌, ◌%◌, ◌^◌, String, Bool, true, false, ◌||◌, Option, none, some,
  List, [], ◌∷◌, same_id, ◌==◌, if◌then◌else◌,
}
use anime_request_server.Text.{trim_space, to_upper, push, without, trim_right_char, byte_length}
use anime_request_server.Server.{System}

abbrev pub totp_digits : ℕ
totp_digits = 6

-- totpPeriod in seconds
abbrev pub totp_period : ℕ
totp_period = 30

abbrev pub second : ℕ
second = 1000000000

-- The byte at a position; an array of HMAC-SHA1 has every position that is asked for.
unfoldable pub byte_at : List ℕ → ℕ → ℕ
byte_at [] i = 0
byte_at (b ∷ bs) zero = b
byte_at (b ∷ bs) (suc i) = byte_at bs i

-- binary.BigEndian.PutUint64
unfoldable pub big_endian : ℕ → List ℕ
big_endian n =
    (n / 2 ^ 56) % 256
    ∷ (n / 2 ^ 48) % 256
    ∷ (n / 2 ^ 40) % 256
    ∷ (n / 2 ^ 32) % 256
    ∷ (n / 2 ^ 24) % 256
    ∷ (n / 2 ^ 16) % 256
    ∷ (n / 2 ^ 8) % 256
    ∷ n % 256
    ∷ []

unfoldable pub digit : ℕ → Char
digit n =
    if same_id n 0
    then "0"
    else if same_id n 1
    then "1"
    else if same_id n 2
    then "2"
    else if same_id n 3
    then "3"
    else if same_id n 4
    then "4"
    else if same_id n 5
    then "5"
    else if same_id n 6
    then "6"
    else if same_id n 7
    then "7"
    else if same_id n 8
    then "8"
    else "9"

-- The last digits of a number, in front of a text.
unfoldable pub last_digits : ℕ → ℕ → String → String
unfolding digit
last_digits zero n rest = rest
last_digits (suc k) n rest = last_digits k (n / 10) (push (digit (n % 10)) rest)

-- The truncation of RFC 4226, section 5.3, of a sum of 20 bytes; `|` joins bits that do not overlap.
unfoldable pub truncated : List ℕ → ℕ
unfolding byte_at
truncated sum =
    let offset = byte_at sum 19 % 16 in
    (byte_at sum offset % 128) * 2 ^ 24
    + byte_at sum (offset + 1) * 2 ^ 16
    + byte_at sum (offset + 2) * 2 ^ 8
    + byte_at sum (offset + 3)

-- generateHOTP with six digits
unfoldable pub generate_hotp : System → List ℕ → ℕ → String
unfolding big_endian truncated last_digits
generate_hotp sys key counter =
    last_digits totp_digits (truncated (sys.hmac_sha1 key (big_endian counter)) % 10 ^ totp_digits)
      ""

-- decodeBase32Secret
unfoldable pub decode_base32_secret : System → String → Option (List ℕ)
decode_base32_secret sys secret =
    sys.decode_base32
      (trim_right_char b'=' (without b' ' (to_upper sys.unicode (trim_space secret))))

-- The loop over the skew: the counter before, the counter and the one after, in 64 bits.
unfoldable pub matches_skewed : System → List ℕ → ℕ → String → Bool
matches_skewed sys key counter code =
    generate_hotp sys key ((counter + 2 ^ 64 - 1) % 2 ^ 64) == code
    || generate_hotp sys key (counter % 2 ^ 64) == code
    || generate_hotp sys key ((counter + 1) % 2 ^ 64) == code

unfoldable pub matches_key : System → Option (List ℕ) → ℕ → String → Bool
unfolding matches_skewed
matches_key sys none counter code = false
matches_key sys (some []) counter code = false
matches_key sys (some (b ∷ bs)) counter code = matches_skewed sys (b ∷ bs) counter code

-- validateTOTPAt, at a number of nanoseconds
unfoldable pub validate_totp : System → String → String → ℕ → Bool
unfolding decode_base32_secret matches_key
validate_totp sys secret given now =
    let code = trim_space given in
    if same_id (byte_length code) totp_digits
    then matches_key sys (decode_base32_secret sys secret) (now / second / totp_period) code
    else false

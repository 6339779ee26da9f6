-- ===== src/Totp/Window.antt =====
-- internal/auth/totp.go: which codes ValidateTOTP accepts.
use Prim.Native.Char.{Char, code}
use anime_request_server.Prelude.{
  ℕ, zero, suc, ◌+◌, ◌-◌, ◌*◌, ◌/◌, ◌%◌, ◌^◌, ◌≤◌, ◌<◌, ◌≡◌, refl, sym, ap, subst, ◌≢◌, ◌∙◌, ◌⊎◌,
  inl, inr, String, Bool, true, false, ◌||◌, Bool-cases, Option, none, some, List, [], ◌∷◌, same_id,
  ◌==◌, eq_iff, if◌then◌else◌, arith,
}
use anime_request_server.Text.{is_space, trim_space, push, byte_length}
use anime_request_server.Text.Laws.{no_space, trim_space-no_space, no_space-push, byte_length-push}
use anime_request_server.Server.{System}
use anime_request_server.Totp.{
  totp_digits, totp_period, second, digit, last_digits, truncated, big_endian, generate_hotp,
  decode_base32_secret, matches_skewed, matches_key, validate_totp,
}

-- An ASCII character that is no space.
record IsPlain (c : Char) : Type 0 where
  spaceless : is_space c ≡ false
  ascii : code c < 128

if-IsPlain : (b : Bool) (c d : Char) → IsPlain c → IsPlain d → IsPlain (if b then c else d)
if-IsPlain true c d h k = h
if-IsPlain false c d h k = k

digit-IsPlain : (n : ℕ) → IsPlain (digit n)
unfolding digit is_space
digit-IsPlain n =
    if-IsPlain _ "0" _ (record { spaceless = refl; ascii = omega arith })
      (if-IsPlain _ "1" _ (record { spaceless = refl; ascii = omega arith })
        (if-IsPlain _ "2" _ (record { spaceless = refl; ascii = omega arith })
          (if-IsPlain _ "3" _ (record { spaceless = refl; ascii = omega arith })
            (if-IsPlain _ "4" _ (record { spaceless = refl; ascii = omega arith })
              (if-IsPlain _ "5" _ (record { spaceless = refl; ascii = omega arith })
                (if-IsPlain _ "6" _ (record { spaceless = refl; ascii = omega arith })
                  (if-IsPlain _ "7" _ (record { spaceless = refl; ascii = omega arith })
                    (if-IsPlain _ "8" "9" (record { spaceless = refl; ascii = omega arith })
                      (record { spaceless = refl; ascii = omega arith })))))))))

last_digits-plain :
    (k n : ℕ) (rest : String)
    → no_space rest ≡ true
    → (no_space (last_digits k n rest) ≡ true)
      × (byte_length (last_digits k n rest) ≡ k + byte_length rest)
unfolding last_digits
last_digits-plain zero n rest h = (h, omega arith)
last_digits-plain (suc k) n rest h =
    let d = digit (n % 10) in
    let plain = digit-IsPlain (n % 10) in
    let (spaces, bytes) =
      last_digits-plain k (n / 10) (push d rest) (no_space-push d rest plain.spaceless h) in
    (spaces, omega (arith, bytes, byte_length-push d rest plain.ascii))

-- A code is six bytes without a space.
generate_hotp-plain :
    (sys : System) (key : List ℕ) (counter : ℕ)
    → (trim_space (generate_hotp sys key counter) ≡ generate_hotp sys key counter)
      × (byte_length (generate_hotp sys key counter) ≡ 6)
unfolding generate_hotp no_space byte_length
generate_hotp-plain sys key counter =
    let (spaces, bytes) =
      last_digits-plain 6 (truncated (sys.hmac_sha1 key (big_endian counter)) % 10 ^ 6) "" refl in
    (trim_space-no_space _ spaces, bytes)

abbrev pub counter_at : ℕ → ℕ
counter_at now = now / second / totp_period

-- The counter of a time that is at most 30 seconds away is one of the three.
near_counter :
    (now made : ℕ)
    → now ≤ made + 30 * second
    → made ≤ now + 30 * second
    → (counter_at made + 1 ≡ counter_at now)
      ⊎ ((counter_at made ≡ counter_at now) ⊎ (counter_at made ≡ counter_at now + 1))
near_counter now made h k = ground arith

one_of : (p q r x : String) → (x ≡ p) ⊎ ((x ≡ q) ⊎ (x ≡ r)) → (p == x || q == x || r == x) ≡ true
one_of p q r x (inl e) = ground (arith, eq_iff p x)
one_of p q r x (inr (inl e)) = ground (arith, eq_iff q x)
one_of p q r x (inr (inr e)) = ground (arith, eq_iff r x)

skewed :
    (c d : ℕ)
    → c + 1 < 2 ^ 64
    → (d + 1 ≡ c) ⊎ ((d ≡ c) ⊎ (d ≡ c + 1))
    → (d ≡ (c + 2 ^ 64 - 1) % 2 ^ 64) ⊎ ((d ≡ c % 2 ^ 64) ⊎ (d ≡ (c + 1) % 2 ^ 64))
skewed c d small (inl e) = inl (omega arith)
skewed c d small (inr (inl e)) = inr (inl (omega arith))
skewed c d small (inr (inr e)) = inr (inr (omega arith))

map_three :
    {A B : Type 0} (f : A → B) (x p q r : A)
    → (x ≡ p) ⊎ ((x ≡ q) ⊎ (x ≡ r))
    → (f x ≡ f p) ⊎ ((f x ≡ f q) ⊎ (f x ≡ f r))
map_three f x p q r (inl e) = inl (ap f e)
map_three f x p q r (inr (inl e)) = inr (inl (ap f e))
map_three f x p q r (inr (inr e)) = inr (inr (ap f e))

matches_skewed-near :
    (sys : System) (key : List ℕ) (c d : ℕ)
    → c + 1 < 2 ^ 64
    → (d + 1 ≡ c) ⊎ ((d ≡ c) ⊎ (d ≡ c + 1))
    → matches_skewed sys key c (generate_hotp sys key d) ≡ true
unfolding matches_skewed
matches_skewed-near sys key c d small near =
    one_of _ _ _ _ (map_three (generate_hotp sys key) d _ _ _ (skewed c d small near))

-- ValidateTOTP accepts the code that the secret makes at a time at most 30 seconds before or after,
-- where the secret decodes to some bytes and the counter is below the last one of 64 bits.
pub validate_totp-near :
    (sys : System) (secret : String) (b : ℕ) (bs : List ℕ) (now made : ℕ)
    → decode_base32_secret sys secret ≡ some (b ∷ bs)
    → now ≤ made + 30 * second
    → made ≤ now + 30 * second
    → counter_at now + 1 < 2 ^ 64
    → validate_totp sys secret (generate_hotp sys (b ∷ bs) (counter_at made)) now ≡ true
unfolding validate_totp matches_key
validate_totp-near sys secret b bs now made decoded h k small =
    let (trimmed, six) = generate_hotp-plain sys (b ∷ bs) (counter_at made) in
    rw
      (
        trimmed,
        six,
        decoded,
        matches_skewed-near sys (b ∷ bs) (counter_at now) (counter_at made) small
            (near_counter now made h k),
      )
      refl

which_of : (p q r x : String) → (p == x || q == x || r == x) ≡ true → (x ≡ p) ⊎ ((x ≡ q) ⊎ (x ≡ r))
which_of p q r x h = elim (Bool-cases (p == x)) [
  | inl e ↦ inl (sym ((eq_iff p x).0 e))
  | inr e ↦ elim (Bool-cases (q == x)) [
    | inl f ↦ inr (inl (sym ((eq_iff q x).0 f)))
    | inr f ↦ inr (inr (sym ((eq_iff r x).0 (ground arith))))
  ]
]

-- A time of the counter.
abbrev pub start_of : ℕ → ℕ
start_of d = d * 30 * second

counter_at-start_of : (d : ℕ) → counter_at (start_of d) ≡ d
counter_at-start_of d = omega arith

abbrev IsRecent : System → List ℕ → String → ℕ → ℕ → Type 0
IsRecent sys key text now made =
    (now < made + 60 * second)
    × (made < now + 60 * second)
    × (text ≡ generate_hotp sys key (counter_at made))

matches_skewed-IsRecent :
    (sys : System) (key : List ℕ) (text : String) (now : ℕ)
    → 30 * second ≤ now
    → counter_at now + 1 < 2 ^ 64
    → matches_skewed sys key (counter_at now) text ≡ true
    → (made : ℕ) × IsRecent sys key text now made
unfolding matches_skewed
matches_skewed-IsRecent sys key text now late small h = by_counter (which_of _ _ _ text h)
  where
    made_at :
        (d e : ℕ)
        → text ≡ generate_hotp sys key e
        → e ≡ d
        → now < start_of d + 60 * second
        → start_of d < now + 60 * second
        → (made : ℕ) × IsRecent sys key text now made
    made_at d e same which before behind = (
      start_of d,
      (before, behind, same ∙ ap (generate_hotp sys key) (which ∙ sym (counter_at-start_of d))),
    )

    by_counter :
        (text ≡ generate_hotp sys key ((counter_at now + 2 ^ 64 - 1) % 2 ^ 64))
          ⊎ ((text ≡ generate_hotp sys key (counter_at now % 2 ^ 64))
              ⊎ (text ≡ generate_hotp sys key ((counter_at now + 1) % 2 ^ 64)))
        → (made : ℕ) × IsRecent sys key text now made
    by_counter (inl e) = made_at (counter_at now - 1) _ e (omega arith) (omega arith) (omega arith)
    by_counter (inr (inl e)) =
        made_at (counter_at now) _ e (omega arith) (omega arith) (omega arith)
    by_counter (inr (inr e)) =
        made_at (counter_at now + 1) _ e (omega arith) (omega arith) (omega arith)

-- Nothing else is accepted: where it accepts, the secret decodes to some bytes, and the code without the
-- spaces around it is one that the secret makes less than 60 seconds before or after, where the
-- clock stands at 30 seconds at least and the counter is below the last one of 64 bits.
pub validate_totp-recent :
    (sys : System) (secret given : String) (now : ℕ)
    → validate_totp sys secret given now ≡ true
    → 30 * second ≤ now
    → counter_at now + 1 < 2 ^ 64
    → (key : List ℕ) × (made : ℕ) × (decode_base32_secret sys secret ≡ some key)
      × (key ≢ [])
      × (now < made + 60 * second)
      × (made < now + 60 * second)
      × (trim_space given ≡ generate_hotp sys key (counter_at made))
unfolding validate_totp matches_key
validate_totp-recent sys secret given now accepted late small =
    by_key (decode_base32_secret sys secret) refl
      (second_half (same_id (byte_length (trim_space given)) totp_digits) _ accepted)
  where
    second_half : (b c : Bool) → (if b then c else false) ≡ true → c ≡ true
    second_half b c h = ground arith

    matched :
        (b : ℕ) (bs : List ℕ)
        → decode_base32_secret sys secret ≡ some (b ∷ bs)
        → matches_key sys (decode_base32_secret sys secret) (counter_at now) (trim_space given)
          ≡ true
        → matches_skewed sys (b ∷ bs) (counter_at now) (trim_space given) ≡ true
    matched b bs e h = subst (λ o. matches_key sys o (counter_at now) (trim_space given) ≡ true) e h

    by_key :
        (o : Option (List ℕ))
        → decode_base32_secret sys secret ≡ o
        → matches_key sys (decode_base32_secret sys secret) (counter_at now) (trim_space given)
          ≡ true
        → (key : List ℕ) × (made : ℕ) × (decode_base32_secret sys secret ≡ some key)
          × (key ≢ [])
          × (now < made + 60 * second)
          × (made < now + 60 * second)
          × (trim_space given ≡ generate_hotp sys key (counter_at made))
    by_key none e h = absurd (ground arith)
    by_key (some []) e h = absurd (ground arith)
    by_key (some (b ∷ bs)) e h =
        let (made, recent) =
          matches_skewed-IsRecent sys (b ∷ bs) (trim_space given) now late small
            (matched b bs e h) in
        (b ∷ bs, made, e, (λ q. cc), recent.0, recent.1, recent.2)

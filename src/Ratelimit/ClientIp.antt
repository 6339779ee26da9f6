-- ===== src/Ratelimit/ClientIp.antt =====
-- GetClientIP of internal/ratelimit/login_limiter.go: the address that the limiter is keyed by.
use Prim.Native.Char.{code}
use Prim.Native.String.{[], ◌∷◌}
use anime_request_server.Prelude.{
  ℕ, String, ◌≡◌, ◌≢◌, Bool, false, not, ◌||◌, Option, none, some, eq_iff, same_id, ◌==◌,
  if◌then◌else◌, Bool-cases, inl, inr,
}
use anime_request_server.Text.{before, trim_space}

-- What the function reads of an *http.Request. `header` is Header.Get, "" for an absent header.
pub record Request : Type 0 where
  pub header : String → String
  pub remote_addr : String

unfoldable pub has_char : ℕ → String → Bool
has_char n [] = false
has_char n (c ∷ s) = same_id (code c) n || has_char n s

-- strings.Cut at one code point: what follows the first one.
unfoldable pub after : ℕ → String → Option String
after n [] = none
after n (c ∷ s) = let rest = after n s in if same_id (code c) n then some s else rest

abbrev has_bracket : String → Bool
has_bracket s = has_char b'[' s || has_char b']' s

abbrev plain_host : String → String → Option String
plain_host host port =
    if has_char b':' port || has_bracket host || has_bracket port then none else some host

-- After the closing bracket there has to be a colon and the port.
abbrev bracketed_host : String → String → Option String
bracketed_host host [] = none
bracketed_host host (c ∷ port) =
    if not (same_id (code c) b':') || has_char b':' port || has_char b'[' host || has_bracket port
    then none
    else some host

-- The host of net.SplitHostPort, `none` for its errors.
unfoldable pub split_host : String → Option String
unfolding has_char after before
split_host [] = none
split_host (c ∷ s) =
    if same_id (code c) b'['
    then elim (after b']' s) [ none ↦ none | some rest ↦ bracketed_host (before b']' s) rest ]
    else elim (after b':' (c ∷ s)) [
      | none ↦ none
      | some port ↦ plain_host (before b':' (c ∷ s)) port
    ]

abbrev peer_ip : Request → String
peer_ip r = elim (split_host r.remote_addr) [ none ↦ r.remote_addr | some host ↦ host ]

unfoldable pub get_client_ip : Request → String → String
unfolding split_host before trim_space
get_client_ip r trusted =
    if trusted == ""
    then peer_ip r
    else if r.header trusted == ""
    then peer_ip r
    else let ip = trim_space (before b',' (r.header trusted)) in if ip == "" then peer_ip r else ip

-- No header but the trusted one counts: two requests from one peer whose trusted headers agree have
-- one client address, and with no trusted header the peer alone decides it.
pub get_client_ip-trusted :
    (r s : Request) (trusted : String)
    → r.remote_addr ≡ s.remote_addr
    → (trusted ≢ "" → r.header trusted ≡ s.header trusted)
    → get_client_ip r trusted ≡ get_client_ip s trusted
unfolding get_client_ip
get_client_ip-trusted r s trusted peer same = elim (Bool-cases (trusted == "")) [
  | inl e ↦ rw (e, peer)
  | inr e ↦ rw (e, peer, same (λ q. cc ((eq_iff trusted "").1 q)))
]

-- ===== src/Api/Auth.antt =====
-- internal/handler/api/auth.go. The client's address (LoginLimiter.ClientIP), the decoded body, new
-- identifiers and the random token are arguments; `none` for a token is an error of GenerateSessionToken.
pub mod Logins
pub mod Banned
pub mod Invites
pub mod Once
mod Examples
pub mod Answers
pub mod Joining
pub mod Race
use mathlib.Core.Option
use Prim.Native.String.{count}
use anime_request_server.Prelude.{
  ℕ, ◌+◌, String, Bool, true, false, not, ◌&&◌, ◌||◌, Option, none, some, List, [], ◌∷◌, ltb,
  same_id, ◌==◌, if◌then◌else◌, is_some,
}
use anime_request_server.Text.{trim_space, byte_length}
use anime_request_server.Totp.{validate_totp}
use anime_request_server.Ratelimit.{
  LoginLimiter, record_failed_attempt, is_banned, mark_notified, record_success,
}
use anime_request_server.Models.{Uuid, User, Session, InviteCode, role_user}
use anime_request_server.Server.{
  System, World, ok, M, pure, stop, ◌>>=◌, ◌>>◌, stop_if, or_stop, map_err, reads,
}
use anime_request_server.Repository.Errors.{RepoError, mentions}
use anime_request_server.Repository.Accounts.{
  get_by_username, create_user, create_session, delete_login,
}
use anime_request_server.Repository.Administration.{get_by_code, mark_used}
use anime_request_server.Api.Response.{
  Response, Cookie, session_token, clear_session, Payload, empty, signed_in, notice, json, error,
  internal_error, Handler,
}

-- sessionDuration, 24 hours in nanoseconds
abbrev pub session_duration : ℕ
session_duration = 86400000000000

-- The same in seconds, the MaxAge of the cookie.
abbrev pub session_seconds : ℕ
session_seconds = 86400

abbrev pub internal : RepoError → Response
internal e = internal_error

-- sessionCookie of a token
abbrev pub with_cookie : Cookie → Response → Response
with_cookie c r = record r { cookie = some c }

abbrev pub too_many : Response
too_many = error 429 "too many failed login attempts - temporarily banned"

-- 418 without a body
abbrev pub teapot : Response
teapot = json 418 empty

abbrev pub invalid_credentials : Response
invalid_credentials = error 401 "invalid credentials"

-- A call of the limiter, which is one step.
unfoldable pub with_limiter : {E A : Type 0} → (ℕ → LoginLimiter → LoginLimiter × A) → M E A
with_limiter f w = let (limiter, a) = f w.now w.limiter in ok a (record w { limiter = limiter })

-- The first answer to a banned address.
unfoldable pub notify : {A : Type 0} → String → M Response A
unfolding with_limiter
notify ip = do with_limiter (λ now l. (mark_notified l ip, tt {0})); stop too_many

-- The head of Login: what a banned address gets.
unfoldable pub refuse_banned : String → M Response (Unit {0})
unfolding notify
refuse_banned ip = do
  b ← reads (λ w. is_banned w.limiter w.now ip)
  if b.0 then (if b.1 then stop teapot else notify ip) else pure tt

-- A wrong name or password.
unfoldable pub reject : {A : Type 0} → String → M Response A
unfolding with_limiter notify
reject ip = do
  now_banned ← with_limiter (λ now l. record_failed_attempt l now ip)
  if now_banned then notify ip else stop invalid_credentials

-- The user of a name and a password. Against an unknown name a dummy hash is compared, which has no
-- effect.
unfoldable pub check_user : System → String → String → Option User → M Response User
unfolding reject
check_user sys ip password none = reject ip
check_user sys ip password (some u) =
    if sys.check_password u.password_hash password then pure u else reject ip

abbrev pub valid_code : System → Option String → String → ℕ → Bool
valid_code sys none code now = false
valid_code sys (some secret) code now = validate_totp sys secret code now

-- The TOTP check.
unfoldable pub check_totp : System → User → String → M Response (Unit {0})
check_totp sys u code =
    if not u.totp_enabled
    then pure tt
    else if code == ""
    then stop (error 401 "TOTP code required")
    else do
      now ← reads (λ w. w.now)
      stop_if (not (valid_code sys u.totp_secret code now)) (error 401 "invalid TOTP code")

-- GenerateSessionToken and Sessions.Create: the tail that Login and RedeemInvite share.
unfoldable pub start_session : System → Uuid → Option String → Uuid → M Response String
start_session sys session_id new_token user_id = do
  token ← or_stop new_token internal_error
  now ← reads (λ w. w.now)
  map_err internal
      (create_session session_id user_id (sys.hash_token token) (now + session_duration))
  pure token

pub record LoginBody : Type 0 where
  pub username : String
  pub password : String
  pub totp_code : String

abbrev pub welcome : ℕ → Option User → String → Response
welcome status user token =
    with_cookie (session_token token session_seconds) (json status (signed_in user token))

-- Login
unfoldable pub login : System → String → Option LoginBody → Uuid → Option String → Handler
unfolding refuse_banned check_user check_totp start_session with_limiter
login sys ip body session_id new_token = do
  refuse_banned ip
  b ← or_stop body (error 400 "invalid request body")
  stop_if (trim_space b.username == "" || b.password == "")
      (error 400 "username and password are required")
  found ← map_err internal (get_by_username (trim_space b.username))
  u ← check_user sys ip b.password found
  stop_if u.disabled (error 403 "account is disabled")
  check_totp sys u b.totp_code
  token ← start_session sys session_id new_token u.id
  with_limiter (λ now l. (record_success l ip, tt {0}))
  pure (welcome 200 (some u) token)

-- Logout, for the session of the context.
unfoldable pub logout : Option Session → Handler
logout session = do
  s ← or_stop session (error 401 "not authenticated")
  map_err internal (delete_login s.id)
  pure (with_cookie clear_session (json 200 (notice "logged out")))

pub record RedeemBody : Type 0 where
  pub code : String
  pub username : String
  pub password : String

abbrev pub is_expired : ℕ → Option ℕ → Bool
is_expired now none = false
is_expired now (some t) = ltb t now

-- The checks of RedeemInvite on the code that was found.
unfoldable pub check_invite : Option InviteCode → M Response InviteCode
check_invite found = do
  c ← or_stop found (error 400 "invalid invite code")
  stop_if (is_some c.used_by) (error 400 "invite code already used")
  now ← reads (λ w. w.now)
  stop_if (is_expired now c.expires_at) (error 400 "invite code expired")
  pure c

abbrev pub creating_user : RepoError → Response
creating_user e =
    if mentions "already exists" e then error 409 "username already exists" else internal_error

-- RedeemInvite, from the new password on. A created user is read back; Go would panic on a user
-- that is not there any more, which no code removes.
unfoldable pub finish_redeem :
    System
    → (salt : ℕ) → (user_id session_id : Uuid) → Option String
    → RedeemBody
    → InviteCode
    → Handler
unfolding start_session
finish_redeem sys salt user_id session_id new_token b invite = do
  hash ← or_stop (sys.hash_password salt b.password) internal_error
  user ← map_err creating_user (create_user user_id (trim_space b.username) hash role_user)
  map_err internal (mark_used invite.id user_id)
  token ← start_session sys session_id new_token user_id
  pure (welcome 201 user token)

-- RedeemInvite
unfoldable pub redeem_invite :
    System → (salt : ℕ) → (user_id session_id : Uuid) → Option String → Option RedeemBody → Handler
unfolding check_invite finish_redeem
redeem_invite sys salt user_id session_id new_token body = do
  b ← or_stop body (error 400 "invalid request body")
  stop_if (trim_space b.code == "" || trim_space b.username == "" || b.password == "")
      (error 400 "code, username, and password are required")
  stop_if (ltb (byte_length b.password) 8) (error 400 "password must be at least 8 characters")
  found ← map_err internal (get_by_code (trim_space b.code))
  invite ← check_invite found
  finish_redeem sys salt user_id session_id new_token b invite

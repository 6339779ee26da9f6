-- ===== src/Web/Auth.antt =====
-- internal/handler/web/handler.go: loginSubmit, logout, redeemInviteSubmit. The client's address, the values
-- of the form, new identifiers and the random token are arguments, as for the handlers of the API.
pub mod Agreement
pub mod Logins
mod Examples
use anime_request_server.Prelude.{
  ℕ, ◌+◌, String, Bool, true, false, not, ◌||◌, Option, none, some, ltb, ◌==◌, if◌then◌else◌,
  is_some,
}
use anime_request_server.Text.{trim_space, byte_length}
use anime_request_server.Ratelimit.{is_banned, record_failed_attempt, record_success}
use anime_request_server.Models.{Uuid, User, Session, InviteCode, role_user}
use anime_request_server.Server.{
  System, World, Outcome, ok, err, M, pure, stop, ◌>>=◌, ◌>>◌, stop_if, or_stop, map_err, reads,
}
use anime_request_server.Repository.Errors.{RepoError}
use anime_request_server.Repository.Accounts.{
  get_by_username, create_user, create_session, delete_login,
}
use anime_request_server.Repository.Administration.{get_by_code, mark_used}
use anime_request_server.Api.Response.{session_token, clear_session}
use anime_request_server.Api.Auth.{
  LoginBody, RedeemBody, session_duration, session_seconds, with_limiter, valid_code, is_expired,
}
use anime_request_server.Web.{
  Page, login_page, redeem_page, Answer, failure, shows, redirect, redirect_with, Form,
}

abbrev pub internal : RepoError → Answer
internal e = failure 500 "internal error"

abbrev pub login_error : String → Answer
login_error text = shows (login_page (some text))

abbrev pub banned_page : Answer
banned_page = login_error "Too many failed login attempts - temporarily banned"

-- loginPage
unfoldable pub login_form : Form
login_form = pure (shows (login_page none))

-- A wrong name or password. No notice is kept of the page that tells of a ban.
unfoldable pub reject_login : {A : Type 0} → String → M Answer A
unfolding with_limiter
reject_login ip = do
  now_banned ← with_limiter (λ now l. record_failed_attempt l now ip)
  if now_banned then stop banned_page else stop (login_error "Invalid credentials")

unfoldable pub check_login : System → String → String → Option User → M Answer User
unfolding reject_login
check_login sys ip password none = reject_login ip
check_login sys ip password (some u) =
    if sys.check_password u.password_hash password then pure u else reject_login ip

-- The second factor.
unfoldable pub check_second_factor : System → User → String → M Answer (Unit {0})
check_second_factor sys u code =
    if not u.totp_enabled
    then pure tt
    else if code == ""
    then stop (login_error "2FA code required")
    else do
      now ← reads (λ w. w.now)
      stop_if (not (valid_code sys u.totp_secret code now)) (login_error "Invalid 2FA code")

-- GenerateSessionToken and Sessions.Create
unfoldable pub open_session : System → Uuid → Option String → Uuid → M Answer String
open_session sys session_id new_token user_id = do
  token ← or_stop new_token (failure 500 "internal error")
  now ← reads (λ w. w.now)
  map_err internal
      (create_session session_id user_id (sys.hash_token token) (now + session_duration))
  pure token

-- loginSubmit
unfoldable pub login_submit : System → String → LoginBody → Uuid → Option String → Form
unfolding check_login check_second_factor open_session with_limiter
login_submit sys ip b session_id new_token = do
  banned ← reads (λ w. (is_banned w.limiter w.now ip).0)
  stop_if banned banned_page
  found ← map_err internal (get_by_username (trim_space b.username))
  u ← check_login sys ip b.password found
  stop_if u.disabled (login_error "Account is disabled")
  check_second_factor sys u b.totp_code
  token ← open_session sys session_id new_token u.id
  with_limiter (λ now l. (record_success l ip, tt {0}))
  pure (redirect_with (session_token token session_seconds) "/")

-- An error of a call is dropped.
abbrev pub ignored : {E F : Type 0} → Outcome E (Unit {0}) → Outcome F (Unit {0})
ignored (ok a w) = ok tt w
ignored (err e w) = ok tt w

abbrev pub delete_if_any : Option Session → M Answer (Unit {0})
unfolding delete_login
delete_if_any none w = ok tt w
delete_if_any (some s) w = ignored (delete_login s.id w)

-- logout, for the session of the context
unfoldable pub logout_submit : Option Session → Form
logout_submit session = do delete_if_any session; pure (redirect_with clear_session "/login")

-- redeemInvitePage
unfoldable pub redeem_form : Form
redeem_form = pure (shows (redeem_page none))

abbrev pub redeem_error : String → Answer
redeem_error text = shows (redeem_page (some text))

abbrev pub bad_code : Answer
bad_code = redeem_error "Invalid or used invite code"

-- The checks of the code. That it is not there, that it is used and an error of the call have one answer.
unfoldable pub check_code : Option InviteCode → M Answer InviteCode
check_code found = do
  c ← or_stop found bad_code
  stop_if (is_some c.used_by) bad_code
  now ← reads (λ w. w.now)
  stop_if (is_expired now c.expires_at) (redeem_error "Invite code expired")
  pure c

-- redeemInviteSubmit
unfoldable pub redeem_invite_submit :
    System → (salt : ℕ) → (user_id session_id : Uuid) → Option String → RedeemBody → Form
unfolding check_code open_session
redeem_invite_submit sys salt user_id session_id new_token b = do
  stop_if (trim_space b.code == "" || trim_space b.username == "" || b.password == "")
      (redeem_error "All fields are required")
  stop_if (ltb (byte_length b.password) 8) (redeem_error "Password must be at least 8 characters")
  found ← map_err (λ e. bad_code) (get_by_code (trim_space b.code))
  invite ← check_code found
  hash ← or_stop (sys.hash_password salt b.password) (failure 500 "internal error")
  user ←
      map_err (λ e. redeem_error "Username already exists")
        (create_user user_id (trim_space b.username) hash role_user)
  map_err internal (mark_used invite.id user_id)
  token ← open_session sys session_id new_token user_id
  pure (redirect_with (session_token token session_seconds) "/")

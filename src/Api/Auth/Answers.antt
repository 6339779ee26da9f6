-- ===== src/Api/Auth/Answers.antt =====
-- internal/handler/api/auth.go: the parts of Login on the way that returns.
use anime_request_server.Prelude.{
  ℕ, String, ◌≡◌, refl, ◌⊎◌, inl, inr, true, false, some, [], ◌∷◌, ◌++◌, arith, ◌==◌,
}
use anime_request_server.Text.{trim_space}
use anime_request_server.Ratelimit.{is_banned, record_success}
use anime_request_server.Models.{Uuid, User, Session}
use anime_request_server.Database.Tables.{Db}
use anime_request_server.Database.Accounts.{insert_session}
use anime_request_server.Server.{
  System, World, ok, pure, ◌>>=◌, stop_if, or_stop, map_err, reads, done, exec, query,
}
use anime_request_server.Repository.Accounts.{find_username, get_by_username, create_session}
use anime_request_server.Api.Auth.{
  LoginBody, refuse_banned, check_user, valid_code, check_totp, start_session, with_limiter, login,
  welcome,
}
use anime_request_server.Api.Auth.Logins.{new_session, with_session, IsFreshSession}

-- No call will be lost.
abbrev pub undisturbed : World → World
undisturbed w = record w { faults = [] }

abbrev pub TotpAnswered : System → User → String → ℕ → Type 0
TotpAnswered sys u code now =
    (u.totp_enabled ≡ false)
    ⊎ ((code == "") ≡ false) × (valid_code sys u.totp_secret code now ≡ true)

insert_session-fresh :
    (s : Session) (d : Db)
    → IsFreshSession s d
    → insert_session s d ≡ done tt (record d { sessions = d.sessions ++ s ∷ [] })
unfolding insert_session
insert_session-fresh s d h = rw (h.0, h.1, h.2) refl

module _ (sys : System) (v : World) where
  check_totp-ok :
      (u : User) (code : String)
      → TotpAnswered sys u code v.now
      → check_totp sys u code (undisturbed v) ≡ ok tt (undisturbed v)
  unfolding check_totp ◌>>=◌ pure reads stop_if
  check_totp-ok u code (inl off) = rw off refl
  check_totp-ok u code (inr (given, valid)) = ground arith

  pub start_session-ok :
      (id user_id : Uuid) (token : String)
      → IsFreshSession (new_session id user_id (sys.hash_token token) v.now) v.db
      → start_session sys id (some token) user_id (undisturbed v)
        ≡ ok token
            (undisturbed (with_session (new_session id user_id (sys.hash_token token) v.now) v))
  unfolding start_session ◌>>=◌ pure reads or_stop map_err create_session exec
  start_session-ok id user_id token fresh =
      rw (insert_session-fresh (new_session id user_id (sys.hash_token token) v.now) v.db fresh)
        refl

-- Login returns where the address is not banned, the name and the password are not empty and are
-- those of a user that is not disabled, the code passes where the user has TOTP, a token is
-- drawn whose session clashes with no other, and no call of the database is lost.
pub login-ok :
    (sys : System) (ip : String) (b : LoginBody) (id : Uuid) (token : String) (u : User) (v : World)
    → (is_banned v.limiter v.now ip).0 ≡ false
    → (trim_space b.username == "") ≡ false
    → (b.password == "") ≡ false
    → find_username (trim_space b.username) v.db ≡ some u
    → sys.check_password u.password_hash b.password ≡ true
    → u.disabled ≡ false
    → TotpAnswered sys u b.totp_code v.now
    → IsFreshSession (new_session id u.id (sys.hash_token token) v.now) v.db
    → login sys ip (some b) id (some token) (undisturbed v)
      ≡ ok
          (welcome 200 (some u) token)
          (record (undisturbed
            (with_session (new_session id u.id (sys.hash_token token) v.now) v)) {
              limiter = record_success v.limiter ip;
            })
unfolding login ◌>>=◌ pure reads or_stop stop_if map_err get_by_username query exec refuse_banned
    check_user with_limiter
login-ok sys ip b id token u v free full given named right enabled totp fresh =
    rw
      (
        free,
        full,
        given,
        named,
        right,
        enabled,
        check_totp-ok sys v u b.totp_code totp,
        start_session-ok sys v id u.id token fresh,
      )
      refl

-- ===== src/Api/Auth/Banned.antt =====
-- internal/handler/api/auth.go: what a banned address gets from Login, and what a wrong password does.
use anime_request_server.Prelude.{
  ℕ, String, ◌≡◌, refl, Bool, true, false, Option, none, some, List, arith, ◌==◌, eq_refl,
  if◌then◌else◌,
}
use anime_request_server.Text.{trim_space}
use anime_request_server.Ratelimit.{
  IpAttempts, LoginLimiter, is_banned, banned_entry, mark_notified, notify_entry,
  record_failed_attempt,
}
use anime_request_server.Models.{Uuid, User}
use anime_request_server.Server.{
  System, World, err, pure, stop, ◌>>=◌, stop_if, or_stop, map_err, reads, exec, query,
}
use anime_request_server.Repository.Accounts.{find_username, get_by_username}
use anime_request_server.Api.Auth.{
  LoginBody, refuse_banned, reject, notify, check_user, with_limiter, login, too_many, teapot,
  invalid_credentials,
}
use anime_request_server.Api.Auth.Answers.{undisturbed}

still_banned :
    (l : LoginLimiter) (at : ℕ) (ip : String)
    → (is_banned l at ip).0 ≡ true
    → is_banned (mark_notified l ip) at ip ≡ (true, true)
unfolding is_banned mark_notified banned_entry notify_entry
still_banned l at ip h = rw (eq_refl ip) (entry (l.attempts ip) h)
  where
    entry :
        (o : Option IpAttempts)
        → (banned_entry l at o).0 ≡ true
        → banned_entry (mark_notified l ip) at (notify_entry o) ≡ (true, true)
    entry none k = ground arith
    entry (some e) k = ground arith

-- A banned address that was not told gets 429 from Login, and from then on 418 for as long as the ban
-- lasts, whatever it sends and whichever calls are lost; neither touches the tables, and all that
-- changes is that the address was told.
pub login-banned :
    (sys : System) (ip : String) (body body2 : Option LoginBody) (id id2 : Uuid)
    (new_token new_token2 : Option String) (v : World) (at : ℕ) (faults : List Bool)
    → is_banned v.limiter v.now ip ≡ (true, false)
    → (is_banned v.limiter at ip).0 ≡ true
    → let told = record v { limiter = mark_notified v.limiter ip } in
      let later = record told { now = at; faults = faults } in
      (login sys ip body id new_token v ≡ err too_many told)
      × (login sys ip body2 id2 new_token2 later ≡ err teapot later)
unfolding login refuse_banned notify with_limiter reads ◌>>=◌ stop
login-banned sys ip body body2 id id2 new_token new_token2 v at faults now later =
    (rw now refl, rw (still_banned v.limiter at ip later) refl)

-- The name is not known, or the password is not the user's.
abbrev pub Mismatch : System → String → Option User → Type 0
Mismatch sys password none = Unit {0}
Mismatch sys password (some u) = sys.check_password u.password_hash password ≡ false

-- The limiter after a failure: the address is told at once of the ban that it brings about.
abbrev pub failed_limiter : LoginLimiter × Bool → String → LoginLimiter
failed_limiter (l, true) ip = mark_notified l ip
failed_limiter (l, false) ip = l

reject-answer :
    {A : Type 0} (ip : String) (v : World) (failed : LoginLimiter × Bool)
    → record_failed_attempt v.limiter v.now ip ≡ failed
    → reject {A = A} ip v
      ≡ err
          (if failed.1 then too_many else invalid_credentials)
          (record v { limiter = failed_limiter failed ip })
unfolding reject notify with_limiter ◌>>=◌ stop
reject-answer ip v (l, true) h = rw h refl
reject-answer ip v (l, false) h = rw h refl

check_user-Mismatch :
    (sys : System) (ip password : String) (found : Option User) (v : World)
    → Mismatch sys password found
    → check_user sys ip password found v ≡ reject ip v
unfolding check_user
check_user-Mismatch sys ip password none v h = refl
check_user-Mismatch sys ip password (some u) v h = rw h refl

-- From an address that is not banned, an unknown name and a wrong password get the same answer and have the same
-- effect, where the name and the password are not empty and no call of the database is lost: one more failure of
-- the address, 401, or 429 where it brings about a ban.
pub login-Mismatch :
    (sys : System) (ip : String) (b : LoginBody) (id : Uuid) (new_token : Option String) (v : World)
    → (is_banned v.limiter v.now ip).0 ≡ false
    → (trim_space b.username == "") ≡ false
    → (b.password == "") ≡ false
    → Mismatch sys b.password (find_username (trim_space b.username) v.db)
    → let failed = record_failed_attempt v.limiter v.now ip in
      login sys ip (some b) id new_token (undisturbed v)
      ≡ err
          (if failed.1 then too_many else invalid_credentials)
          (record (undisturbed v) { limiter = failed_limiter failed ip })
unfolding login refuse_banned reads pure or_stop stop_if map_err get_by_username query exec ◌>>=◌
login-Mismatch sys ip b id new_token v free full given wrong =
    rw
      (
        free,
        full,
        given,
        check_user-Mismatch sys ip b.password (find_username (trim_space b.username) v.db)
            (undisturbed v) wrong,
        reject-answer {A = User} ip (undisturbed v) (record_failed_attempt v.limiter v.now ip) refl,
      )
      refl

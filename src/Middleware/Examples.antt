-- ===== src/Middleware/Examples.antt =====
-- The theorems on sessions at concrete inputs.
use anime_request_server.Prelude.{◌≡◌, refl, inl, true, some, [], ◌∷◌, arith}
use anime_request_server.Models.{Session, User}
use anime_request_server.Ratelimit.{record_success}
use anime_request_server.Server.{World, ok}
use anime_request_server.Server.Returns.{Returned}
use anime_request_server.Server.Sample.{sample_system, sample_world, ada}
use anime_request_server.Repository.Accounts.{without_secrets}
use anime_request_server.Api.Auth.{LoginBody, login, logout, welcome}
use anime_request_server.Api.Auth.Logins.{new_session, with_session}
use anime_request_server.Api.Auth.Answers.{undisturbed, login-ok}
use anime_request_server.Middleware.{context_of}
use anime_request_server.Middleware.Cleanup.{swept, with_swept, context_of-swept}
use anime_request_server.Middleware.IpLog.{header_key}
use anime_request_server.Middleware.Sessions.{
  named_by, day_session, context_of-login, logout-context, Ended,
}

abbrev opened : Session
opened = new_session 7 1 "token" 100

abbrev later : World
later = record (with_session opened sample_world) {
  limiter = record_success sample_world.limiter "ip";
}

abbrev credentials : LoginBody
credentials = record { username = "ada"; password = "pw"; totp_code = "" }

entered :
    login sample_system "ip" (some credentials) 7 (some "token") sample_world
    ≡ ok (welcome 200 (some ada) "token") later
unfolding anime_request_server.Ratelimit.is_banned anime_request_server.Text.trim_space
entered =
    login-ok sample_system "ip" credentials 7 "token" ada sample_world refl refl refl refl refl refl
      (inl refl) (refl, refl, refl)

context_of-login_example :
    (u : User) × (named_by (some credentials) sample_world.db ≡ some u)
    × (context_of sample_system "token" (undisturbed (record later { now = 200 }))
        ≡ ok
            (some (day_session 7 u.id "token" 100, without_secrets u))
            (undisturbed (record later { now = 200 })))
context_of-login_example =
    context_of-login sample_system "ip" (some credentials) 7 "token" sample_world later
      (welcome 200 (some ada) "token") 200 entered refl (refl, (refl, tt)) (omega arith)

logout-context_example :
    Returned (λ r w. Ended sample_system "token" 300 (true ∷ []) w) (logout (some opened) later)
logout-context_example = logout-context sample_system "token" opened later 300 (true ∷ []) refl refl

context_of-swept_example :
    context_of sample_system "token" (swept 150 (record later { now = 200 }))
    ≡ with_swept 150 (context_of sample_system "token" (record later { now = 200 }))
context_of-swept_example =
    context_of-swept sample_system "token" 150 (record later { now = 200 }) (omega arith)

key_of_header : header_key sample_system.unicode "x-real-ip" ≡ "x_real_ip"
unfolding header_key
key_of_header = refl

-- ===== src/Api/Auth/Examples.antt =====
-- Tests of the handlers of authentication and their theorems at concrete inputs.
use anime_request_server.Prelude.{◌≡◌, refl, true, false, none, some, [], ◌∷◌}
use anime_request_server.Ratelimit.{record_failed_attempt, mark_notified, record_success}
use anime_request_server.Models.{InviteCode}
use anime_request_server.Server.{World, err}
use anime_request_server.Server.Returns.{Returned}
use anime_request_server.Server.Sample.{sample_system, sample_world}
use anime_request_server.Api.Response.{response}
use anime_request_server.Api.Auth.{
  LoginBody, RedeemBody, login, redeem_invite, too_many, teapot, invalid_credentials,
}
use anime_request_server.Api.Auth.Logins.{Admitted, login-Admitted}
use anime_request_server.Api.Auth.Answers.{undisturbed}
use anime_request_server.Api.Auth.Banned.{login-banned, login-Mismatch}
use anime_request_server.Api.Auth.Once.{Attempt, attempt, attempts, redeem_invite-once}
use anime_request_server.Api.Auth.Invites.{Redeemed, redeem_invite-Redeemed}

abbrev credentials : LoginBody
credentials = record { username = " ada "; password = "pw"; totp_code = "" }

abbrev guess : LoginBody
guess = record { username = "eve"; password = "pw"; totp_code = "" }

login-Admitted_example :
    Returned
      (Admitted sample_system "ip" (some credentials) 7 (some "token") sample_world)
      (login sample_system "ip" (some credentials) 7 (some "token") sample_world)
login-Admitted_example =
    login-Admitted sample_system "ip" (some credentials) 7 (some "token") sample_world

-- The address has failed twice, which the limit allows once.
abbrev banned_world : World
banned_world = record sample_world {
  limiter = record sample_world.limiter {
    attempts = λ ip. some (record {
      count = 2;
      first_try = 95;
      banned = true;
      banned_at = 96;
      notified_of_ban = false;
    });
  };
}

login-banned_example :
    (login sample_system "ip" (some credentials) 7 (some "token") banned_world
      ≡ err too_many (record banned_world { limiter = mark_notified banned_world.limiter "ip" }))
    × (login sample_system "ip" none 7 none (record banned_world {
      limiter = mark_notified banned_world.limiter "ip";
      now = 110;
      faults = [];
    })
        ≡ err teapot (record banned_world {
          limiter = mark_notified banned_world.limiter "ip";
          now = 110;
          faults = [];
        }))
unfolding anime_request_server.Ratelimit.is_banned
login-banned_example =
    login-banned sample_system "ip" (some credentials) none 7 7 (some "token") none banned_world 110
      [] refl refl

login-Mismatch_example :
    login sample_system "ip" (some guess) 7 (some "token") (undisturbed sample_world)
    ≡ err invalid_credentials (record (undisturbed sample_world) {
      limiter = (record_failed_attempt sample_world.limiter 100 "ip").0;
    })
unfolding anime_request_server.Ratelimit.is_banned anime_request_server.Text.trim_space
    anime_request_server.Api.Response.error record_failed_attempt
login-Mismatch_example =
    login-Mismatch sample_system "ip" guess 7 (some "token") sample_world refl refl refl tt

abbrev invitation : InviteCode
invitation = record {
  id = 3;
  code = "welcome";
  created_by = 1;
  used_by = none;
  expires_at = some 500;
  created_at = 0;
}

abbrev invited_world : World
invited_world = record sample_world {
  db = record sample_world.db { invite_codes = invitation ∷ [] };
}

abbrev newcomer : RedeemBody
newcomer = record { code = "welcome"; username = "cleo"; password = "secret12" }

redeem_invite-Redeemed_example :
    Returned
      (Redeemed sample_system 0 5 8 (some "t5") (some newcomer) invited_world)
      (redeem_invite sample_system 0 5 8 (some "t5") (some newcomer) invited_world)
redeem_invite-Redeemed_example =
    redeem_invite-Redeemed sample_system 0 5 8 (some "t5") (some newcomer) invited_world

abbrev first_attempt : Attempt
first_attempt = record {
  now = 100;
  faults = [];
  salt = 0;
  user_id = 5;
  session_id = 8;
  new_token = some "t5";
  body = some newcomer;
}

abbrev second_attempt : Attempt
second_attempt = record first_attempt {
  now = 130;
  user_id = 6;
  session_id = 9;
  new_token = some "t6";
  body = some (record newcomer { username = "dora" });
}

redeem_invite-once_example :
    Returned
      (λ r w.
        Returned
          (λ _ _. ⊥)
          (attempt sample_system second_attempt (attempts sample_system (second_attempt ∷ []) w)))
      (attempt sample_system first_attempt invited_world)
redeem_invite-once_example =
    redeem_invite-once sample_system first_attempt second_attempt (second_attempt ∷ [])
      invited_world refl

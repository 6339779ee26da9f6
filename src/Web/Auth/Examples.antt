-- ===== src/Web/Auth/Examples.antt =====
-- The theorems on loginSubmit and redeemInviteSubmit at concrete inputs, and tests.
use anime_request_server.Prelude.{refl, none, some, [], ◌∷◌}
use anime_request_server.Models.{InviteCode}
use anime_request_server.Server.{World}
use anime_request_server.Server.Agrees.{Match}
use anime_request_server.Server.Returns.{Alike}
use anime_request_server.Server.Sample.{sample_system, sample_world}
use anime_request_server.Api.Auth.{LoginBody, RedeemBody, login, redeem_invite}
use anime_request_server.Web.Auth.{login_submit, redeem_invite_submit}
use anime_request_server.Web.Auth.Agreement.{SameCookie, redeem_invite_submit-redeem_invite}
use anime_request_server.Web.Auth.Logins.{AlikeButNotices, login_submit-login}

abbrev credentials : LoginBody
credentials = record { username = " ada "; password = "pw"; totp_code = "" }

login_submit-login_example :
    Match AlikeButNotices SameCookie
      (login_submit sample_system "ip" credentials 7 (some "token") sample_world)
      (login sample_system "ip" (some credentials) 7 (some "token") sample_world)
unfolding anime_request_server.Text.trim_space
login_submit-login_example =
    login_submit-login sample_system "ip" credentials 7 (some "token") sample_world refl

abbrev invitation : InviteCode
invitation = record {
  id = 3;
  code = "welcome";
  created_by = 1;
  used_by = none;
  expires_at = some 500;
  created_at = 0;
}

abbrev invited_world : World
invited_world = record sample_world {
  db = record sample_world.db { invite_codes = invitation ∷ [] };
}

abbrev newcomer : RedeemBody
newcomer = record { code = "welcome"; username = "cleo"; password = "secret12" }

redeem_invite_submit-redeem_invite_example :
    Match Alike SameCookie
      (redeem_invite_submit sample_system 0 5 8 (some "t5") newcomer invited_world)
      (redeem_invite sample_system 0 5 8 (some "t5") (some newcomer) invited_world)
redeem_invite_submit-redeem_invite_example =
    redeem_invite_submit-redeem_invite sample_system 0 5 8 (some "t5") newcomer invited_world

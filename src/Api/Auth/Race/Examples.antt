-- ===== src/Api/Auth/Race/Examples.antt =====
-- Two callers with one invite code, at concrete inputs.
use anime_request_server.Prelude.{◌≡◌, refl, none, some, [], ◌∷◌, ◌++◌, map, arith}
use anime_request_server.Models.{InviteCode}
use anime_request_server.Database.Accounts.{use_code}
use anime_request_server.Server.{World, ok}
use anime_request_server.Server.Sample.{sample_system, sample_world}
use anime_request_server.Api.Auth.{welcome}
use anime_request_server.Api.Auth.Answers.{undisturbed}
use anime_request_server.Api.Auth.Race.{
  Newcomer, user_of, session_of, both_checked, both_checked-ok,
}

abbrev shared_code : InviteCode
shared_code = record {
  id = 3;
  code = "abc";
  created_by = 1;
  used_by = none;
  expires_at = some 150;
  created_at = 90;
}

abbrev shared_world : World
shared_world = record sample_world {
  db = record sample_world.db { invite_codes = shared_code ∷ [] };
}

abbrev cleo : Newcomer
cleo = record {
  body = record { code = "abc"; username = "cleo"; password = "secret12" };
  salt = 0;
  user_id = 5;
  session_id = 8;
  token = "t5";
}

abbrev dora : Newcomer
dora = record {
  body = record { code = "abc"; username = "dora"; password = "secret34" };
  salt = 0;
  user_id = 6;
  session_id = 9;
  token = "t6";
}

both_checked-ok_example :
    (w : World) × (both_checked sample_system cleo dora (undisturbed shared_world)
      ≡ ok
          (
            welcome 201 (some (user_of cleo "secret12" 100)) "t5",
            welcome 201 (some (user_of dora "secret34" 100)) "t6",
          )
          w)
    × (w.db.users
        ≡ (shared_world.db.users ++ user_of cleo "secret12" 100 ∷ [])
          ++ user_of dora "secret34" 100 ∷ [])
    × (w.db.sessions
        ≡ ([] ++ session_of sample_system cleo 100 ∷ []) ++ session_of sample_system dora 100 ∷ [])
    × (w.db.invite_codes ≡ map (use_code 3 6) (map (use_code 3 5) (shared_code ∷ [])))
unfolding anime_request_server.Text.trim_space anime_request_server.Text.byte_length
both_checked-ok_example =
    both_checked-ok sample_system cleo dora "secret12" "secret34" shared_code shared_world refl refl
      refl refl refl refl (omega arith) (omega arith) refl refl
      (record { user = refl; username = refl; session = refl; token_hash = refl })
      (record { user = refl; username = refl; session = refl; token_hash = refl }) refl refl refl
      refl

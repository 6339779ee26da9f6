-- ===== src/Command/Examples.antt =====
-- Tests of the commands, and their theorems at concrete inputs.
use anime_request_server.Prelude.{◌≡◌, refl, true, false, none, some, [], ◌∷◌}
use anime_request_server.Text.Numbers.{pos, negsuc}
use anime_request_server.Text.{trim_space, byte_length}
use anime_request_server.Database.Accounts.{insert_user}
use anime_request_server.Models.{User}
use anime_request_server.Server.{
  World, ok, err, after, pure, ◌>>=◌, map_err, query, stop_if, or_stop,
}
use anime_request_server.Server.Agrees.{Match}
use anime_request_server.Server.Returns.{Alike, Returned}
use anime_request_server.Server.Sample.{sample_system, sample_world}
use anime_request_server.Repository.Accounts.{new_user, list_users, create_user}
use anime_request_server.Api.Admin.{create_account}
use anime_request_server.Api.Auth.Answers.{undisturbed}
use anime_request_server.Config.{Config}
use anime_request_server.Command.{
  Setting, Terminal, UserFlags, admin_created, run_init, ready_to_serve, run_create_user,
  run_generate_invite, flag_expiry, said,
}
use anime_request_server.Command.Admins.{
  started, Inited, run_init-Inited, run_init-once, SameUser, body_of,
  run_create_user-create_account,
}

abbrev empty_world : World
empty_world = record sample_world { db = record sample_world.db { users = [] } }

abbrev ready : Setting
ready = record { database_url = "postgres://db"; migrated = true; connected = true }

abbrev settings : Config
settings = record {
  database_url = "postgres://db";
  server_host = "0.0.0.0";
  server_port = pos 8080;
  session_secret = "";
  webui_enabled = true;
  real_ip_header = "";
  cookie_secure = true;
  log_request_ips = false;
}

abbrev answers : Terminal
answers = record {
  username = " root\n";
  password = some "secret12";
  confirmation = some "secret12 ";
}

abbrev root : User
root = new_user 9 100 "root" "secret12" "admin"

abbrev first_admin : World
first_admin = record empty_world { db = record empty_world.db { users = root ∷ [] } }

init_empty :
    run_init ready sample_system 0 9 answers empty_world ≡ ok (admin_created "root") first_admin
unfolding run_init ◌>>=◌ map_err list_users query stop_if trim_space or_stop byte_length create_user
    insert_user
init_empty = refl

run_init-Inited_example :
    Returned
      (Inited sample_system 0 9 answers empty_world)
      (run_init ready sample_system 0 9 answers empty_world)
run_init-Inited_example = run_init-Inited ready sample_system 0 9 answers empty_world

run_init-once_example :
    (ready_to_serve true (undisturbed (record first_admin { now = 500 }))
      ≡ ok tt (undisturbed (record first_admin { now = 500 })))
    × ((after (run_init ready sample_system 1 10 answers (record first_admin { now = 500 }))).db
        ≡ first_admin.db)
run_init-once_example =
    run_init-once ready ready sample_system 0 1 9 10 answers answers empty_world first_admin
      (record first_admin { now = 500 }) (admin_created "root") init_empty refl

abbrev flags : UserFlags
flags = record { username = "cleo"; password = "secret12"; role = "mod" }

run_create_user-create_account_example :
    Match Alike SameUser
      (run_create_user (started settings) sample_system 0 9 flags sample_world)
      (create_account sample_system 0 9 (some (body_of flags)) sample_world)
unfolding trim_space
run_create_user-create_account_example =
    run_create_user-create_account settings sample_system 0 9 flags sample_world refl

no_expiry : flag_expiry 100 (negsuc 4) ≡ none
unfolding flag_expiry
no_expiry = refl

no_admin :
    run_generate_invite (started settings) (pos 0) 4 (some "c") empty_world
    ≡ err (said "no admin user found") empty_world
unfolding run_generate_invite ◌>>=◌ map_err list_users query or_stop pure stop_if
no_admin = refl

-- ===== src/Command.antt =====
-- cmd/anime-request-server/main.go: the commands init, create-user and generate-invite,
-- the check with which serve begins, with IsInitialized of internal/database/database.go, and the clean-up of
-- sessions that serve runs. What the terminal gives, and whether the migrations and the
-- connection succeed, are arguments; writing to the terminal is left out.
pub mod Admins
mod Examples
use anime_request_server.Prelude.{
  ℕ, ◌+◌, ◌*◌, String, Bool, true, false, not, ◌||◌, Option, none, some, List, [], ◌∷◌, ltb, any,
  find, ◌==◌, if◌then◌else◌,
}
use anime_request_server.Text.{trim_space, byte_length}
use anime_request_server.Text.Numbers.{ℤ, pos, negsuc}
use anime_request_server.Models.{Uuid, User, role_admin, role_mod, role_user}
use anime_request_server.Config.{Config, Loaded, loaded, rejected}
use anime_request_server.Server.{
  System, World, M, after, query, pure, stop, ◌>>=◌, ◌>>◌, stop_if, or_stop, map_err, reads,
}
use anime_request_server.Repository.Errors.{RepoError, wrapped}
use anime_request_server.Repository.Accounts.{list_users, create_user, delete_expired}
use anime_request_server.Repository.Administration.{create_invite}
use anime_request_server.Api.Admin.{hour, add_wrapped}

-- What a command returns as an error: a text of its own, or one before that of a repository.
pub data CommandError : Type 0 where
  said : String → CommandError
  because : String → RepoError → CommandError

-- What the command says at its end.
pub data Report : Type 0 where
  admin_exists : Report
  admin_created : String → Report
  user_created : Option User → Report
  invite_created : String → Option ℕ → Report

abbrev pub Command : Type 0
Command = M CommandError Report

-- What the terminal answers to the questions of init; a password is `none` where reading it fails.
pub record Terminal : Type 0 where
  pub username : String
  pub password : Option String
  pub confirmation : Option String

abbrev pub is_admin_row : User → Bool
is_admin_row u = u.role == role_admin

-- The questions of init and the new admin.
unfoldable pub create_admin : System → (salt : ℕ) → Uuid → Terminal → Command
create_admin sys salt id t = do
  stop_if (trim_space t.username == "") (said "username cannot be empty")
  given ← or_stop t.password (said "reading password")
  stop_if (ltb (byte_length (trim_space given)) 8) (said "password must be at least 8 characters")
  confirmed ← or_stop t.confirmation (said "reading password confirmation")
  stop_if (not (trim_space given == trim_space confirmed)) (said "passwords do not match")
  hash ← or_stop (sys.hash_password salt (trim_space given)) (said "hashing password")
  made ←
      map_err (because "creating admin user: ")
        (create_user id (trim_space t.username) hash role_admin)
  pure (admin_created (trim_space t.username))

-- runInit, from the check for an admin on
unfoldable pub init_admin : System → (salt : ℕ) → Uuid → Terminal → Command
unfolding create_admin
init_admin sys salt id t = do
  users ← map_err (because "checking users: ") list_users
  if any is_admin_row users then pure admin_exists else create_admin sys salt id t

-- What init meets outside: DATABASE_URL, and whether the migrations and the connection succeed.
pub record Setting : Type 0 where
  pub database_url : String
  pub migrated : Bool
  pub connected : Bool

-- runInit
unfoldable pub run_init : Setting → System → (salt : ℕ) → Uuid → Terminal → Command
unfolding init_admin
run_init e sys salt id t = do
  stop_if (e.database_url == "") (said "DATABASE_URL is required")
  stop_if (not e.migrated) (said "migrations failed")
  stop_if (not e.connected) (said "connecting to database")
  init_admin sys salt id t

-- What the other commands meet outside: what config.Load returns, and whether the connection succeeds.
pub record Startup : Type 0 where
  pub configuration : Loaded Config
  pub connected : Bool

abbrev configured : Loaded Config → M CommandError (Unit {0})
configured (loaded c) = pure tt
configured (rejected e) = stop (said "loading config")

unfoldable pub start : Startup → M CommandError (Unit {0})
start e = do configured e.configuration; stop_if (not e.connected) (said "connecting to database")

-- database.IsInitialized: `exists` is whether there is a table of users, which it is once the migrations have run.
unfoldable pub is_initialized : (exists : Bool) → M RepoError Bool
is_initialized exists = do
  found ← map_err (wrapped "checking if database is initialized: ") (query (λ now d. exists))
  if not found
      then pure false
      else map_err (wrapped "checking for admin user: ") (query (λ now d. any is_admin_row d.users))

-- The check of runServe before it serves.
unfoldable pub ready_to_serve : (exists : Bool) → M CommandError (Unit {0})
unfolding is_initialized
ready_to_serve exists = do
  initialized ← map_err (because "checking initialization: ") (is_initialized exists)
  stop_if (not initialized) (
      said
        "database is not initialized: run 'anime-request-server init' to set up the database and create an admin user")

-- One tick of the clean-up that runServe starts; an error is logged, and the next tick tries again.
unfoldable pub session_cleanup : World → World
unfolding delete_expired
session_cleanup w = after (delete_expired w)

-- The flags of create-user.
pub record UserFlags : Type 0 where
  pub username : String
  pub password : String
  pub role : String

-- runCreateUser. The name is not trimmed here.
unfoldable pub run_create_user : Startup → System → (salt : ℕ) → Uuid → UserFlags → Command
unfolding start
run_create_user e sys salt id f = do
  stop_if (f.username == "" || f.password == "") (said "--username and --password are required")
  stop_if (ltb (byte_length f.password) 8) (said "password must be at least 8 characters")
  stop_if (not (f.role == role_admin || f.role == role_mod || f.role == role_user))
      (said "role must be 'admin', 'mod', or 'user'")
  start e
  hash ← or_stop (sys.hash_password salt f.password) (said "hashing password")
  user ← map_err (because "creating user: ") (create_user id f.username hash f.role)
  pure (user_created user)

-- The expiry of a code: none for zero and below. The product is a 64-bit Duration.
unfoldable pub flag_expiry : ℕ → ℤ → Option ℕ
unfolding add_wrapped
flag_expiry now (negsuc h) = none
flag_expiry now (pos h) = if ltb 0 h then some (add_wrapped now (h * hour)) else none

-- runGenerateInvite, for the flag expires-in-hours; the code is random, `none` for an error.
unfoldable pub run_generate_invite : Startup → ℤ → Uuid → Option String → Command
unfolding flag_expiry start
run_generate_invite e hours id new_code = do
  start e
  users ← map_err (because "listing users: ") list_users
  admin ← or_stop (find is_admin_row users) (said "no admin user found")
  code ← or_stop new_code (said "generating code")
  now ← reads (λ w. w.now)
  made ←
      map_err (because "creating invite: ") (create_invite id code admin.id (flag_expiry now hours))
  pure (invite_created code (flag_expiry now hours))

-- ===== src/Database/Accounts.antt =====
-- The effect of the statements of internal/repository/users.go and admin.go on users, sessions,
-- invite_codes and server_destinations, with the constraints of internal/database/migrations (001,
-- 002, 003, 005, 009): CHECK constraints, then unique indexes, then foreign keys. The texts are ones that
-- PostgreSQL stores and indexes; a call that it refuses for its texts is one of the lost calls of Server.
use anime_request_server.Prelude.{
  ℕ, String, Bool, not, ◌&&◌, ◌||◌, some, [], ◌∷◌, ◌++◌, map, leb, same_id, ◌==◌, if◌then◌else◌,
  any, filter, length,
}
use anime_request_server.Models.{
  Uuid, User, Session, InviteCode, ServerDestination, role_admin, role_mod, role_user,
}
use anime_request_server.Database.Tables.{Db}
use anime_request_server.Database.Requests.{pg_error, has_user}
use anime_request_server.Server.{Effect, done, refuse}

abbrev pub is_role : String → Bool
is_role r = r == role_admin || r == role_mod || r == role_user

-- INSERT INTO users
unfoldable pub insert_user : User → Db → Effect (Unit {0})
insert_user u d =
    if not (is_role u.role)
    then refuse (pg_error "23514" "users_role_check")
    else if has_user u.id d
    then refuse (pg_error "23505" "users_pkey")
    else if any (λ (v : User). v.username == u.username) d.users
    then refuse (pg_error "23505" "users_username_key")
    else done tt (record d { users = d.users ++ u ∷ [] })

abbrev pub set_user : Uuid → (User → User) → User → User
set_user id set u = if same_id u.id id then set u else u

-- UPDATE users SET … WHERE id = …, for sets that leave the unique columns alone.
unfoldable pub update_user : Uuid → (User → User) → Db → Effect (Unit {0})
update_user id set d =
    if any (λ (u : User). same_id u.id id && not (is_role (set u).role)) d.users
    then refuse (pg_error "23514" "users_role_check")
    else done tt (record d { users = map (set_user id set) d.users })

-- INSERT INTO sessions
unfoldable pub insert_session : Session → Db → Effect (Unit {0})
insert_session s d =
    if any (λ (t : Session). same_id t.id s.id) d.sessions
    then refuse (pg_error "23505" "sessions_pkey")
    else if any (λ (t : Session). t.token_hash == s.token_hash) d.sessions
    then refuse (pg_error "23505" "sessions_token_hash_key")
    else if not (has_user s.user_id d)
    then refuse (pg_error "23503" "sessions_user_id_fkey")
    else done tt (record d { sessions = d.sessions ++ s ∷ [] })

-- DELETE FROM sessions WHERE id = …
unfoldable pub delete_session : Uuid → Db → Effect (Unit {0})
delete_session id d =
    done tt (record d { sessions = filter (λ (s : Session). not (same_id s.id id)) d.sessions })

-- DELETE FROM sessions WHERE expires_at <= NOW(), with the rows affected.
unfoldable pub delete_expired_sessions : ℕ → Db → Effect ℕ
delete_expired_sessions now d =
    done (length (filter (λ (s : Session). leb s.expires_at now) d.sessions))
      (record d { sessions = filter (λ (s : Session). not (leb s.expires_at now)) d.sessions })

-- INSERT INTO invite_codes
unfoldable pub insert_invite : InviteCode → Db → Effect (Unit {0})
insert_invite c d =
    if any (λ (b : InviteCode). same_id b.id c.id) d.invite_codes
    then refuse (pg_error "23505" "invite_codes_pkey")
    else if any (λ (b : InviteCode). b.code == c.code) d.invite_codes
    then refuse (pg_error "23505" "invite_codes_code_key")
    else if not (has_user c.created_by d)
    then refuse (pg_error "23503" "invite_codes_created_by_fkey")
    else done tt (record d { invite_codes = d.invite_codes ++ c ∷ [] })

abbrev pub use_code : Uuid → Uuid → InviteCode → InviteCode
use_code code user c = if same_id c.id code then record c { used_by = some user } else c

-- UPDATE invite_codes SET used_by = … WHERE id = …
unfoldable pub use_invite : Uuid → Uuid → Db → Effect (Unit {0})
use_invite code user d =
    if any (λ (c : InviteCode). same_id c.id code) d.invite_codes && not (has_user user d)
    then refuse (pg_error "23503" "invite_codes_used_by_fkey")
    else done tt (record d { invite_codes = map (use_code code user) d.invite_codes })

-- DELETE FROM invite_codes WHERE id = …
unfoldable pub delete_invite : Uuid → Db → Effect (Unit {0})
delete_invite id d =
    done tt (record d {
      invite_codes = filter (λ (c : InviteCode). not (same_id c.id id)) d.invite_codes;
    })

-- INSERT INTO server_destinations
unfoldable pub insert_destination : ServerDestination → Db → Effect (Unit {0})
insert_destination s d =
    if any (λ (t : ServerDestination). same_id t.id s.id) d.server_destinations
    then refuse (pg_error "23505" "server_destinations_pkey")
    else if any (λ (t : ServerDestination). t.name == s.name) d.server_destinations
    then refuse (pg_error "23505" "server_destinations_name_key")
    else if not (has_user s.created_by d)
    then refuse (pg_error "23503" "server_destinations_created_by_fkey")
    else done tt (record d { server_destinations = d.server_destinations ++ s ∷ [] })

-- DELETE FROM server_destinations WHERE id = …; the links go by ON DELETE CASCADE.
unfoldable pub delete_destination : Uuid → Db → Effect (Unit {0})
delete_destination id d = done tt (record d {
  server_destinations =
      filter (λ (s : ServerDestination). not (same_id s.id id)) d.server_destinations;
  links = filter (λ l. not (same_id l.server_destination_id id)) d.links;
})

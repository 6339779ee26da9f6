-- ===== src/Api/Admin.antt =====
-- internal/handler/api/admin.go. The current user is the one of the context; a decoded body, the texts of
-- the URL and new identifiers are arguments.
pub mod Self
mod Examples
use anime_request_server.Prelude.{
  ℕ, ◌+◌, ◌-◌, ◌*◌, ◌%◌, ◌^◌, String, Bool, true, false, not, ◌&&◌, ◌||◌, Option, none, some, List,
  [], ◌∷◌, ltb, same_id, ◌==◌, if◌then◌else◌,
}
use anime_request_server.Text.{trim_space, byte_length}
use anime_request_server.Models.{Uuid, User, role_admin, role_mod, role_user}
use anime_request_server.Server.{
  System, World, M, pure, stop, ◌>>=◌, ◌>>◌, stop_if, or_stop, map_err, reads,
}
use anime_request_server.Repository.Errors.{RepoError, mentions}
use anime_request_server.Repository.Accounts.{
  UserSets, list_users, create_user, update_account, get_user,
}
use anime_request_server.Repository.Administration.{
  create_invite, list_invite_codes, list_destinations, create_destination, delete_destination_of,
}
use anime_request_server.Api.Response.{
  Response, Payload, user, users, invite, invites, destination, destinations, notice, json, error,
  internal_error, Handler,
}

abbrev pub internal : RepoError → Response
internal e = internal_error

abbrev pub invalid_body : Response
invalid_body = error 400 "invalid request body"

abbrev pub is_role_text : String → Bool
is_role_text r = r == role_admin || r == role_mod || r == role_user

abbrev pub unknown_role : Response
unknown_role = error 400 "role must be 'admin', 'mod', or 'user'"

-- ListUsers
unfoldable pub list_all_users : Handler
list_all_users = do found ← map_err internal list_users; pure (json 200 (users found))

pub record UserBody : Type 0 where
  pub username : String
  pub password : String
  pub role : String

abbrev pub creating : RepoError → Response
creating e =
    if mentions "already exists" e then error 409 "username already exists" else internal_error

-- CreateUser
unfoldable pub create_account : System → (salt : ℕ) → Uuid → Option UserBody → Handler
create_account sys salt id body = do
  b ← or_stop body invalid_body
  stop_if (trim_space b.username == "" || b.password == "" || b.role == "")
      (error 400 "username, password, and role are required")
  stop_if (ltb (byte_length b.password) 8) (error 400 "password must be at least 8 characters")
  stop_if (not (is_role_text b.role)) unknown_role
  hash ← or_stop (sys.hash_password salt b.password) internal_error
  created ← map_err creating (create_user id (trim_space b.username) hash b.role)
  pure (json 201 (user created))

abbrev pub role_field : Option String → M Response (Unit {0})
role_field none = pure tt
role_field (some r) = stop_if (not (is_role_text r)) unknown_role

-- UpdateUser. The identifier in the URL is compared with the caller's before the body is read.
unfoldable pub update_user_by : System → User → String → Option UserSets → Handler
update_user_by sys current id_text body = do
  id ← or_stop (sys.parse_uuid id_text) (error 400 "invalid user ID")
  stop_if (same_id current.id id) (error 400 "cannot modify your own account via this endpoint")
  sets ← or_stop body invalid_body
  role_field sets.role
  map_err internal (update_account id sets)
  found ← map_err internal (get_user id)
  u ← or_stop found internal_error
  pure (json 200 (user (some u)))

-- One hour in nanoseconds.
abbrev pub hour : ℕ
hour = 3600000000000

-- The body of GenerateInvite: absent (io.EOF), broken, or the hours, which may be missing or not
-- positive (`none` in either case).
pub data InviteBody : Type 0 where
  absent : InviteBody
  broken : InviteBody
  hours : Option ℕ → InviteBody

-- now.Add of a Duration, which is a 64-bit integer with a sign. Times before zero are zero.
unfoldable pub add_wrapped : ℕ → ℕ → ℕ
add_wrapped now d =
    let wrapped = d % 2 ^ 64 in
    if ltb wrapped (2 ^ 63) then now + wrapped else now - (2 ^ 64 - wrapped)

unfoldable pub expiry : ℕ → InviteBody → Option ℕ
unfolding add_wrapped
expiry now (hours (some h)) = if ltb 0 h then some (add_wrapped now (h * hour)) else none
expiry now b = none

abbrev is_broken : InviteBody → Bool
is_broken broken = true
is_broken b = false

-- GenerateInvite
unfoldable pub generate_invite : User → Uuid → Option String → InviteBody → Handler
generate_invite current id new_code body = do
  stop_if (is_broken body) invalid_body
  code ← or_stop new_code internal_error
  now ← reads (λ w. w.now)
  made ← map_err internal (create_invite id code current.id (expiry now body))
  pure (json 201 (invite made))

-- ListInvites
unfoldable pub list_invites : Handler
list_invites = do found ← map_err internal list_invite_codes; pure (json 200 (invites found))

-- ListServerDestinations
unfoldable pub list_server_destinations : (String → String → Bool) → Handler
list_server_destinations collated = do
  found ← map_err internal (list_destinations collated)
  pure (json 200 (destinations found))

abbrev pub creating_destination : RepoError → Response
creating_destination e =
    if mentions "already exists" e
    then error 409 "server destination name already exists"
    else internal_error

-- CreateServerDestination; the body is its name.
unfoldable pub create_server_destination : User → Uuid → Option String → Handler
create_server_destination current id body = do
  given ← or_stop body invalid_body
  stop_if (trim_space given == "") (error 400 "name is required")
  made ← map_err creating_destination (create_destination id (trim_space given) current.id)
  pure (json 201 (destination made))

-- DeleteServerDestination
unfoldable pub delete_server_destination : System → String → Handler
delete_server_destination sys id_text = do
  id ← or_stop (sys.parse_uuid id_text) (error 400 "invalid server destination ID")
  map_err internal (delete_destination_of id)
  pure (json 200 (notice "deleted"))

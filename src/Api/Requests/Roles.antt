-- ===== src/Api/Requests/Roles.antt =====
-- internal/handler/api/requests.go: what a user without a special role can set.
use anime_request_server.Prelude.{◌≡◌, refl, false, none, some, []}
use anime_request_server.Models.{Uuid, User, is_mod_or_admin}
use anime_request_server.Server.{System, World, ◌>>=◌, or_stop}
use anime_request_server.Api.Requests.Fields.{CreateBody, details_of}
use anime_request_server.Api.Requests.{create_request}

-- The body with only the fields that everyone may set.
abbrev pub plain : CreateBody → CreateBody
plain b = record b { alt_name = none; status = none; anidb_url = none; server_destination_ids = [] }

-- For a user that is neither mod nor admin, Create does what it does for a body without an alternate
-- name, a status, a URL and destinations, valid or not.
pub create_request-plain :
    (sys : System) (user : User) (id : Uuid) (b : CreateBody) (w : World)
    → is_mod_or_admin user ≡ false
    → create_request sys user id (some b) w ≡ create_request sys user id (some (plain b)) w
unfolding create_request details_of or_stop ◌>>=◌
create_request-plain sys user id b w ordinary = rw ordinary refl

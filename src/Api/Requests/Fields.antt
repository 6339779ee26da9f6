-- ===== src/Api/Requests/Fields.antt =====
-- internal/handler/api/requests.go: the validation of the fields of Create and Update.
use anime_request_server.Prelude.{
  String, Bool, false, not, ◌&&◌, ◌||◌, Option, none, some, List, [], ◌∷◌, ◌==◌, if◌then◌else◌,
}
use anime_request_server.Text.{trim_space, equal_fold}
use anime_request_server.Models.{Uuid, User, is_mod_or_admin, is_valid_category, is_valid_status}
use anime_request_server.Server.{System, M, pure, stop, ◌>>=◌, or_stop}
use anime_request_server.Api.Response.{Response, error}

abbrev pub name_exists_error : Response
name_exists_error = error 409 "a request with this name already exists"

abbrev pub must_differ_error : Response
must_differ_error = error 400 "alternate name must differ from the name"

-- The body of Create.
pub record CreateBody : Type 0 where
  pub name : String
  pub category : String
  pub alt_name : Option String
  pub status : Option String
  pub anidb_url : Option String
  pub server_destination_ids : List String

-- The fields that a mod or admin may set.
pub record Details : Type 0 where
  pub alt_name : Option String
  pub status : Option String
  pub anidb_url : Option String
  pub dest_ids : List Uuid

abbrev pub no_details : Details
no_details = record { alt_name = none; status = none; anidb_url = none; dest_ids = [] }

-- isValidHTTPURL
abbrev is_http : Option (String × String) → Bool
is_http none = false
is_http (some (scheme, host)) = (scheme == "http" || scheme == "https") && not (host == "")

unfoldable pub is_valid_http_url : System → String → Bool
is_valid_http_url sys s = is_http (sys.parse_request_uri s)

unfoldable pub alt_field : System → String → Option String → M Response (Option String)
alt_field sys name none = pure none
alt_field sys name (some given) =
    let trimmed = trim_space given in
    if trimmed == ""
    then pure none
    else if equal_fold sys.unicode trimmed name
    then stop must_differ_error
    else pure (some trimmed)

unfoldable pub status_field : Option String → M Response (Option String)
status_field none = pure none
status_field (some s) =
    if is_valid_status s then pure (some s) else stop (error 400 "invalid status")

unfoldable pub category_field : Option String → M Response (Option String)
category_field none = pure none
category_field (some c) =
    if is_valid_category c then pure (some c) else stop (error 400 "invalid category")

unfoldable pub url_field : System → Option String → M Response (Option String)
unfolding is_valid_http_url
url_field sys none = pure none
url_field sys (some u) =
    if u == ""
    then pure none
    else if is_valid_http_url sys u
    then pure (some u)
    else stop (error 400 "anidb_url must be a valid http(s) URL")

unfoldable pub ids_field : System → List String → M Response (List Uuid)
ids_field sys [] = pure []
ids_field sys (s ∷ ss) = do
  id ← or_stop (sys.parse_uuid s) (error 400 "invalid server_destination_ids")
  ids ← ids_field sys ss
  pure (id ∷ ids)

-- The block under `if user.IsModOrAdmin()` of Create.
unfoldable pub details_of : System → User → String → CreateBody → M Response Details
unfolding is_mod_or_admin alt_field status_field url_field ids_field
details_of sys user name b =
    if is_mod_or_admin user
    then (do
      alt_name ← alt_field sys name b.alt_name
      status ← status_field b.status
      anidb_url ← url_field sys b.anidb_url
      dest_ids ← ids_field sys b.server_destination_ids
      pure (record {
        alt_name = alt_name;
        status = status;
        anidb_url = anidb_url;
        dest_ids = dest_ids;
      }))
    else pure no_details

-- The name of Update.
unfoldable pub name_update : Option String → M Response (Option String)
name_update none = pure none
name_update (some given) =
    let trimmed = trim_space given in
    if trimmed == "" then stop (error 400 "name cannot be empty") else pure (some trimmed)

abbrev pub is_name : System → Option String → String → Bool
is_name sys none alt = false
is_name sys (some name) alt = equal_fold sys.unicode alt name

-- The alternate name of Update: "" clears it.
unfoldable pub alt_update : System → Option String → Option String → M Response (Option String)
alt_update sys name none = pure none
alt_update sys name (some given) =
    let trimmed = trim_space given in
    if not (trimmed == "") && is_name sys name trimmed
    then stop must_differ_error
    else pure (some trimmed)

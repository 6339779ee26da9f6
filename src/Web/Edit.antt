-- ===== src/Web/Edit.antt =====
-- internal/handler/web/handler.go: requestEditSubmit. The values of the form are an argument, and so is
-- UUID.String, which prints an identifier.
pub mod Destinations
pub mod Selection
mod Examples
use anime_request_server.Prelude.{
  String, Bool, true, false, not, ◌&&◌, Option, none, some, List, [], ◌∷◌, ◌++◌, map, any, ◌==◌,
  if◌then◌else◌,
}
use anime_request_server.Text.{trim_space, equal_fold}
use anime_request_server.Models.{
  Uuid, User, ServerDestinationMapping, is_mod_or_admin, is_valid_status, is_valid_category,
}
use anime_request_server.Server.{System, M, pure, stop, ◌>>=◌, ◌>>◌, stop_if, or_stop, map_err}
use anime_request_server.Repository.Errors.{RepoError, mentions}
use anime_request_server.Repository.Requests.{
  RequestSets, update, add_destination, remove_destination, name_in_use,
}
use anime_request_server.Repository.Requests.Select.{get_by_id}
use anime_request_server.Api.Requests.Fields.{is_valid_http_url}
use anime_request_server.Api.Requests.{is_nil}
use anime_request_server.Web.{Answer, failure, to_request, Form}

pub record EditForm : Type 0 where
  pub name : String
  pub alt_name : String
  pub status : String
  pub category : String
  pub anidb_url : String
  pub server_destination_ids : List String

abbrev fails : String → RepoError → Answer
fails text e = failure 500 text

-- A destination that was not there is added where its text parses, and passed over where it does not.
abbrev pub add_parsed : Uuid → Option Uuid → M Answer (Unit {0})
add_parsed id none = pure tt
add_parsed id (some dest) = map_err (fails "failed to add destination") (add_destination id dest)

abbrev pub add_unless : System → Uuid → Bool → String → M Answer (Unit {0})
add_unless sys id true s = pure tt
add_unless sys id false s = add_parsed id (sys.parse_uuid s)

abbrev pub is_listed : List String → String → Bool
is_listed texts s = any (λ t. t == s) texts

unfoldable pub add_selected : System → Uuid → List String → List String → M Answer (Unit {0})
add_selected sys id known [] = pure tt
add_selected sys id known (s ∷ ss) =
    add_unless sys id (is_listed known s) s >> add_selected sys id known ss

abbrev pub remove_unless : Uuid → Bool → Uuid → M Answer (Unit {0})
remove_unless id true dest = pure tt
remove_unless id false dest =
    map_err (fails "failed to remove destination") (remove_destination id dest)

unfoldable pub remove_unselected :
    (Uuid → String) → Uuid → List String → List ServerDestinationMapping → M Answer (Unit {0})
remove_unselected uuid_string id texts [] = pure tt
remove_unselected uuid_string id texts (m ∷ ms) =
    remove_unless id (is_listed texts (uuid_string m.id)) m.id
    >> remove_unselected uuid_string id texts ms

abbrev pub texts_of : (Uuid → String) → List ServerDestinationMapping → List String
texts_of uuid_string ms = map (λ (m : ServerDestinationMapping). uuid_string m.id) ms

-- What follows the UPDATE: the selected destinations are added, then the others are removed if any text
-- was selected.
unfoldable pub update_destinations :
    System
    → (Uuid → String)
    → Uuid
    → List ServerDestinationMapping
    → List String
    → M Answer (Unit {0})
unfolding add_selected remove_unselected
update_destinations sys uuid_string id existing texts = do
  add_selected sys id (texts_of uuid_string existing) texts
  if is_nil texts then pure tt else remove_unselected uuid_string id texts existing

-- A value of the form that is not valid counts as absent.
abbrev valid_or_none : (String → Bool) → String → Option String
valid_or_none is_valid s = if not (s == "") && is_valid s then some s else none

abbrev pub url_of : System → String → M Answer (Option String)
unfolding is_valid_http_url
url_of sys s =
    if s == ""
    then pure none
    else if is_valid_http_url sys s
    then pure (some s)
    else stop (failure 400 "AniDB URL must be a valid http(s) URL")

abbrev taken : Answer
taken = failure 409 "a request with this name already exists"

abbrev alike : Answer
alike = failure 400 "alternate name must differ from the name"

abbrev update_fails : RepoError → Answer
update_fails e =
    if mentions "already exists" e
    then taken
    else if mentions "must differ" e
    then alike
    else failure 500 "failed to update request"

-- From the names on, trimmed.
unfoldable pub finish_edit :
    System
    → (Uuid → String)
    → Uuid
    → List ServerDestinationMapping
    → EditForm
    → (name alt_name : String) → Form
unfolding update_destinations
finish_edit sys uuid_string id existing form name alt_name = do
  stop_if (name == "") (failure 400 "name is required")
  stop_if (not (alt_name == "") && equal_fold sys.unicode alt_name name) alike
  dup ←
      map_err (fails "internal error")
        (name_in_use sys id (name ∷ (if alt_name == "" then [] else alt_name ∷ [])))
  stop_if dup taken
  anidb_url ← url_of sys form.anidb_url
  map_err update_fails (
      update sys id (record {
        name = some name;
        alt_name = some alt_name;
        status = valid_or_none is_valid_status form.status;
        category = valid_or_none is_valid_category form.category;
        anidb_url = anidb_url;
      }))
  update_destinations sys uuid_string id existing form.server_destination_ids
  pure (to_request (uuid_string id))

-- requestEditSubmit
unfoldable pub request_edit_submit : System → (Uuid → String) → User → String → EditForm → Form
unfolding finish_edit
request_edit_submit sys uuid_string user id_text form = do
  stop_if (not (is_mod_or_admin user)) (failure 403 "forbidden")
  id ← or_stop (sys.parse_uuid id_text) (failure 400 "invalid ID")
  found ← map_err (λ e. failure 404 "request not found") (get_by_id id)
  existing ← or_stop found (failure 404 "request not found")
  finish_edit sys uuid_string id existing.server_destinations form (trim_space form.name)
      (trim_space form.alt_name)

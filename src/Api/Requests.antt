-- ===== src/Api/Requests.antt =====
-- internal/handler/api/requests.go. A decoded body is an argument, `none` where Decode fails; so are the
-- texts of the URL, the user of the context (RequireAuth has put one there) and the new identifiers.
pub mod Fields
pub mod Names
pub mod Query
pub mod Changes
pub mod Batches
pub mod Destinations
pub mod Roles
mod Examples
use mathlib.Core.Option
use Prim.Native.String.{count}
use anime_request_server.Prelude.{
  ℕ, ◌-◌, String, Bool, true, false, not, ◌&&◌, ◌||◌, Option, none, some, List, [], ◌∷◌, ◌++◌, ltb,
  leb, same_id, ◌==◌, if◌then◌else◌, any, length,
}
use anime_request_server.Text.{trim_space, equal_fold}
use anime_request_server.Models.{
  Uuid, nil_uuid, User, AnimeRequest, ServerDestinationMapping, is_mod_or_admin,
  category_current_future, category_finished_airing, category_batch_add, is_valid_category,
}
use anime_request_server.Server.{
  System, World, M, pure, stop, ◌>>=◌, ◌>>◌, stop_if, or_stop, map_err,
}
use anime_request_server.Repository.Errors.{RepoError, mentions}
use anime_request_server.Repository.Requests.{
  RequestSets, create_with_details, create_batch, update, delete, add_destination,
  remove_destination, add_note, delete_note_of, name_in_use, given_list, not_empty,
}
use anime_request_server.Repository.Requests.Select.{RequestFilter, get_by_id, list, list_notes}
use anime_request_server.Api.Response.{
  Payload, request, request_page, added, note, notes, notice, Response, json, error, internal_error,
  Handler,
}
use Fields.{
  CreateBody, Details, details_of, alt_update, name_update, status_field, category_field, url_field,
  name_exists_error, must_differ_error,
}

abbrev pub invalid_body : Response
invalid_body = error 400 "invalid request body"

abbrev pub invalid_id : Response
invalid_id = error 400 "invalid request ID"

abbrev pub not_found : Response
not_found = error 404 "request not found"

abbrev pub internal : RepoError → Response
internal e = internal_error

-- List, for a filter; Query reads it: a text is `none` when it is
-- absent or empty, an identifier when it does not parse.
unfoldable pub list_requests : RequestFilter → Handler
list_requests filter = do
  found ← map_err internal (list filter)
  pure (json 200 (request_page found.0 found.1 filter.page filter.per_page))

abbrev pub create_error : RepoError → Response
create_error e =
    if mentions "already exists" e
    then name_exists_error
    else if mentions "must differ" e
    then must_differ_error
    else if mentions "destination does not exist" e
    then error 400 "invalid server_destination_ids"
    else internal_error

-- Create, from the check for duplicates on.
unfoldable pub finish_create : System → User → Uuid → String → String → Details → Handler
finish_create sys user id name category d = do
  dup ← map_err internal (name_in_use sys nil_uuid (name ∷ given_list d.alt_name))
  stop_if dup name_exists_error
  created ←
      map_err create_error (
        create_with_details sys id name category user.id d.alt_name d.status d.anidb_url d.dest_ids)
  pure (json 201 (request created))

-- Create
unfoldable pub create_request : System → User → Uuid → Option CreateBody → Handler
unfolding finish_create
create_request sys user id body = do
  b ← or_stop body invalid_body
  stop_if (trim_space b.name == "") (error 400 "name is required")
  stop_if
      (not (b.category == category_current_future) && not (b.category == category_finished_airing))
      (error 400 "category must be 'current_future' or 'finished_airing'")
  d ← details_of sys user (trim_space b.name) b
  finish_create sys user id (trim_space b.name) b.category d

-- Get
unfoldable pub get_request : System → String → Handler
get_request sys id_text = do
  id ← or_stop (sys.parse_uuid id_text) invalid_id
  found ← map_err internal (get_by_id id)
  r ← or_stop found not_found
  pure (json 200 (request (some r)))

pub record UpdateBody : Type 0 where
  pub name : Option String
  pub alt_name : Option String
  pub status : Option String
  pub category : Option String
  pub anidb_url : Option String

abbrev pub update_error : RepoError → Response
update_error e =
    if mentions "already exists" e
    then name_exists_error
    else if mentions "must differ" e
    then must_differ_error
    else internal_error

abbrev pub is_nil : List String → Bool
is_nil [] = true
is_nil (x ∷ xs) = false

-- The duplicate check of Update, made only where a name is given.
unfoldable pub check_duplicate : System → Uuid → List String → M Response (Unit {0})
check_duplicate sys id candidates =
    if is_nil candidates
    then pure tt
    else do dup ← map_err internal (name_in_use sys id candidates); stop_if dup name_exists_error

-- Update, from the check for duplicates on.
unfoldable pub finish_update : System → Uuid → RequestSets → Handler
unfolding check_duplicate
finish_update sys id sets = do
  check_duplicate sys id (given_list sets.name ++ not_empty sets.alt_name)
  map_err update_error (update sys id sets)
  found ← map_err internal (get_by_id id)
  r ← or_stop found not_found
  pure (json 200 (request (some r)))

-- Update
unfoldable pub update_request : System → String → Option UpdateBody → Handler
unfolding finish_update
update_request sys id_text body = do
  id ← or_stop (sys.parse_uuid id_text) invalid_id
  b ← or_stop body invalid_body
  name ← name_update b.name
  alt_name ← alt_update sys name b.alt_name
  status ← status_field b.status
  category ← category_field b.category
  anidb_url ← url_field sys b.anidb_url
  finish_update sys id (record {
    name = name;
    alt_name = alt_name;
    status = status;
    category = category;
    anidb_url = anidb_url;
  })

-- Delete
unfoldable pub delete_request : System → String → Handler
delete_request sys id_text = do
  id ← or_stop (sys.parse_uuid id_text) invalid_id
  deleted ← map_err internal (delete id)
  stop_if (not deleted) not_found
  pure (json 200 (notice "deleted"))

pub record BatchBody : Type 0 where
  pub names : List String
  pub category : String

-- The names trimmed, without the empty ones.
unfoldable pub trimmed_names : List String → List String
trimmed_names [] = []
trimmed_names (n ∷ ns) =
    let rest = trimmed_names ns in let t = trim_space n in if t == "" then rest else t ∷ rest

-- BatchCreate
unfoldable pub batch_create : System → User → (ℕ → Uuid) → Option BatchBody → Handler
batch_create sys user ids body = do
  stop_if (not user.can_batch_add) (error 403 "batch add permission required")
  b ← or_stop body invalid_body
  stop_if (not (b.category == category_batch_add))
      (error 400 "batch add category must be 'batch_add'")
  let names = trimmed_names b.names
  stop_if (is_nil names) (error 400 "at least one name is required")
  count ← map_err internal (create_batch sys ids names user.id)
  pure (json 201 (added count))

-- AddDestination
unfoldable pub add_destination_to : System → String → Option String → Handler
add_destination_to sys id_text body = do
  id ← or_stop (sys.parse_uuid id_text) invalid_id
  text ← or_stop body invalid_body
  dest ← or_stop (sys.parse_uuid text) (error 400 "invalid destination_id")
  map_err internal (add_destination id dest)
  pure (json 200 (notice "added"))

abbrev pub is_assigned : Uuid → List ServerDestinationMapping → Bool
is_assigned dest ds = any (λ (m : ServerDestinationMapping). same_id m.id dest) ds

-- RemoveDestination
unfoldable pub remove_destination_from : System → String → String → Handler
remove_destination_from sys id_text dest_text = do
  id ← or_stop (sys.parse_uuid id_text) invalid_id
  dest ← or_stop (sys.parse_uuid dest_text) (error 400 "invalid destination ID")
  found ← map_err internal (get_by_id id)
  r ← or_stop found not_found
  stop_if (not (is_assigned dest r.server_destinations))
      (error 404 "destination is not assigned to this request")
  stop_if (leb (length r.server_destinations) 1) (error 400 "cannot remove last destination")
  map_err internal (remove_destination id dest)
  pure (json 200 (notice "removed"))

abbrev pub max_note_len : ℕ
max_note_len = 2000

-- ListNotes
unfoldable pub list_notes_of : System → String → Handler
list_notes_of sys id_text = do
  id ← or_stop (sys.parse_uuid id_text) invalid_id
  found ← map_err internal (list_notes id)
  pure (json 200 (notes found))

-- AddNote
unfoldable pub add_note_to : System → User → Uuid → String → Option String → Handler
add_note_to sys user note_id id_text body = do
  stop_if user.notes_blocked (error 403 "you are blocked from posting notes")
  id ← or_stop (sys.parse_uuid id_text) invalid_id
  given ← or_stop body invalid_body
  let text = trim_space given
  stop_if (text == "") (error 400 "note body is required")
  stop_if (ltb max_note_len (count text)) (error 400 "note is too long (max 2000 characters)")
  existing ← map_err internal (get_by_id id)
  r ← or_stop existing not_found
  posted ← map_err internal (add_note note_id id user.id text)
  pure (json 201 (note posted))

-- DeleteNote
unfoldable pub delete_note_from : System → String → String → Handler
delete_note_from sys id_text note_text = do
  id ← or_stop (sys.parse_uuid id_text) invalid_id
  note_id ← or_stop (sys.parse_uuid note_text) (error 400 "invalid note ID")
  deleted ← map_err internal (delete_note_of id note_id)
  stop_if (not deleted) (error 404 "note not found")
  pure (json 200 (notice "deleted"))

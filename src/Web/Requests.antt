-- ===== src/Web/Requests.antt =====
-- internal/handler/web/handler.go: the pages of requests. The values of the query and of the form, the user
-- of the context and new identifiers are arguments; UUID.String prints an identifier. `collated` is the
-- order of names under the database's collation.
pub mod Agreement
pub mod Paging
mod Examples
use Prim.Native.String.{count}
use Prim.Native.String
use anime_request_server.Prelude.{
  ℕ, ◌+◌, ◌-◌, ◌/◌, String, Bool, true, false, not, ◌&&◌, ◌||◌, Option, none, some, List, [], ◌∷◌,
  ltb, ◌==◌, if◌then◌else◌,
}
use anime_request_server.Text.{trim_space, equal_fold}
use anime_request_server.Text.Lines.{split}
use anime_request_server.Text.Numbers.{atoi, at_least_one}
use anime_request_server.Models.{
  Uuid, nil_uuid, User, is_mod_or_admin, is_valid_status, category_current_future,
  category_finished_airing,
}
use anime_request_server.Server.{System, M, pure, stop, ◌>>=◌, ◌>>◌, stop_if, or_stop, map_err}
use anime_request_server.Repository.Errors.{RepoError, mentions}
use anime_request_server.Repository.Administration.{list_destinations}
use anime_request_server.Repository.Requests.{
  create_with_details, create_batch, delete, add_note, delete_note_of, name_in_use, given_list,
}
use anime_request_server.Repository.Requests.Select.{RequestFilter, get_by_id, list, list_notes}
use anime_request_server.Api.Requests.{is_nil, trimmed_names, max_note_len}
use anime_request_server.Api.Requests.Fields.{Details, no_details, is_valid_http_url}
use anime_request_server.Web.{
  Entered, EnteredDetails, requests_page, new_page, batch_page, detail_page, Answer, failure, shows,
  redirect, to_request, Form, catch,
}

abbrev pub internal : RepoError → Answer
internal e = failure 500 "internal error"

-- intParam. An empty text has its own branch, which atoi treats alike.
unfoldable pub int_param : String → ℕ → ℕ
unfolding atoi
int_param String.[] def = def
int_param (String.◌∷◌ c s) def = at_least_one def (atoi (String.◌∷◌ c s))

abbrev given_text : String → Option String
given_text s = if s == "" then none else some s

unfoldable pub total_pages : (total per_page : ℕ) → ℕ
total_pages total per_page =
    let pages = (total + per_page - 1) / per_page in if ltb pages 1 then 1 else pages

-- The filter of requestsList, from the values of the query.
unfoldable pub page_filter : (page category status : String) → RequestFilter
unfolding int_param
page_filter page category status = record {
  category = given_text category;
  status = given_text status;
  requested_by = none;
  page = int_param page 1;
  per_page = 25;
}

-- requestsList
unfoldable pub requests_list : (page category status : String) → Form
unfolding page_filter total_pages
requests_list page category status = do
  let filter = page_filter page category status
  found ← map_err internal (list filter)
  pure (
      shows (
        requests_page found.0 found.1 filter.page (total_pages found.1 filter.per_page) category
          status))

-- The form of a new request.
pub record NewForm : Type 0 where
  pub name : String
  pub category : String
  pub alt_name : String
  pub status : String
  pub anidb_url : String
  pub server_destination_ids : List String

abbrev entered : NewForm → Entered
entered form = record {
  name = trim_space form.name;
  category = if form.category == "" then category_current_future else form.category;
}

-- renderNewRequest
unfoldable pub render_new_request : (String → String → Bool) → User → NewForm → String → Form
render_new_request collated user form text =
    if is_mod_or_admin user
    then (do
      dests ← map_err internal (list_destinations collated)
      let details : EnteredDetails = record {
        destinations = dests;
        alt_name = trim_space form.alt_name;
        status = form.status;
        anidb_url = trim_space form.anidb_url;
        selected = form.server_destination_ids;
      }
      pure (shows (new_page (entered form) (some details) text)))
    else pure (shows (new_page (entered form) none text))

-- requestNewPage. FormValue reads the query as well, so the form may be filled in.
unfoldable pub request_new_page : (String → String → Bool) → User → NewForm → Form
unfolding render_new_request
request_new_page collated user form = render_new_request collated user form ""

module _ (sys : System) (collated : String → String → Bool) (user : User) (form : NewForm) where
  -- The form again, with an error.
  unfoldable pub refuse_new : {A : Type 0} → String → M Answer A
  unfolding render_new_request
  refuse_new text = do page ← render_new_request collated user form text; stop page

  abbrev pub refuse_if : Bool → String → M Answer (Unit {0})
  unfolding refuse_new
  refuse_if true text = refuse_new text
  refuse_if false text = pure tt

  abbrev pub or_refuse : {A : Type 0} → Option A → String → M Answer A
  unfolding refuse_new
  or_refuse none text = refuse_new text
  or_refuse (some a) text = pure a

  unfoldable pub new_alt_name : (name alt : String) → M Answer (Option String)
  unfolding refuse_new
  new_alt_name name alt =
      if alt == ""
      then pure none
      else if equal_fold sys.unicode alt name
      then refuse_new "Alternate name must differ from the name"
      else pure (some alt)

  unfoldable pub new_status : String → M Answer (Option String)
  unfolding refuse_new
  new_status s =
      if s == ""
      then pure none
      else if is_valid_status s
      then pure (some s)
      else refuse_new "Invalid status"

  unfoldable pub new_url : String → M Answer (Option String)
  unfolding refuse_new
  new_url s =
      if s == ""
      then pure none
      else if is_valid_http_url sys s
      then pure (some s)
      else refuse_new "AniDB URL must be a valid http(s) URL"

  unfoldable pub new_destinations : List String → M Answer (List Uuid)
  unfolding refuse_new
  new_destinations [] = pure []
  new_destinations (s ∷ ss) = do
    id ← or_refuse (sys.parse_uuid s) "Invalid server destination selected"
    ids ← new_destinations ss
    pure (id ∷ ids)

  -- The fields that only mods and admins set.
  unfoldable pub new_details : String → M Answer Details
  unfolding new_alt_name new_status new_url new_destinations
  new_details name =
      if is_mod_or_admin user
      then (do
        alt_name ← new_alt_name name (trim_space form.alt_name)
        status ← new_status form.status
        anidb_url ← new_url (trim_space form.anidb_url)
        dest_ids ← new_destinations form.server_destination_ids
        pure (record {
          alt_name = alt_name;
          status = status;
          anidb_url = anidb_url;
          dest_ids = dest_ids;
        }))
      else pure no_details

  abbrev creation_error : RepoError → String
  creation_error e =
      if mentions "already exists" e
      then "A request with this name already exists"
      else if mentions "must differ" e
      then "Alternate name must differ from the name"
      else if mentions "destination does not exist" e
      then "One or more selected server destinations no longer exist"
      else "Failed to create request"

  -- requestNewSubmit, from the check for duplicates on
  unfoldable pub finish_new : Uuid → (name category : String) → Details → Form
  unfolding refuse_new
  finish_new id name category d = do
    dup ← map_err internal (name_in_use sys nil_uuid (name ∷ given_list d.alt_name))
    refuse_if dup "A request with this name already exists"
    created ←
        catch
          (create_with_details sys id name category user.id d.alt_name d.status d.anidb_url
            d.dest_ids)
          (λ e. refuse_new (creation_error e))
    pure (redirect "/")

  -- requestNewSubmit
  unfoldable pub request_new_submit : Uuid → Form
  unfolding new_details finish_new refuse_new
  request_new_submit id = do
    refuse_if (trim_space form.name == "") "Name is required"
    refuse_if
        (not (form.category == category_current_future)
          && not (form.category == category_finished_airing))
        "Invalid category"
    d ← new_details (trim_space form.name)
    finish_new id (trim_space form.name) form.category d

abbrev forbidden : Answer
forbidden = failure 403 "forbidden"

-- batchAddPage
unfoldable pub batch_add_page : User → Form
batch_add_page user = do
  stop_if (not user.can_batch_add) forbidden
  pure (shows (batch_page none none none))

abbrev batch_error : String → String → Answer
batch_error text names = shows (batch_page (some text) (some names) none)

-- batchAddSubmit
unfoldable pub batch_add_submit : System → User → (ℕ → Uuid) → String → Form
unfolding trimmed_names split
batch_add_submit sys user ids text = do
  stop_if (not user.can_batch_add) forbidden
  let names = trimmed_names (split b'\n' text)
  stop_if (is_nil names) (batch_error "At least one name is required" text)
  count ←
      map_err (λ e. batch_error "Failed to add entries" text) (create_batch sys ids names user.id)
  pure (shows (batch_page none none (some count)))

abbrev pub invalid_id : Answer
invalid_id = failure 400 "invalid ID"

-- requestDetail
unfoldable pub request_detail : System → (String → String → Bool) → String → Form
request_detail sys collated id_text = do
  id ← or_stop (sys.parse_uuid id_text) invalid_id
  found ← map_err (λ e. failure 404 "not found") (get_by_id id)
  r ← or_stop found (failure 404 "not found")
  dests ← map_err internal (list_destinations collated)
  notes ← map_err internal (list_notes id)
  pure (shows (detail_page r dests notes))

-- requestDelete
unfoldable pub request_delete : System → User → String → Form
request_delete sys user id_text = do
  stop_if (not (is_mod_or_admin user)) forbidden
  id ← or_stop (sys.parse_uuid id_text) invalid_id
  deleted ← map_err (λ e. failure 500 "failed to delete request") (delete id)
  stop_if (not deleted) (failure 404 "request not found")
  pure (redirect "/")

-- requestNoteAdd. An empty note leads back to the request.
unfoldable pub request_note_add :
    System → (Uuid → String) → User → Uuid → (id_text body : String) → Form
request_note_add sys uuid_string user note_id id_text body = do
  id ← or_stop (sys.parse_uuid id_text) invalid_id
  stop_if user.notes_blocked (failure 403 "you are blocked from posting notes")
  let text = trim_space body
  stop_if (text == "") (to_request (uuid_string id))
  stop_if (ltb max_note_len (count text)) (failure 400 "note is too long (max 2000 characters)")
  existing ← map_err internal (get_by_id id)
  r ← or_stop existing (failure 404 "request not found")
  posted ← map_err (λ e. failure 500 "failed to add note") (add_note note_id id user.id text)
  pure (to_request (uuid_string id))

-- requestNoteDelete
unfoldable pub request_note_delete :
    System → (Uuid → String) → User → (id_text note_text : String) → Form
request_note_delete sys uuid_string user id_text note_text = do
  stop_if (not (is_mod_or_admin user)) forbidden
  id ← or_stop (sys.parse_uuid id_text) invalid_id
  note_id ← or_stop (sys.parse_uuid note_text) (failure 400 "invalid note ID")
  deleted ← map_err (λ e. failure 500 "failed to delete note") (delete_note_of id note_id)
  stop_if (not deleted) (failure 404 "note not found")
  pure (to_request (uuid_string id))

-- ===== src/Web/Admin.antt =====
-- internal/handler/web/handler.go: the pages of users, invite codes and server destinations. RequireRole has
-- stood before them, as Web.Routes has it.
use anime_request_server.Prelude.{
  String, Bool, not, ◌||◌, Option, none, some, same_id, ◌==◌, if◌then◌else◌,
}
use anime_request_server.Text.{trim_space}
use anime_request_server.Models.{Uuid, User, role_admin, role_mod, role_user}
use anime_request_server.Server.{System, M, pure, stop, ◌>>=◌, ◌>>◌, stop_if, or_stop, map_err}
use anime_request_server.Repository.Errors.{RepoError}
use anime_request_server.Repository.Accounts.{UserSets, list_users, get_user, update_account}
use anime_request_server.Repository.Administration.{
  create_invite, list_invite_codes, delete_invite_code, list_destinations, create_destination,
  delete_destination_of,
}
use anime_request_server.Web.{
  users_page, user_page, invites_page, destinations_page, Answer, failure, shows, redirect, Form,
  catch,
}

abbrev pub internal : RepoError → Answer
internal e = failure 500 "internal error"

abbrev pub invalid_id : Answer
invalid_id = failure 400 "invalid ID"

-- usersPage
unfoldable pub show_users : Form
show_users = do users ← map_err internal list_users; pure (shows (users_page users))

-- userEditPage
unfoldable pub user_edit_page : System → String → Form
user_edit_page sys id_text = do
  id ← or_stop (sys.parse_uuid id_text) invalid_id
  found ← map_err (λ e. failure 404 "not found") (get_user id)
  u ← or_stop found (failure 404 "not found")
  pure (shows (user_page u))

-- The form of userEditPage; a checkbox that is not "true" is off.
pub record UserForm : Type 0 where
  pub role : String
  pub can_batch_add : String
  pub disabled : String
  pub notes_blocked : String

abbrev pub sets_of : UserForm → UserSets
sets_of form = record {
  role = some form.role;
  can_batch_add = some (form.can_batch_add == "true");
  disabled = some (form.disabled == "true");
  notes_blocked = some (form.notes_blocked == "true");
}

-- userEditSubmit. One's own row is left alone without a word.
unfoldable pub user_edit_submit : System → User → String → UserForm → Form
user_edit_submit sys user id_text form = do
  id ← or_stop (sys.parse_uuid id_text) invalid_id
  stop_if (same_id user.id id) (redirect "/manage/users")
  stop_if (not (form.role == role_admin || form.role == role_mod || form.role == role_user))
      (failure 400 "invalid role")
  map_err (λ e. failure 500 "failed to update user") (update_account id (sets_of form))
  pure (redirect "/manage/users")

-- invitesPage
unfoldable pub show_invites : Form
show_invites = do codes ← map_err internal list_invite_codes; pure (shows (invites_page codes none))

-- inviteGenerate; the code is random, `none` for an error.
unfoldable pub invite_generate : User → Uuid → Option String → Form
invite_generate user id new_code = do
  code ← or_stop new_code (failure 500 "internal error")
  made ← map_err internal (create_invite id code user.id none)
  codes ← map_err internal list_invite_codes
  pure (shows (invites_page codes (some code)))

-- inviteDelete
unfoldable pub invite_delete : System → String → Form
invite_delete sys id_text = do
  id ← or_stop (sys.parse_uuid id_text) invalid_id
  map_err (λ e. failure 500 "failed to delete invite code") (delete_invite_code id)
  pure (redirect "/manage/invites")

-- serverDestsPage, and the page again with an error
unfoldable pub show_destinations : (String → String → Bool) → Option String → Form
show_destinations collated text = do
  dests ← map_err internal (list_destinations collated)
  pure (shows (destinations_page dests text))

unfoldable pub refuse_destination : {A : Type 0} → (String → String → Bool) → String → M Answer A
unfolding show_destinations
refuse_destination collated text = do page ← show_destinations collated (some text); stop page

-- serverDestCreate. The text of an error is shown as it is, the driver's included; `error_text` prints it.
unfoldable pub server_dest_create :
    (String → String → Bool) → (RepoError → String) → User → Uuid → String → Form
unfolding refuse_destination
server_dest_create collated error_text user id name =
    if trim_space name == "" then refuse_destination collated "Name is required" else do
      made ←
          catch (create_destination id (trim_space name) user.id)
            (λ e. refuse_destination collated (error_text e))
      pure (redirect "/manage/server-destinations")

-- serverDestDelete
unfoldable pub server_dest_delete : System → String → Form
server_dest_delete sys id_text = do
  id ← or_stop (sys.parse_uuid id_text) invalid_id
  map_err (λ e. failure 500 "failed to delete server destination") (delete_destination_of id)
  pure (redirect "/manage/server-destinations")

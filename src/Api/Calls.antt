-- ===== src/Api/Calls.antt =====
-- internal/handler/api: the endpoints as one type, each with what it reads of the request and what is drawn for it,
-- and a run of the server, in which every request meets its own time and its own lost calls.
pub mod Checks
pub mod Apart
mod Examples
use anime_request_server.Prelude.{ℕ, String, Bool, Option, List, [], ◌∷◌}
use anime_request_server.Models.{Uuid, User, Session}
use anime_request_server.Server.{System, World, after}
use anime_request_server.Api.Response.{Handler}
use anime_request_server.Api.Auth
use anime_request_server.Api.Admin
use anime_request_server.Api.Requests
use anime_request_server.Api.Requests.Fields.{CreateBody}
use anime_request_server.Api.Requests.Query.{Query, list_by_query}
use anime_request_server.Repository.Accounts.{UserSets}

pub data Call : Type 0 where
  login : (ip : String) → Option Auth.LoginBody → (session : Uuid) → (token : Option String) → Call
  logout : Option Session → Call
  redeem_invite :
      (salt : ℕ) → (user session : Uuid) → (token : Option String) → Option Auth.RedeemBody → Call
  list_requests : Query → Call
  create_request : User → Uuid → Option CreateBody → Call
  get_request : String → Call
  update_request : String → Option Requests.UpdateBody → Call
  delete_request : String → Call
  batch_create : User → (ℕ → Uuid) → Option Requests.BatchBody → Call
  add_destination : String → Option String → Call
  remove_destination : (request dest : String) → Call
  list_notes : String → Call
  add_note : User → Uuid → String → Option String → Call
  delete_note : (request note : String) → Call
  list_users : Call
  create_user : (salt : ℕ) → Uuid → Option Admin.UserBody → Call
  update_user : User → String → Option UserSets → Call
  generate_invite : User → Uuid → (code : Option String) → Admin.InviteBody → Call
  list_invites : Call
  list_server_destinations : (String → String → Bool) → Call
  create_server_destination : User → Uuid → Option String → Call
  delete_server_destination : String → Call

unfoldable pub answer : System → Call → Handler
answer sys (login ip body session token) = Auth.login sys ip body session token
answer sys (logout session) = Auth.logout session
answer sys (redeem_invite salt user session token body) =
    Auth.redeem_invite sys salt user session token body
answer sys (list_requests q) = list_by_query sys q
answer sys (create_request user id body) = Requests.create_request sys user id body
answer sys (get_request id) = Requests.get_request sys id
answer sys (update_request id body) = Requests.update_request sys id body
answer sys (delete_request id) = Requests.delete_request sys id
answer sys (batch_create user ids body) = Requests.batch_create sys user ids body
answer sys (add_destination id body) = Requests.add_destination_to sys id body
answer sys (remove_destination id dest) = Requests.remove_destination_from sys id dest
answer sys (list_notes id) = Requests.list_notes_of sys id
answer sys (add_note user note id body) = Requests.add_note_to sys user note id body
answer sys (delete_note id note) = Requests.delete_note_from sys id note
answer sys list_users = Admin.list_all_users
answer sys (create_user salt id body) = Admin.create_account sys salt id body
answer sys (update_user user id body) = Admin.update_user_by sys user id body
answer sys (generate_invite user id code body) = Admin.generate_invite user id code body
answer sys list_invites = Admin.list_invites
answer sys (list_server_destinations collated) = Admin.list_server_destinations collated
answer sys (create_server_destination user id body) = Admin.create_server_destination user id body
answer sys (delete_server_destination id) = Admin.delete_server_destination sys id

-- A request at a time, with the calls of the database that it loses.
pub record Arrival : Type 0 where
  pub now : ℕ
  pub faults : List Bool
  pub call : Call

abbrev pub handled : System → Arrival → World → World
handled sys a w = after (answer sys a.call (record w { now = a.now; faults = a.faults }))

unfoldable pub handle_all : System → List Arrival → World → World
unfolding answer
handle_all sys [] w = w
handle_all sys (a ∷ rest) w = handle_all sys rest (handled sys a w)

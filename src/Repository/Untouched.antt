-- ===== src/Repository/Untouched.antt =====
-- internal/repository: the calls that write no request, as invariants of the requests.
use anime_request_server.Prelude.{ℕ, String, Option, List, arith}
use anime_request_server.Models.{Uuid}
use anime_request_server.Database.Tables.{Db, RequestRow}
use anime_request_server.Database.Accounts
use anime_request_server.Database.Requests
use anime_request_server.Server.{Effect, DbError, map_err, exec}
use anime_request_server.Server.Keeps.{
  Keeps, EffectKeeps, Keeps-pure, Keeps-bind, Keeps-map_err, Keeps-exec, keeps_rules,
}
use anime_request_server.Repository.Accounts.{
  UserSets, create_user, get_user, update_account, create_session, delete_login,
}
use anime_request_server.Repository.Administration.{
  create_invite, mark_used, create_destination, delete_destination_of,
}
use anime_request_server.Repository.Requests.{
  add_destination, remove_destination, add_note, delete_note_of,
}
use anime_request_server.Repository.Requests.Select.{get_note}

module _ (P : List RequestRow → Type 0) where
  abbrev Kept : Db → Type 0
  Kept d = P d.requests

  exec-Kept :
      {A F : Type 0} (f : DbError → F) (q : ℕ → Db → Effect A)
      → ((now : ℕ) (d : Db) → P d.requests → EffectKeeps Kept (q now d))
      → Keeps Kept (map_err f (exec q))
  exec-Kept f q h = Keeps-map_err f (exec q) (Keeps-exec q h)

  get_user-Keeps : (id : Uuid) → Keeps Kept (get_user id)
  unfolding get_user
  get_user-Keeps id = search keeps_rules

  pub create_user-Keeps :
      (id : Uuid) (name hash role : String) → Keeps Kept (create_user id name hash role)
  unfolding create_user Accounts.insert_user
  create_user-Keeps id name hash role =
      Keeps-bind _ _ (exec-Kept _ _ (λ now d h. ground arith)) (λ _. get_user-Keeps id)

  pub update_account-Keeps : (id : Uuid) (sets : UserSets) → Keeps Kept (update_account id sets)
  unfolding update_account Accounts.update_user
  update_account-Keeps id sets = exec-Kept _ _ (λ now d h. ground arith)

  pub create_session-Keeps :
      (id user : Uuid) (hash : String) (expires_at : ℕ)
      → Keeps Kept (create_session id user hash expires_at)
  unfolding create_session Accounts.insert_session
  create_session-Keeps id user hash expires_at = exec-Kept _ _ (λ now d h. ground arith)

  pub delete_login-Keeps : (id : Uuid) → Keeps Kept (delete_login id)
  unfolding delete_login Accounts.delete_session
  delete_login-Keeps id = exec-Kept _ _ (λ now d h. h)

  pub create_invite-Keeps :
      (id : Uuid) (code : String) (by : Uuid) (expires_at : Option ℕ)
      → Keeps Kept (create_invite id code by expires_at)
  unfolding create_invite Accounts.insert_invite
  create_invite-Keeps id code by expires_at =
      Keeps-bind _ _ (exec-Kept _ _ (λ now d h. ground arith)) (λ _. Keeps-pure _)

  pub mark_used-Keeps : (code user : Uuid) → Keeps Kept (mark_used code user)
  unfolding mark_used Accounts.use_invite
  mark_used-Keeps code user = exec-Kept _ _ (λ now d h. ground arith)

  pub create_destination-Keeps :
      (id : Uuid) (name : String) (by : Uuid) → Keeps Kept (create_destination id name by)
  unfolding create_destination Accounts.insert_destination
  create_destination-Keeps id name by =
      Keeps-bind _ _ (exec-Kept _ _ (λ now d h. ground arith)) (λ _. Keeps-pure _)

  pub delete_destination_of-Keeps : (id : Uuid) → Keeps Kept (delete_destination_of id)
  unfolding delete_destination_of Accounts.delete_destination
  delete_destination_of-Keeps id = exec-Kept _ _ (λ now d h. h)

  pub add_destination-Keeps : (request dest : Uuid) → Keeps Kept (add_destination request dest)
  unfolding add_destination Requests.insert_link
  add_destination-Keeps request dest = exec-Kept _ _ (λ now d h. ground arith)

  pub remove_destination-Keeps :
      (request dest : Uuid) → Keeps Kept (remove_destination request dest)
  unfolding remove_destination Requests.delete_link
  remove_destination-Keeps request dest = exec-Kept _ _ (λ now d h. h)

  pub add_note-Keeps :
      (id request author : Uuid) (body : String) → Keeps Kept (add_note id request author body)
  unfolding add_note get_note Requests.insert_note
  add_note-Keeps id request author body =
      Keeps-bind _ _ (exec-Kept _ _ (λ now d h. ground arith)) (λ _. search keeps_rules)

  pub delete_note_of-Keeps : (request note : Uuid) → Keeps Kept (delete_note_of request note)
  unfolding delete_note_of Requests.delete_note
  delete_note_of-Keeps request note = exec-Kept _ _ (λ now d h. h)

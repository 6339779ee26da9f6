-- ===== src/Api/Calls/Apart.antt =====
-- internal/handler/api: runs of the API and the names of the anime requests.
use anime_request_server.Prelude.{
  ◌≡◌, sym, subst, false, same_id, All, ℕ, String, Option, List, [], ◌∷◌,
}
use anime_request_server.Models.{Uuid, User, nil_uuid}
use anime_request_server.Database.Tables.{Db, RequestRow}
use anime_request_server.Database.Requests.Names.{RowsApart, delete_request-NamesApart}
use anime_request_server.Server.{System, World, Outcome, ok, err, after, Effect, done, refuse}
use anime_request_server.Server.Keeps.{Keeps, EffectKeeps, Keeps-map_err, Keeps-exec, keeps_rules}
use anime_request_server.Repository.Accounts.{UserSets, get_by_username, list_users, get_user}
use anime_request_server.Repository.Administration.{
  get_by_code, list_invite_codes, list_destinations,
}
use anime_request_server.Repository.Requests.Names.{LowersAgree, Names, get_by_id-Keeps}
use anime_request_server.Repository.Requests.Select.{list_notes}
use anime_request_server.Repository.Untouched.{
  create_user-Keeps, update_account-Keeps, create_session-Keeps, delete_login-Keeps,
  create_invite-Keeps, mark_used-Keeps, create_destination-Keeps, delete_destination_of-Keeps,
  add_destination-Keeps, remove_destination-Keeps, add_note-Keeps, delete_note_of-Keeps,
}
use anime_request_server.Api.Auth
use anime_request_server.Api.Auth.{
  with_limiter, notify, refuse_banned, reject, check_user, check_totp, start_session, login, logout,
  check_invite, finish_redeem, redeem_invite,
}
use anime_request_server.Api.Admin
use anime_request_server.Api.Requests
use anime_request_server.Api.Requests.Query.{list_by_query}
use anime_request_server.Api.Requests.Names.{create_request-Names}
use anime_request_server.Api.Requests.Changes.{update_request-Names}
use anime_request_server.Api.Requests.Batches.{BatchAdded, batch_create-Names}
use anime_request_server.Api.Response.{Response}
use anime_request_server.Database.Requests.{delete_request as erase}
use anime_request_server.Repository.Requests.{delete}
use anime_request_server.Server.Ensures.{Post, EffectPost}
use anime_request_server.Api.Calls
use anime_request_server.Api.Calls.{Call, Arrival, answer, handled, handle_all}
use anime_request_server.Api.Admin.{
  list_all_users, create_account, role_field, update_user_by, generate_invite, list_invites,
  list_server_destinations, create_server_destination, delete_server_destination,
}
use anime_request_server.Api.Calls.Checks.{
  with_limiter-Keeps, refuse_banned-Keeps, check_user-Keeps, check_totp-Keeps, role_field-Keeps,
  list-Keeps,
}

-- The identifiers that are drawn for new requests are not uuid.Nil.
abbrev pub IsDrawn : Call → Type 0
IsDrawn (Calls.create_request user id body) = same_id id nil_uuid ≡ false
IsDrawn (Calls.batch_create user ids body) = (i : ℕ) → same_id (ids i) nil_uuid ≡ false
IsDrawn c = Unit {0}

module _ (sys : System) where
  abbrev Apart : List RequestRow → Type 0
  Apart = RowsApart sys.sql_lower

  abbrev Safe : Db → Type 0
  Safe d = Apart d.requests

  start_session-Names :
      (session : Uuid) (token : Option String) (user : Uuid)
      → Keeps Safe (start_session sys session token user)
  unfolding start_session
  start_session-Names session token user = search (keeps_rules, create_session-Keeps Apart) depth 12

  login-Names :
      (ip : String) (body : Option Auth.LoginBody) (session : Uuid) (token : Option String)
      → Keeps Safe (login sys ip body session token)
  unfolding login get_by_username
  login-Names ip body session token =
      search
        (
          keeps_rules,
          refuse_banned-Keeps,
          check_user-Keeps sys,
          check_totp-Keeps sys,
          with_limiter-Keeps,
          start_session-Names,
        )
        depth 24

  redeem_invite-Names :
      (salt : ℕ) (user session : Uuid) (token : Option String) (body : Option Auth.RedeemBody)
      → Keeps Safe (redeem_invite sys salt user session token body)
  unfolding redeem_invite check_invite finish_redeem get_by_code
  redeem_invite-Names salt user session token body =
      search (keeps_rules, create_user-Keeps Apart, mark_used-Keeps Apart, start_session-Names)
        depth 30

  delete-Names : (id : Uuid) → Keeps Safe (delete id)
  unfolding delete
  delete-Names id = Keeps-map_err _ _ (
      Keeps-exec (λ now d. erase id d)
        (λ now d h. kept (erase id d) (delete_request-NamesApart sys.sql_lower id d h)))
    where
      kept : {A : Type 0} (e : Effect A) → EffectPost (λ _. Safe) e → EffectKeeps Safe e
      kept (done a d) h = h
      kept (refuse x) h = tt

  delete_request-Names : (id : String) → Keeps Safe (Requests.delete_request sys id)
  unfolding Requests.delete_request
  delete_request-Names id = search (keeps_rules, delete-Names) depth 12

  add_destination_to-Names :
      (id : String) (body : Option String) → Keeps Safe (Requests.add_destination_to sys id body)
  unfolding Requests.add_destination_to
  add_destination_to-Names id body = search (keeps_rules, add_destination-Keeps Apart) depth 16

  remove_destination_from-Names :
      (id dest : String) → Keeps Safe (Requests.remove_destination_from sys id dest)
  unfolding Requests.remove_destination_from
  remove_destination_from-Names id dest =
      search (keeps_rules, get_by_id-Keeps, remove_destination-Keeps Apart) depth 20

  add_note_to-Names :
      (user : User) (note : Uuid) (id : String) (body : Option String)
      → Keeps Safe (Requests.add_note_to sys user note id body)
  unfolding Requests.add_note_to
  add_note_to-Names user note id body =
      search (keeps_rules, get_by_id-Keeps, add_note-Keeps Apart) depth 24

  delete_note_from-Names : (id note : String) → Keeps Safe (Requests.delete_note_from sys id note)
  unfolding Requests.delete_note_from
  delete_note_from-Names id note = search (keeps_rules, delete_note_of-Keeps Apart) depth 16

  create_account-Names :
      (salt : ℕ) (id : Uuid) (body : Option Admin.UserBody)
      → Keeps Safe (create_account sys salt id body)
  unfolding create_account
  create_account-Names salt id body = search (keeps_rules, create_user-Keeps Apart) depth 20

  update_user_by-Names :
      (user : User) (id : String) (body : Option UserSets)
      → Keeps Safe (update_user_by sys user id body)
  unfolding update_user_by get_user
  update_user_by-Names user id body =
      search (keeps_rules, role_field-Keeps, update_account-Keeps Apart) depth 20

  generate_invite-Names :
      (user : User) (id : Uuid) (code : Option String) (body : Admin.InviteBody)
      → Keeps Safe (generate_invite user id code body)
  unfolding generate_invite
  generate_invite-Names user id code body = search (keeps_rules, create_invite-Keeps Apart) depth 16

  create_server_destination-Names :
      (user : User) (id : Uuid) (body : Option String)
      → Keeps Safe (create_server_destination user id body)
  unfolding create_server_destination
  create_server_destination-Names user id body =
      search (keeps_rules, create_destination-Keeps Apart) depth 16

  batched :
      (before : Db) (names : List String) (o : Outcome Response Response)
      → Safe before
      → Post (λ d. d ≡ before) (BatchAdded sys names before) o
      → Safe (after o).db
  batched before names (ok r w) h (n, e, apart, more, used) = apart
  batched before names (err e w) h same = subst Safe (sym same) h

  answer-Names : LowersAgree sys → (c : Call) → IsDrawn c → Keeps Safe (answer sys c)
  unfolding answer Auth.logout list_by_query Requests.list_requests Requests.get_request
      Requests.list_notes_of list_all_users list_invites list_server_destinations
      delete_server_destination list_notes list_users list_invite_codes list_destinations
  answer-Names agree (Calls.login ip body session token) real = login-Names ip body session token
  answer-Names agree (Calls.logout session) real =
      search (keeps_rules, delete_login-Keeps Apart) depth 12
  answer-Names agree (Calls.redeem_invite salt user session token body) real =
      redeem_invite-Names salt user session token body
  answer-Names agree (Calls.list_requests q) real = search (keeps_rules, list-Keeps) depth 12
  answer-Names agree (Calls.create_request user id body) real = record {
    at = λ w h. create_request-Names sys user id body w agree real h;
  }
  answer-Names agree (Calls.get_request id) real = search (keeps_rules, get_by_id-Keeps) depth 12
  answer-Names agree (Calls.update_request id body) real = record {
    at = λ w h. update_request-Names sys id body w agree h;
  }
  answer-Names agree (Calls.delete_request id) real = delete_request-Names id
  answer-Names agree (Calls.batch_create user ids body) real = record {
    at = λ w h. batched w.db _ _ h (batch_create-Names sys user ids body w agree real h);
  }
  answer-Names agree (Calls.add_destination id body) real = add_destination_to-Names id body
  answer-Names agree (Calls.remove_destination id dest) real = remove_destination_from-Names id dest
  answer-Names agree (Calls.list_notes id) real = search keeps_rules depth 12
  answer-Names agree (Calls.add_note user note id body) real = add_note_to-Names user note id body
  answer-Names agree (Calls.delete_note id note) real = delete_note_from-Names id note
  answer-Names agree Calls.list_users real = search keeps_rules depth 12
  answer-Names agree (Calls.create_user salt id body) real = create_account-Names salt id body
  answer-Names agree (Calls.update_user user id body) real = update_user_by-Names user id body
  answer-Names agree (Calls.generate_invite user id code body) real =
      generate_invite-Names user id code body
  answer-Names agree Calls.list_invites real = search keeps_rules depth 12
  answer-Names agree (Calls.list_server_destinations collated) real = search keeps_rules depth 12
  answer-Names agree (Calls.create_server_destination user id body) real =
      create_server_destination-Names user id body
  answer-Names agree (Calls.delete_server_destination id) real =
      search (keeps_rules, delete_destination_of-Keeps Apart) depth 12

-- Whatever requests come to the API, one after the other, at any times, with any bodies and whichever calls of
-- the database are lost, the names of the anime requests stay apart: no two share a name or an alternate name, nor
-- is one's name another's alternate name, up to LOWER. It needs that strings.ToLower and LOWER agree, that the
-- names are apart before, and that no identifier drawn for a new request is uuid.Nil.
pub handle_all-Names :
    (sys : System) (arrivals : List Arrival) (w : World)
    → LowersAgree sys
    → All (λ (a : Arrival). IsDrawn a.call) arrivals
    → Names sys w.db
    → Names sys (handle_all sys arrivals w).db
unfolding handle_all
handle_all-Names sys [] w agree real h = h
handle_all-Names sys (a ∷ rest) w agree (drawn, real) h =
    handle_all-Names sys rest (handled sys a w) agree real
      ((answer-Names sys agree a.call drawn).at (record w { now = a.now; faults = a.faults }) h)

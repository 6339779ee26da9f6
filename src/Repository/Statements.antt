-- ===== src/Repository/Statements.antt =====
-- The statements that internal/repository sends, as steps of the tables. Each of them is one step of PostgreSQL;
-- requests to the server interleave between them in any order, and a statement that is refused changes
-- nothing.
mod Examples
use anime_request_server.Prelude.{ℕ, String, ◌≡◌, refl, Bool, none, Option, some, List, ◌∷◌, []}
use anime_request_server.Models.{Uuid, User, Session, ServerDestination}
use anime_request_server.Database.Tables.{Db, RequestRow, NoteRow, empty_db}
use anime_request_server.Database.Accounts
use anime_request_server.Database.Requests
use anime_request_server.Database.Sound.{IsSound}
use anime_request_server.Database.Sound.Accounts.{
  insert_user-IsSound, update_user-IsSound, insert_session-IsSound, delete_session-IsSound,
  delete_expired_sessions-IsSound, insert_invite-IsSound, use_invite-IsSound, delete_invite-IsSound,
  insert_destination-IsSound, delete_destination-IsSound,
}
use anime_request_server.Database.Sound.Requests.{
  insert_request-IsSound, insert_request_or_skip-IsSound, update_request-IsSound,
  delete_request-IsSound, insert_link-IsSound, delete_link-IsSound, insert_note-IsSound,
  delete_note-IsSound,
}
use anime_request_server.Server.{Effect, done, refuse}
use anime_request_server.Server.Ensures.{EffectPost}
use anime_request_server.Repository.Accounts.{UserSets, apply_user_sets}
use anime_request_server.Repository.Administration.{new_invite}
use anime_request_server.Repository.Requests.{RequestSets, apply_sets}

-- One constructor for each statement that writes.
pub data Statement : Type 0 where
  create_user : User → Statement
  update_user : Uuid → UserSets → Statement
  update_totp : Uuid → Option String → Bool → Statement
  create_session : Session → Statement
  delete_session : Uuid → Statement
  delete_expired : Statement
  create_invite : (id : Uuid) → (code : String) → (created_by : Uuid) → Option ℕ → Statement
  mark_used : (id user : Uuid) → Statement
  delete_invite : Uuid → Statement
  create_destination : ServerDestination → Statement
  delete_destination : Uuid → Statement
  create_request : RequestRow → Statement
  create_request_or_skip : RequestRow → Statement
  update_request : Uuid → RequestSets → Statement
  delete_request : Uuid → Statement
  add_destination : (request dest : Uuid) → Statement
  remove_destination : (request dest : Uuid) → Statement
  add_note : NoteRow → Statement
  delete_note : (request note : Uuid) → Statement

abbrev db_after : {A : Type 0} → Db → Effect A → Db
db_after d (done a e) = e
db_after d (refuse x) = d

-- What a statement makes of the tables, at NOW().
unfoldable pub run : (String → String) → ℕ → Statement → Db → Db
run lower now (create_user u) d = db_after d (Accounts.insert_user u d)
run lower now (update_user id sets) d =
    db_after d (Accounts.update_user id (apply_user_sets now sets) d)
run lower now (update_totp id secret enabled) d = db_after d (
    Accounts.update_user id
      (λ u. record u { totp_secret = secret; totp_enabled = enabled; updated_at = now }) d)
run lower now (create_session s) d = db_after d (Accounts.insert_session s d)
run lower now (delete_session id) d = db_after d (Accounts.delete_session id d)
run lower now delete_expired d = db_after d (Accounts.delete_expired_sessions now d)
run lower now (create_invite id code created_by expires_at) d =
    db_after d (Accounts.insert_invite (new_invite id code created_by expires_at now) d)
run lower now (mark_used id user) d = db_after d (Accounts.use_invite id user d)
run lower now (delete_invite id) d = db_after d (Accounts.delete_invite id d)
run lower now (create_destination s) d = db_after d (Accounts.insert_destination s d)
run lower now (delete_destination id) d = db_after d (Accounts.delete_destination id d)
run lower now (create_request r) d = db_after d (Requests.insert_request lower r d)
run lower now (create_request_or_skip r) d = db_after d (Requests.insert_request_or_skip lower r d)
run lower now (update_request id sets) d =
    db_after d (Requests.update_request lower id (apply_sets now sets) d)
run lower now (delete_request id) d = db_after d (Requests.delete_request id d)
run lower now (add_destination request dest) d =
    db_after d (Requests.insert_link now request dest d)
run lower now (remove_destination request dest) d = db_after d (Requests.delete_link request dest d)
run lower now (add_note n) d = db_after d (Requests.insert_note n d)
run lower now (delete_note request note) d = db_after d (Requests.delete_note request note d)

-- The tables that statements, at any times and in any order, make of others.
pub data Reach (lower : String → String) (d : Db) : Db → Type 0 where
  here : Reach lower d d
  next :
      {e f : Db} (now : ℕ) (s : Statement)
      → Reach lower d e
      → f ≡ run lower now s e
      → Reach lower d f

module _ (lower : String → String) where
  db_after-IsSound :
      {A : Type 0} (d : Db) (e : Effect A)
      → IsSound lower d
      → EffectPost (λ _. IsSound lower) e
      → IsSound lower (db_after d e)
  db_after-IsSound d (done a e) h k = k
  db_after-IsSound d (refuse x) h k = h

  run-IsSound :
      (now : ℕ) (s : Statement) (d : Db) → IsSound lower d → IsSound lower (run lower now s d)
  unfolding run apply_user_sets apply_sets
  run-IsSound now (create_user u) d h = db_after-IsSound d _ h (insert_user-IsSound lower u d h)
  run-IsSound now (update_user id sets) d h = db_after-IsSound d _ h (
      update_user-IsSound lower id (apply_user_sets now sets) (sets_id now sets)
        (sets_username now sets) d h)
    where
      sets_id : (now : ℕ) (sets : UserSets) (u : User) → (apply_user_sets now sets u).id ≡ u.id
      sets_id now sets u = refl

      sets_username :
          (now : ℕ) (sets : UserSets) (u : User)
          → (apply_user_sets now sets u).username ≡ u.username
      sets_username now sets u = refl
  run-IsSound now (update_totp id secret enabled) d h =
      db_after-IsSound d _ h (update_user-IsSound lower id _ (λ u. refl) (λ u. refl) d h)
  run-IsSound now (create_session s) d h =
      db_after-IsSound d _ h (insert_session-IsSound lower d h s)
  run-IsSound now (delete_session id) d h =
      db_after-IsSound d _ h (delete_session-IsSound lower d h id)
  run-IsSound now delete_expired d h =
      db_after-IsSound d _ h (delete_expired_sessions-IsSound lower d h now)
  run-IsSound now (create_invite id code created_by expires_at) d h =
      db_after-IsSound d _ h
        (insert_invite-IsSound lower d h (new_invite id code created_by expires_at now) refl)
  run-IsSound now (mark_used id user) d h =
      db_after-IsSound d _ h (use_invite-IsSound lower d h id user)
  run-IsSound now (delete_invite id) d h =
      db_after-IsSound d _ h (delete_invite-IsSound lower d h id)
  run-IsSound now (create_destination s) d h =
      db_after-IsSound d _ h (insert_destination-IsSound lower d h s)
  run-IsSound now (delete_destination id) d h =
      db_after-IsSound d _ h (delete_destination-IsSound lower d h id)
  run-IsSound now (create_request r) d h =
      db_after-IsSound d _ h (insert_request-IsSound lower d h r)
  run-IsSound now (create_request_or_skip r) d h =
      db_after-IsSound d _ h (insert_request_or_skip-IsSound lower d h r)
  run-IsSound now (update_request id sets) d h =
      db_after-IsSound d _ h
        (update_request-IsSound lower d h id (apply_sets now sets) (λ r. refl) (λ r. refl))
  run-IsSound now (delete_request id) d h =
      db_after-IsSound d _ h (delete_request-IsSound lower d h id)
  run-IsSound now (add_destination request dest) d h =
      db_after-IsSound d _ h (insert_link-IsSound lower d h now request dest)
  run-IsSound now (remove_destination request dest) d h =
      db_after-IsSound d _ h (delete_link-IsSound lower d h request dest)
  run-IsSound now (add_note n) d h = db_after-IsSound d _ h (insert_note-IsSound lower d h n)
  run-IsSound now (delete_note request note) d h =
      db_after-IsSound d _ h (delete_note-IsSound lower d h request note)

  -- Whatever statements the repositories send, in any order and at any times, the tables stay sound:
  -- identifiers, usernames, token hashes, codes, destination names, request names and alternate names are
  -- unique, roles, categories and statuses are valid, and every foreign key names a row that is there.
  pub Reach-IsSound : {d e : Db} → IsSound lower d → Reach lower d e → IsSound lower e
  Reach-IsSound h here = h
  Reach-IsSound h (next now s r e) = rw e (run-IsSound now s _ (Reach-IsSound h r))

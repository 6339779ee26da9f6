-- ===== src/Repository/Accounts.antt =====
-- internal/repository/users.go: UserRepo and SessionRepo.
use mathlib.Core.Option
use anime_request_server.Prelude.{
  ℕ, String, Bool, false, ◌&&◌, Option, none, some, List, map, ltb, ◌==◌, if◌then◌else◌, find,
}
use anime_request_server.Models.{Uuid, User, Session}
use anime_request_server.Database.Tables.{Db}
use anime_request_server.Database.Requests.Sort.{sort, ascending}
use anime_request_server.Database.Accounts.{
  insert_user, update_user, insert_session, delete_session, delete_expired_sessions,
}
use anime_request_server.Server.{M, ◌>>◌, map_err, exec, query, DbError, refused, lost}
use anime_request_server.Repository.Errors.{RepoError, message, wrapped}
use anime_request_server.Repository.Requests.Select.{find_user}

-- strings.Contains(err.Error(), "duplicate key"), the words of PostgreSQL for SQLSTATE 23505
abbrev pub is_duplicate_key : DbError → Bool
is_duplicate_key lost = false
is_duplicate_key (refused e) = e.code == "23505"

-- The row that the INSERT of a user makes, with the defaults of the other columns.
unfoldable pub new_user : Uuid → ℕ → String → String → String → User
new_user id now username password_hash role = record {
  id = id;
  username = username;
  email = none;
  password_hash = password_hash;
  totp_secret = none;
  totp_enabled = false;
  role = role;
  can_batch_add = false;
  disabled = false;
  notes_blocked = false;
  created_at = now;
  updated_at = now;
}

abbrev creating_user : DbError → RepoError
creating_user e =
    if is_duplicate_key e then message "username already exists" else wrapped "creating user: " e

-- UserRepo.GetByID
unfoldable pub get_user : Uuid → M RepoError (Option User)
get_user id = map_err (wrapped "getting user by ID: ") (query (λ now d. find_user id d))

-- UserRepo.Create
unfoldable pub create_user : Uuid → String → String → String → M RepoError (Option User)
unfolding new_user get_user
create_user id username password_hash role = do
  map_err creating_user
      (exec (λ now d. insert_user (new_user id now username password_hash role) d))
  get_user id

abbrev pub find_username : String → Db → Option User
find_username username d = find (λ (u : User). u.username == username) d.users

-- UserRepo.GetByUsername
unfoldable pub get_by_username : String → M RepoError (Option User)
get_by_username username =
    map_err (wrapped "getting user by username: ") (query (λ now d. find_username username d))

-- The columns that List and GetByTokenHash select: no password, no TOTP secret.
abbrev pub without_secrets : User → User
without_secrets u = record u { password_hash = ""; totp_secret = none }

-- UserRepo.List
unfoldable pub list_users : M RepoError (List User)
unfolding sort
list_users = map_err (wrapped "listing users: ") (
    query (λ now d.
      sort (ascending (λ (u : User). u.created_at) (λ u v. d.ties 0 u.id v.id))
        (map without_secrets d.users)))

-- The SET list of UserRepo.Update.
pub record UserSets : Type 0 where
  pub role : Option String
  pub can_batch_add : Option Bool
  pub disabled : Option Bool
  pub notes_blocked : Option Bool

abbrev pub given {ℓ} : {A : Type ℓ} → Option A → A → A
given none old = old
given (some a) old = a

unfoldable pub apply_user_sets : ℕ → UserSets → User → User
apply_user_sets now s u = record u {
  role = given s.role u.role;
  can_batch_add = given s.can_batch_add u.can_batch_add;
  disabled = given s.disabled u.disabled;
  notes_blocked = given s.notes_blocked u.notes_blocked;
  updated_at = now;
}

-- UserRepo.Update
unfoldable pub update_account : Uuid → UserSets → M RepoError (Unit {0})
update_account id sets =
    map_err (wrapped "updating user: ")
      (exec (λ now d. update_user id (apply_user_sets now sets) d))

-- UserRepo.UpdateTOTP
unfoldable pub update_totp : Uuid → Option String → Bool → M RepoError (Unit {0})
update_totp id secret enabled = map_err (wrapped "updating TOTP: ") (
    exec (λ now d.
      update_user id
        (λ u. record u { totp_secret = secret; totp_enabled = enabled; updated_at = now }) d))

-- SessionRepo.Create
unfoldable pub create_session : Uuid → Uuid → String → ℕ → M RepoError (Unit {0})
create_session id user_id token_hash expires_at = map_err (wrapped "creating session: ") (
    exec (λ now d.
      insert_session
        (record {
          id = id;
          user_id = user_id;
          token_hash = token_hash;
          expires_at = expires_at;
          created_at = now;
        })
        d))

-- The session of a token hash that has not expired.
abbrev pub live : ℕ → String → Session → Bool
live now token_hash s = s.token_hash == token_hash && ltb now s.expires_at

abbrev pub with_user : Db → Session → Option (Session × User)
with_user d s = Option.map (λ u. (s, without_secrets u)) (find_user s.user_id d)

-- The query of SessionRepo.GetByTokenHash. A session always has its user, by the foreign key.
unfoldable pub select_session : String → ℕ → Db → Option (Session × User)
select_session token_hash now d = Option.bind (find (live now token_hash) d.sessions) (with_user d)

-- SessionRepo.GetByTokenHash
unfoldable pub get_by_token_hash : String → M RepoError (Option (Session × User))
unfolding select_session
get_by_token_hash token_hash =
    map_err (wrapped "getting session: ") (query (λ now d. select_session token_hash now d))

-- SessionRepo.Delete
unfoldable pub delete_login : Uuid → M RepoError (Unit {0})
delete_login id = map_err (wrapped "deleting session: ") (exec (λ now d. delete_session id d))

-- SessionRepo.DeleteExpired
unfoldable pub delete_expired : M RepoError ℕ
delete_expired =
    map_err (wrapped "deleting expired sessions: ") (exec (λ now d. delete_expired_sessions now d))

-- ===== src/Repository/Administration.antt =====
-- internal/repository/admin.go: InviteCodeRepo and ServerDestRepo.
use anime_request_server.Prelude.{ℕ, String, Bool, Option, none, List, ◌==◌, if◌then◌else◌, find}
use anime_request_server.Models.{Uuid, InviteCode, ServerDestination}
use anime_request_server.Database.Tables.{Db}
use anime_request_server.Database.Requests.Sort.{sort, descending}
use anime_request_server.Database.Accounts.{
  insert_invite, use_invite, delete_invite, insert_destination, delete_destination,
}
use anime_request_server.Server.{M, pure, ◌>>◌, map_err, exec, query, DbError}
use anime_request_server.Repository.Errors.{RepoError, message, wrapped}
use anime_request_server.Repository.Accounts.{is_duplicate_key}

abbrev pub new_invite : Uuid → String → Uuid → Option ℕ → ℕ → InviteCode
new_invite id code created_by expires_at created_at = record {
  id = id;
  code = code;
  created_by = created_by;
  used_by = none;
  expires_at = expires_at;
  created_at = created_at;
}

-- InviteCodeRepo.Create. What it returns was not read back: its created_at is the zero time.
unfoldable pub create_invite : Uuid → String → Uuid → Option ℕ → M RepoError InviteCode
create_invite id code created_by expires_at = do
  map_err (wrapped "creating invite code: ")
      (exec (λ now d. insert_invite (new_invite id code created_by expires_at now) d))
  pure (new_invite id code created_by expires_at 0)

abbrev pub find_code : String → Db → Option InviteCode
find_code code d = find (λ (c : InviteCode). c.code == code) d.invite_codes

-- InviteCodeRepo.GetByCode
unfoldable pub get_by_code : String → M RepoError (Option InviteCode)
get_by_code code = map_err (wrapped "getting invite code: ") (query (λ now d. find_code code d))

-- InviteCodeRepo.MarkUsed
unfoldable pub mark_used : Uuid → Uuid → M RepoError (Unit {0})
mark_used code user =
    map_err (wrapped "marking invite code used: ") (exec (λ now d. use_invite code user d))

-- InviteCodeRepo.List
unfoldable pub list_invite_codes : M RepoError (List InviteCode)
unfolding sort
list_invite_codes = map_err (wrapped "listing invite codes: ") (
    query (λ now d.
      sort (descending (λ (c : InviteCode). c.created_at) (λ a b. d.ties 0 a.id b.id))
        d.invite_codes))

-- InviteCodeRepo.Delete
unfoldable pub delete_invite_code : Uuid → M RepoError (Unit {0})
delete_invite_code id =
    map_err (wrapped "deleting invite code: ") (exec (λ now d. delete_invite id d))

abbrev pub new_destination : Uuid → String → Uuid → ℕ → ServerDestination
new_destination id name created_by created_at = record {
  id = id;
  name = name;
  created_by = created_by;
  created_at = created_at;
}

abbrev creating_destination : DbError → RepoError
creating_destination e =
    if is_duplicate_key e
    then message "server destination name already exists"
    else wrapped "creating server destination: " e

-- ServerDestRepo.Create, which returns the zero time as well.
unfoldable pub create_destination : Uuid → String → Uuid → M RepoError ServerDestination
create_destination id name created_by = do
  map_err creating_destination
      (exec (λ now d. insert_destination (new_destination id name created_by now) d))
  pure (new_destination id name created_by 0)

-- ServerDestRepo.List, by name under the database's collation.
unfoldable pub list_destinations : (String → String → Bool) → M RepoError (List ServerDestination)
unfolding sort
list_destinations collated = map_err (wrapped "listing server destinations: ") (
    query
      (λ now d. sort (λ (a b : ServerDestination). collated a.name b.name) d.server_destinations))

-- ServerDestRepo.Delete
unfoldable pub delete_destination_of : Uuid → M RepoError (Unit {0})
delete_destination_of id =
    map_err (wrapped "deleting server destination: ") (exec (λ now d. delete_destination id d))

-- ===== src/Repository/Requests.antt =====
-- internal/repository/requests.go. uuid.New() is an argument. A statement of the repository is an effect
-- of Database/Requests; each one is a call that may be lost.
pub mod Select
pub mod Names
pub mod Updates
pub mod Loading
mod Examples
pub mod Pages
pub mod Batch
use Prim.Native.String.{[] as empty}
use mathlib.Core.Option
use anime_request_server.Prelude.{
  ℕ, suc, ◌+◌, String, Bool, true, false, not, ◌&&◌, ◌||◌, Option, none, some, List, [], ◌∷◌, ◌++◌,
  map, same_id, ◌==◌, if◌then◌else◌, any, filter,
}
use anime_request_server.Text.{to_lower, trim_space}
use anime_request_server.Models.{Uuid, AnimeRequest, Note, category_batch_add, status_new}
use anime_request_server.Database.Tables.{Db, RequestRow, NoteRow}
use anime_request_server.Database.Requests.{
  insert_request, insert_request_or_skip, update_request, delete_request, insert_link, delete_link,
  insert_note, delete_note,
}
use anime_request_server.Server.{
  System, World, M, pure, stop, ◌>>=◌, ◌>>◌, map_err, exec, query, transaction, DbError,
}
use Select.{get_by_id, get_note}
use anime_request_server.Repository.Errors.{
  RepoError, message, wrapped, no_destination, map_request_constraint_err, mapped_or,
  is_foreign_key,
}

abbrev pub or_default : Option String → String → String
or_default none d = d
or_default (some s) d = s

-- The row that the INSERT of CreateWithDetails makes; columns that are left out take the defaults.
abbrev pub new_row :
    Uuid → ℕ → String → String → Uuid → Option String → Option String → Option String → RequestRow
new_row id now name category requested_by alt_name status anidb_url = record {
  id = id;
  name = name;
  alt_name = alt_name;
  category = category;
  status = or_default status status_new;
  requested_by = requested_by;
  anidb_url = anidb_url;
  created_at = now;
  updated_at = now;
}

abbrev creating : DbError → RepoError
creating e = mapped_or (wrapped "creating request: " e) (map_request_constraint_err e)

abbrev linking : DbError → RepoError
linking e = if is_foreign_key e then no_destination else wrapped "linking destination: " e

-- The loop over destIDs.
unfoldable pub link_all : Uuid → List Uuid → M RepoError (Unit {0})
link_all id [] = pure tt
link_all id (dest ∷ dests) = do
  map_err linking (exec (λ now d. insert_link now id dest d))
  link_all id dests

unfoldable pub create_with_details :
    System
    → Uuid
    → String
    → String
    → Uuid
    → Option String
    → Option String
    → Option String
    → List Uuid
    → M RepoError (Option AnimeRequest)
create_with_details sys id name category requested_by alt_name status anidb_url dest_ids = do
  transaction (wrapped "create: ") do
    map_err creating (
        exec (λ now d.
          insert_request sys.sql_lower
            (new_row id now name category requested_by alt_name status anidb_url) d))
    link_all id dest_ids
  get_by_id id

-- Create
unfoldable pub create : System → Uuid → String → String → Uuid → M RepoError (Option AnimeRequest)
create sys id name category requested_by =
    create_with_details sys id name category requested_by none none none []

abbrev pub alt_names : (String → String) → List RequestRow → List String
alt_names lower [] = []
alt_names lower (r ∷ rs) = elim r.alt_name [
  | none ↦ alt_names lower rs
  | some a ↦ lower a ∷ alt_names lower rs
]

abbrev pub contains : List String → String → Bool
contains names s = any (λ t. t == s) names

-- The query of CreateBatch for `taken`: the names and alternate names, lowered, that are wanted.
unfoldable pub taken_names : (String → String) → List String → Db → List String
taken_names lower wanted d =
    filter (contains wanted) (map (λ (r : RequestRow). lower r.name) d.requests)
    ++ filter (contains wanted) (alt_names lower d.requests)

unfoldable pub batch_row : Uuid → ℕ → String → Uuid → RequestRow
batch_row id now name requested_by =
    new_row id now name category_batch_add requested_by none none none

-- The results of the batch, one for each name; the count of rows inserted. `ids` are the calls of
-- uuid.New().
unfoldable pub insert_batch : System → (ℕ → Uuid) → ℕ → Uuid → List String → M RepoError ℕ
unfolding batch_row
insert_batch sys ids count requested_by [] = pure count
insert_batch sys ids count requested_by (name ∷ names) = do
  inserted ← map_err (wrapped "batch insert: ") (
      exec
        (λ now d. insert_request_or_skip sys.sql_lower (batch_row (ids 0) now name requested_by) d))
  insert_batch sys (λ i. ids (suc i)) (count + inserted) requested_by names

-- The names that are not taken.
abbrev pub not_taken : System → List String → List String → List String
not_taken sys taken names = filter (λ n. not (contains taken (to_lower sys.unicode n))) names

abbrev is_nil : List String → Bool
is_nil [] = true
is_nil (x ∷ xs) = false

unfoldable pub create_batch : System → (ℕ → Uuid) → List String → Uuid → M RepoError ℕ
create_batch sys ids names requested_by = transaction (wrapped "batch insert: ") do
  taken ←
      map_err (wrapped "checking batch duplicates: ")
        (query (λ now d. taken_names sys.sql_lower (map (to_lower sys.unicode) names) d))
  let to_insert = not_taken sys taken names
  if is_nil to_insert then pure 0 else do
    count ← insert_batch sys ids 0 requested_by to_insert
    map_err (wrapped "closing batch: ") (query (λ now d. count))

-- The SET list of Update: what is given replaces the column, an empty alternate name stores NULL.
pub record RequestSets : Type 0 where
  pub name : Option String
  pub alt_name : Option String
  pub status : Option String
  pub category : Option String
  pub anidb_url : Option String

abbrev pub set_alt : Option String → Option String → Option String
set_alt none old = old
set_alt (some a) old = if a == "" then none else some a

abbrev pub set_column : Option String → Option String → Option String
set_column none old = old
set_column (some a) old = some a

unfoldable pub apply_sets : ℕ → RequestSets → RequestRow → RequestRow
apply_sets now s r = record r {
  name = or_default s.name r.name;
  alt_name = set_alt s.alt_name r.alt_name;
  status = or_default s.status r.status;
  category = or_default s.category r.category;
  anidb_url = set_column s.anidb_url r.anidb_url;
  updated_at = now;
}

abbrev updating : DbError → RepoError
updating e = mapped_or (wrapped "" e) (map_request_constraint_err e)

unfoldable pub update : System → Uuid → RequestSets → M RepoError (Unit {0})
update sys id sets =
    map_err updating (exec (λ now d. update_request sys.sql_lower id (apply_sets now sets) d))

unfoldable pub delete : Uuid → M RepoError Bool
delete id = map_err (wrapped "deleting request: ") (exec (λ now d. delete_request id d))

unfoldable pub add_destination : Uuid → Uuid → M RepoError (Unit {0})
add_destination request dest = map_err (wrapped "") (exec (λ now d. insert_link now request dest d))

unfoldable pub remove_destination : Uuid → Uuid → M RepoError (Unit {0})
remove_destination request dest = map_err (wrapped "") (exec (λ now d. delete_link request dest d))

unfoldable pub add_note : Uuid → Uuid → Uuid → String → M RepoError (Option Note)
add_note id request author body = do
  map_err (wrapped "creating note: ") (
      exec (λ now d.
        insert_note
          (record {
            id = id;
            request_id = request;
            author_id = author;
            body = body;
            created_at = now;
          })
          d))
  get_note id

unfoldable pub delete_note_of : Uuid → Uuid → M RepoError Bool
delete_note_of request note =
    map_err (wrapped "deleting note: ") (exec (λ now d. delete_note request note d))

-- A value that may be missing, as candidates.
abbrev pub given_list : Option String → List String
given_list none = []
given_list (some s) = s ∷ []

abbrev pub not_empty : Option String → List String
not_empty none = []
not_empty (some a) = if a == "" then [] else a ∷ []

-- The candidates of NameInUse: trimmed, not empty, lowered.
unfoldable pub lowered_candidates : System → List String → List String
lowered_candidates sys [] = []
lowered_candidates sys (c ∷ cs) =
    let rest = lowered_candidates sys cs in
    let t = trim_space c in if t == "" then rest else to_lower sys.unicode t ∷ rest

abbrev pub alt_in : (String → String) → List String → Option String → Bool
alt_in lower names none = false
alt_in lower names (some a) = contains names (lower a)

-- The EXISTS query of NameInUse.
unfoldable pub uses_name : (String → String) → Uuid → List String → RequestRow → Bool
uses_name lower exclude names r =
    not (same_id r.id exclude) && (contains names (lower r.name) || alt_in lower names r.alt_name)

unfoldable pub name_in_use : System → Uuid → List String → M RepoError Bool
unfolding uses_name
name_in_use sys exclude candidates =
    let names = lowered_candidates sys candidates in
    if is_nil names
    then pure false
    else map_err (wrapped "checking duplicate: ")
        (query (λ now d. any (uses_name sys.sql_lower exclude names) d.requests))

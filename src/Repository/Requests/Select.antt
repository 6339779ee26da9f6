-- ===== src/Repository/Requests/Select.antt =====
-- The reading queries of internal/repository/requests.go: GetByID, loadDestinations, the destinations
-- of a page in one query, List, ListNotes, GetNote.
use mathlib.Core.Option
use anime_request_server.Prelude.{
  ℕ, ◌-◌, ◌*◌, ◌%◌, ◌^◌, String, Bool, true, ◌&&◌, ◌||◌, Option, none, some, List, [], ◌∷◌, ◌++◌,
  same_id, ltb, ◌==◌, if◌then◌else◌, any, filter, find, length, take, drop,
}
use anime_request_server.Models.{
  Uuid, User, AnimeRequest, ServerDestination, ServerDestinationMapping, Note,
}
use anime_request_server.Database.Tables.{Db, RequestRow, LinkRow, NoteRow}
use anime_request_server.Database.Requests.Sort.{sort, ascending, descending}
use anime_request_server.Server.{M, pure, ◌>>=◌, map_err, exec, query, Effect, done, refuse}
use anime_request_server.Repository.Errors.{RepoError, wrapped}

abbrev pub find_user : Uuid → Db → Option User
find_user id d = find (λ (u : User). same_id u.id id) d.users

abbrev pub find_request : Uuid → Db → Option RequestRow
find_request id d = find (λ (r : RequestRow). same_id r.id id) d.requests

-- JOIN server_destinations sd ON sd.id = rsd.server_destination_id
abbrev pub mapping_of : Db → LinkRow → Option ServerDestinationMapping
mapping_of d l =
    Option.map
      (λ (s : ServerDestination). record { id = s.id; name = s.name; added_at = l.added_at })
      (find (λ (s : ServerDestination). same_id s.id l.server_destination_id) d.server_destinations)

-- A row that the join has, in front of others.
abbrev pub put_row : {A : Type 0} → Option A → List A → List A
put_row none rows = rows
put_row (some row) rows = row ∷ rows

abbrev pub joined : Db → List LinkRow → List ServerDestinationMapping
joined d [] = []
joined d (l ∷ ls) = put_row (mapping_of d l) (joined d ls)

-- ORDER BY added_at
abbrev pub added_before : Db → ServerDestinationMapping → ServerDestinationMapping → Bool
added_before d = ascending (λ m. m.added_at) (λ a b. d.ties 0 a.id b.id)

-- loadDestinations
unfoldable pub destinations_of : Db → Uuid → List ServerDestinationMapping
unfolding sort
destinations_of d request =
    sort (added_before d) (joined d (filter (λ l. same_id l.request_id request) d.links))

-- The columns of a request, joined with the requester; no destinations yet.
abbrev pub scan_request : RequestRow → User → AnimeRequest
scan_request r u = record {
  id = r.id;
  name = r.name;
  alt_name = r.alt_name;
  category = r.category;
  status = r.status;
  requested_by = r.requested_by;
  requested_by_username = u.username;
  server_destinations = [];
  anidb_url = r.anidb_url;
  created_at = r.created_at;
  updated_at = r.updated_at;
}

abbrev pub join_user : Db → RequestRow → Option AnimeRequest
join_user d r = Option.map (scan_request r) (find_user r.requested_by d)

-- The row of GetByID.
unfoldable pub select_request : Uuid → Db → Option AnimeRequest
select_request id d = Option.bind (find_request id d) (join_user d)

abbrev pub with_destinations : Option AnimeRequest → M RepoError (Option AnimeRequest)
with_destinations none = pure none
with_destinations (some r) = do
  dests ← map_err (wrapped "loading destinations: ") (query (λ now d. destinations_of d r.id))
  pure (some (record r { server_destinations = dests }))

unfoldable pub get_by_id : Uuid → M RepoError (Option AnimeRequest)
unfolding select_request destinations_of
get_by_id id = do
  found ← map_err (wrapped "getting request: ") (query (λ now d. select_request id d))
  with_destinations found

abbrev pub join_author : Db → NoteRow → Option Note
join_author d n =
    Option.map
      (λ (u : User). record {
        id = n.id;
        request_id = n.request_id;
        author_id = n.author_id;
        author_username = u.username;
        body = n.body;
        created_at = n.created_at;
      })
      (find_user n.author_id d)

unfoldable pub get_note : Uuid → M RepoError (Option Note)
get_note id =
    map_err (wrapped "getting note: ") (
      query
        (λ now d. Option.bind (find (λ (n : NoteRow). same_id n.id id) d.notes) (join_author d)))

abbrev pub joined_notes : Db → List NoteRow → List Note
joined_notes d [] = []
joined_notes d (n ∷ ns) = elim (join_author d n) [
  | none ↦ joined_notes d ns
  | some m ↦ m ∷ joined_notes d ns
]

-- The rows of ListNotes, oldest first.
unfoldable pub notes_of : Db → Uuid → List Note
unfolding sort
notes_of d request =
    sort (ascending (λ (n : Note). n.created_at) (λ a b. d.ties 0 a.id b.id))
      (joined_notes d (filter (λ n. same_id n.request_id request) d.notes))

unfoldable pub list_notes : Uuid → M RepoError (List Note)
unfolding notes_of
list_notes request = map_err (wrapped "listing notes: ") (query (λ now d. notes_of d request))

-- RequestFilter. Page and PerPage are `int`; the handlers pass positive ones.
pub record RequestFilter : Type 0 where
  pub category : Option String
  pub status : Option String
  pub requested_by : Option Uuid
  pub page : ℕ
  pub per_page : ℕ

-- The clamping at the head of List.
unfoldable pub clamp : RequestFilter → RequestFilter
clamp f = record f {
  page = if ltb f.page 1 then 1 else f.page;
  per_page = if ltb f.per_page 1 || ltb 100 f.per_page then 25 else f.per_page;
}

abbrev wants : Option String → String → Bool
wants none s = true
wants (some t) s = s == t

abbrev wants_id : Option Uuid → Uuid → Bool
wants_id none id = true
wants_id (some j) id = same_id id j

-- The WHERE clause.
unfoldable pub matches : RequestFilter → RequestRow → Bool
matches f r =
    wants f.category r.category && wants f.status r.status && wants_id f.requested_by r.requested_by

abbrev pub joined_requests : Db → List RequestRow → List AnimeRequest
joined_requests d [] = []
joined_requests d (r ∷ rs) = elim (join_user d r) [
  | none ↦ joined_requests d rs
  | some q ↦ q ∷ joined_requests d rs
]

-- ORDER BY created_at DESC
abbrev pub newer : (Uuid → Uuid → Bool) → AnimeRequest → AnimeRequest → Bool
newer tie = descending (λ r. r.created_at) (λ a b. tie a.id b.id)

-- All rows of the list query, without LIMIT and OFFSET; `tie` orders those of one time.
unfoldable pub selected : (Uuid → Uuid → Bool) → RequestFilter → Db → List AnimeRequest
unfolding sort matches
selected tie f d = sort (newer tie) (joined_requests d (filter (matches f) d.requests))

-- loadDestinationsForMultiple: one query for the destinations of all requests, by request and time,
-- and a loop that appends each row to its request.
pub record DestinationRow : Type 0 where
  pub request_id : Uuid
  pub mapping : ServerDestinationMapping

-- ORDER BY request_id, added_at
abbrev pub ordered_before : Db → DestinationRow → DestinationRow → Bool
ordered_before d =
    ascending (λ row. row.request_id)
      (ascending (λ row. row.mapping.added_at) (λ a b. d.ties 1 a.mapping.id b.mapping.id))

abbrev pub row_of : Uuid → ServerDestinationMapping → DestinationRow
row_of request m = record { request_id = request; mapping = m }

abbrev pub joined_rows : Db → List LinkRow → List DestinationRow
joined_rows d [] = []
joined_rows d (l ∷ ls) =
    put_row (Option.map (row_of l.request_id) (mapping_of d l)) (joined_rows d ls)

unfoldable pub destination_rows : List AnimeRequest → Db → List DestinationRow
unfolding sort
destination_rows rs d =
    sort (ordered_before d) (
      joined_rows d
        (filter (λ l. any (λ (r : AnimeRequest). same_id r.id l.request_id) rs) d.links))

unfoldable pub append_to : DestinationRow → List AnimeRequest → List AnimeRequest
append_to row [] = []
append_to row (r ∷ rs) =
    (if same_id r.id row.request_id
      then record r { server_destinations = r.server_destinations ++ row.mapping ∷ [] }
      else r)
    ∷ append_to row rs

unfoldable pub distribute : List DestinationRow → List AnimeRequest → List AnimeRequest
unfolding append_to
distribute [] rs = rs
distribute (row ∷ rows) rs = distribute rows (append_to row rs)

unfoldable pub load_for_multiple : List AnimeRequest → M RepoError (List AnimeRequest)
unfolding destination_rows distribute
load_for_multiple [] = pure []
load_for_multiple (r ∷ rs) = do
  rows ← map_err (wrapped "loading destinations: ") (query (λ now d. destination_rows (r ∷ rs) d))
  pure (distribute rows (r ∷ rs))

-- `(filter.Page - 1) * filter.PerPage` in a 64-bit int, as the unsigned number of the same bits.
unfoldable pub offset_of : RequestFilter → ℕ
offset_of f = ((f.page - 1) * f.per_page) % 2 ^ 64

-- LIMIT and OFFSET. A negative offset is an error of the statement. Every offset is a statement of its own, which
-- need not order rows of one time as another does.
unfoldable pub select_page : RequestFilter → Db → Effect (List AnimeRequest)
unfolding offset_of selected
select_page f d =
    if ltb (offset_of f) (2 ^ 63)
    then done (take f.per_page (drop (offset_of f) (selected (d.ties (offset_of f)) f d))) d
    else refuse (record { code = "2201X"; constraint = "" })

-- The page and the total.
unfoldable pub list : RequestFilter → M RepoError (List AnimeRequest × ℕ)
unfolding clamp load_for_multiple matches select_page
list filter_given = do
  let f = clamp filter_given
  total ←
      map_err (wrapped "counting requests: ")
        (query (λ now d. length (filter (matches f) d.requests)))
  page ← map_err (wrapped "listing requests: ") (exec (λ now d. select_page f d))
  requests ← load_for_multiple page
  pure (requests, total)

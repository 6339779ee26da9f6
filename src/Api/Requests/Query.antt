-- ===== src/Api/Requests/Query.antt =====
-- internal/handler/api/requests.go: intQuery, and List from the values of the query on.
use anime_request_server.Prelude.{ℕ, String, Option, none, some, ◌==◌, if◌then◌else◌}
use anime_request_server.Text.Numbers.{atoi, at_least_one}
use anime_request_server.Server.{System}
use anime_request_server.Repository.Requests.Select.{RequestFilter}
use anime_request_server.Api.Response.{Handler}
use anime_request_server.Api.Requests.{list_requests}

-- intQuery of a value. An empty text has its own branch, which atoi treats alike.
unfoldable pub int_query : String → ℕ → ℕ
unfolding atoi
int_query String.[] def = def
int_query (String.◌∷◌ c s) def = at_least_one def (atoi (String.◌∷◌ c s))

-- The values of the query, which are empty where they are absent.
pub record Query : Type 0 where
  pub page : String
  pub per_page : String
  pub category : String
  pub status : String
  pub requested_by : String

abbrev given_text : String → Option String
given_text s = if s == "" then none else some s

-- A requester that does not parse is passed over.
unfoldable pub filter_of : System → Query → RequestFilter
unfolding int_query
filter_of sys q = record {
  category = given_text q.category;
  status = given_text q.status;
  requested_by = if q.requested_by == "" then none else sys.parse_uuid q.requested_by;
  page = int_query q.page 1;
  per_page = int_query q.per_page 25;
}

-- List
unfoldable pub list_by_query : System → Query → Handler
unfolding filter_of
list_by_query sys q = list_requests (filter_of sys q)

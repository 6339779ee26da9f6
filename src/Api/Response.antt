-- ===== src/Api/Response.antt =====
-- internal/handler/api/helpers.go: the JSON responses. A handler is a step that returns its response or
-- stops early with one.
use anime_request_server.Prelude.{ℕ, String, Option, none, List}
use anime_request_server.Models.{User, AnimeRequest, Note, ServerDestination, InviteCode}
use anime_request_server.Server.{Outcome, ok, err, M}

-- The data that a response carries.
pub data Payload : Type 0 where
  empty : Payload
  error_message : String → Payload
  notice : String → Payload
  request : Option AnimeRequest → Payload
  request_page : List AnimeRequest → (total page per_page : ℕ) → Payload
  added : ℕ → Payload
  note : Option Note → Payload
  notes : List Note → Payload
  user : Option User → Payload
  users : List User → Payload
  signed_in : Option User → String → Payload
  invite : InviteCode → Payload
  invites : List InviteCode → Payload
  destination : ServerDestination → Payload
  destinations : List ServerDestination → Payload

-- http.SetCookie of the session cookie: a token with its age in seconds, or a negative age.
pub data Cookie : Type 0 where
  session_token : String → ℕ → Cookie
  clear_session : Cookie

pub record Response : Type 0 where
  pub status : ℕ
  pub payload : Payload
  pub cookie : Option Cookie

-- JSON
unfoldable pub json : ℕ → Payload → Response
json status payload = record { status = status; payload = payload; cookie = none }

-- Error
unfoldable pub error : ℕ → String → Response
unfolding json
error status text = json status (error_message text)

abbrev pub internal_error : Response
internal_error = error 500 "internal error"

abbrev pub Handler : Type 0
Handler = M Response Response

-- What the client gets.
unfoldable pub response : Outcome Response Response → Response
response (ok r w) = r
response (err r w) = r

-- ===== src/Middleware.antt =====
-- internal/middleware/auth.go: the session of a request, and the guards that need one. The context
-- of a request is a value that is handed on.
pub mod Cleanup
pub mod IpLog
pub mod Sessions
mod Examples
use anime_request_server.Prelude.{
  String, Bool, true, false, Option, none, some, List, [], ◌∷◌, ◌==◌, if◌then◌else◌, any, is_some,
}
use anime_request_server.Text.{strip_prefix}
use anime_request_server.Models.{User, Session}
use anime_request_server.Server.{System, World, Outcome, ok, err, M, pure, stop, ◌>>=◌}
use anime_request_server.Repository.Accounts.{get_by_token_hash}
use anime_request_server.Api.Response.{Response, error}

-- What Auth reads of a request: the value of the cookie "session" and the header Authorization.
pub record Credentials : Type 0 where
  pub cookie : Option String
  pub authorization : String

abbrev pub Context : Type 0
Context = Option (Session × User)

abbrev after_bearer : Option String → String
after_bearer none = ""
after_bearer (some token) = token

abbrev bearer_token : String → String
bearer_token header = if header == "" then "" else after_bearer (strip_prefix "Bearer " header)

abbrev token_of : Option String → String → String
token_of none header = bearer_token header
token_of (some value) header = if value == "" then bearer_token header else value

-- extractToken
unfoldable pub extract_token : Credentials → String
extract_token c = token_of c.cookie c.authorization

-- A disabled user counts as nobody.
abbrev pub enabled : Context → Context
enabled none = none
enabled (some (s, u)) = if u.disabled then none else some (s, u)

-- An error of the lookup leaves the context empty.
abbrev recovered : {E F : Type 0} → Outcome E Context → Outcome F Context
recovered (ok found w) = ok (enabled found) w
recovered (err e w) = ok none w

-- The context that Auth hands on for a token.
unfoldable pub context_of : System → String → M Response Context
context_of sys token w =
    if token == "" then ok none w else recovered (get_by_token_hash (sys.hash_token token) w)

-- Auth, then the handler.
unfoldable pub authenticated :
    {A : Type 0} → System → Credentials → (Context → M Response A) → M Response A
unfolding extract_token context_of
authenticated sys c next = do context ← context_of sys (extract_token c); next context

-- What a guard lets through, or what it answers: under /api/ as JSON, elsewhere as a page.
pub data Refusal : Type 0 where
  json_error : Response → Refusal
  redirect_to_login : Refusal
  forbidden_page : Refusal

abbrev pub is_api : String → Bool
is_api path = is_some (strip_prefix "/api/" path)

abbrev unauthenticated : String → Refusal
unauthenticated path =
    if is_api path then json_error (error 401 "authentication required") else redirect_to_login

pub data Guarded (A : Type 0) : Type 0 where
  allowed : A → Guarded A
  refused_with : Refusal → Guarded A

-- RequireAuth
unfoldable pub require_auth : String → Context → Guarded (Session × User)
require_auth path none = refused_with (unauthenticated path)
require_auth path (some c) = allowed c

-- RequireRole
unfoldable pub require_role : List String → String → Context → Guarded (Session × User)
require_role roles path none = refused_with (unauthenticated path)
require_role roles path (some (s, u)) =
    if any (λ r. u.role == r) roles
    then allowed (s, u)
    else refused_with
        (if is_api path then json_error (error 403 "insufficient permissions") else forbidden_page)

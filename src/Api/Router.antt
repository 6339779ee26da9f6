-- ===== src/Api/Router.antt =====
-- internal/handler/api/router.go: the endpoints of the API, and which guard of internal/middleware
-- stands before which. That a request reaches the endpoint of its method and path is the library chi.
pub mod Access
pub mod Ranks
mod Examples
use anime_request_server.Prelude.{ℕ, String, Bool, List, [], ◌∷◌, none, some}
use anime_request_server.Models.{role_admin, role_mod}
use anime_request_server.Middleware.{
  Context, Guarded, allowed, refused_with, require_auth, require_role,
}

pub data Endpoint : Type 0 where
  post_login : Endpoint
  post_redeem_invite : Endpoint
  post_logout : Endpoint
  get_requests : Endpoint
  post_request : Endpoint
  post_batch : Endpoint
  get_request_by_id : Endpoint
  patch_request_by_id : Endpoint
  delete_request_by_id : Endpoint
  post_destination_for : Endpoint
  delete_destination_for : Endpoint
  get_notes : Endpoint
  post_note : Endpoint
  delete_note_by_id : Endpoint
  get_users : Endpoint
  post_user : Endpoint
  patch_user : Endpoint
  get_invite_codes : Endpoint
  post_invite_code : Endpoint
  get_server_destinations : Endpoint
  post_server_destination : Endpoint
  delete_destination_by_id : Endpoint
  get_health : Endpoint

pub data Guard : Type 0 where
  needs_session : Guard
  needs_role : List String → Guard

abbrev pub staff : Guard
staff = needs_role (role_admin ∷ role_mod ∷ [])

abbrev pub admins : Guard
admins = needs_role (role_admin ∷ [])

-- What NewRouter puts before an endpoint, the outermost first.
unfoldable pub guards_of : Endpoint → List Guard
guards_of post_login = []
guards_of post_redeem_invite = []
guards_of post_logout = needs_session ∷ []
guards_of get_requests = needs_session ∷ []
guards_of post_request = needs_session ∷ []
guards_of post_batch = needs_session ∷ []
guards_of get_request_by_id = needs_session ∷ []
guards_of patch_request_by_id = needs_session ∷ staff ∷ []
guards_of delete_request_by_id = needs_session ∷ staff ∷ []
guards_of post_destination_for = needs_session ∷ staff ∷ []
guards_of delete_destination_for = needs_session ∷ staff ∷ []
guards_of get_notes = needs_session ∷ []
guards_of post_note = needs_session ∷ []
guards_of delete_note_by_id = needs_session ∷ staff ∷ []
guards_of get_users = needs_session ∷ admins ∷ []
guards_of post_user = needs_session ∷ admins ∷ []
guards_of patch_user = needs_session ∷ admins ∷ []
guards_of get_invite_codes = needs_session ∷ admins ∷ []
guards_of post_invite_code = needs_session ∷ admins ∷ []
guards_of get_server_destinations = needs_session ∷ staff ∷ []
guards_of post_server_destination = needs_session ∷ staff ∷ []
guards_of delete_destination_by_id = needs_session ∷ staff ∷ []
guards_of get_health = []

-- The context goes on unchanged.
abbrev onward : {A : Type 0} → Context → Guarded A → Guarded Context
onward c (allowed a) = allowed c
onward c (refused_with r) = refused_with r

abbrev pass_guard : Guard → String → Context → Guarded Context
unfolding require_auth require_role
pass_guard needs_session path c = onward c (require_auth path c)
pass_guard (needs_role roles) path c = onward c (require_role roles path c)

abbrev chain : Guarded Context → (Context → Guarded Context) → Guarded Context
chain (allowed c) next = next c
chain (refused_with r) next = refused_with r

-- Each guard hands the request on to the next one, or answers.
unfoldable pub pass_guards : List Guard → String → Context → Guarded Context
unfolding require_auth require_role
pass_guards [] path c = allowed c
pass_guards (g ∷ gs) path c = chain (pass_guard g path c) (λ d. pass_guards gs path d)

-- The way of a request of some path to the endpoint that the router chose.
unfoldable pub admitted : Endpoint → String → Context → Guarded Context
unfolding guards_of pass_guards
admitted e path c = pass_guards (guards_of e) path c

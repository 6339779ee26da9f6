-- ===== src/Web/Routes.antt =====
-- internal/handler/web/handler.go: Routes, the pages and which guard of internal/middleware stands before which.
-- That a request reaches the page of its method and path is the library chi; static files are left out.
pub mod Access
use anime_request_server.Prelude.{String, List, [], ◌∷◌}
use anime_request_server.Middleware.{Context, Guarded}
use anime_request_server.Api.Router.{Guard, needs_session, staff, admins, pass_guards}

pub data WebEndpoint : Type 0 where
  get_login : WebEndpoint
  post_login : WebEndpoint
  get_redeem_invite : WebEndpoint
  post_redeem_invite : WebEndpoint
  post_logout : WebEndpoint
  get_requests : WebEndpoint
  get_new_request : WebEndpoint
  post_new_request : WebEndpoint
  get_batch : WebEndpoint
  post_batch : WebEndpoint
  get_request_detail : WebEndpoint
  post_request_edit : WebEndpoint
  post_request_delete : WebEndpoint
  post_note : WebEndpoint
  post_note_delete : WebEndpoint
  get_manage_users : WebEndpoint
  get_manage_user : WebEndpoint
  post_manage_user : WebEndpoint
  get_manage_invites : WebEndpoint
  post_invite_generate : WebEndpoint
  post_invite_delete : WebEndpoint
  get_manage_destinations : WebEndpoint
  post_manage_destination : WebEndpoint
  post_destination_delete : WebEndpoint

-- What Routes puts before a page, the outermost first.
unfoldable pub web_guards_of : WebEndpoint → List Guard
web_guards_of get_login = []
web_guards_of post_login = []
web_guards_of get_redeem_invite = []
web_guards_of post_redeem_invite = []
web_guards_of post_logout = needs_session ∷ []
web_guards_of get_requests = needs_session ∷ []
web_guards_of get_new_request = needs_session ∷ []
web_guards_of post_new_request = needs_session ∷ []
web_guards_of get_batch = needs_session ∷ []
web_guards_of post_batch = needs_session ∷ []
web_guards_of get_request_detail = needs_session ∷ []
web_guards_of post_request_edit = needs_session ∷ []
web_guards_of post_request_delete = needs_session ∷ []
web_guards_of post_note = needs_session ∷ []
web_guards_of post_note_delete = needs_session ∷ []
web_guards_of get_manage_users = needs_session ∷ admins ∷ []
web_guards_of get_manage_user = needs_session ∷ admins ∷ []
web_guards_of post_manage_user = needs_session ∷ admins ∷ []
web_guards_of get_manage_invites = needs_session ∷ admins ∷ []
web_guards_of post_invite_generate = needs_session ∷ admins ∷ []
web_guards_of post_invite_delete = needs_session ∷ admins ∷ []
web_guards_of get_manage_destinations = needs_session ∷ staff ∷ []
web_guards_of post_manage_destination = needs_session ∷ staff ∷ []
web_guards_of post_destination_delete = needs_session ∷ staff ∷ []

-- The way of a request of some path to the page that the router chose.
unfoldable pub web_admitted : WebEndpoint → String → Context → Guarded Context
unfolding web_guards_of pass_guards
web_admitted e path c = pass_guards (web_guards_of e) path c

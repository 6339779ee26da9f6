-- ===== src/Web/Routes/Access.antt =====
-- internal/handler/web/handler.go: who reaches which page.
use anime_request_server.Prelude.{ℕ, ◌≤◌, ◌<◌, ◌≡◌, String}
use anime_request_server.Middleware.{Context, allowed, refused_with}
use anime_request_server.Api.Router.Ranks.{
  rank, refusal_on, IsRanked, open-IsRanked, session-IsRanked, staff-IsRanked, admins-IsRanked,
}
use anime_request_server.Web.Routes.{
  WebEndpoint, web_guards_of, web_admitted, get_login, post_login, get_redeem_invite,
  post_redeem_invite, post_logout, get_requests, get_new_request, post_new_request, get_batch,
  post_batch, get_request_detail, post_request_edit, post_request_delete, post_note,
  post_note_delete, get_manage_users, get_manage_user, post_manage_user, get_manage_invites,
  post_invite_generate, post_invite_delete, get_manage_destinations, post_manage_destination,
  post_destination_delete,
}

-- The least rank for a page.
abbrev pub least_rank : WebEndpoint → ℕ
least_rank get_login = 0
least_rank post_login = 0
least_rank get_redeem_invite = 0
least_rank post_redeem_invite = 0
least_rank post_logout = 1
least_rank get_requests = 1
least_rank get_new_request = 1
least_rank post_new_request = 1
least_rank get_batch = 1
least_rank post_batch = 1
least_rank get_request_detail = 1
least_rank post_request_edit = 1
least_rank post_request_delete = 1
least_rank post_note = 1
least_rank post_note_delete = 1
least_rank get_manage_users = 3
least_rank get_manage_user = 3
least_rank post_manage_user = 3
least_rank get_manage_invites = 3
least_rank post_invite_generate = 3
least_rank post_invite_delete = 3
least_rank get_manage_destinations = 2
least_rank post_manage_destination = 2
least_rank post_destination_delete = 2

web_guards_of-IsRanked :
    (e : WebEndpoint) (path : String) (c : Context)
    → IsRanked (least_rank e) (web_guards_of e) path c
unfolding web_guards_of
web_guards_of-IsRanked get_login path c = open-IsRanked path c
web_guards_of-IsRanked post_login path c = open-IsRanked path c
web_guards_of-IsRanked get_redeem_invite path c = open-IsRanked path c
web_guards_of-IsRanked post_redeem_invite path c = open-IsRanked path c
web_guards_of-IsRanked post_logout path c = session-IsRanked path c
web_guards_of-IsRanked get_requests path c = session-IsRanked path c
web_guards_of-IsRanked get_new_request path c = session-IsRanked path c
web_guards_of-IsRanked post_new_request path c = session-IsRanked path c
web_guards_of-IsRanked get_batch path c = session-IsRanked path c
web_guards_of-IsRanked post_batch path c = session-IsRanked path c
web_guards_of-IsRanked get_request_detail path c = session-IsRanked path c
web_guards_of-IsRanked post_request_edit path c = session-IsRanked path c
web_guards_of-IsRanked post_request_delete path c = session-IsRanked path c
web_guards_of-IsRanked post_note path c = session-IsRanked path c
web_guards_of-IsRanked post_note_delete path c = session-IsRanked path c
web_guards_of-IsRanked get_manage_users path c = admins-IsRanked path c
web_guards_of-IsRanked get_manage_user path c = admins-IsRanked path c
web_guards_of-IsRanked post_manage_user path c = admins-IsRanked path c
web_guards_of-IsRanked get_manage_invites path c = admins-IsRanked path c
web_guards_of-IsRanked post_invite_generate path c = admins-IsRanked path c
web_guards_of-IsRanked post_invite_delete path c = admins-IsRanked path c
web_guards_of-IsRanked get_manage_destinations path c = staff-IsRanked path c
web_guards_of-IsRanked post_manage_destination path c = staff-IsRanked path c
web_guards_of-IsRanked post_destination_delete path c = staff-IsRanked path c

-- A page is reached exactly from its least rank on: without a session, the forms to log in and to redeem
-- a code; with one, the requests; as a mod, the server destinations too; as an admin, the users and
-- the codes as well. Who is refused is sent to the login or gets the page for what is forbidden,
-- and under /api/ a response with an error.
pub web_admitted-rank :
    (e : WebEndpoint) (path : String) (c : Context)
    → (least_rank e ≤ rank c → web_admitted e path c ≡ allowed c)
      × (rank c < least_rank e → web_admitted e path c ≡ refused_with (refusal_on path c))
unfolding web_admitted
web_admitted-rank e path c = web_guards_of-IsRanked e path c

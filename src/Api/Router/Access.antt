-- ===== src/Api/Router/Access.antt =====
-- internal/handler/api/router.go: who reaches which endpoint.
use anime_request_server.Prelude.{ℕ, ◌≤◌, ◌<◌, ◌≡◌, true, String, none, some}
use anime_request_server.Middleware.{Context, allowed, refused_with, is_api, json_error}
use anime_request_server.Api.Router.Ranks.{
  rank, refusal, IsRanked, open-IsRanked, session-IsRanked, staff-IsRanked, admins-IsRanked,
}
use anime_request_server.Api.Router.{
  Endpoint, guards_of, admitted, post_login, post_redeem_invite, post_logout, get_requests,
  post_request, post_batch, get_request_by_id, patch_request_by_id, delete_request_by_id,
  post_destination_for, delete_destination_for, get_notes, post_note, delete_note_by_id, get_users,
  post_user, patch_user, get_invite_codes, post_invite_code, get_server_destinations,
  post_server_destination, delete_destination_by_id, get_health,
}

-- The least rank for an endpoint.
abbrev pub required : Endpoint → ℕ
required post_login = 0
required post_redeem_invite = 0
required get_health = 0
required post_logout = 1
required get_requests = 1
required post_request = 1
required post_batch = 1
required get_request_by_id = 1
required get_notes = 1
required post_note = 1
required patch_request_by_id = 2
required delete_request_by_id = 2
required post_destination_for = 2
required delete_destination_for = 2
required delete_note_by_id = 2
required get_server_destinations = 2
required post_server_destination = 2
required delete_destination_by_id = 2
required get_users = 3
required post_user = 3
required patch_user = 3
required get_invite_codes = 3
required post_invite_code = 3

guards_of-IsRanked :
    (e : Endpoint) (path : String) (c : Context) → IsRanked (required e) (guards_of e) path c
unfolding guards_of
guards_of-IsRanked post_login path c = open-IsRanked path c
guards_of-IsRanked post_redeem_invite path c = open-IsRanked path c
guards_of-IsRanked get_health path c = open-IsRanked path c
guards_of-IsRanked post_logout path c = session-IsRanked path c
guards_of-IsRanked get_requests path c = session-IsRanked path c
guards_of-IsRanked post_request path c = session-IsRanked path c
guards_of-IsRanked post_batch path c = session-IsRanked path c
guards_of-IsRanked get_request_by_id path c = session-IsRanked path c
guards_of-IsRanked get_notes path c = session-IsRanked path c
guards_of-IsRanked post_note path c = session-IsRanked path c
guards_of-IsRanked patch_request_by_id path c = staff-IsRanked path c
guards_of-IsRanked delete_request_by_id path c = staff-IsRanked path c
guards_of-IsRanked post_destination_for path c = staff-IsRanked path c
guards_of-IsRanked delete_destination_for path c = staff-IsRanked path c
guards_of-IsRanked delete_note_by_id path c = staff-IsRanked path c
guards_of-IsRanked get_server_destinations path c = staff-IsRanked path c
guards_of-IsRanked post_server_destination path c = staff-IsRanked path c
guards_of-IsRanked delete_destination_by_id path c = staff-IsRanked path c
guards_of-IsRanked get_users path c = admins-IsRanked path c
guards_of-IsRanked post_user path c = admins-IsRanked path c
guards_of-IsRanked patch_user path c = admins-IsRanked path c
guards_of-IsRanked get_invite_codes path c = admins-IsRanked path c
guards_of-IsRanked post_invite_code path c = admins-IsRanked path c

-- Under /api/, an endpoint is reached exactly from its least rank on: without a session, login, the
-- redeeming of codes and the health check; with one, what every user may do; as a mod, the changes of
-- requests and destinations as well; as an admin, everything. Who is refused gets 401 without a
-- session and 403 with one.
pub admitted-rank :
    (e : Endpoint) (path : String) (c : Context)
    → is_api path ≡ true
    → (required e ≤ rank c → admitted e path c ≡ allowed c)
      × (rank c < required e → admitted e path c ≡ refused_with (json_error (refusal c)))
unfolding admitted
admitted-rank e path none api = rw api at (guards_of-IsRanked e path none)
admitted-rank e path (some c) api = rw api at (guards_of-IsRanked e path (some c))

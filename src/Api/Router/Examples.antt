-- ===== src/Api/Router/Examples.antt =====
-- The theorem on the endpoints at a concrete input.
use anime_request_server.Prelude.{◌≤◌, ◌<◌, ◌≡◌, refl, some}
use anime_request_server.Models.{Session}
use anime_request_server.Server.Sample.{bob}
use anime_request_server.Middleware.{Context, allowed, refused_with, json_error}
use anime_request_server.Api.Router.{patch_user, admitted}
use anime_request_server.Api.Router.Access.{required, admitted-rank}
use anime_request_server.Api.Router.Ranks.{rank, refusal}

abbrev visit : Session
visit = record { id = 9; user_id = 2; token_hash = "hash"; expires_at = 50; created_at = 0 }

abbrev as_bob : Context
as_bob = some (visit, bob)

admitted-rank_example :
    (required patch_user ≤ rank as_bob
      → admitted patch_user "/api/admin/users/1" as_bob ≡ allowed as_bob)
    × (rank as_bob < required patch_user
        → admitted patch_user "/api/admin/users/1" as_bob
          ≡ refused_with (json_error (refusal as_bob)))
unfolding anime_request_server.Text.strip_prefix
admitted-rank_example = admitted-rank patch_user "/api/admin/users/1" as_bob refl

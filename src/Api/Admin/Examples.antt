-- ===== src/Api/Admin/Examples.antt =====
-- The theorem on UpdateUser at a concrete input.
use anime_request_server.Prelude.{◌≡◌, true, none, some}
use anime_request_server.Server.{after}
use anime_request_server.Server.Sample.{sample_system, sample_world, ada}
use anime_request_server.Repository.Accounts.{UserSets}
use anime_request_server.Repository.Requests.Select.{find_user}
use anime_request_server.Api.Admin.{update_user_by}
use anime_request_server.Api.Admin.Self.{find_user-update_user_by}

abbrev blocking : UserSets
blocking = record {
  role = none;
  can_batch_add = none;
  disabled = some true;
  notes_blocked = some true;
}

find_user-update_user_by_example :
    find_user 1 (after (update_user_by sample_system ada "id-2" (some blocking) sample_world)).db
    ≡ find_user 1 sample_world.db
find_user-update_user_by_example =
    find_user-update_user_by sample_system ada "id-2" (some blocking) sample_world

-- ===== src/Repository/Board/Examples.antt =====
-- The theorem on boards at concrete tables.
use anime_request_server.Prelude.{◌≡◌, refl, none, some}
use anime_request_server.Text.{to_lower}
use anime_request_server.Repository.Board.Calls.{Refined, calls-Refined}
use anime_request_server.Models.{Uuid, is_valid_category, is_valid_status}
use anime_request_server.Database.Requests.{check_violation, update_request, insert_link}
use anime_request_server.Server.Sample.{sample_system, sample_world, sample_db, frieren}
use anime_request_server.Repository.Requests.{
  RequestSets, update, delete, add_destination, remove_destination, delete_note_of,
}
use anime_request_server.Repository.Sample.{sample_db-IsSound}
use anime_request_server.Repository.Board.{
  Move, change, create, assign, perform, erase, unassign, strike,
}
use anime_request_server.Repository.Board.Implements.{Implements}
use anime_request_server.Repository.Board.Refinement.{perform-Implements}

-- The status goes on.
abbrev progress : Move
progress = change 1 (record {
  name = none;
  alt_name = none;
  status = some "acquiring";
  category = none;
  anidb_url = none;
})

perform-Implements_example :
    Implements sample_system.sql_lower 120 progress sample_db
      (perform sample_system.sql_lower 120 progress sample_db)
perform-Implements_example =
    perform-Implements sample_system.sql_lower 120 progress sample_db sample_db-IsSound

no_such_destination : perform sample_system.sql_lower 120 (assign 1 7) sample_db ≡ none
unfolding perform insert_link
no_such_destination = refl

-- The name is taken.
second_frieren :
    perform sample_system.sql_lower 120 (create (record frieren { id = 9 })) sample_db ≡ none
unfolding to_lower perform check_violation is_valid_category is_valid_status
    anime_request_server.Database.Requests.insert_request
    anime_request_server.Database.Requests.unique_violation
second_frieren = refl

calls-Refined_example :
    ((id : Uuid) (sets : RequestSets)
      → Refined sample_system.sql_lower
          (change id sets)
          sample_world
          (update sample_system id sets sample_world))
    × ((id : Uuid)
        → Refined sample_system.sql_lower (erase id) sample_world (delete id sample_world))
    × ((request dest : Uuid)
        → Refined sample_system.sql_lower
            (assign request dest)
            sample_world
            (add_destination request dest sample_world))
    × ((request dest : Uuid)
        → Refined sample_system.sql_lower
            (unassign request dest)
            sample_world
            (remove_destination request dest sample_world))
    × ((request note : Uuid)
        → Refined sample_system.sql_lower
            (strike request note)
            sample_world
            (delete_note_of request note sample_world))
calls-Refined_example = calls-Refined sample_system sample_world sample_db-IsSound

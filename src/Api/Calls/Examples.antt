-- ===== src/Api/Calls/Examples.antt =====
-- A run of the API at concrete inputs.
use anime_request_server.Prelude.{refl, true, false, none, some, List, [], ◌∷◌}
use anime_request_server.Repository.Sample.{sample-Names}
use anime_request_server.Server.Sample.{sample_system, sample_world, ada, bob}
use anime_request_server.Repository.Requests.Names.{Names}
use anime_request_server.Api.Calls.{Arrival, handle_all, create_request, add_note, delete_request}
use anime_request_server.Api.Calls.Apart.{handle_all-Names}

-- A request whose name is an alternate name, a note, a request deleted by a call that is lost, and again.
abbrev arrivals : List Arrival
arrivals =
    record {
      now = 105;
      faults = [];
      call = create_request ada 9 (
          some (record {
            name = "frieren";
            category = "batch_add";
            alt_name = some "sousou";
            status = none;
            anidb_url = none;
            server_destination_ids = [];
          }));
    }
    ∷ record { now = 110; faults = []; call = add_note bob 20 "id-1" (some "please") }
    ∷ record { now = 120; faults = true ∷ []; call = delete_request "id-1" }
    ∷ record { now = 130; faults = false ∷ []; call = delete_request "id-1" }
    ∷ []

handle_all-Names_example : Names sample_system (handle_all sample_system arrivals sample_world).db
unfolding anime_request_server.Text.to_lower
handle_all-Names_example =
    handle_all-Names sample_system arrivals sample_world (λ s. refl) (refl, (tt, (tt, (tt, tt))))
      sample-Names

-- ===== src/Api/Requests/Examples.antt =====
-- Tests of the handlers of requests and their theorems at concrete inputs.
use mathlib.Core.Option
use anime_request_server.Repository.Sample.{sample-Names}
use anime_request_server.Prelude.{suc, String, ◌≡◌, refl, none, some, List, [], ◌∷◌, arith, map}
use anime_request_server.Models.{nil_uuid}
use anime_request_server.Database.Tables.{Db, RequestRow}
use anime_request_server.Server.{after}
use anime_request_server.Server.Ensures.{Post}
use anime_request_server.Server.Sample.{sample_system, sample_world, ada}
use anime_request_server.Repository.Requests.Names.{Names}
use anime_request_server.Api.Response.{response, error}
use anime_request_server.Api.Requests.Fields.{CreateBody}
use anime_request_server.Api.Requests.{
  UpdateBody, BatchBody, create_request, update_request, batch_create,
}
use anime_request_server.Api.Requests.Names.{create_request-Names}
use anime_request_server.Api.Requests.Changes.{update_request-Names}
use anime_request_server.Api.Requests.Batches.{BatchAdded, batch_create-Names}
use anime_request_server.Server.Returns.{Returned}
use anime_request_server.Server.Sample.{bob}
use anime_request_server.Api.Requests.{remove_destination_from}
use anime_request_server.Api.Requests.Roles.{plain, create_request-plain}
use anime_request_server.Api.Requests.Destinations.{Removed, remove_destination_from-Removed}

abbrev creation : CreateBody
creation = record {
  name = " dungeon ";
  category = "current_future";
  alt_name = some "meshi";
  status = none;
  anidb_url = some "http://a";
  server_destination_ids = "id-1" ∷ [];
}

abbrev names_after : Db → List String
names_after d = map (λ (r : RequestRow). r.name) d.requests

created :
    names_after (after (create_request sample_system ada 9 (some creation) sample_world)).db
    ≡ "frieren" ∷ "dungeon" ∷ []
unfolding create_request anime_request_server.Server.◌>>=◌ anime_request_server.Server.or_stop
    anime_request_server.Server.stop_if anime_request_server.Server.map_err
    anime_request_server.Server.query anime_request_server.Server.exec
    anime_request_server.Server.pure anime_request_server.Server.stop
    anime_request_server.Text.trim_space anime_request_server.Text.to_lower
    anime_request_server.Text.equal_fold anime_request_server.Server.transaction
    anime_request_server.Server.transaction_steps anime_request_server.Api.Requests.Fields.alt_field
    anime_request_server.Api.Requests.Fields.details_of
    anime_request_server.Api.Requests.Fields.ids_field
    anime_request_server.Api.Requests.Fields.status_field
    anime_request_server.Api.Requests.Fields.url_field
    anime_request_server.Api.Requests.Fields.is_valid_http_url
    anime_request_server.Repository.Requests.name_in_use
    anime_request_server.Repository.Requests.lowered_candidates
    anime_request_server.Repository.Requests.create_with_details
    anime_request_server.Repository.Requests.link_all
    anime_request_server.Database.Requests.insert_request
    anime_request_server.Database.Requests.insert_link
    anime_request_server.Database.Requests.check_violation
    anime_request_server.Database.Requests.unique_violation
    anime_request_server.Models.is_valid_category anime_request_server.Models.is_valid_status
    anime_request_server.Models.valid_statuses anime_request_server.Models.valid_categories
    anime_request_server.Models.is_mod_or_admin anime_request_server.Database.Requests.Sort.insert
    anime_request_server.Database.Requests.Sort.sort
    anime_request_server.Repository.Requests.Select.destinations_of
    anime_request_server.Repository.Requests.Select.get_by_id
    anime_request_server.Repository.Requests.Select.select_request
    anime_request_server.Repository.Requests.uses_name
    anime_request_server.Api.Requests.finish_create Option.bind
created = refl

crossing :
    (response (
      create_request sample_system ada 9
        (some (record creation { alt_name = some " frieren" }))
        sample_world)).status
    ≡ 409
unfolding create_request response error anime_request_server.Server.◌>>=◌
    anime_request_server.Server.or_stop anime_request_server.Server.stop_if
    anime_request_server.Server.map_err anime_request_server.Server.query
    anime_request_server.Server.exec anime_request_server.Server.pure
    anime_request_server.Server.stop anime_request_server.Text.trim_space
    anime_request_server.Text.to_lower anime_request_server.Text.equal_fold
    anime_request_server.Server.transaction anime_request_server.Server.transaction_steps
    anime_request_server.Api.Requests.Fields.alt_field
    anime_request_server.Api.Requests.Fields.details_of
    anime_request_server.Api.Requests.Fields.ids_field
    anime_request_server.Api.Requests.Fields.status_field
    anime_request_server.Api.Requests.Fields.url_field
    anime_request_server.Api.Requests.Fields.is_valid_http_url
    anime_request_server.Repository.Requests.name_in_use
    anime_request_server.Repository.Requests.lowered_candidates
    anime_request_server.Repository.Requests.create_with_details
    anime_request_server.Repository.Requests.link_all
    anime_request_server.Database.Requests.insert_request
    anime_request_server.Database.Requests.insert_link
    anime_request_server.Database.Requests.check_violation
    anime_request_server.Database.Requests.unique_violation
    anime_request_server.Models.is_valid_category anime_request_server.Models.is_valid_status
    anime_request_server.Models.valid_statuses anime_request_server.Models.valid_categories
    anime_request_server.Models.is_mod_or_admin anime_request_server.Database.Requests.Sort.insert
    anime_request_server.Database.Requests.Sort.sort
    anime_request_server.Repository.Requests.Select.destinations_of
    anime_request_server.Repository.Requests.Select.get_by_id
    anime_request_server.Repository.Requests.Select.select_request
    anime_request_server.Repository.Requests.uses_name
    anime_request_server.Api.Requests.finish_create Option.bind
crossing = refl

create_request-Names_example :
    Names sample_system (after (create_request sample_system ada 9 (some creation) sample_world)).db
create_request-Names_example =
    create_request-Names sample_system ada 9 (some creation) sample_world (λ s. refl) refl
      sample-Names

abbrev renaming : UpdateBody
renaming = record {
  name = some "sousou";
  alt_name = some "frieren";
  status = some "done";
  category = none;
  anidb_url = none;
}

renamed :
    names_after (after (update_request sample_system "id-1" (some renaming) sample_world)).db
    ≡ "sousou" ∷ []
unfolding update_request anime_request_server.Server.◌>>=◌ anime_request_server.Server.or_stop
    anime_request_server.Server.stop_if anime_request_server.Server.map_err
    anime_request_server.Server.query anime_request_server.Server.exec
    anime_request_server.Server.pure anime_request_server.Server.stop
    anime_request_server.Text.trim_space anime_request_server.Text.to_lower
    anime_request_server.Text.equal_fold anime_request_server.Server.transaction
    anime_request_server.Server.transaction_steps
    anime_request_server.Api.Requests.Fields.name_update
    anime_request_server.Api.Requests.Fields.alt_update
    anime_request_server.Api.Requests.Fields.status_field
    anime_request_server.Api.Requests.Fields.category_field
    anime_request_server.Api.Requests.Fields.url_field
    anime_request_server.Api.Requests.Fields.is_valid_http_url
    anime_request_server.Repository.Requests.name_in_use
    anime_request_server.Repository.Requests.lowered_candidates
    anime_request_server.Repository.Requests.update
    anime_request_server.Repository.Requests.apply_sets
    anime_request_server.Database.Requests.update_request
    anime_request_server.Database.Requests.check_violation
    anime_request_server.Database.Requests.unique_violation
    anime_request_server.Models.is_valid_category anime_request_server.Models.is_valid_status
    anime_request_server.Models.valid_statuses anime_request_server.Models.valid_categories
    anime_request_server.Database.Requests.Sort.insert
    anime_request_server.Database.Requests.Sort.sort
    anime_request_server.Repository.Requests.Select.destinations_of
    anime_request_server.Repository.Requests.Select.get_by_id
    anime_request_server.Repository.Requests.Select.select_request
    anime_request_server.Repository.Requests.uses_name
    anime_request_server.Api.Requests.check_duplicate
    anime_request_server.Api.Requests.finish_update Option.bind
renamed = refl

update_request-Names_example :
    Names sample_system
      (after (update_request sample_system "id-1" (some renaming) sample_world)).db
update_request-Names_example =
    update_request-Names sample_system "id-1" (some renaming) sample_world (λ s. refl) sample-Names

abbrev batch : BatchBody
batch = record { names = "a" ∷ "beyond" ∷ " a" ∷ "" ∷ "b" ∷ []; category = "batch_add" }

batched :
    names_after
      (after (batch_create sample_system ada (λ i. suc (suc i)) (some batch) sample_world)).db
    ≡ "frieren" ∷ "a" ∷ "b" ∷ []
unfolding batch_create anime_request_server.Server.◌>>=◌ anime_request_server.Server.or_stop
    anime_request_server.Server.stop_if anime_request_server.Server.map_err
    anime_request_server.Server.query anime_request_server.Server.exec
    anime_request_server.Server.pure anime_request_server.Server.stop
    anime_request_server.Text.trim_space anime_request_server.Text.to_lower
    anime_request_server.Text.equal_fold anime_request_server.Server.transaction
    anime_request_server.Server.transaction_steps anime_request_server.Api.Requests.trimmed_names
    anime_request_server.Repository.Requests.create_batch
    anime_request_server.Repository.Requests.taken_names
    anime_request_server.Repository.Requests.insert_batch
    anime_request_server.Database.Requests.insert_request_or_skip
    anime_request_server.Models.is_valid_category anime_request_server.Models.is_valid_status
batched = refl

batch_create-Names_example :
    Post
      (λ d. d ≡ sample_world.db)
      (BatchAdded sample_system ("a" ∷ "beyond" ∷ "a" ∷ "b" ∷ []) sample_world.db)
      (batch_create sample_system ada (λ i. suc (suc i)) (some batch) sample_world)
unfolding anime_request_server.Api.Requests.trimmed_names anime_request_server.Text.trim_space
batch_create-Names_example =
    batch_create-Names sample_system ada (λ i. suc (suc i)) (some batch) sample_world (λ s. refl)
      (λ i. ground arith) sample-Names

create_request-plain_example :
    create_request sample_system bob 9 (some creation) sample_world
    ≡ create_request sample_system bob 9 (some (plain creation)) sample_world
unfolding anime_request_server.Models.is_mod_or_admin
create_request-plain_example = create_request-plain sample_system bob 9 creation sample_world refl

remove_destination_from-Removed_example :
    Returned
      (λ r w. Removed sample_system "id-1" "id-2" sample_world w)
      (remove_destination_from sample_system "id-1" "id-2" sample_world)
remove_destination_from-Removed_example =
    remove_destination_from-Removed sample_system "id-1" "id-2" sample_world (refl, (refl, tt))

-- ===== src/Repository/Requests/Examples.antt =====
-- The theorems on the pages of the list at concrete inputs.
use anime_request_server.Prelude.{◌≤◌, ◌≡◌, refl, none, true, List, [], ◌∷◌, arith, map, length}
use anime_request_server.Models.{AnimeRequest}
use anime_request_server.Server.Returns.{Returned}
use anime_request_server.Server.Sample.{sample_world, frieren, bob}
use anime_request_server.Repository.Requests.Select.{
  RequestFilter, clamp, selected, select_page, scan_request, load_for_multiple,
}
use anime_request_server.Repository.Requests.Pages.{first_pages, page_rows, first_pages-selected}
use anime_request_server.Repository.Requests.Loading.{attach, load_for_multiple-attach}

abbrev by_tens : RequestFilter
by_tens = record { category = none; status = none; requested_by = none; page = 1; per_page = 10 }

first_pages-selected_example :
    (first_pages by_tens sample_world.db 2 ≡ selected (λ a b. true) by_tens sample_world.db)
    × (length (page_rows (select_page (clamp by_tens) sample_world.db)) ≤ 100)
unfolding clamp selected
first_pages-selected_example =
    first_pages-selected by_tens sample_world.db (λ a b. true) 2 (refl, tt) (omega arith)
      (omega arith)

abbrev page : List AnimeRequest
page = scan_request frieren bob ∷ []

load_for_multiple-attach_example :
    Returned
      (λ loaded w. loaded ≡ map (attach sample_world.db) page)
      (load_for_multiple page sample_world)
load_for_multiple-attach_example =
    load_for_multiple-attach sample_world page ((refl, (refl, tt))) (refl, tt)

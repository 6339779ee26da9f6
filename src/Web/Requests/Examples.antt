-- ===== src/Web/Requests/Examples.antt =====
-- The theorems on the pages of requests at concrete inputs.
use anime_request_server.Prelude.{◌≡◌, refl, some, [], ◌∷◌, true, arith}
use anime_request_server.Server.Agrees.{Match}
use anime_request_server.Server.Returns.{Alike, Returned}
use anime_request_server.Server.Sample.{sample_system, sample_world, ada}
use anime_request_server.Totp.{last_digits}
use anime_request_server.Api.Requests.{create_request}
use anime_request_server.Web.Auth.Agreement.{SameCookie}
use anime_request_server.Web.Requests.{requests_list, NewForm, request_new_submit, int_param}
use anime_request_server.Web.Requests.Agreement.{body_of, request_new_submit-create_request}
use anime_request_server.Web.Requests.Paging.{FitsTogether, rows-total_pages, int_param-last_digits}

abbrev mushishi : NewForm
mushishi = record {
  name = " mushishi ";
  category = "finished_airing";
  alt_name = "";
  status = "done";
  anidb_url = " http://a ";
  server_destination_ids = "id-2" ∷ [];
}

request_new_submit-create_request_example :
    Match Alike SameCookie
      (request_new_submit sample_system (λ s t. true) ada mushishi 9 sample_world)
      (create_request sample_system ada 9 (some (body_of mushishi)) sample_world)
request_new_submit-create_request_example =
    request_new_submit-create_request sample_system (λ s t. true) ada mushishi 9 sample_world

-- A page behind the last one.
rows-total_pages_example :
    Returned (λ a w. FitsTogether (int_param "2" 1) a) (requests_list "2" "" "" sample_world)
unfolding int_param
rows-total_pages_example = rows-total_pages "2" "" "" sample_world (refl, tt) (omega arith)

int_param-last_digits_example : int_param (last_digits 4 42 "") 1 ≡ 42
int_param-last_digits_example =
    int_param-last_digits 3 42 1 (omega arith) (omega arith) (omega arith)

forty_two : last_digits 4 42 "" ≡ "0042"
unfolding last_digits
forty_two = refl

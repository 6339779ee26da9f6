-- ===== src/Web/Edit/Examples.antt =====
-- The theorem on the checkboxes at a concrete input.
use anime_request_server.Prelude.{
  ℕ, zero, suc, String, ◌≡◌, refl, sym, ap, ◌∙◌, some, List, [], ◌∷◌, same_id, if◌then◌else◌, arith,
}
use anime_request_server.Text.{push, byte_length}
use anime_request_server.Text.Laws.{byte_length-push}
use anime_request_server.Models.{Uuid, ServerDestinationMapping}
use anime_request_server.Server.{System}
use anime_request_server.Server.Returns.{Returned}
use anime_request_server.Server.Sample.{sample_system, sample_world}
use anime_request_server.Web.Edit.{is_listed, update_destinations}
use anime_request_server.Web.Edit.Destinations.{linked}
use anime_request_server.Web.Edit.Selection.{PrintsApart, is_among, update_destinations-selected}

-- An identifier printed as so many strokes.
abbrev strokes : Uuid → String
strokes zero = ""
strokes (suc n) = push "i" (strokes n)

byte_length-strokes : (n : ℕ) → byte_length (strokes n) ≡ n
unfolding byte_length
byte_length-strokes zero = refl
byte_length-strokes (suc n) =
    omega (arith, byte_length-push "i" (strokes n) (omega arith), byte_length-strokes n)

strokes-PrintsApart : PrintsApart strokes
strokes-PrintsApart x y e = sym (byte_length-strokes x) ∙ ap byte_length e ∙ byte_length-strokes y

abbrev strokes_system : System
strokes_system = record sample_system { parse_uuid = λ s. some (byte_length s) }

abbrev checked_before : List ServerDestinationMapping
checked_before =
    record { id = 1; name = "alpha"; added_at = 4 }
    ∷ record { id = 2; name = "beta"; added_at = 5 }
    ∷ []

all_loaded : (y : Uuid) → linked 1 y sample_world.db ≡ is_among checked_before y
all_loaded y = ground arith

-- Beta is unchecked.
update_destinations-selected_example :
    Returned
      (λ _ w.
        linked 1 2 w.db
        ≡ (if same_id 1 1 then is_listed ("i" ∷ []) (strokes 2) else linked 1 2 sample_world.db))
      (update_destinations strokes_system strokes 1 checked_before ("i" ∷ []) sample_world)
unfolding byte_length
update_destinations-selected_example =
    update_destinations-selected strokes_system 1 strokes checked_before "i" [] sample_world 1 2
      strokes-PrintsApart ((1, refl, refl), tt) all_loaded

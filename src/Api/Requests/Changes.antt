-- ===== src/Api/Requests/Changes.antt =====
-- internal/handler/api/requests.go: Update and the names of the requests.
use anime_request_server.Prelude.{
  String, not, ◌&&◌, Option, none, some, List, [], ◌∷◌, ◌++◌, ◌==◌, All, All-append, Bool-cases,
  inl, inr,
}
use anime_request_server.Text.{trim_space}
use anime_request_server.Models.{Uuid, is_valid_category}
use anime_request_server.Database.Tables.{Db}
use anime_request_server.Server.{System, World, after, ◌>>=◌}
use anime_request_server.Server.Ensures.{
  Ensures, Ensures-weaken, Ensures-after, Ensures-from, Ensures-given, Ensures-pure, Ensures-stop,
  Ensures-bind, Ensures-map_err, Ensures-or_stop, Ensures-stop_if, Ensures-of-Keeps,
}
use anime_request_server.Repository.Requests.{
  RequestSets, given_list, not_empty, lowered_candidates,
}
use anime_request_server.Repository.Requests.Select.{get_by_id}
use anime_request_server.Repository.Requests.Names.{
  IsTrimmed, trim_space-IsTrimmed, LowersAgree, NotUsed, uses_name-nil, name_in_use-ensures, Names,
  get_by_id-Keeps,
}
use anime_request_server.Repository.Requests.Updates.{update-ensures}
use anime_request_server.Api.Requests.Fields.{
  category_field, status_field, url_field, name_update, alt_update, is_name,
}
use anime_request_server.Api.Requests.Names.{if-ensures, status_field-ensures, url_field-ensures}
use anime_request_server.Api.Requests.{
  UpdateBody, check_duplicate, finish_update, update_request, update_error, internal,
}

module _ (sys : System) (I P : Db → Type 0) (back : (d : Db) → P d → I d) where
  category_field-ensures : (c : Option String) → Ensures I P (category_field c) (λ _. P)
  unfolding category_field
  category_field-ensures none = Ensures-pure I P none _ (λ d h. h)
  category_field-ensures (some c) =
      if-ensures sys I P back (is_valid_category c) _ _ _ (λ _. Ensures-pure I P _ _ (λ d h. h))
        (λ _. Ensures-stop I P _ _ back)

  name_update-ensures :
      (given : Option String)
      → Ensures I P (name_update given) (λ n d. P d × All IsTrimmed (given_list n))
  unfolding name_update
  name_update-ensures none = Ensures-pure I P none _ (λ d h. (h, tt))
  name_update-ensures (some given) =
      if-ensures sys I P back (trim_space given == "") _ _ _ (λ _. Ensures-stop I P _ _ back)
        (λ full. Ensures-pure I P _ _ (λ d h. (h, (trim_space-IsTrimmed given full, tt))))

  listed-IsTrimmed : (s : String) → All IsTrimmed (not_empty (some (trim_space s)))
  listed-IsTrimmed s = elim (Bool-cases (trim_space s == "")) [
    | inl e ↦ rw e tt
    | inr e ↦ rw e (trim_space-IsTrimmed s e, tt)
  ]

  alt_update-ensures :
      (name given : Option String)
      → Ensures I P (alt_update sys name given) (λ a d. P d × All IsTrimmed (not_empty a))
  unfolding alt_update
  alt_update-ensures name none = Ensures-pure I P none _ (λ d h. (h, tt))
  alt_update-ensures name (some given) =
      if-ensures sys I P back (not (trim_space given == "") && is_name sys name (trim_space given))
        _ _ _ (λ _. Ensures-stop I P _ _ back)
        (λ _. Ensures-pure I P _ _ (λ d h. (h, listed-IsTrimmed given)))

module _ (sys : System) (agree : LowersAgree sys) where
  abbrev Apart : Db → Type 0
  Apart = Names sys

  check_duplicate-ensures :
      (id : Uuid) (cs : List String)
      → Ensures Apart Apart (check_duplicate sys id cs) (λ _ d. Apart d × NotUsed sys id cs d)
  unfolding check_duplicate lowered_candidates
  check_duplicate-ensures id [] =
      Ensures-pure Apart Apart tt _ (λ d h. (h, uses_name-nil sys.sql_lower id d.requests))
  check_duplicate-ensures id (c ∷ cs) =
      Ensures-bind Apart Apart _ _ _ _
        (Ensures-map_err Apart Apart internal _ _ (name_in_use-ensures sys id (c ∷ cs) Apart))
        λ dup.
          Ensures-weaken Apart _ _ _ _ (Ensures-stop_if Apart _ dup _ (λ d h. h.0))
            (λ u d h. (h.0.0, h.0.1 h.1))

  finish_update-ensures :
      (id : Uuid) (sets : RequestSets)
      → All IsTrimmed (given_list sets.name ++ not_empty sets.alt_name)
      → Ensures Apart Apart (finish_update sys id sets) (λ _. Apart)
  unfolding finish_update
  finish_update-ensures id sets trimmed =
      Ensures-bind Apart Apart _ _ _ _ (check_duplicate-ensures id _) λ _.
        Ensures-bind Apart _ _ _ (λ _. Apart) _
          (Ensures-map_err Apart _ update_error _ _ (update-ensures sys agree id sets trimmed))
          λ _.
            Ensures-bind Apart Apart _ _ (λ _. Apart) _
              (Ensures-map_err Apart Apart internal _ _
                (Ensures-of-Keeps Apart (get_by_id id) (get_by_id-Keeps id)))
              λ found.
                Ensures-bind Apart Apart _ _ _ _ (Ensures-or_stop Apart Apart found _ (λ d h. h))
                  (λ r. Ensures-pure Apart _ _ _ (λ d h. h.0))

  update_request-ensures :
      (id_text : String) (body : Option UpdateBody)
      → Ensures Apart Apart (update_request sys id_text body) (λ _. Apart)
  unfolding update_request
  update_request-ensures id_text body =
      Ensures-bind Apart Apart _ _ _ _
        (Ensures-or_stop Apart Apart (sys.parse_uuid id_text) _ (λ d h. h))
        λ id.
          Ensures-from Apart Apart _ _ _ (λ d h. h.0)
            (Ensures-bind Apart Apart _ _ _ _ (Ensures-or_stop Apart Apart body _ (λ d h. h)) λ b.
              Ensures-from Apart Apart _ _ _ (λ d h. h.0)
                (Ensures-bind Apart Apart _ _ _ _
                  (name_update-ensures sys Apart Apart (λ d h. h) b.name)
                  λ name.
                    Ensures-given Apart _ (All IsTrimmed (given_list name)) _ _ (λ d h. h.1)
                      λ named.
                        Ensures-from Apart Apart _ _ _ (λ d h. h.0)
                          (Ensures-bind Apart Apart _ _ _ _
                            (alt_update-ensures sys Apart Apart (λ d h. h) name b.alt_name)
                            λ alt.
                              Ensures-given Apart _ (All IsTrimmed (not_empty alt)) _ _ (λ d h. h.1)
                                λ alts.
                                  Ensures-from Apart Apart _ _ _ (λ d h. h.0)
                                    (rest id b name alt (
                                      All-append IsTrimmed (given_list name) (not_empty alt) named
                                        alts)))))
    where
      rest :
          (id : Uuid) (b : UpdateBody) (name alt : Option String)
          → All IsTrimmed (given_list name ++ not_empty alt)
          → Ensures Apart Apart
              (status_field b.status >>= λ status. category_field b.category >>= λ category.
                url_field sys b.anidb_url >>= λ url. finish_update sys id (record {
                  name = name;
                  alt_name = alt;
                  status = status;
                  category = category;
                  anidb_url = url;
                }))
              (λ _. Apart)
      rest id b name alt trimmed =
          Ensures-bind Apart Apart _ _ (λ _. Apart) _
            (status_field-ensures sys Apart Apart (λ d h. h) b.status)
            λ status.
              Ensures-bind Apart Apart _ _ (λ _. Apart) _
                (category_field-ensures sys Apart Apart (λ d h. h) b.category)
                λ category.
                  Ensures-bind Apart Apart _ _ (λ _. Apart) _
                    (url_field-ensures sys Apart Apart (λ d h. h) b.anidb_url)
                    (λ url. finish_update-ensures id _ trimmed)

-- From tables in which the names of the requests are apart, Update leaves such tables, whatever it
-- answers and whichever call is lost, where strings.ToLower and LOWER agree.
pub update_request-Names :
    (sys : System) (id_text : String) (body : Option UpdateBody) (w : World)
    → LowersAgree sys
    → Names sys w.db
    → Names sys (after (update_request sys id_text body w)).db
update_request-Names sys id_text body w agree =
    Ensures-after (Names sys) _ (update_request-ensures sys agree id_text body) w

-- ===== src/Api/Requests/Names.antt =====
-- internal/handler/api/requests.go: Create and the names of the requests, across the two columns as well,
-- where no index of the database looks.
use anime_request_server.Prelude.{
  String, ◌≡◌, refl, Bool, true, false, Option, none, some, List, [], ◌∷◌, ◌==◌, same_id,
  if◌then◌else◌, All,
}
use anime_request_server.Text.{trim_space, equal_fold}
use anime_request_server.Models.{Uuid, nil_uuid, User, is_mod_or_admin, is_valid_status}
use anime_request_server.Database.Tables.{Db, RequestRow}
use anime_request_server.Server.{System, World, after, M}
use anime_request_server.Server.Ensures.{
  Ensures, Ensures-after, Ensures-from, Ensures-given, Ensures-pure, Ensures-stop, Ensures-bind,
  Ensures-map_err, Ensures-or_stop, Ensures-stop_if,
}
use anime_request_server.Repository.Requests.{new_row, given_list}
use anime_request_server.Repository.Requests.Names.{
  IsTrimmed, trim_space-IsTrimmed, LowersAgree, name_in_use-ensures, Names, IsFree, IsFree-NotUsed,
  create_with_details-ensures,
}
use anime_request_server.Api.Response.{Response}
use anime_request_server.Api.Requests.Fields.{
  CreateBody, Details, no_details, alt_field, status_field, url_field, ids_field, details_of,
  is_valid_http_url,
}
use anime_request_server.Api.Requests.{finish_create, create_request, create_error, internal}

module _ (sys : System) (I P : Db → Type 0) (back : (d : Db) → P d → I d) where
  pub if-ensures :
      {A : Type 0} (b : Bool) (m n : M Response A) (Q : A → Db → Type 0)
      → (b ≡ true → Ensures I P m Q)
      → (b ≡ false → Ensures I P n Q)
      → Ensures I P (if b then m else n) Q
  if-ensures true m n Q h k = h refl
  if-ensures false m n Q h k = k refl

  -- A validation touches nothing.
  pub status_field-ensures : (s : Option String) → Ensures I P (status_field s) (λ _. P)
  unfolding status_field
  status_field-ensures none = Ensures-pure I P none _ (λ d h. h)
  status_field-ensures (some s) =
      if-ensures (is_valid_status s) _ _ _ (λ _. Ensures-pure I P _ _ (λ d h. h))
        (λ _. Ensures-stop I P _ _ back)

  pub url_field-ensures : (u : Option String) → Ensures I P (url_field sys u) (λ _. P)
  unfolding url_field
  url_field-ensures none = Ensures-pure I P none _ (λ d h. h)
  url_field-ensures (some u) =
      if-ensures (u == "") _ _ _ (λ _. Ensures-pure I P _ _ (λ d h. h))
        λ _.
          if-ensures (is_valid_http_url sys u) _ _ _ (λ _. Ensures-pure I P _ _ (λ d h. h))
            (λ _. Ensures-stop I P _ _ back)

  ids_field-ensures : (ids : List String) → Ensures I P (ids_field sys ids) (λ _. P)
  unfolding ids_field
  ids_field-ensures [] = Ensures-pure I P [] _ (λ d h. h)
  ids_field-ensures (s ∷ ss) =
      Ensures-bind I P _ _ _ _ (Ensures-or_stop I P (sys.parse_uuid s) _ back) λ id.
        Ensures-from I P _ _ _ (λ d h. h.0)
          (Ensures-bind I P _ _ (λ _. P) _ (ids_field-ensures ss)
            (λ ids. Ensures-pure I P _ _ (λ d h. h)))

  abbrev Alt : Option String → Db → Type 0
  Alt alt d = P d × All IsTrimmed (given_list alt)

  alt_field-ensures :
      (name : String) (given : Option String) → Ensures I P (alt_field sys name given) Alt
  unfolding alt_field
  alt_field-ensures name none = Ensures-pure I P none _ (λ d h. (h, tt))
  alt_field-ensures name (some given) =
      if-ensures (trim_space given == "") _ _ _ (λ _. Ensures-pure I P _ _ (λ d h. (h, tt)))
        λ full.
          if-ensures (equal_fold sys.unicode (trim_space given) name) _ _ _
            (λ _. Ensures-stop I P _ _ back)
            (λ _. Ensures-pure I P _ _ (λ d h. (h, (trim_space-IsTrimmed given full, tt))))

module _ (sys : System) (I P : Db → Type 0) (back : (d : Db) → P d → I d) where
  abbrev Detailed : Details → Db → Type 0
  Detailed x d = P d × All IsTrimmed (given_list x.alt_name)

  details_of-ensures :
      (user : User) (name : String) (b : CreateBody)
      → Ensures I P (details_of sys user name b) Detailed
  unfolding details_of
  details_of-ensures user name b =
      if-ensures sys I P back (is_mod_or_admin user) _ _ _
        (λ _.
          Ensures-bind I P _ _ (Alt sys I P back) _ (alt_field-ensures sys I P back name b.alt_name)
            λ alt.
              let A = Alt sys I P back alt in
              let out = λ (d : Db) (h : A d). back d h.0 in
              Ensures-bind I A _ _ (λ _. A) _ (status_field-ensures sys I A out b.status)
                λ status.
                  Ensures-bind I A _ _ (λ _. A) _ (url_field-ensures sys I A out b.anidb_url)
                    λ url.
                      Ensures-bind I A _ _ (λ _. A) _
                        (ids_field-ensures sys I A out b.server_destination_ids)
                        (λ ids. Ensures-pure I A _ _ (λ d h. h)))
        (λ _. Ensures-pure I P no_details _ (λ d h. (h, tt)))

module _ (sys : System) (agree : LowersAgree sys) where
  abbrev Apart : Db → Type 0
  Apart = Names sys

  finish_create-ensures :
      (user : User) (id : Uuid) (name category : String) (x : Details)
      → same_id id nil_uuid ≡ false
      → All IsTrimmed (name ∷ given_list x.alt_name)
      → Ensures Apart Apart (finish_create sys user id name category x) (λ _. Apart)
  unfolding finish_create
  finish_create-ensures user id name category x real trimmed =
      let new : RequestRow = new_row id 0 name category user.id x.alt_name x.status x.anidb_url in
      Ensures-bind Apart Apart _ _ _ _
        (Ensures-map_err Apart Apart internal _ _
          (name_in_use-ensures sys nil_uuid (name ∷ given_list x.alt_name) Apart))
        λ dup. Ensures-bind Apart _ _ _ _ _ (Ensures-stop_if Apart _ dup _ (λ d h. h.0)) λ _.
          Ensures-bind Apart _ _ _ (λ _. Apart) _
            (Ensures-map_err Apart _ create_error _ _ (
              Ensures-from Apart (λ d. Apart d × IsFree sys.sql_lower new d) _ _ _
                (λ d h. (h.0.0, IsFree-NotUsed sys new d agree trimmed h.0.0 (h.0.1 h.1)))
                (create_with_details-ensures sys id name category user.id x.alt_name x.status
                  x.anidb_url x.dest_ids real)))
            (λ created. Ensures-pure Apart Apart _ _ (λ d h. h))

  create_request-ensures :
      (user : User) (id : Uuid) (body : Option CreateBody)
      → same_id id nil_uuid ≡ false
      → Ensures Apart Apart (create_request sys user id body) (λ _. Apart)
  unfolding create_request
  create_request-ensures user id body real =
      Ensures-bind Apart Apart _ _ _ _ (Ensures-or_stop Apart Apart body _ (λ d h. h)) λ b.
        Ensures-bind Apart _ _ _ _ _
          (Ensures-stop_if Apart _ (trim_space b.name == "") _ (λ d h. h.0))
          λ _.
            Ensures-given Apart _ ((trim_space b.name == "") ≡ false) _ _ (λ d h. h.1)
              λ full. Ensures-bind Apart _ _ _ _ _ (Ensures-stop_if Apart _ _ _ (λ d h. h.0.0)) λ _.
                Ensures-bind Apart _ _ _ _ _
                  (details_of-ensures sys Apart _ (λ d h. h.0.0.0) user _ b)
                  λ x.
                    Ensures-given Apart _ (All IsTrimmed (given_list x.alt_name)) _ _ (λ d h. h.1)
                      λ alt.
                        Ensures-from Apart Apart _ _ _ (λ d h. h.0.0.0.0)
                          (finish_create-ensures user id _ b.category x real
                            (trim_space-IsTrimmed b.name full, alt))

-- From tables in which the names of the requests are apart, Create leaves such tables, whatever it
-- answers and whichever call of the database is lost: no two requests share a name or an alternate
-- name, nor is one's name another's alternate name, up to LOWER. It needs that strings.ToLower and
-- LOWER agree, and a new identifier that is not uuid.Nil.
pub create_request-Names :
    (sys : System) (user : User) (id : Uuid) (body : Option CreateBody) (w : World)
    → LowersAgree sys
    → same_id id nil_uuid ≡ false
    → Names sys w.db
    → Names sys (after (create_request sys user id body w)).db
create_request-Names sys user id body w agree real =
    Ensures-after (Names sys) _ (create_request-ensures sys agree user id body real) w

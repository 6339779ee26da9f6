-- ===== src/Api/Requests/Batches.antt =====
-- internal/handler/api/requests.go: BatchCreate, its count and the names.
use anime_request_server.Prelude.{
  ℕ, ◌+◌, String, ◌≡◌, refl, sym, ap, subst, false, Option, none, some, List, [], length, same_id,
  All,
}
use anime_request_server.Models.{Uuid, nil_uuid, User}
use anime_request_server.Database.Tables.{Db}
use anime_request_server.Server.{System, World}
use anime_request_server.Server.Ensures.{
  Ensures, Post, Ensures-bind, Ensures-map_err, Ensures-or_stop, Ensures-stop_if, Ensures-pure,
  Ensures-from, Ensures-given,
}
use anime_request_server.Repository.Requests.Names.{LowersAgree, Names}
use anime_request_server.Repository.Requests.Batch.{InUse}
use anime_request_server.Repository.Requests.Batch.Counts.{create_batch-ensures}
use anime_request_server.Api.Response.{Response, added, json}
use anime_request_server.Api.Requests.{BatchBody, trimmed_names, batch_create}

-- What is so after a batch of the names was added and `r` answered.
abbrev pub BatchAdded : System → List String → Db → Response → Db → Type 0
BatchAdded sys names before r d =
    (n : ℕ) × (r ≡ json 201 (added n))
    × Names sys d
    × (length d.requests ≡ length before.requests + n)
    × All (InUse sys.sql_lower d.requests) names

-- The names of a body that was decoded.
abbrev names_of : Option BatchBody → List String
names_of none = []
names_of (some b) = trimmed_names b.names

module _ (sys : System) (agree : LowersAgree sys) (before : Db) (v : Names sys before) where
  abbrev Same : Db → Type 0
  Same d = d ≡ before

  batch_create-ensures :
      (user : User) (ids : ℕ → Uuid) (body : Option BatchBody)
      → ((i : ℕ) → same_id (ids i) nil_uuid ≡ false)
      → Ensures Same Same (batch_create sys user ids body) (BatchAdded sys (names_of body) before)
  unfolding batch_create
  batch_create-ensures user ids body real =
      Ensures-bind Same _ _ _ _ _ (Ensures-stop_if Same Same _ _ (λ d h. h)) λ _.
        Ensures-bind Same _ _ _ _ _ (Ensures-or_stop Same _ body _ (λ d h. h.0)) λ b.
          Ensures-given Same _ (body ≡ some b) _ _ (λ d h. h.1)
            λ same. Ensures-bind Same _ _ _ _ _ (Ensures-stop_if Same _ _ _ (λ d h. h.0.0)) λ _.
              Ensures-bind Same _ _ _ _ _ (Ensures-stop_if Same _ _ _ (λ d h. h.0.0.0)) λ _.
                Ensures-from Same Same _ _ _ (λ d h. h.0.0.0.0)
                  (Ensures-bind Same _ _ _ _ _
                    (Ensures-map_err Same _ _ _ _ (
                      create_batch-ensures sys agree before ids (trimmed_names b.names) user.id v
                        real))
                    λ n. Ensures-pure Same _ (json 201 (added n)) _ (λ d h.
                      subst (λ names. BatchAdded sys names before (json 201 (added n)) d)
                        (sym (ap names_of same)) (n, refl, h.0, h.1, h.2)))

-- BatchCreate does all of it or nothing. When it returns, the answer is 201 with the number of rows
-- that were added, every name of the body that is not empty after trimming is then the name or the
-- alternate name of a request up to LOWER, and the names of the requests are apart. When it stops,
-- whatever the reason, the tables are as before. It needs that strings.ToLower and LOWER agree, tables
-- in which the names are apart and new identifiers that are not uuid.Nil.
pub batch_create-Names :
    (sys : System) (user : User) (ids : ℕ → Uuid) (body : Option BatchBody) (w : World)
    → LowersAgree sys
    → ((i : ℕ) → same_id (ids i) nil_uuid ≡ false)
    → Names sys w.db
    → Post (λ d. d ≡ w.db) (BatchAdded sys (names_of body) w.db) (batch_create sys user ids body w)
batch_create-Names sys user ids body w agree real v =
    (batch_create-ensures sys agree w.db v user ids body real).at w refl

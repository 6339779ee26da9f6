-- ===== src/Repository/Board/Free.antt =====
-- The unique indexes of internal/database/migrations on anime_requests, as a condition on what identifiers find.
use anime_request_server.Prelude.{
  String, ◌≡◌, refl, sym, ◌∙◌, Bool, false, not, ◌&&◌, none, some, List, [], ◌∷◌, arith, same_id,
  any, any-find, find_sound,
}
use anime_request_server.Models.{Uuid}
use anime_request_server.Database.Apart.{Apart, others}
use anime_request_server.Database.Tables.{Db, RequestRow}
use anime_request_server.Database.Lookup.{at, knows, any-at}
use anime_request_server.Database.Sound.{request_id}
use anime_request_server.Database.Requests.{
  request_id_clash, name_clash, alt_clash, unique_violation,
}
use anime_request_server.Database.Requests.Valid.{alt_clash-same_alt}
use anime_request_server.Database.Requests.Names.{unique_violation-none}
use anime_request_server.Repository.Board.{view, IsFree}

-- Not the row of an identifier, and a test.
abbrev else_passes : Uuid → (RequestRow → Bool) → RequestRow → Bool
else_passes id p q = not (same_id q.id id) && p q

any-others :
    (id : Uuid) (p : RequestRow → Bool) (rs : List RequestRow)
    → any p (others request_id id rs) ≡ any (else_passes id p) rs
any-others id p [] = refl
any-others id p (r ∷ rs) = ground (arith, any-others id p rs)

pub others_all :
    (id : Uuid) (rs : List RequestRow)
    → knows request_id rs id ≡ false
    → others request_id id rs ≡ rs
others_all id [] h = refl
others_all id (r ∷ rs) h = ground (arith, others_all id rs)

pub found_id :
    (i : Uuid) (q : RequestRow) (rs : List RequestRow) → at request_id i rs ≡ some q → q.id ≡ i
found_id i q rs e = ground (arith, find_sound (λ (r : RequestRow). same_id r.id i) rs q e)

module _ (lower : String → String) (d : Db) where
  others_pass :
      (p : RequestRow → Bool) (new q : RequestRow) (i : Uuid)
      → any p (others request_id new.id d.requests) ≡ false
      → at request_id i d.requests ≡ some q
      → same_id i new.id ≡ false
      → p q ≡ false
  others_pass p new q i h e differ = ground (
    arith,
    found_id i q d.requests e,
    any-find (else_passes new.id p) (λ r. same_id r.id i) d.requests q
        (sym (any-others new.id p d.requests) ∙ h) e,
  )

  -- What the indexes let through is free.
  pub unique-IsFree :
      (new : RequestRow)
      → unique_violation lower (others request_id new.id d.requests) new ≡ none
      → IsFree lower new (view d)
  unique-IsFree new u id q e differ =
      let (one, name, alt) =
        unique_violation-none lower (others request_id new.id d.requests) new u in
      (
        others_pass (name_clash lower new) new q id name e differ,
        sym (alt_clash-same_alt lower new q)
            ∙ others_pass (alt_clash lower new) new q id alt e differ,
      )

  module _ (ids : Apart request_id_clash d.requests) (new : RequestRow) where
    none_pass :
        (p : RequestRow → Bool)
        → ((i : Uuid) (q : RequestRow)
            → at request_id i d.requests ≡ some q
            → same_id i new.id ≡ false
            → p q ≡ false)
        → any p (others request_id new.id d.requests) ≡ false
    none_pass p h =
        any-others new.id p d.requests
        ∙ any-at request_id (else_passes new.id p) d.requests ids
            (λ i q e. ground (arith, found_id i q d.requests e, h i q e))

    -- What is free, the indexes let through.
    pub IsFree-unique :
        IsFree lower new (view d)
        → unique_violation lower (others request_id new.id d.requests) new ≡ none
    unfolding unique_violation
    IsFree-unique free =
        rw
          (
            none_pass (request_id_clash new)
                (λ i q e differ. ground (arith, found_id i q d.requests e)),
            none_pass (name_clash lower new) (λ i q e differ. (free i q e differ).0),
            none_pass (alt_clash lower new)
                (λ i q e differ. alt_clash-same_alt lower new q ∙ (free i q e differ).1),
          )
          refl

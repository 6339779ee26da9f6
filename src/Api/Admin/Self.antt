-- ===== src/Api/Admin/Self.antt =====
-- internal/handler/api/admin.go: UpdateUser and the row of its caller.
use anime_request_server.Prelude.{
  String, ◌≡◌, refl, ◌∙◌, Bool, true, false, Option, none, some, List, [], ◌∷◌, map, arith,
  if◌then◌else◌, find, same_id,
}
use anime_request_server.Models.{Uuid, User}
use anime_request_server.Database.Tables.{Db}
use anime_request_server.Database.Accounts.{update_user, set_user}
use anime_request_server.Server.{System, World, after, PgError, done, refuse}
use anime_request_server.Server.Keeps.{
  EffectKeeps, Keeps, Keeps-exec, Keeps-map_err, keeps_rules, Keeps-pure, Keeps-stop_if,
}
use anime_request_server.Server.Ensures.{
  Ensures, Ensures-after, Ensures-of-Keeps, Ensures-bind, Ensures-or_stop, Ensures-stop_if,
  Ensures-from, Ensures-given,
}
use anime_request_server.Repository.Accounts.{UserSets, apply_user_sets, update_account, get_user}
use anime_request_server.Repository.Requests.Select.{find_user}
use anime_request_server.Api.Admin.{role_field, update_user_by}

-- An update of another user leaves this one as it was.
find-set_user :
    (id other : Uuid) (set : User → User) (us : List User)
    → same_id id other ≡ false
    → ((u : User) → (set u).id ≡ u.id)
    → find (λ (u : User). same_id u.id id) (map (set_user other set) us)
      ≡ find (λ (u : User). same_id u.id id) us
find-set_user id other set [] differ keeps = refl
find-set_user id other set (u ∷ us) differ keeps =
    ground (arith, keeps u, find-set_user id other set us differ keeps)

module _ (id : Uuid) (o : Option User) where
  -- The caller's row is `o`.
  abbrev CallerIs : Db → Type 0
  CallerIs d = find_user id d ≡ o

  checked-Keeps :
      (b : Bool) (x : PgError) (e : Db)
      → CallerIs e
      → EffectKeeps CallerIs (if b then refuse x else done (tt {0}) e)
  checked-Keeps true x e k = tt
  checked-Keeps false x e k = k

  update_user-CallerIs :
      (other : Uuid) (set : User → User) (d : Db)
      → same_id id other ≡ false
      → ((u : User) → (set u).id ≡ u.id)
      → CallerIs d
      → EffectKeeps CallerIs (update_user other set d)
  unfolding update_user
  update_user-CallerIs other set d differ keeps h =
      checked-Keeps _ _ _ (find-set_user id other set d.users differ keeps ∙ h)

  role_field-Keeps : (r : Option String) → Keeps CallerIs (role_field r)
  role_field-Keeps none = Keeps-pure tt
  role_field-Keeps (some r) = Keeps-stop_if _ _

  update_account-Keeps :
      (other : Uuid) (sets : UserSets)
      → same_id id other ≡ false
      → Keeps CallerIs (update_account other sets)
  unfolding update_account apply_user_sets
  update_account-Keeps other sets differ = Keeps-map_err _ _ (
      Keeps-exec _
        (λ now d. update_user-CallerIs other (apply_user_sets now sets) d differ (λ u. refl)))

module _ (sys : System) (current : User) (o : Option User) where
  abbrev Same : Db → Type 0
  Same = CallerIs current.id o

  update_user_by-ensures :
      (id_text : String) (body : Option UserSets)
      → Ensures Same Same (update_user_by sys current id_text body) (λ _. Same)
  unfolding update_user_by get_user
  update_user_by-ensures id_text body =
      Ensures-bind Same Same _ _ _ _
        (Ensures-or_stop Same Same (sys.parse_uuid id_text) _ (λ d h. h))
        λ id.
          Ensures-bind Same _ _ _ _ _
            (Ensures-stop_if Same _ (same_id current.id id) _ (λ d h. h.0))
            λ _.
              Ensures-given Same _ (same_id current.id id ≡ false) _ _ (λ d h. h.1)
                λ differ.
                  Ensures-from Same Same _ _ _ (λ d h. h.0.0)
                    (Ensures-of-Keeps Same _ (
                      search
                        (
                          keeps_rules,
                          role_field-Keeps current.id o,
                          update_account-Keeps current.id o,
                        )
                        depth 12))

-- Whatever UpdateUser answers, and whichever call is lost, the row of its caller stays as it was.
pub find_user-update_user_by :
    (sys : System) (current : User) (id_text : String) (body : Option UserSets) (w : World)
    → find_user current.id (after (update_user_by sys current id_text body w)).db
      ≡ find_user current.id w.db
find_user-update_user_by sys current id_text body w =
    Ensures-after _ _ (update_user_by-ensures sys current (find_user current.id w.db) id_text body)
      w refl

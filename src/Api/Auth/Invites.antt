-- ===== src/Api/Auth/Invites.antt =====
-- internal/handler/api/auth.go: what RedeemInvite leaves behind.
use anime_request_server.Prelude.{
  ℕ, String, ◌≡◌, refl, sym, ap, ◌∙◌, subst, false, Option, some, [], ◌∷◌, ◌++◌, map, arith,
  is_some,
}
use anime_request_server.Text.{trim_space}
use anime_request_server.Models.{Uuid, User, InviteCode, role_user}
use anime_request_server.Database.Tables.{Db}
use anime_request_server.Database.Accounts.{insert_user, use_invite, use_code}
use anime_request_server.Server.{System, World, done}
use anime_request_server.Server.Returns.{
  Alike, Alike-refl, Returned, Gives, Asks, Gives-pure, Asks-or_stop, Asks-reads, Gives-weaken,
  Asks-stop_if, Gives-ask, Gives-change, Gives-map_err, Gives-exec, Asks-query,
}
use anime_request_server.Repository.Accounts.{new_user, create_user, get_user}
use anime_request_server.Repository.Administration.{find_code, get_by_code, mark_used}
use anime_request_server.Repository.Requests.Select.{find_user}
use anime_request_server.Api.Response.{Response}
use anime_request_server.Api.Auth.{
  RedeemBody, is_expired, check_invite, finish_redeem, redeem_invite, welcome,
}
use anime_request_server.Api.Auth.Logins.{new_session, Gives-start_session}

module _ (v : World) where
  Asks-check_invite :
      (found : Option InviteCode)
      → Asks v (check_invite found) (λ c.
        (found ≡ some c) × (is_some c.used_by ≡ false) × (is_expired v.now c.expires_at ≡ false))
  unfolding check_invite
  Asks-check_invite found = Gives-ask v _ _ _ _ (Asks-or_stop v found _) λ c given.
      Gives-ask v _ _ _ _ (Asks-stop_if v _ _) λ _ unused.
        Gives-ask v _ _ (λ now. now ≡ v.now) _ (Asks-reads v _ (λ w s. s.now))
          λ now same. Gives-ask v _ _ _ _ (Asks-stop_if v _ _) (λ _ in_time.
            Gives-pure v c _ (λ w s.
              (s, (given, unused, subst (λ t. is_expired t c.expires_at ≡ false) same in_time))))

  insert_user-done :
      (u : User) (d e : Db)
      → insert_user u d ≡ done tt e
      → e ≡ record d { users = d.users ++ u ∷ [] }
  unfolding insert_user
  insert_user-done u d e h = ground arith

  use_invite-done :
      (code user : Uuid) (d e : Db)
      → use_invite code user d ≡ done tt e
      → e ≡ record d { invite_codes = map (use_code code user) d.invite_codes }
  unfolding use_invite
  use_invite-done code user d e h = ground arith

  -- The world with one more user.
  abbrev pub joined_by : User → World
  joined_by u = record v { db = record v.db { users = v.db.users ++ u ∷ [] } }

  pub Gives-create_user :
      (id : Uuid) (name hash role : String)
      → Gives v (create_user id name hash role) (λ o w.
        (u : World) × ((u ≡ joined_by (new_user id v.now name hash role)) × (o ≡ find_user id u.db))
        × Alike u w)
  unfolding create_user get_user
  Gives-create_user id name hash role =
      Gives-change v _ _ _ _ (Gives-map_err v _ _ _ (Gives-exec v _)) λ _ u did.
        Gives-weaken u _ _ _ (Gives-map_err u _ _ _ (Asks-query u _)) (λ o w k. (
          u,
          (did.2 ∙ ap (λ d. record v { db = d }) (insert_user-done _ v.db did.0 did.1), k.1),
          k.0,
        ))

  abbrev pub used_by_user : Uuid → Uuid → World
  used_by_user code user = record v {
    db = record v.db { invite_codes = map (use_code code user) v.db.invite_codes };
  }

  Gives-mark_used :
      (code user : Uuid)
      → Gives v
          (mark_used code user)
          (λ _ w. (u : World) × (u ≡ used_by_user code user) × Alike u w)
  unfolding mark_used
  Gives-mark_used code user =
      Gives-weaken v _ _ _ (Gives-map_err v _ _ _ (Gives-exec v _)) (λ _ w k. (
        k.0,
        k.1.2 ∙ ap (λ d. record v { db = d }) (use_invite-done code user v.db k.1.0 k.1.1),
        k.2,
      ))

-- What RedeemInvite asks for, and what it leaves behind.
pub record Redeemed (sys : System) (salt : ℕ) (user_id session_id : Uuid)
    (new_token : Option String) (body : Option RedeemBody) (v : World) (r : Response) (w : World)
    : Type 0 where
  pub b : RedeemBody
  pub c : InviteCode
  pub hash : String
  pub token : String
  pub decoded : body ≡ some b
  pub found : find_code (trim_space b.code) v.db ≡ some c
  pub unused : is_some c.used_by ≡ false
  pub in_time : is_expired v.now c.expires_at ≡ false
  pub hashed : sys.hash_password salt b.password ≡ some hash
  pub drawn : new_token ≡ some token
  pub db : w.db ≡ record v.db {
    users = v.db.users ++ new_user user_id v.now (trim_space b.username) hash role_user ∷ [];
    invite_codes = map (use_code c.id user_id) v.db.invite_codes;
    sessions = v.db.sessions ++ new_session session_id user_id (sys.hash_token token) v.now ∷ [];
  }
  pub answer : r ≡ welcome 201 (find_user user_id w.db) token

module _ (v : World) where
  pub Gives-redeem_invite :
      (sys : System) (salt : ℕ) (user_id session_id : Uuid) (new_token : Option String)
      (body : Option RedeemBody)
      → Gives v
          (redeem_invite sys salt user_id session_id new_token body)
          (Redeemed sys salt user_id session_id new_token body v)
  unfolding redeem_invite get_by_code finish_redeem
  Gives-redeem_invite sys salt user_id session_id new_token body =
      Gives-ask v _ _ _ _ (Asks-or_stop v body _) λ b decoded.
        Gives-ask v _ _ _ _ (Asks-stop_if v _ _) λ _ _.
          Gives-ask v _ _ _ _ (Asks-stop_if v _ _) λ _ _.
            Gives-ask v _ _ _ _ (Gives-map_err v _ _ _ (Gives-map_err v _ _ _ (Asks-query v _)))
              λ found asked. Gives-ask v _ _ _ _ (Asks-check_invite v found) λ c known.
                Gives-ask v _ _ _ _ (Asks-or_stop v _ _) λ hash hashed.
                  Gives-change v _ _ _ _
                    (Gives-map_err v _ _ _ (Gives-create_user v user_id _ hash role_user))
                    λ o x made.
                      Gives-change x _ _ _ _
                        (Gives-map_err x _ _ _ (Gives-mark_used x c.id user_id))
                        λ _ y used.
                          Gives-change y _ _ _ _
                            (Gives-start_session y sys session_id new_token user_id)
                            λ token z begun. Gives-pure z _ _ (λ w s. record {
                              b = b;
                              c = c;
                              hash = hash;
                              token = token;
                              decoded = decoded;
                              found = sym asked ∙ known.0;
                              unused = known.1;
                              in_time = known.2;
                              hashed = hashed;
                              drawn = begun.0;
                              db = rw (s.db, begun.2, used, made.0) refl;
                              answer = rw (made.1, s.db, begun.2, used) refl;
                            })

-- Whenever RedeemInvite returns, the body names a code that exists, was not used and has not expired;
-- then the tables are as before but for one new user with the role "user", one new session of that
-- user, and the code, which is marked as used by the user.
pub redeem_invite-Redeemed :
    (sys : System) (salt : ℕ) (user_id session_id : Uuid) (new_token : Option String)
    (body : Option RedeemBody) (v : World)
    → Returned
        (Redeemed sys salt user_id session_id new_token body v)
        (redeem_invite sys salt user_id session_id new_token body v)
redeem_invite-Redeemed sys salt user_id session_id new_token body v =
    (Gives-redeem_invite v sys salt user_id session_id new_token body).at v (Alike-refl v)

-- ===== src/Api/Auth/Logins.antt =====
-- internal/handler/api/auth.go: what is so when Login lets someone in.
use anime_request_server.Prelude.{
  ℕ, ◌+◌, String, ◌≡◌, refl, sym, ap, ◌∙◌, ◌⊎◌, inl, inr, Bool, true, false, not, Option, none,
  some, [], ◌∷◌, ◌++◌, arith, ◌==◌, any, same_id,
}
use anime_request_server.Text.{trim_space}
use anime_request_server.Ratelimit.{LoginLimiter, is_banned, record_success}
use anime_request_server.Models.{Uuid, User, Session}
use anime_request_server.Database.Tables.{Db}
use anime_request_server.Database.Requests.{has_user}
use anime_request_server.Database.Accounts.{insert_session}
use anime_request_server.Server.{System, World, done}
use anime_request_server.Server.Returns.{
  Alike, Returned, Gives, Asks, Gives-pure, Gives-stop, Asks-or_stop, Asks-reads, Gives-weaken,
  Gives-if, Asks-stop_if, Gives-ask, Gives-change, Gives-map_err, Gives-exec, Asks-query, Asks-pure,
  Alike-refl,
}
use anime_request_server.Repository.Accounts.{find_username, get_by_username, create_session}
use anime_request_server.Api.Response.{Response}
use anime_request_server.Api.Auth.{
  LoginBody, refuse_banned, reject, notify, check_user, valid_code, check_totp, start_session,
  with_limiter, login, session_duration, welcome,
}

abbrev pub new_session : Uuid → Uuid → String → ℕ → Session
new_session id user_id token_hash now = record {
  id = id;
  user_id = user_id;
  token_hash = token_hash;
  expires_at = now + session_duration;
  created_at = now;
}

abbrev pub with_session : Session → World → World
with_session s w = record w { db = record w.db { sessions = w.db.sessions ++ s ∷ [] } }

abbrev pub IsFreshSession : Session → Db → Type 0
IsFreshSession s d =
    (any (λ (t : Session). same_id t.id s.id) d.sessions ≡ false)
    × (any (λ (t : Session). t.token_hash == s.token_hash) d.sessions ≡ false)
    × (has_user s.user_id d ≡ true)

module _ (v : World) where
  Gives-with_limiter :
      {A : Type 0} (f : ℕ → LoginLimiter → LoginLimiter × A)
      → Gives {E = Response} v (with_limiter f) (λ a w.
        (u : World) × ((a ≡ (f v.now v.limiter).1)
          × (u ≡ record v { limiter = (f v.now v.limiter).0 }))
        × Alike u w)
  unfolding with_limiter
  Gives-with_limiter f = record {
    at = λ w s. (
      record v { limiter = (f v.now v.limiter).0 },
      (rw (s.now, s.limiter) refl, refl),
      record { db = s.db; limiter = rw (s.now, s.limiter) refl; now = s.now },
    );
  }

module _ (v : World) where
  Gives-notify : {A : Type 0} (ip : String) (Q : A → World → Type 0) → Gives v (notify ip) Q
  unfolding notify
  Gives-notify ip Q = Gives-change v _ _ _ _ (Gives-with_limiter v _) (λ a x k. Gives-stop x _ _)

module _ (v : World) where
  Asks-refuse_banned :
      (ip : String) → Asks v (refuse_banned ip) (λ _. (is_banned v.limiter v.now ip).0 ≡ false)
  unfolding refuse_banned
  Asks-refuse_banned ip =
      Gives-ask v _ _ (λ b. b ≡ is_banned v.limiter v.now ip) _
        (Asks-reads v _ (λ w s. rw (s.limiter, s.now) refl))
        λ b same.
          Gives-if v b.0 _ _ _
            (λ _. Gives-if v b.1 _ _ _ (λ _. Gives-stop v _ _) (λ _. Gives-notify v ip _))
            (λ free.
              Gives-weaken v _ _ _ (Asks-pure v tt)
                (λ a w s. (s.0, sym (ap (λ (p : Bool × Bool). p.0) same) ∙ free)))

  Gives-reject : {A : Type 0} (ip : String) (Q : A → World → Type 0) → Gives v (reject ip) Q
  unfolding reject
  Gives-reject ip Q =
      Gives-change v _ _ _ _ (Gives-with_limiter v _)
        (λ banned u k. Gives-if u banned _ _ _ (λ _. Gives-notify u ip _) (λ _. Gives-stop u _ _))

  Asks-check_user :
      (sys : System) (ip password : String) (found : Option User)
      → Asks v
          (check_user sys ip password found)
          (λ u. (found ≡ some u) × (sys.check_password u.password_hash password ≡ true))
  unfolding check_user
  Asks-check_user sys ip password none = Gives-reject ip _
  Asks-check_user sys ip password (some u) =
      Gives-if v (sys.check_password u.password_hash password) _ _ _
        (λ right. Gives-pure v u _ (λ w s. (s, (refl, right)))) (λ _. Gives-reject ip _)

  -- The second factor, where the user has one.
  abbrev pub TotpPassed : System → User → String → ℕ → Type 0
  TotpPassed sys u code now =
      (u.totp_enabled ≡ false) ⊎ (valid_code sys u.totp_secret code now ≡ true)

  Asks-check_totp :
      (sys : System) (u : User) (code : String)
      → Asks v (check_totp sys u code) (λ _. TotpPassed sys u code v.now)
  unfolding check_totp
  Asks-check_totp sys u code =
      Gives-if v (not u.totp_enabled) _ _ _
        (λ off. Gives-pure v tt _ (λ w s. (s, inl (ground arith))))
        λ on.
          Gives-if v (code == "") _ _ _ (λ _. Gives-stop v _ _)
            λ _.
              Gives-ask v _ _ (λ now. now ≡ v.now) _ (Asks-reads v _ (λ w s. s.now))
                λ now same.
                  Gives-weaken v _ _ _ (Asks-stop_if v _ _)
                    (λ a w s. (s.0, inr (rw (sym same) (ground arith))))

  insert_session-done :
      (s : Session) (d e : Db)
      → insert_session s d ≡ done tt e
      → IsFreshSession s d × (e ≡ record d { sessions = d.sessions ++ s ∷ [] })
  unfolding insert_session
  insert_session-done s d e h = ground arith

  Gives-create_session :
      (id user_id : Uuid) (hash : String)
      → Gives v (create_session id user_id hash (v.now + session_duration)) (λ _ w.
        (u : World) × (IsFreshSession (new_session id user_id hash v.now) v.db
          × (u ≡ with_session (new_session id user_id hash v.now) v))
        × Alike u w)
  unfolding create_session
  Gives-create_session id user_id hash =
      Gives-weaken v _ _ _ (Gives-map_err v _ _ _ (Gives-exec v _)) λ a w k.
        let (fresh, same) =
          insert_session-done (new_session id user_id hash v.now) v.db k.1.0 k.1.1 in
        (k.0, (fresh, k.1.2 ∙ ap (λ d. record v { db = d }) same), k.2)

  pub Gives-start_session :
      (sys : System) (id : Uuid) (new_token : Option String) (user_id : Uuid)
      → Gives v (start_session sys id new_token user_id) (λ token w.
        (u : World) × ((new_token ≡ some token)
          × IsFreshSession (new_session id user_id (sys.hash_token token) v.now) v.db
          × (u ≡ with_session (new_session id user_id (sys.hash_token token) v.now) v))
        × Alike u w)
  unfolding start_session
  Gives-start_session sys id new_token user_id =
      Gives-ask v _ _ _ _ (Asks-or_stop v new_token _) λ token given.
        Gives-ask v _ _ (λ now. now ≡ v.now) _ (Asks-reads v _ (λ w s. s.now))
          λ now same. rw same (
            Gives-change v _ _ _ _ (Gives-map_err v _ _ _ (Gives-create_session id user_id _))
              (λ a u k. Gives-pure u token _ (λ w s. (u, (given, k.0, k.1), s))))

-- What Login asks for, and what it leaves behind.
pub record Admitted (sys : System) (ip : String) (body : Option LoginBody) (id : Uuid)
    (new_token : Option String) (v : World) (r : Response) (w : World) : Type 0 where
  pub b : LoginBody
  pub u : User
  pub token : String
  pub not_banned : (is_banned v.limiter v.now ip).0 ≡ false
  pub decoded : body ≡ some b
  pub named : find_username (trim_space b.username) v.db ≡ some u
  pub password : sys.check_password u.password_hash b.password ≡ true
  pub enabled : u.disabled ≡ false
  pub second_factor : TotpPassed v sys u b.totp_code v.now
  pub drawn : new_token ≡ some token
  pub fresh : IsFreshSession (new_session id u.id (sys.hash_token token) v.now) v.db
  pub db : w.db ≡ (with_session (new_session id u.id (sys.hash_token token) v.now) v).db
  pub limiter : w.limiter ≡ record_success v.limiter ip
  pub answer : r ≡ welcome 200 (some u) token

module _ (v : World) where
  Gives-login :
      (sys : System) (ip : String) (body : Option LoginBody) (id : Uuid) (new_token : Option String)
      → Gives v (login sys ip body id new_token) (Admitted sys ip body id new_token v)
  unfolding login get_by_username
  Gives-login sys ip body id new_token = Gives-ask v _ _ _ _ (Asks-refuse_banned v ip) λ _ free.
      Gives-ask v _ _ _ _ (Asks-or_stop v body _) λ b decoded.
        Gives-ask v _ _ _ _ (Asks-stop_if v _ _) λ _ _.
          Gives-ask v _ _ _ _ (Gives-map_err v _ _ _ (Gives-map_err v _ _ _ (Asks-query v _)))
            λ found asked.
              Gives-ask v _ _ _ _ (Asks-check_user v sys ip b.password found) λ u known.
                Gives-ask v _ _ _ _ (Asks-stop_if v _ _) λ _ enabled.
                  Gives-ask v _ _ _ _ (Asks-check_totp v sys u b.totp_code) λ _ totp.
                    Gives-change v _ _ _ _ (Gives-start_session v sys id new_token u.id)
                      λ token x begun.
                        Gives-change x _ _ _ _ (Gives-with_limiter x _) λ _ y cleared.
                          Gives-pure y _ _ (λ w s. record {
                            b = b;
                            u = u;
                            token = token;
                            not_banned = free;
                            decoded = decoded;
                            named = sym asked ∙ known.0;
                            password = known.1;
                            enabled = enabled;
                            second_factor = totp;
                            drawn = begun.0;
                            fresh = begun.1;
                            db =
                                s.db
                                ∙ ap (λ (z : World). z.db) cleared.1
                                ∙ ap (λ (z : World). z.db) begun.2;
                            limiter =
                                s.limiter
                                ∙ ap (λ (z : World). z.limiter) cleared.1
                                ∙ ap (λ (z : World). record_success z.limiter ip) begun.2;
                            answer = refl;
                          })

-- Whenever Login returns, the address was not banned, the body names a user that is not disabled, the
-- password matches the user's hash and the code passes where the user has TOTP; then the tables
-- are as before but for one new session of this user, which ends 24 hours later, the record of
-- the address's failures is gone, and the answer carries the user and the token.
pub login-Admitted :
    (sys : System) (ip : String) (body : Option LoginBody) (id : Uuid) (new_token : Option String)
    (v : World)
    → Returned (Admitted sys ip body id new_token v) (login sys ip body id new_token v)
login-Admitted sys ip body id new_token v =
    (Gives-login v sys ip body id new_token).at v (Alike-refl v)

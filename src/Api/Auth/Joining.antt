-- ===== src/Api/Auth/Joining.antt =====
-- internal/handler/api/auth.go: the parts of RedeemInvite on the way that returns.
use anime_request_server.Prelude.{
  ℕ, String, ◌≡◌, refl, true, false, some, List, [], ◌∷◌, ◌++◌, arith, ◌==◌, same_id, same_id_refl,
  any, find, is_some, map,
}
use anime_request_server.Text.{trim_space}
use anime_request_server.Models.{Uuid, User, Session, InviteCode, role_user}
use anime_request_server.Database.Tables.{Db}
use anime_request_server.Database.Requests.{has_user}
use anime_request_server.Database.Accounts.{insert_user, use_invite, use_code, is_role}
use anime_request_server.Server.{
  System, World, ok, pure, ◌>>=◌, stop_if, or_stop, map_err, reads, done, exec, query,
}
use anime_request_server.Repository.Accounts.{new_user, create_user, get_user}
use anime_request_server.Repository.Administration.{mark_used}
use anime_request_server.Api.Auth.{RedeemBody, is_expired, check_invite, finish_redeem, welcome}
use anime_request_server.Api.Auth.Logins.{new_session, with_session}
use anime_request_server.Api.Auth.Invites.{joined_by, used_by_user}
use anime_request_server.Api.Auth.Answers.{undisturbed, start_session-ok}

find_user-append :
    (id : Uuid) (u : User) (us : List User)
    → u.id ≡ id
    → any (λ (v : User). same_id v.id id) us ≡ false
    → find (λ (v : User). same_id v.id id) (us ++ u ∷ []) ≡ some u
find_user-append id u [] same new = rw (same, same_id_refl id) refl
find_user-append id u (v ∷ us) same new = ground (arith, find_user-append id u us same)

has_user-append :
    (id : Uuid) (u : User) (us : List User)
    → u.id ≡ id
    → any (λ (v : User). same_id v.id id) (us ++ u ∷ []) ≡ true
has_user-append id u [] same = rw (same, same_id_refl id) refl
has_user-append id u (v ∷ us) same = ground (arith, has_user-append id u us same)

insert_user-new :
    (u : User) (d : Db)
    → is_role u.role ≡ true
    → has_user u.id d ≡ false
    → any (λ (v : User). v.username == u.username) d.users ≡ false
    → insert_user u d ≡ done tt (record d { users = d.users ++ u ∷ [] })
unfolding insert_user
insert_user-new u d role fresh free = rw (role, fresh, free) refl

use_invite-known :
    (code user : Uuid) (d : Db)
    → has_user user d ≡ true
    → use_invite code user d
      ≡ done tt (record d { invite_codes = map (use_code code user) d.invite_codes })
unfolding use_invite
use_invite-known code user d known = ground arith

module _ (v : World) where
  create_user-ok :
      (id : Uuid) (name hash : String)
      → has_user id v.db ≡ false
      → any (λ (u : User). u.username == name) v.db.users ≡ false
      → create_user id name hash role_user (undisturbed v)
        ≡ ok
            (some (new_user id v.now name hash role_user))
            (undisturbed (joined_by v (new_user id v.now name hash role_user)))
  unfolding create_user get_user ◌>>=◌ pure map_err exec query
  create_user-ok id name hash fresh free =
      rw
        (
          insert_user-new (new_user id v.now name hash role_user) v.db refl fresh free,
          find_user-append id (new_user id v.now name hash role_user) v.db.users refl fresh,
        )
        refl

  mark_used-ok :
      (code user : Uuid)
      → has_user user v.db ≡ true
      → mark_used code user (undisturbed v) ≡ ok tt (undisturbed (used_by_user v code user))
  unfolding mark_used map_err exec
  mark_used-ok code user known = rw (use_invite-known code user v.db known) refl

  pub check_invite-ok :
      (c : InviteCode)
      → is_some c.used_by ≡ false
      → is_expired v.now c.expires_at ≡ false
      → check_invite (some c) (undisturbed v) ≡ ok c (undisturbed v)
  unfolding check_invite ◌>>=◌ pure reads or_stop stop_if
  check_invite-ok c unused in_time = rw (unused, in_time) refl

-- The world with a new user, a session of it, and a code that it has marked.
abbrev pub redeemed : System → String → Uuid → Uuid → String → String → InviteCode → World → World
redeemed sys name user_id session_id token hash c v =
    with_session (new_session session_id user_id (sys.hash_token token) v.now)
      (used_by_user (joined_by v (new_user user_id v.now name hash role_user)) c.id user_id)

-- What is new about a newcomer.
pub record IsNew (sys : System) (name : String) (user_id session_id : Uuid) (token : String)
    (d : Db) : Type 0 where
  pub user : has_user user_id d ≡ false
  pub username : any (λ (u : User). u.username == name) d.users ≡ false
  pub session : any (λ (t : Session). same_id t.id session_id) d.sessions ≡ false
  pub token_hash : any (λ (t : Session). t.token_hash == sys.hash_token token) d.sessions ≡ false

-- From the new password on, where no call is lost: whatever has become of the code.
pub finish_redeem-ok :
    (sys : System) (salt : ℕ) (user_id session_id : Uuid) (token hash : String) (b : RedeemBody)
    (c : InviteCode) (v : World)
    → sys.hash_password salt b.password ≡ some hash
    → IsNew sys (trim_space b.username) user_id session_id token v.db
    → finish_redeem sys salt user_id session_id (some token) b c (undisturbed v)
      ≡ ok
          (welcome 201 (some (new_user user_id v.now (trim_space b.username) hash role_user)) token)
          (undisturbed (redeemed sys (trim_space b.username) user_id session_id token hash c v))
unfolding finish_redeem ◌>>=◌ pure or_stop map_err new_user
finish_redeem-ok sys salt user_id session_id token hash b c v hashed fresh =
    let u = new_user user_id v.now (trim_space b.username) hash role_user in
    let joined = has_user-append user_id u v.db.users refl in
    rw
      (
        hashed,
        create_user-ok v user_id (trim_space b.username) hash fresh.user fresh.username,
        mark_used-ok (joined_by v u) c.id user_id joined,
        start_session-ok sys (used_by_user (joined_by v u) c.id user_id) session_id user_id token
            (fresh.session, fresh.token_hash, joined),
      )
      refl

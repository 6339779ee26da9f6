-- ===== src/Api/Auth/Race.antt =====
-- internal/handler/api/auth.go: RedeemInvite checks the code and marks it in separate statements, so two calls
-- that have both passed the check can both go on.
mod Examples
use anime_request_server.Prelude.{
  ℕ, String, ◌≡◌, refl, ◌≤◌, ltb, map, Bool-cases, inl, inr, Bool, true, false, not, ◌||◌, none,
  some, List, [], ◌∷◌, ◌++◌, arith, ◌==◌, same_id, any, any-append, is_some,
}
use anime_request_server.Text.{trim_space, byte_length}
use anime_request_server.Models.{Uuid, User, Session, InviteCode, role_user}
use anime_request_server.Server.{
  System, World, Outcome, ok, err, M, pure, next, ◌>>=◌, ◌>>◌, stop_if, or_stop, map_err, exec,
  query,
}
use anime_request_server.Repository.Accounts.{new_user}
use anime_request_server.Repository.Administration.{find_code, get_by_code}
use anime_request_server.Database.Accounts.{use_code}
use anime_request_server.Api.Response.{Response, error}
use anime_request_server.Api.Auth.{
  RedeemBody, internal, is_expired, check_invite, finish_redeem, redeem_invite, welcome,
}
use anime_request_server.Api.Auth.Logins.{new_session}
use anime_request_server.Api.Auth.Answers.{undisturbed}
use anime_request_server.Api.Auth.Joining.{IsNew, redeemed, check_invite-ok, finish_redeem-ok}

-- What one of the two callers brings: the body, and what is drawn for it.
pub record Newcomer : Type 0 where
  pub body : RedeemBody
  pub salt : ℕ
  pub user_id : Uuid
  pub session_id : Uuid
  pub token : String

abbrev pub name_of : Newcomer → String
name_of n = trim_space n.body.username

abbrev code_of : Newcomer → String
code_of n = trim_space n.body.code

abbrev pub user_of : Newcomer → String → ℕ → User
user_of n hash now = new_user n.user_id now (name_of n) hash role_user

abbrev pub session_of : System → Newcomer → ℕ → Session
session_of sys n now = new_session n.session_id n.user_id (sys.hash_token n.token) now

-- One call from the new password on.
abbrev pub goes_on : System → Newcomer → InviteCode → M Response Response
goes_on sys n c = finish_redeem sys n.salt n.user_id n.session_id (some n.token) n.body c

-- One call up to there: the code is read and checked.
abbrev pub checks : Newcomer → M Response InviteCode
checks n = do
  stop_if (code_of n == "" || name_of n == "" || n.body.password == "")
      (error 400 "code, username, and password are required")
  stop_if (ltb (byte_length n.body.password) 8) (error 400 "password must be at least 8 characters")
  found ← map_err internal (get_by_code (code_of n))
  check_invite found

-- The two parts are RedeemInvite.
redeem_invite-parts :
    (sys : System) (n : Newcomer) (w : World)
    → redeem_invite sys n.salt n.user_id n.session_id (some n.token) (some n.body) w
      ≡ (checks n >>= goes_on sys n) w
unfolding redeem_invite ◌>>=◌ or_stop stop_if
redeem_invite-parts sys n w =
    elim (Bool-cases (code_of n == "" || name_of n == "" || n.body.password == "")) [
      | inl missing ↦ rw missing refl
      | inr full ↦ elim (Bool-cases (ltb (byte_length n.body.password) 8)) [
        | inl short ↦ rw (full, short) refl
        | inr long ↦
            rw (full, long)
              (in_parts (map_err internal (get_by_code (code_of n)) w) check_invite (goes_on sys n))
      ]
    ]
  where
    in_parts :
        {E A B C : Type 0} (o : Outcome E A) (f : A → M E B) (g : B → M E C)
        → next o (λ a x. next (f a x) g) ≡ next (next o f) g
    in_parts (ok a x) f g = refl
    in_parts (err e x) f g = refl

-- Two calls whose checks come first: check, check, then the rest of the one and the rest of the other.
abbrev pub both_checked : System → Newcomer → Newcomer → M Response (Response × Response)
both_checked sys m n = do
  one ← checks m
  two ← checks n
  first ← goes_on sys m one
  second ← goes_on sys n two
  pure (first, second)

-- The second is still new after the first.
IsNew-redeemed :
    (sys : System) (m n : Newcomer) (hash : String) (c : InviteCode) (v : World)
    → IsNew sys (name_of n) n.user_id n.session_id n.token v.db
    → same_id m.user_id n.user_id ≡ false
    → (name_of m == name_of n) ≡ false
    → same_id m.session_id n.session_id ≡ false
    → (sys.hash_token m.token == sys.hash_token n.token) ≡ false
    → IsNew sys
        (name_of n)
        n.user_id
        n.session_id
        n.token
        (redeemed sys (name_of m) m.user_id m.session_id m.token hash c v).db
unfolding new_user
IsNew-redeemed sys m n hash c v new ids names sessions tokens = record {
  user = rw any-append (ground (arith, new.user, ids));
  username = rw any-append (ground (arith, new.username, names));
  session = rw any-append (ground (arith, new.session, sessions));
  token_hash = rw any-append (ground (arith, new.token_hash, tokens));
}

-- The first part of a call returns the code.
checks-ok :
    (n : Newcomer) (c : InviteCode) (v : World)
    → (code_of n == "" || name_of n == "" || n.body.password == "") ≡ false
    → 8 ≤ byte_length n.body.password
    → find_code (code_of n) v.db ≡ some c
    → is_some c.used_by ≡ false
    → is_expired v.now c.expires_at ≡ false
    → checks n (undisturbed v) ≡ ok c (undisturbed v)
unfolding ◌>>=◌ stop_if get_by_code map_err query exec
checks-ok n c v full long found unused in_time =
    let short : ltb (byte_length n.body.password) 8 ≡ false = ground arith in
    rw (full, short, found, check_invite-ok v c unused in_time) refl

-- Two callers with one code both get a user and a session. Where the tables have the code, unused and in time, when
-- both calls read it, each body is complete with a password of 8 bytes at least that can be hashed, both
-- callers are new and differ in name, identifiers and token hash, and no call is lost, each call answers 201
-- with its user and its token, and the tables have both users and a session of each; the code is
-- marked by the one and then by the other.
pub both_checked-ok :
    (sys : System) (m n : Newcomer) (hash_m hash_n : String) (c : InviteCode) (v : World)
    → find_code (code_of m) v.db ≡ some c
    → code_of n ≡ code_of m
    → is_some c.used_by ≡ false
    → is_expired v.now c.expires_at ≡ false
    → (code_of m == "" || name_of m == "" || m.body.password == "") ≡ false
    → (code_of n == "" || name_of n == "" || n.body.password == "") ≡ false
    → 8 ≤ byte_length m.body.password
    → 8 ≤ byte_length n.body.password
    → sys.hash_password m.salt m.body.password ≡ some hash_m
    → sys.hash_password n.salt n.body.password ≡ some hash_n
    → IsNew sys (name_of m) m.user_id m.session_id m.token v.db
    → IsNew sys (name_of n) n.user_id n.session_id n.token v.db
    → same_id m.user_id n.user_id ≡ false
    → (name_of m == name_of n) ≡ false
    → same_id m.session_id n.session_id ≡ false
    → (sys.hash_token m.token == sys.hash_token n.token) ≡ false
    → (w : World) × (both_checked sys m n (undisturbed v)
        ≡ ok
            (
              welcome 201 (some (user_of m hash_m v.now)) m.token,
              welcome 201 (some (user_of n hash_n v.now)) n.token,
            )
            w)
      × (w.db.users ≡ (v.db.users ++ user_of m hash_m v.now ∷ []) ++ user_of n hash_n v.now ∷ [])
      × (w.db.sessions
          ≡ (v.db.sessions ++ session_of sys m v.now ∷ []) ++ session_of sys n v.now ∷ [])
      × (w.db.invite_codes
          ≡ map (use_code c.id n.user_id) (map (use_code c.id m.user_id) v.db.invite_codes))
unfolding ◌>>=◌ pure
both_checked-ok sys m n hash_m hash_n c v found one_code unused in_time full_m full_n long_m long_n
      one two new_m new_n ids names sessions tokens =
    let first = redeemed sys (name_of m) m.user_id m.session_id m.token hash_m c v in
    let after = IsNew-redeemed sys m n hash_m c v new_n ids names sessions tokens in
    (
      undisturbed (redeemed sys (name_of n) n.user_id n.session_id n.token hash_n c first),
      rw
          (
            checks-ok m c v full_m long_m found unused in_time,
            checks-ok n c v full_n long_n (rw one_code found) unused in_time,
            finish_redeem-ok sys m.salt m.user_id m.session_id m.token hash_m m.body c v one new_m,
            finish_redeem-ok sys n.salt n.user_id n.session_id n.token hash_n n.body c first two
                after,
          )
          refl,
      refl,
      refl,
      refl,
    )

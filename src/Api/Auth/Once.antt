-- ===== src/Api/Auth/Once.antt =====
-- internal/handler/api/auth.go: calls of RedeemInvite that come one after the other. Calls that overlap are in
-- Api.Auth.Race.
use anime_request_server.Prelude.{
  ℕ, String, ◌≡◌, sym, ap, ◌∙◌, subst, Bool, true, false, Bool-cases, inl, inr, Option, none, some,
  List, [], ◌∷◌, map, arith, ◌==◌, find, is_some,
}
use anime_request_server.Text.{trim_space}
use anime_request_server.Models.{Uuid, InviteCode}
use anime_request_server.Database.Tables.{Db}
use anime_request_server.Database.Accounts.{insert_user, insert_session, use_invite, use_code}
use anime_request_server.Server.{System, World, Outcome, after}
use anime_request_server.Server.Keeps.{
  Keeps, EffectKeeps, Keeps-exec, Keeps-map_err, Keeps-bind, keeps_rules,
}
use anime_request_server.Server.Returns.{Alike-refl, Returned, Gives-weaken}
use anime_request_server.Repository.Accounts.{create_user, get_user, create_session}
use anime_request_server.Repository.Administration.{find_code, get_by_code, mark_used}
use anime_request_server.Api.Response.{Response}
use anime_request_server.Api.Auth.{
  RedeemBody, check_invite, finish_redeem, start_session, redeem_invite,
}
use anime_request_server.Api.Auth.Invites.{Redeemed, Gives-redeem_invite}

-- A call of RedeemInvite at a time, with what is drawn for it and the calls of the database that are lost.
pub record Attempt : Type 0 where
  pub now : ℕ
  pub faults : List Bool
  pub salt : ℕ
  pub user_id : Uuid
  pub session_id : Uuid
  pub new_token : Option String
  pub body : Option RedeemBody

abbrev pub attempt : System → Attempt → World → Outcome Response Response
attempt sys a w =
    redeem_invite sys a.salt a.user_id a.session_id a.new_token a.body
      (record w { now = a.now; faults = a.faults })

abbrev pub attempts : System → List Attempt → World → World
attempts sys [] w = w
attempts sys (a ∷ rest) w = attempts sys rest (after (attempt sys a w))

abbrev pub code_in : Option RedeemBody → String
code_in none = ""
code_in (some b) = trim_space b.code

-- The code is there and was used.
abbrev IsUsed : String → List InviteCode → Type 0
IsUsed code cs =
    (x : InviteCode) × (find (λ (c : InviteCode). c.code == code) cs ≡ some x)
    × (is_some x.used_by ≡ true)

-- A code that was marked is found as used.
find-use_code :
    (code : String) (c : InviteCode) (user : Uuid) (cs : List InviteCode)
    → find (λ (x : InviteCode). x.code == code) cs ≡ some c
    → IsUsed code (map (use_code c.id user) cs)
find-use_code code c user [] h = absurd (ground arith)
find-use_code code c user (d ∷ cs) h = elim (Bool-cases (d.code == code)) [
  | inl same ↦ (use_code c.id user d, ground arith, ground arith)
  | inr other ↦
      let (x, found, used) = find-use_code code c user cs (ground arith) in (x, ground arith, used)
]

-- A code that was used stays so, whichever code is marked.
use_code-IsUsed :
    (code : String) (id user : Uuid) (cs : List InviteCode)
    → IsUsed code cs
    → IsUsed code (map (use_code id user) cs)
use_code-IsUsed code id user [] (x, found, used) = absurd (ground arith)
use_code-IsUsed code id user (d ∷ cs) (x, found, used) = elim (Bool-cases (d.code == code)) [
  | inl same ↦ (use_code id user d, ground arith, ground arith)
  | inr other ↦
      let (y, there, marked) = use_code-IsUsed code id user cs (x, ground arith, used) in
      (y, ground arith, marked)
]

module _ (code : String) where
  abbrev Used : Db → Type 0
  Used d = IsUsed code d.invite_codes

  use_invite-kept : (id user : Uuid) (d : Db) → Used d → EffectKeeps Used (use_invite id user d)
  unfolding use_invite
  use_invite-kept id user d h = ground (arith, use_code-IsUsed code id user d.invite_codes h)

  mark_used-Keeps : (id user : Uuid) → Keeps Used (mark_used id user)
  unfolding mark_used
  mark_used-Keeps id user =
      Keeps-map_err _ _ (Keeps-exec _ (λ now d h. use_invite-kept id user d h))

  create_user-Keeps :
      (id : Uuid) (name hash role : String) → Keeps Used (create_user id name hash role)
  unfolding create_user get_user insert_user
  create_user-Keeps id name hash role =
      Keeps-bind _ _ (Keeps-map_err _ _ (Keeps-exec _ (λ now d h. ground arith)))
        (λ _. search keeps_rules)

  create_session-Keeps :
      (id user : Uuid) (hash : String) (expires_at : ℕ)
      → Keeps Used (create_session id user hash expires_at)
  unfolding create_session insert_session
  create_session-Keeps id user hash expires_at =
      Keeps-map_err _ _ (Keeps-exec _ (λ now d h. ground arith))

  start_session-Keeps :
      (sys : System) (session : Uuid) (token : Option String) (user : Uuid)
      → Keeps Used (start_session sys session token user)
  unfolding start_session
  start_session-Keeps sys session token user = search (keeps_rules, create_session-Keeps) depth 12

  redeem_invite-Keeps :
      (sys : System) (salt : ℕ) (user session : Uuid) (token : Option String)
      (body : Option RedeemBody)
      → Keeps Used (redeem_invite sys salt user session token body)
  unfolding redeem_invite check_invite finish_redeem get_by_code
  redeem_invite-Keeps sys salt user session token body =
      search (keeps_rules, create_user-Keeps, mark_used-Keeps, start_session-Keeps sys) depth 30

  attempts-Used :
      (sys : System) (between : List Attempt) (w : World)
      → Used w.db
      → Used (attempts sys between w).db
  attempts-Used sys [] w h = h
  attempts-Used sys (a ∷ rest) w h = attempts-Used sys rest (after (attempt sys a w)) (
      (redeem_invite-Keeps sys a.salt a.user_id a.session_id a.new_token a.body).at
        (record w { now = a.now; faults = a.faults }) h)

-- RedeemInvite never returns for a code that was used.
no_redeem :
    (sys : System) (a : Attempt) (w : World)
    → Used (code_in a.body) w.db
    → Returned (λ _ _. ⊥) (attempt sys a w)
no_redeem sys a w (c, found, used) =
    (Gives-weaken v _ _ _
        (Gives-redeem_invite v sys a.salt a.user_id a.session_id a.new_token a.body)
        (λ r x k. absurd (never k))).at
      v (Alike-refl v)
  where
    v : World
    v = record w { now = a.now; faults = a.faults }

    is_used : Option InviteCode → Bool
    is_used none = false
    is_used (some x) = is_some x.used_by

    differ : (t : Bool) → t ≡ true → t ≡ false → ⊥
    differ t h k = cc

    never :
        {r : Response} {x : World}
        → Redeemed sys a.salt a.user_id a.session_id a.new_token a.body v r x
        → ⊥
    never k = differ (is_used (some c)) used (
        ap is_used (sym found ∙ ap (λ o. find_code (code_in o) w.db) k.decoded ∙ k.found)
        ∙ k.unused)

-- A code works once where the calls come one after the other: after RedeemInvite has returned for a code, whatever
-- calls of RedeemInvite come then, for any codes, none with this code returns, at any times and
-- whichever calls of the database are lost.
pub redeem_invite-once :
    (sys : System) (first again : Attempt) (between : List Attempt) (v : World)
    → code_in again.body ≡ code_in first.body
    → Returned
        (λ r w. Returned (λ _ _. ⊥) (attempt sys again (attempts sys between w)))
        (attempt sys first v)
redeem_invite-once sys first again between v code =
    (Gives-weaken start _ _ _
        (Gives-redeem_invite start sys first.salt first.user_id first.session_id first.new_token
          first.body)
        once).at
      start (Alike-refl start)
  where
    start : World
    start = record v { now = first.now; faults = first.faults }

    once :
        (r : Response) (w : World)
        → Redeemed sys first.salt first.user_id first.session_id first.new_token first.body start r
            w
        → Returned (λ _ _. ⊥) (attempt sys again (attempts sys between w))
    once r w a =
        let same = code ∙ ap code_in a.decoded in
        no_redeem sys again (attempts sys between w) (
          attempts-Used (code_in again.body) sys between w (
            subst (λ d. Used (code_in again.body) d) (sym a.db)
              (find-use_code (code_in again.body) a.c first.user_id v.db.invite_codes
                (rw same a.found))))

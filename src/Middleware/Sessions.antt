-- ===== src/Middleware/Sessions.antt =====
-- internal/middleware/auth.go with internal/handler/api/auth.go: the life of a session, from Login to
-- Logout.
use mathlib.Core.Option
use anime_request_server.Prelude.{
  subst, any-find, same_id_refl, ℕ, ◌+◌, ◌<◌, String, ◌≡◌, refl, sym, ap, ◌∙◌, Bool, true, false,
  not, Bool-cases, inl, inr, ◌&&◌, Option, none, some, List, [], ◌∷◌, ◌++◌, arith, ◌==◌, eq_refl,
  any, find, filter, same_id,
}
use anime_request_server.Text.{trim_space}
use anime_request_server.Database.Apart.{Apart}
use anime_request_server.Database.Sound.{id_clash, user_id}
use anime_request_server.Models.{Uuid, User, Session}
use anime_request_server.Database.Tables.{Db}
use anime_request_server.Database.Accounts.{delete_session}
use anime_request_server.Server.{
  System, World, ok, map_err, Effect, done, refuse, exec, query, is_lost, later_faults,
}
use anime_request_server.Server.Returns.{
  Alike-refl, Returned, Gives, Gives-pure, Asks-or_stop, Gives-weaken, Gives-ask, Gives-change,
  Gives-map_err, Gives-exec,
}
use anime_request_server.Repository.Accounts.{
  find_username, live, without_secrets, select_session, get_by_token_hash, delete_login,
}
use anime_request_server.Repository.Requests.Select.{find_user}
use anime_request_server.Api.Response.{Response}
use anime_request_server.Api.Auth.{LoginBody, login, logout, session_duration}
use anime_request_server.Api.Auth.Logins.{new_session, Admitted, login-Admitted}
use anime_request_server.Api.Auth.Answers.{undisturbed}
use anime_request_server.Middleware.{context_of}

find-live :
    (now : ℕ) (hash : String) (s : Session) (ss : List Session)
    → any (λ (t : Session). t.token_hash == hash) ss ≡ false
    → (s.token_hash == hash) ≡ true
    → now < s.expires_at
    → find (live now hash) (ss ++ s ∷ []) ≡ some s
find-live now hash s [] none_yet same alive = ground arith
find-live now hash s (t ∷ ss) none_yet same alive = ground (arith, find-live now hash s ss)

-- A user is what its identifier finds, where no two users share one.
find_user-found :
    (p : User → Bool) (u : User) (us : List User)
    → Apart (id_clash user_id) us
    → find p us ≡ some u
    → find (λ (v : User). same_id v.id u.id) us ≡ some u
find_user-found p u [] a e = cc
find_user-found p u (x ∷ us) a e = elim (Bool-cases (p x)) [
  | inl hit ↦ first p u x us (ground arith)
  | inr miss ↦
      let rest : find p us ≡ some u = ground arith in
      ground (arith, find_user-found p u us a.1 rest, any-find (id_clash user_id x) p us u a.0 rest)
]
  where
    first :
        (p : User → Bool) (u x : User) (us : List User)
        → x ≡ u
        → find (λ (v : User). same_id v.id u.id) (x ∷ us) ≡ some u
    first p u x us same = rw (same, same_id_refl u.id) refl

context_of-Admitted :
    (sys : System) (ip : String) (body : Option LoginBody) (id : Uuid) (new_token : Option String)
    (v w : World) (r : Response) (at : ℕ)
    → (a : Admitted sys ip body id new_token v r w) → (a.token == "") ≡ false
    → find_user a.u.id v.db ≡ some a.u
    → at < v.now + session_duration
    → context_of sys a.token (undisturbed (record w { now = at }))
      ≡ ok
          (some (new_session id a.u.id (sys.hash_token a.token) v.now, without_secrets a.u))
          (undisturbed (record w { now = at }))
unfolding context_of get_by_token_hash query exec map_err select_session Option.bind
context_of-Admitted sys ip body id new_token v w r at a full alone early =
    rw
      (
        full,
        a.db,
        find-live at (sys.hash_token a.token) (new_session id a.u.id (sys.hash_token a.token) v.now)
            v.db.sessions a.fresh.1 (eq_refl (sys.hash_token a.token)) early,
        alone,
        a.enabled,
      )
      refl

-- The user that a body names.
abbrev pub named_by : Option LoginBody → Db → Option User
named_by none d = none
named_by (some b) d = find_username (trim_space b.username) d

-- The session of a user that ends 24 hours after it began.
abbrev pub day_session : Uuid → Uuid → String → ℕ → Session
day_session id user hash now = record {
  id = id;
  user_id = user;
  token_hash = hash;
  expires_at = now + 86400000000000;
  created_at = now;
}

-- After a Login that returned, its token gives the context of the user that the body names, with a session that
-- ends 24 hours after the Login, at any time before that, on the tables as Login left them and where no
-- call is lost; the token is not empty and no two users share an identifier.
pub context_of-login :
    (sys : System) (ip : String) (body : Option LoginBody) (id : Uuid) (token : String)
    (v w : World) (r : Response) (at : ℕ)
    → login sys ip body id (some token) v ≡ ok r w
    → (token == "") ≡ false
    → Apart (id_clash user_id) v.db.users
    → at < v.now + 86400000000000
    → (u : User) × (named_by body v.db ≡ some u)
      × (context_of sys token (undisturbed (record w { now = at }))
          ≡ ok
              (some (day_session id u.id (sys.hash_token token) v.now, without_secrets u))
              (undisturbed (record w { now = at })))
context_of-login sys ip body id token v w r at e full apart early =
    let a =
      subst (Returned (Admitted sys ip body id (some token) v)) e
        (login-Admitted sys ip body id (some token) v) in
    let same = drawn_same a.drawn in
    (
      a.u,
      ap (λ o. named_by o v.db) a.decoded ∙ a.named,
      subst
          (λ t.
            context_of sys t (undisturbed (record w { now = at }))
            ≡ ok (some (day_session id a.u.id (sys.hash_token t) v.now, without_secrets a.u))
                (undisturbed (record w { now = at })))
          (sym same)
          (context_of-Admitted sys ip body id (some token) v w r at a
            (subst (λ t. (t == "") ≡ false) same full)
            (find_user-found _ a.u v.db.users apart a.named) early),
    )
  where
    drawn_same : {s t : String} → some s ≡ some t → s ≡ t
    drawn_same e = ground arith

-- No other session has the token hash of this one.
abbrev pub IsLone : Session → Db → Type 0
IsLone s d =
    any (λ (t : Session). t.token_hash == s.token_hash && not (same_id t.id s.id)) d.sessions
    ≡ false

find-deleted :
    (now : ℕ) (s : Session) (ss : List Session)
    → any (λ (t : Session). t.token_hash == s.token_hash && not (same_id t.id s.id)) ss ≡ false
    → find (live now s.token_hash) (filter (λ (t : Session). not (same_id t.id s.id)) ss) ≡ none
find-deleted now s [] lone = refl
find-deleted now s (t ∷ ss) lone = ground (arith, find-deleted now s ss)

-- Where no session has the hash, no token of that hash gives a context, lost calls or not.
context_of-none :
    (sys : System) (token : String) (w : World)
    → find (live w.now (sys.hash_token token)) w.db.sessions ≡ none
    → (x : World) × (context_of sys token w ≡ ok none x)
unfolding context_of get_by_token_hash query exec map_err select_session Option.bind
context_of-none sys token w gone = elim (Bool-cases (token == "")) [
  | inl no_token ↦ (w, rw no_token refl)
  | inr given ↦ elim (Bool-cases (is_lost w.faults)) [
    | inl gone_wrong ↦ (record w { faults = later_faults w.faults }, rw (given, gone_wrong) refl)
    | inr arrived ↦ (record w { faults = later_faults w.faults }, rw (given, arrived, gone) refl)
  ]
]

abbrev pub Ended : System → String → ℕ → List Bool → World → Type 0
Ended sys token at faults w =
    (x : World) × (context_of sys token (record w { now = at; faults = faults }) ≡ ok none x)

effect_db : Effect (Unit {0}) → Db → Db
effect_db (done a d) other = d
effect_db (refuse e) other = other

delete_session-done :
    (id : Uuid) (d e : Db)
    → delete_session id d ≡ done tt e
    → e.sessions ≡ filter (λ (t : Session). not (same_id t.id id)) d.sessions
unfolding delete_session effect_db
delete_session-done id d e h = ap (λ x. (effect_db x e).sessions) (sym h)

logout_steps :
    (s : Session) (v : World)
    → Gives v
        (logout (some s))
        (λ r w. w.db.sessions ≡ filter (λ (t : Session). not (same_id t.id s.id)) v.db.sessions)
unfolding logout delete_login
logout_steps s v = Gives-ask v _ _ _ _ (Asks-or_stop v (some s) _) λ t given.
    Gives-change v _ _ _ _ (Gives-map_err v _ _ _ (Gives-map_err v _ _ _ (Gives-exec v _)))
      λ _ u did. Gives-pure u _ _ (λ w alike.
        ap (λ (d : Db). d.sessions) alike.db
        ∙ ap (λ (z : World). z.db.sessions) did.2
        ∙ delete_session-done t.id v.db did.0 did.1
        ∙ ap
            (λ (o : Option Session).
              filter (λ (x : Session). not (same_id x.id (of o).id)) v.db.sessions)
            (sym given))
  where
    of : Option Session → Session
    of none = s
    of (some t) = t

-- Once Logout has returned, the token of its session gives no context, at any time and whichever
-- call is lost, where no other session had its token hash.
pub logout-context :
    (sys : System) (token : String) (s : Session) (v : World) (at : ℕ) (faults : List Bool)
    → s.token_hash ≡ sys.hash_token token
    → IsLone s v.db
    → Returned (λ r w. Ended sys token at faults w) (logout (some s) v)
logout-context sys token s v at faults hash lone = (gives (logout_steps s v)).at v (Alike-refl v)
  where
    gives :
        Gives v
          (logout (some s))
          (λ r w. w.db.sessions ≡ filter (λ (t : Session). not (same_id t.id s.id)) v.db.sessions)
        → Gives v (logout (some s)) (λ r w. Ended sys token at faults w)
    gives k = Gives-weaken v _ _ _ k (λ r w e.
        context_of-none sys token (record w { now = at; faults = faults })
          (rw (e, sym hash) (find-deleted at s v.db.sessions lone)))

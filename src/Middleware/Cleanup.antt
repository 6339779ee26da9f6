-- ===== src/Middleware/Cleanup.antt =====
-- cmd/anime-request-server/main.go: the hourly clean-up of sessions, which serve runs beside the requests, and
-- Auth of internal/middleware/auth.go.
use anime_request_server.Prelude.{
  ℕ, ◌≤◌, String, ◌≡◌, refl, Bool-cases, inl, inr, not, leb, List, [], ◌∷◌, arith, ◌==◌, find,
  filter,
}
use anime_request_server.Models.{Session}
use anime_request_server.Database.Accounts.{delete_expired_sessions}
use anime_request_server.Server.{System, World, Outcome, ok, err, map_err, exec, query, is_lost}
use anime_request_server.Repository.Accounts.{
  live, select_session, get_by_token_hash, delete_expired,
}
use anime_request_server.Api.Response.{Response}
use anime_request_server.Command.{session_cleanup}
use anime_request_server.Middleware.{Context, context_of}

-- The world with the tables that a clean-up at another time leaves.
abbrev pub swept : ℕ → World → World
swept t v = record v { db = (session_cleanup (record v { now = t; faults = [] })).db }

-- The same outcome, with the swept tables.
abbrev pub with_swept : ℕ → Outcome Response Context → Outcome Response Context
with_swept t (ok c w) = ok c (swept t w)
with_swept t (err e w) = err e (swept t w)

find-live-filter :
    (t now : ℕ) (hash : String) (ss : List Session)
    → t ≤ now
    → find (live now hash) (filter (λ (s : Session). not (leb s.expires_at t)) ss)
      ≡ find (live now hash) ss
find-live-filter t now hash [] h = refl
find-live-filter t now hash (s ∷ ss) h = ground (arith, find-live-filter t now hash ss h)

-- A clean-up changes no answer of Auth: a token gives the same context as without it, now and later, whichever call
-- of the lookup is lost.
pub context_of-swept :
    (sys : System) (token : String) (t : ℕ) (v : World)
    → t ≤ v.now
    → context_of sys token (swept t v) ≡ with_swept t (context_of sys token v)
unfolding context_of session_cleanup get_by_token_hash select_session delete_expired
    delete_expired_sessions query exec map_err
context_of-swept sys token t v h = elim (Bool-cases (token == "")) [
  | inl e ↦ rw e refl
  | inr e ↦ elim (Bool-cases (is_lost v.faults)) [
    | inl k ↦ rw (e, k) refl
    | inr k ↦ rw (e, k, find-live-filter t v.now (sys.hash_token token) v.db.sessions h) refl
  ]
]

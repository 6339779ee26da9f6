-- ===== src/Server.antt =====
-- What a request to the server runs against: the libraries that the sources only call, the state that
-- requests share, and a monad of steps that may fail and leave early.
pub mod Agrees
pub mod Keeps
pub mod Ensures
pub mod Returns
pub mod Sample
use anime_request_server.Prelude.{
  ℕ, String, Bool, true, false, Option, none, some, List, [], ◌∷◌, if◌then◌else◌,
}
use anime_request_server.Text.{Unicode}
use anime_request_server.Ratelimit.{LoginLimiter}
use anime_request_server.Models.{Uuid}
use anime_request_server.Database.Tables.{Db}

-- What is not under the repository: PostgreSQL's LOWER, google/uuid, net/url, bcrypt, SHA-256, base32
-- and HMAC-SHA1.
pub record System : Type 0 where
  pub unicode : Unicode
  -- LOWER under the database's collation
  pub sql_lower : String → String
  -- uuid.Parse, `none` for an error
  pub parse_uuid : String → Option Uuid
  -- url.ParseRequestURI: the scheme and the host, `none` for an error
  pub parse_request_uri : String → Option (String × String)
  -- bcrypt.CompareHashAndPassword
  pub check_password : String → String → Bool
  -- bcrypt.GenerateFromPassword, with the salt that it drew; `none` for an error
  pub hash_password : ℕ → String → Option String
  -- SHA-256 in hexadecimal
  pub hash_token : String → String
  -- base32.StdEncoding without padding: the bytes, `none` for an error
  pub decode_base32 : String → Option (List ℕ)
  -- HMAC with SHA-1 of a key and a message: 20 bytes
  pub hmac_sha1 : List ℕ → List ℕ → List ℕ

-- The state that requests share. `faults` says of each call of the database to come whether it is lost: that is,
-- whether it fails for another reason than a constraint of the schema, be it a broken connection, a timeout, a text
-- with U+0000, which PostgreSQL does not store, or a text that is too long for a row of a btree index. A lost
-- call changes nothing and returns an error that names no constraint. An empty list loses none.
pub record World : Type 0 where
  pub db : Db
  pub limiter : LoginLimiter
  pub now : ℕ
  pub faults : List Bool

pub data Outcome (E A : Type 0) : Type 0 where
  ok : A → World → Outcome E A
  err : E → World → Outcome E A

abbrev pub after : {E A : Type 0} → Outcome E A → World
after (ok a w) = w
after (err e w) = w

-- A computation over the world that returns an `A` or stops with an `E`.
abbrev pub M : Type 0 → Type 0 → Type 0
M E A = World → Outcome E A

unfoldable pub pure : {E A : Type 0} → A → M E A
pure a w = ok a w

unfoldable pub stop : {E A : Type 0} → E → M E A
stop e w = err e w

-- What follows a step, if it returned.
abbrev pub next : {E A B : Type 0} → Outcome E A → (A → M E B) → Outcome E B
next (ok a w) f = f a w
next (err e w) f = err e w

infixl 5 ◌>>=◌ ◌>>◌
unfoldable pub ◌>>=◌ : {E A B : Type 0} → M E A → (A → M E B) → M E B
unfolding pure stop
◌>>=◌ m f w = next (m w) f

abbrev pub ◌>>◌ : {E B : Type 0} → M E (Unit {0}) → M E B → M E B
m >> k = m >>= λ _. k

-- `if b { return e }`
unfoldable pub stop_if : {E : Type 0} → Bool → E → M E (Unit {0})
stop_if b e w = if b then err e w else ok tt w

-- A value, or the way out.
unfoldable pub or_stop : {E A : Type 0} → Option A → E → M E A
or_stop none e w = err e w
or_stop (some a) e w = ok a w

abbrev pub as_error : {E F A : Type 0} → (E → F) → Outcome E A → Outcome F A
as_error f (ok a w) = ok a w
as_error f (err e w) = err (f e) w

-- The error of a call, turned into one of the caller's.
unfoldable pub map_err : {E F A : Type 0} → (E → F) → M E A → M F A
map_err f m w = as_error f (m w)

unfoldable pub reads : {E A : Type 0} → (World → A) → M E A
reads f w = ok (f w) w

unfoldable pub changes : {E : Type 0} → (World → World) → M E (Unit {0})
changes f w = ok tt (f w)

-- PostgreSQL's error: the SQLSTATE and the constraint.
pub record PgError : Type 0 where
  pub code : String
  pub constraint : String

-- What a call of the driver returns as an error.
pub data DbError : Type 0 where
  refused : PgError → DbError
  lost : DbError

-- What a statement does to the tables.
pub data Effect (A : Type 0) : Type 0 where
  done : A → Db → Effect A
  refuse : PgError → Effect A

abbrev pub is_lost : List Bool → Bool
is_lost [] = false
is_lost (b ∷ bs) = b

abbrev pub later_faults : List Bool → List Bool
later_faults [] = []
later_faults (b ∷ bs) = bs

abbrev pub settle : {A : Type 0} → Effect A → World → Outcome DbError A
settle (done a d) w = ok a (record w { db = d })
settle (refuse e) w = err (refused e) w

-- One call of the database, at NOW().
unfoldable pub exec : {A : Type 0} → (ℕ → Db → Effect A) → M DbError A
exec q w =
    let w' : World = record w { faults = later_faults w.faults } in
    if is_lost w.faults then err lost w' else settle (q w.now w.db) w'

unfoldable pub query : {A : Type 0} → (ℕ → Db → A) → M DbError A
unfolding exec
query f = exec (λ now d. done (f now d) d)

-- The deferred Rollback: an error puts the tables back.
abbrev pub rolled_back : {E A : Type 0} → Db → Outcome E A → Outcome E A
rolled_back d (ok a w) = ok a w
rolled_back d (err e w) = err e (record w { db = d })

-- Begin, the body, Commit; `lost_as` is the error for a begin or a commit that fails.
unfoldable pub transaction_steps : {E A : Type 0} → (DbError → E) → M E A → M E A
unfolding exec ◌>>=◌ map_err
transaction_steps lost_as body = do
  map_err lost_as (exec (λ now d. done tt d))
  a ← body
  map_err lost_as (exec (λ now d. done a d))

unfoldable pub transaction : {E A : Type 0} → (DbError → E) → M E A → M E A
unfolding transaction_steps
transaction lost_as body w = rolled_back w.db (transaction_steps lost_as body w)

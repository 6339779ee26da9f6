-- ===== src/Lib.antt =====
-- anime-request-server: a web server on which the users of an anime library request titles, and mods
-- and admins work through the requests.
--
-- The program. internal/handler/api holds one handler for each endpoint of the JSON API. A handler reads
-- a decoded body, validates it, calls the repositories of internal/repository, which send SQL to PostgreSQL,
-- and answers. internal/middleware finds the user of a request by a session token and guards the handlers.
-- internal/ratelimit counts failed logins for each client address and bans it for a while.
--
-- The model. A handler is a computation of the monad M of Server: from a World (the tables, the login
-- limiter, the clock, and which calls of the database will be lost) it returns a response or stops early with
-- one, and leaves a World. `do` follows the order of the statements in the source, an early return is `stop`,
-- `stop_if` or `or_stop`, `err` of a call is turned into a response by `map_err`. A World that a handler leaves is
-- the one that the next handler begins in, so an interleaving of whole handlers is a sequence of
-- calls. A call of the database is lost where it fails for another reason than a constraint of the schema: a broken
-- connection, a timeout, a text with U+0000 or one too long for an index, which PostgreSQL refuses. It changes nothing
-- and returns an error; the list `faults` says which calls are lost, so a theorem about all Worlds is about all
-- failures as well, and a call that is not lost has texts that PostgreSQL takes. Where an ORDER BY leaves the order of two
-- rows open, the field `ties` of the tables orders them, by a choice of its own for each offset of a page. The clock
-- does not move within a handler, and NOW() of the database is the clock of the server.
--
-- The files:
--   Prelude, Text           lists, tests and the functions of Go's strings, unicode and strconv that are used
--   Models                  internal/models/models.go
--   Ratelimit               internal/ratelimit/login_limiter.go: one function for each method of LoginLimiter, and
--                           GetClientIP in Ratelimit.ClientIp; Entries has sequences of calls
--   Database                the tables of internal/database/migrations after the last one, and the effect of each
--                           SQL statement, with its constraints in the order in which they are checked; Sound says
--                           when tables meet the constraints, in words of its own, Lookup reads a table as a
--                           function of identifiers
--   Server                  the World, the monad M, and what is known of a step: Keeps and Ensures are for
--                           invariants of the tables, Returns for the state that a step returned in, Agrees for two
--                           steps that take the same course
--   Repository.Errors       mapRequestConstraintErr and the errors by which handlers tell failures apart
--   Repository.Requests     internal/repository/requests.go; Select has the queries
--   Repository.Accounts, Repository.Administration
--                           internal/repository/users.go and admin.go
--   Repository.Statements   the statements of all repositories, interleaved in any order
--   Repository.Untouched    the calls of the repositories that write no request
--   Repository.Board        what the repository of requests promises, without tables: an abstract state, a condition
--                           and a change for each statement that writes
--   Api.Response            internal/handler/api/helpers.go
--   Api.Requests            internal/handler/api/requests.go; Fields has the validation, Query the values of a URL
--   Api.Auth, Api.Admin     internal/handler/api/auth.go and admin.go; Once has calls of RedeemInvite one after the
--                           other, Race two that overlap
--   Api.Calls               the endpoints as one type, and runs of the API
--   Api.Router              internal/handler/api/router.go: the endpoints and which guard stands before which
--   Web                     internal/handler/web/handler.go: what an answer is, and Auth, Requests, Edit and Admin with the
--                           pages and forms, Routes with the guards
--   Middleware              internal/middleware/auth.go; IpLog has iplog.go; Sessions and Cleanup follow a session
--   Totp, Tokens            internal/auth/totp.go and auth.go
--   Config                  internal/config/config.go
--   Command                 cmd/anime-request-server/main.go
--
-- Parameters, which stand in the record System of Server or are arguments: PostgreSQL's LOWER, uuid.Parse,
-- url.ParseRequestURI, bcrypt, SHA-256 and HMAC-SHA1, the Unicode tables, UUID.String, the collation by which
-- destinations are listed, and what is drawn at random (identifiers,
-- tokens, codes, salts). A theorem that needs something of them says so as a hypothesis: LowersAgree, for one, says
-- that strings.ToLower and LOWER agree.
--
-- Bounds. Identifiers are numbers, as a UUID is a number of 128 bits. Times are numbers of nanoseconds. The offset of
-- a page and the counter and the code of TOTP wrap as in the source. Every function is structurally recursive, so there is
-- no fuel.
--
-- Not modelled: templates and static files; reading and writing JSON, HTML and HTTP; logging but for the attributes of
-- iplog.go; the limit of requests of the library httprate; the migrations and the connection of internal/database, of which
-- only the outcome is an argument; the start and the shutdown of the HTTP server; GenerateTOTPSecret and
-- TOTPProvisioningURI, which nothing calls; internal/testsupport.
-- Handlers run one after the other here. In the source a check such as NameInUse and the write that follows it are not one
-- transaction, so statements of different handlers can interleave: Repository.Statements is about every such order,
-- and Api.Auth.Race about one.
pub mod Prelude
pub mod Text
pub mod Ratelimit
pub mod Models
pub mod Database
pub mod Server
pub mod Repository
pub mod Totp
pub mod Tokens
pub mod Config
pub mod Command
pub mod Web
pub mod Middleware
pub mod Api

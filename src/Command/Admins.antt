-- ===== src/Command/Admins.antt =====
-- cmd/anime-request-server/main.go: init and the check for an admin, and create-user beside CreateUser of the API.
use anime_request_server.Prelude.{
  ℕ, String, ◌≡◌, refl, sym, ◌∙◌, inl, inr, Bool, true, false, Bool-cases, subst, ◌||◌, List, [],
  ◌∷◌, map, arith, some, any, any-append, ◌==◌, eq_iff, not, ltb, ap, ◌≤◌,
}
use anime_request_server.Text.{trim_space, byte_length}
use anime_request_server.Models.{Uuid, User, role_admin, role_mod, role_user}
use anime_request_server.Database.Tables.{Db}
use anime_request_server.Database.Requests.Sort.{any-sort, ascending}
use anime_request_server.Server.{
  System, World, ok, M, after, pure, is_lost, stop_if, ◌>>◌, ◌>>=◌, map_err, query, exec,
}
use anime_request_server.Server.Returns.{
  Alike, Alike-refl, Returned, Gives, Asks, Gives-pure, Gives-if, Asks-or_stop, Gives-weaken,
  Asks-stop_if, Gives-ask, Gives-change, Gives-map_err, Asks-query,
}
use anime_request_server.Server.Agrees.{
  Match, Agrees, IsReflexive, Agrees-met, Agrees-pure, Agrees-or_stop, Agrees-then, Agrees-map_err,
}
use anime_request_server.Repository.Accounts.{new_user, list_users, without_secrets}
use anime_request_server.Api.Auth.Invites.{joined_by, Gives-create_user}
use anime_request_server.Api.Auth.Answers.{undisturbed}
use anime_request_server.Api.Response.{Response, json, user}
use anime_request_server.Api.Admin.{UserBody, create_account}
use anime_request_server.Web.Auth.Agreement.{Alike-IsReflexive}
use anime_request_server.Config.{Config, loaded}
use anime_request_server.Command.{
  Report, admin_exists, admin_created, user_created, Terminal, is_admin_row, CommandError, Setting,
  Startup, start, create_admin, init_admin, run_init, ready_to_serve, UserFlags, run_create_user,
}

abbrev pub has_admin : Db → Bool
has_admin d = any is_admin_row d.users

any-without_secrets :
    (us : List User) → any is_admin_row (map without_secrets us) ≡ any is_admin_row us
any-without_secrets [] = refl
any-without_secrets (u ∷ us) = ground (arith, any-without_secrets us)

-- What a run of init that returned found and did.
pub data Inited (sys : System) (salt : ℕ) (id : Uuid) (t : Terminal) (v : World)
    : Report → World → Type 0 where
  stays : {w : World} → has_admin v.db ≡ true → Alike v w → Inited sys salt id t v admin_exists w
  joins :
      {w : World} (password hash : String)
      → has_admin v.db ≡ false
      → t.password ≡ some password
      → 8 ≤ byte_length (trim_space password)
      → sys.hash_password salt (trim_space password) ≡ some hash
      → Alike (joined_by v (new_user id v.now (trim_space t.username) hash role_admin)) w
      → Inited sys salt id t v (admin_created (trim_space t.username)) w

module _ (v : World) where
  Asks-list_users : Asks v list_users (λ us. any is_admin_row us ≡ has_admin v.db)
  unfolding list_users
  Asks-list_users = Gives-map_err v _ _ _ (
      Gives-weaken v _ _ _ (Asks-query v _) (λ us w k. (
        k.0,
        ap (any is_admin_row) k.1
            ∙ any-sort _ is_admin_row (map without_secrets v.db.users)
            ∙ any-without_secrets v.db.users,
      )))

  long_enough : (s : String) → ltb (byte_length s) 8 ≡ false → 8 ≤ byte_length s
  long_enough s h = ground arith

  Gives-create_admin :
      (sys : System) (salt : ℕ) (id : Uuid) (t : Terminal)
      → has_admin v.db ≡ false
      → Gives v (create_admin sys salt id t) (Inited sys salt id t v)
  unfolding create_admin
  Gives-create_admin sys salt id t none_yet = Gives-ask v _ _ _ _ (Asks-stop_if v _ _) λ _ named.
      Gives-ask v _ _ _ _ (Asks-or_stop v _ _) λ password given.
        Gives-ask v _ _ _ _ (Asks-stop_if v _ _) λ _ long.
          Gives-ask v _ _ _ _ (Asks-or_stop v _ _) λ confirmed again.
            Gives-ask v _ _ _ _ (Asks-stop_if v _ _) λ _ same.
              Gives-ask v _ _ _ _ (Asks-or_stop v _ _) λ hash hashed.
                Gives-change v _ _ _ _
                  (Gives-map_err v _ _ _
                    (Gives-create_user v id (trim_space t.username) hash role_admin))
                  λ _ u did. Gives-pure u _ _ (λ w s.
                    joins password hash none_yet given (long_enough _ long) hashed
                      (rw (sym did.0) s))

  Gives-init_admin :
      (sys : System) (salt : ℕ) (id : Uuid) (t : Terminal)
      → Gives v (init_admin sys salt id t) (Inited sys salt id t v)
  unfolding init_admin
  Gives-init_admin sys salt id t =
      Gives-ask v _ _ _ _ (Gives-map_err v _ _ _ Asks-list_users) λ us counted.
        Gives-if v (any is_admin_row us) _ _ _
          (λ found. Gives-pure v _ _ (λ w s. stays (sym counted ∙ found) s))
          (λ missing. Gives-create_admin sys salt id t (sym counted ∙ missing))

  Gives-run_init :
      (e : Setting) (sys : System) (salt : ℕ) (id : Uuid) (t : Terminal)
      → Gives v (run_init e sys salt id t) (Inited sys salt id t v)
  unfolding run_init
  Gives-run_init e sys salt id t = Gives-ask v _ _ _ _ (Asks-stop_if v _ _) λ _ set.
      Gives-ask v _ _ _ _ (Asks-stop_if v _ _) λ _ migrated.
        Gives-ask v _ _ _ _ (Asks-stop_if v _ _) λ _ connected. Gives-init_admin sys salt id t

-- Whenever runInit returns, either there was an admin and nothing has changed, or there was none and the
-- tables differ by one new admin with the trimmed name and a hash of the trimmed password, which has at least
-- eight bytes.
pub run_init-Inited :
    (e : Setting) (sys : System) (salt : ℕ) (id : Uuid) (t : Terminal) (v : World)
    → Returned (Inited sys salt id t v) (run_init e sys salt id t v)
run_init-Inited e sys salt id t v = (Gives-run_init v e sys salt id t).at v (Alike-refl v)

Inited-has_admin :
    {sys : System} {salt : ℕ} {id : Uuid} {t : Terminal} {v : World} (r : Report) (w : World)
    → Inited sys salt id t v r w
    → has_admin w.db ≡ true
unfolding new_user
Inited-has_admin r w (stays found s) = rw s.db found
Inited-has_admin {v = v} r w (joins password hash missing given long hashed s) =
    rw (s.db, any-append is_admin_row v.db.users) (ground arith)

-- Where there is an admin, init changes nothing.
init_admin-db :
    (sys : System) (salt : ℕ) (id : Uuid) (t : Terminal) (w : World)
    → has_admin w.db ≡ true
    → (after (init_admin sys salt id t w)).db ≡ w.db
unfolding init_admin list_users ◌>>=◌ map_err query exec pure
init_admin-db sys salt id t w h =
    let listed =
      any-sort (ascending (λ (u : User). u.created_at) (λ (u v : User). w.db.ties 0 u.id v.id))
        is_admin_row (map without_secrets w.db.users) in
    elim (Bool-cases (is_lost w.faults)) [
      | inl lost ↦ rw lost refl
      | inr kept ↦ rw (kept, listed, any-without_secrets w.db.users, h) refl
    ]

stop_if-db :
    {E A : Type 0} (b : Bool) (e : E) (m : M E A) (w : World)
    → (after (m w)).db ≡ w.db
    → (after ((stop_if b e >> m) w)).db ≡ w.db
unfolding ◌>>=◌ stop_if
stop_if-db true e m w h = refl
stop_if-db false e m w h = h

run_init-db :
    (e : Setting) (sys : System) (salt : ℕ) (id : Uuid) (t : Terminal) (w : World)
    → has_admin w.db ≡ true
    → (after (run_init e sys salt id t w)).db ≡ w.db
unfolding run_init
run_init-db e sys salt id t w h =
    stop_if-db _ _ _ w (stop_if-db _ _ _ w (stop_if-db _ _ _ w (init_admin-db sys salt id t w h)))

returned-has_admin :
    (set : Setting) (sys : System) (salt : ℕ) (id : Uuid) (t : Terminal) (v w : World) (r : Report)
    → run_init set sys salt id t v ≡ ok r w
    → has_admin w.db ≡ true
returned-has_admin set sys salt id t v w r e =
    Inited-has_admin r w
      (subst (λ o. Returned (Inited sys salt id t v) o) e (run_init-Inited set sys salt id t v))

-- With an admin, serve begins.
has_admin-ready :
    (w : World)
    → has_admin w.db ≡ true
    → ready_to_serve true (undisturbed w) ≡ ok tt (undisturbed w)
unfolding ready_to_serve ◌>>=◌ map_err query exec pure stop_if
has_admin-ready w h = rw h refl

-- Once runInit has returned, serve finds the database initialized, unless a call is lost, and no further run of init
-- changes the tables, whatever the terminal gives and whichever call is lost, as long as the users are as the
-- first run left them.
pub run_init-once :
    (set set' : Setting) (sys : System) (salt salt' : ℕ) (id id' : Uuid) (t t' : Terminal)
    (v w x : World) (r : Report)
    → run_init set sys salt id t v ≡ ok r w
    → x.db.users ≡ w.db.users
    → (ready_to_serve true (undisturbed x) ≡ ok tt (undisturbed x))
      × ((after (run_init set' sys salt' id' t' x)).db ≡ x.db)
run_init-once set set' sys salt salt' id id' t t' v w x r e same =
    let h = ap (any is_admin_row) same ∙ returned-has_admin set sys salt id t v w r e in
    (has_admin-ready x h, run_init-db set' sys salt' id' t' x h)

-- Checks that stop both, where one side has one more that a later one of the other side implies.
Agrees-checks :
    {E F A B : Type 0} (L : World → World → Type 0) (r : IsReflexive L) (R : A → B → Type 0)
    (no_name no_password no_role short unknown : Bool) (e e' e'' : E) (f f' f'' : F) (m : M E A)
    (n : M F B)
    → (no_role ≡ true → unknown ≡ true)
    → Agrees L R m n
    → Agrees L R
        (stop_if (no_name || no_password) e >> (stop_if short e' >> (stop_if unknown e'' >> m)))
        (stop_if (no_name || no_password || no_role) f
          >> (stop_if short f' >> (stop_if unknown f'' >> n)))
unfolding ◌>>=◌ stop_if
Agrees-checks L r R true p o s u e e' e'' f f' f'' m n h k = record { at = λ w. r.same w }
Agrees-checks L r R false true o s u e e' e'' f f' f'' m n h k = record { at = λ w. r.same w }
Agrees-checks L r R false false true true u e e' e'' f f' f'' m n h k = record {
  at = λ w. r.same w;
}
Agrees-checks L r R false false true false u e e' e'' f f' f'' m n h k =
    rw (h refl) (record { at = λ w. r.same w })
Agrees-checks L r R false false false true u e e' e'' f f' f'' m n h k = record {
  at = λ w. r.same w;
}
Agrees-checks L r R false false false false true e e' e'' f f' f'' m n h k = record {
  at = λ w. r.same w;
}
Agrees-checks L r R false false false false false e e' e'' f f' f'' m n h k = record {
  at = λ w. k.at w;
}

-- The body of CreateUser that flags stand for.
abbrev pub body_of : UserFlags → UserBody
body_of f = record { username = f.username; password = f.password; role = f.role }

abbrev pub SameUser : Report → Response → Type 0
SameUser (user_created u) r = r ≡ json 201 (user u)
SameUser o r = ⊥

no_role-unknown :
    (s : String)
    → (s == "") ≡ true
    → not (s == role_admin || s == role_mod || s == role_user) ≡ true
no_role-unknown s h = rw ((eq_iff s "").0 h) refl

-- The world outside is as the command needs it.
abbrev pub started : Config → Startup
started c = record { configuration = loaded c; connected = true }

Agrees-start :
    {F A B : Type 0} (L : World → World → Type 0) (R : A → B → Type 0) (c : Config)
    (m : M CommandError A) (n : M F B)
    → Agrees L R m n
    → Agrees L R (start (started c) >> m) n
unfolding start ◌>>=◌ pure stop_if
Agrees-start L R c m n h = record { at = λ w. h.at w }

course :
    (c : Config) (sys : System) (salt : ℕ) (id : Uuid) (f : UserFlags)
    → trim_space f.username ≡ f.username
    → Agrees Alike SameUser
        (run_create_user (started c) sys salt id f)
        (create_account sys salt id (some (body_of f)))
unfolding run_create_user create_account
course c sys salt id f trimmed =
    let L = Alike in
    let r = Alike-IsReflexive in
    Agrees-met L SameUser _ _ _ _ (
      rw trimmed (
        Agrees-checks L r SameUser (f.username == "") (f.password == "") (f.role == "") _ _ _ _ _ _
          _ _ _ _ (no_role-unknown f.role)
          (Agrees-start L SameUser c _ _ (
            Agrees-then L SameUser _ _ _ _ (Agrees-or_stop L r _ _ _) λ hash.
              Agrees-then L SameUser _ _ _ _ (Agrees-map_err L r _ _ _)
                λ u. Agrees-pure L r SameUser _ _ refl))))

-- create-user and CreateUser take the same course, for flags whose name has no space around it and where the
-- configuration is loaded and the database connected: from every world,
-- whichever call is lost, both add the user, in the same world, or both stop with the same tables.
pub run_create_user-create_account :
    (c : Config) (sys : System) (salt : ℕ) (id : Uuid) (f : UserFlags) (w : World)
    → trim_space f.username ≡ f.username
    → Match Alike SameUser
        (run_create_user (started c) sys salt id f w)
        (create_account sys salt id (some (body_of f)) w)
run_create_user-create_account c sys salt id f w trimmed = (course c sys salt id f trimmed).at w

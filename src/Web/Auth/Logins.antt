-- ===== src/Web/Auth/Logins.antt =====
-- internal/handler/web/handler.go beside internal/handler/api/auth.go: loginSubmit and Login.
use mathlib.Core.Option
use anime_request_server.Prelude.{
  ℕ, String, ◌≡◌, refl, sym, ap, ◌∙◌, fun_ext, Bool, true, false, not, ◌||◌, Bool-cases, inl, inr,
  Option, none, some, ◌==◌, arith, if◌then◌else◌, eq_iff,
}
use anime_request_server.Text.{trim_space}
use anime_request_server.Ratelimit.{
  LoginLimiter, IpAttempts, is_banned, mark_notified, notify_entry, store,
}
use anime_request_server.Models.{Uuid, User}
use anime_request_server.Server.{System, World, M, pure, stop, ◌>>=◌, ◌>>◌, reads, stop_if}
use anime_request_server.Server.Agrees.{
  Match, Agrees, IsReflexive, Agrees-pure, Agrees-stop, Agrees-stop_if, Agrees-reads, Agrees-if,
  Agrees-then, Agrees-map_err, Agrees-met, Agrees-passed,
}
use anime_request_server.Api.Response.{Response}
use anime_request_server.Api.Auth.{
  LoginBody, refuse_banned, notify, reject, check_user, check_totp, with_limiter, login, teapot,
}
use anime_request_server.Web.{Answer}
use anime_request_server.Web.Auth.{
  banned_page, reject_login, check_login, check_second_factor, login_submit,
}
use anime_request_server.Web.Auth.Agreement.{SameCookie, open_session-start_session}

-- A record without its notice.
abbrev unnoticed : IpAttempts → IpAttempts
unnoticed e = record e { notified_of_ban = false }

-- The limiter without the notices: all that bans depend on.
abbrev pub without_notices : LoginLimiter → LoginLimiter
without_notices l = record l { attempts = λ ip. Option.map unnoticed (l.attempts ip) }

-- Two worlds that differ at most in whom the API has told of a ban, and in calls still to be lost.
pub record AlikeButNotices (u v : World) : Type 0 where
  pub db : u.db ≡ v.db
  pub now : u.now ≡ v.now
  pub limiter : without_notices u.limiter ≡ without_notices v.limiter

AlikeButNotices-IsReflexive : IsReflexive AlikeButNotices
AlikeButNotices-IsReflexive = record {
  same = λ w. record { db = refl; now = refl; limiter = refl };
}

notify_entry-unnoticed :
    (o : Option IpAttempts) → Option.map unnoticed (notify_entry o) ≡ Option.map unnoticed o
unfolding notify_entry
notify_entry-unnoticed none = refl
notify_entry-unnoticed (some e) = ground arith

without_notices-mark_notified :
    (l : LoginLimiter) (ip : String) → without_notices (mark_notified l ip) ≡ without_notices l
unfolding mark_notified
without_notices-mark_notified l ip =
    rw
      (fun_ext
        {f = λ a. Option.map unnoticed (store l.attempts ip (notify_entry (l.attempts ip)) a)}
        {g = λ a. Option.map unnoticed (l.attempts a)} λ a. at_address a)
      refl
  where
    at_address :
        (a : String)
        → Option.map unnoticed (store l.attempts ip (notify_entry (l.attempts ip)) a)
          ≡ Option.map unnoticed (l.attempts a)
    at_address a = elim (Bool-cases (ip == a)) [
      | inl e ↦ rw e (
          notify_entry-unnoticed (l.attempts ip)
          ∙ ap (λ x. Option.map unnoticed (l.attempts x)) ((eq_iff ip a).0 e))
      | inr e ↦ rw e refl
    ]

module _ (sys : System) (ip : String) where
  abbrev L : World → World → Type 0
  L = AlikeButNotices

  noticed : (w : World) → L w (record w { limiter = mark_notified w.limiter ip })
  noticed w = record {
    db = refl;
    now = refl;
    limiter = sym (without_notices-mark_notified w.limiter ip);
  }

  Agrees-notify : {A B : Type 0} (R : A → B → Type 0) → Agrees L R (stop banned_page) (notify ip)
  unfolding notify with_limiter stop ◌>>=◌
  Agrees-notify R = record { at = λ w. noticed w }

  -- The check of a ban at the head, then the rest.
  Agrees-ban_check :
      {A B : Type 0} (R : A → B → Type 0) (m : M Answer A) (n : M Response B)
      → Agrees L R m n
      → Agrees L R
          (reads (λ w. (is_banned w.limiter w.now ip).0) >>= (λ b. stop_if b banned_page >> m))
          (refuse_banned ip >> n)
  unfolding refuse_banned notify with_limiter stop pure reads stop_if ◌>>=◌
  Agrees-ban_check R m n h = record { at = λ w. by_ban w (is_banned w.limiter w.now ip) }
    where
      by_ban :
          (w : World) (b : Bool × Bool)
          → Match L R
              ((stop_if b.0 banned_page >> m) w)
              (((if b.0 then (if b.1 then stop teapot else notify ip) else pure tt) >> n) w)
      by_ban w (false, told) = h.at w
      by_ban w (true, false) = noticed w
      by_ban w (true, true) = record { db = refl; now = refl; limiter = refl }

  Agrees-with_limiter :
      {A : Type 0} (f : ℕ → LoginLimiter → LoginLimiter × A)
      → Agrees {E = Answer} {F = Response} L ◌≡◌ (with_limiter f) (with_limiter f)
  unfolding with_limiter
  Agrees-with_limiter f = record { at = λ w. (refl, refl) }

  reject_login-reject :
      {A B : Type 0} (R : A → B → Type 0) → Agrees L R (reject_login {A = A} ip) (reject {A = B} ip)
  unfolding reject_login reject
  reject_login-reject R = Agrees-then L R _ _ _ _ (Agrees-with_limiter _) λ now_banned.
      Agrees-if L AlikeButNotices-IsReflexive R now_banned _ _ _ _ (λ _. Agrees-notify R)
        (λ _. Agrees-stop L AlikeButNotices-IsReflexive R _ _)

  check_login-check_user :
      (password : String) (found : Option User)
      → Agrees L ◌≡◌ (check_login sys ip password found) (check_user sys ip password found)
  unfolding check_login check_user
  check_login-check_user password none = reject_login-reject ◌≡◌
  check_login-check_user password (some u) =
      Agrees-if L AlikeButNotices-IsReflexive ◌≡◌ (sys.check_password u.password_hash password) _ _
        _ _ (λ _. Agrees-pure L AlikeButNotices-IsReflexive ◌≡◌ u u refl)
        (λ _. reject_login-reject ◌≡◌)

  check_second_factor-check_totp :
      (u : User) (code : String)
      → Agrees L ◌≡◌ (check_second_factor sys u code) (check_totp sys u code)
  unfolding check_second_factor check_totp
  check_second_factor-check_totp u code =
      let r = AlikeButNotices-IsReflexive in
      Agrees-if L r ◌≡◌ (not u.totp_enabled) _ _ _ _ (λ _. Agrees-pure L r ◌≡◌ tt tt refl)
        λ _.
          Agrees-if L r ◌≡◌ (code == "") _ _ _ _ (λ _. Agrees-stop L r ◌≡◌ _ _)
            λ _. Agrees-then L ◌≡◌ _ _ _ _ (Agrees-reads L r _) λ now. Agrees-stop_if L r _ _ _

  Agrees-login :
      (b : LoginBody) (id : Uuid) (token : Option String)
      → (trim_space b.username == "" || b.password == "") ≡ false
      → Agrees L SameCookie (login_submit sys ip b id token) (login sys ip (some b) id token)
  unfolding login_submit login
  Agrees-login b id token full =
      let r = AlikeButNotices-IsReflexive in
      let S = SameCookie in
      Agrees-ban_check S _ _ (
        Agrees-met L S _ _ _ _ (
          Agrees-passed L S _ _ _ _ full (
            Agrees-then L S _ _ _ _ (Agrees-map_err L r _ _ _) λ found.
              Agrees-then L S _ _ _ _ (check_login-check_user b.password found) λ u.
                Agrees-then L S _ _ _ _ (Agrees-stop_if L r _ _ _) λ _.
                  Agrees-then L S _ _ _ _ (check_second_factor-check_totp u b.totp_code) λ _.
                    Agrees-then L S _ _ _ _ (open_session-start_session L r sys id token u.id) λ t.
                      Agrees-then L S _ _ _ _ (Agrees-with_limiter _)
                        λ _. Agrees-pure L r S _ _ refl)))

-- loginSubmit and Login take the same course, where the name and the password are not empty: from every
-- world, whichever call is lost, both let the user in, in the same world and with the same cookie, or
-- neither does, and the tables are the same, and so is the limiter but for whom the API has told of
-- a ban.
pub login_submit-login :
    (sys : System) (ip : String) (b : LoginBody) (id : Uuid) (token : Option String) (w : World)
    → (trim_space b.username == "" || b.password == "") ≡ false
    → Match AlikeButNotices SameCookie
        (login_submit sys ip b id token w)
        (login sys ip (some b) id token w)
login_submit-login sys ip b id token w full = (Agrees-login sys ip b id token full).at w

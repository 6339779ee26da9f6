-- ===== src/Api/Calls/Checks.antt =====
-- internal/handler/api: the checks of the handlers, and the queries, as invariants of the tables.
use anime_request_server.Prelude.{
  Bool-cases, inl, inr, ltb, ◌^◌, ℕ, String, Option, none, some, List, [], ◌∷◌,
}
use anime_request_server.Ratelimit.{LoginLimiter}
use anime_request_server.Models.{User, AnimeRequest}
use anime_request_server.Database.Tables.{Db}
use anime_request_server.Server.{System}
use anime_request_server.Server.Keeps.{
  Keeps, EffectKeeps, Keeps-pure, Keeps-map_err, Keeps-exec, Keeps-bind, Keeps-or_stop,
  Keeps-stop_if, keeps_rules,
}
use anime_request_server.Repository.Requests.Select.{
  offset_of, RequestFilter, load_for_multiple, select_page, list,
}
use anime_request_server.Api.Auth.{
  with_limiter, notify, refuse_banned, reject, check_user, check_totp,
}
use anime_request_server.Api.Requests.Fields.{
  CreateBody, alt_field, status_field, category_field, url_field, ids_field, details_of,
  name_update, alt_update,
}
use anime_request_server.Api.Admin.{role_field}

select_page-kept :
    (P : Db → Type 0) (f : RequestFilter) (d : Db) → P d → EffectKeeps P (select_page f d)
unfolding select_page
select_page-kept P f d h = elim (Bool-cases (ltb (offset_of f) (2 ^ 63))) [
  | inl e ↦ rw e h
  | inr e ↦ rw e tt
]

module _ {P : Db → Type 0} where
  pub with_limiter-Keeps :
      {E A : Type 0} (f : ℕ → LoginLimiter → LoginLimiter × A) → Keeps {E = E} P (with_limiter f)
  unfolding with_limiter
  with_limiter-Keeps f = record { at = λ w h. h }

  pub notify-Keeps : {A : Type 0} (ip : String) → Keeps {A = A} P (notify ip)
  unfolding notify
  notify-Keeps ip = search (keeps_rules, with_limiter-Keeps)

  pub refuse_banned-Keeps : (ip : String) → Keeps P (refuse_banned ip)
  unfolding refuse_banned
  refuse_banned-Keeps ip = search (keeps_rules, notify-Keeps)

  pub reject-Keeps : {A : Type 0} (ip : String) → Keeps {A = A} P (reject ip)
  unfolding reject
  reject-Keeps ip = search (keeps_rules, with_limiter-Keeps, notify-Keeps)

  pub check_user-Keeps :
      (sys : System) (ip password : String) (o : Option User)
      → Keeps P (check_user sys ip password o)
  unfolding check_user
  check_user-Keeps sys ip password none = reject-Keeps ip
  check_user-Keeps sys ip password (some u) = search (keeps_rules, reject-Keeps)

  pub check_totp-Keeps : (sys : System) (u : User) (code : String) → Keeps P (check_totp sys u code)
  unfolding check_totp
  check_totp-Keeps sys u code = search keeps_rules depth 12

  pub alt_field-Keeps :
      (sys : System) (name : String) (o : Option String) → Keeps P (alt_field sys name o)
  unfolding alt_field
  alt_field-Keeps sys name none = Keeps-pure _
  alt_field-Keeps sys name (some s) = search keeps_rules

  pub status_field-Keeps : (o : Option String) → Keeps P (status_field o)
  unfolding status_field
  status_field-Keeps none = Keeps-pure _
  status_field-Keeps (some s) = search keeps_rules

  pub category_field-Keeps : (o : Option String) → Keeps P (category_field o)
  unfolding category_field
  category_field-Keeps none = Keeps-pure _
  category_field-Keeps (some s) = search keeps_rules

  pub url_field-Keeps : (sys : System) (o : Option String) → Keeps P (url_field sys o)
  unfolding url_field
  url_field-Keeps sys none = Keeps-pure _
  url_field-Keeps sys (some s) = search keeps_rules

  pub ids_field-Keeps : (sys : System) (ss : List String) → Keeps P (ids_field sys ss)
  unfolding ids_field
  ids_field-Keeps sys [] = Keeps-pure _
  ids_field-Keeps sys (s ∷ ss) =
      Keeps-bind _ _ (Keeps-or_stop _ _)
        (λ id. Keeps-bind _ _ (ids_field-Keeps sys ss) (λ ids. Keeps-pure _))

  pub details_of-Keeps :
      (sys : System) (user : User) (name : String) (b : CreateBody)
      → Keeps P (details_of sys user name b)
  unfolding details_of
  details_of-Keeps sys user name b =
      search
        (
          keeps_rules,
          alt_field-Keeps sys,
          status_field-Keeps,
          url_field-Keeps sys,
          ids_field-Keeps sys,
        )
        depth 12

  pub name_update-Keeps : (o : Option String) → Keeps P (name_update o)
  unfolding name_update
  name_update-Keeps none = Keeps-pure _
  name_update-Keeps (some s) = search keeps_rules

  pub alt_update-Keeps : (sys : System) (name o : Option String) → Keeps P (alt_update sys name o)
  unfolding alt_update
  alt_update-Keeps sys name none = Keeps-pure _
  alt_update-Keeps sys name (some s) = search keeps_rules

  pub role_field-Keeps : (o : Option String) → Keeps P (role_field o)
  role_field-Keeps none = Keeps-pure _
  role_field-Keeps (some s) = Keeps-stop_if _ _

  pub load_for_multiple-Keeps : (rs : List AnimeRequest) → Keeps P (load_for_multiple rs)
  unfolding load_for_multiple
  load_for_multiple-Keeps [] = Keeps-pure _
  load_for_multiple-Keeps (r ∷ rs) = search keeps_rules

  pub list-Keeps : (f : RequestFilter) → Keeps P (list f)
  unfolding list
  list-Keeps f = Keeps-bind _ _ (search keeps_rules) λ total.
      Keeps-bind _ _ (Keeps-map_err _ _ (Keeps-exec _ (λ now d h. select_page-kept P _ d h)))
        λ page. Keeps-bind _ _ (load_for_multiple-Keeps page) (λ rs. Keeps-pure _)

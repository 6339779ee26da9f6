-- ===== src/Api/Router/Ranks.antt =====
-- The guards of both routers: from which rank on they let a request through, and what they answer.
use anime_request_server.Prelude.{
  ℕ, ◌≤◌, ◌<◌, ◌≡◌, refl, Bool-cases, inl, inr, String, List, [], ◌∷◌, none, some, ◌==◌,
  if◌then◌else◌, arith,
}
use anime_request_server.Models.{role_admin, role_mod}
use anime_request_server.Api.Response.{Response, error}
use anime_request_server.Middleware.{
  Context, Refusal, allowed, refused_with, is_api, json_error, redirect_to_login, forbidden_page,
  require_auth, require_role,
}
use anime_request_server.Api.Router.{Guard, needs_session, staff, admins, pass_guards}

-- The ranks: 0 for nobody, 1 for a user, 2 for a mod, 3 for an admin.
abbrev pub role_rank : String → ℕ
role_rank role = if role == role_admin then 3 else if role == role_mod then 2 else 1

abbrev pub rank : Context → ℕ
rank none = 0
rank (some (s, u)) = role_rank u.role

abbrev pub refusal : Context → Response
refusal none = error 401 "authentication required"
refusal (some c) = error 403 "insufficient permissions"

-- As JSON under /api/, elsewhere as a page.
abbrev pub refusal_on : String → Context → Refusal
refusal_on path none = if is_api path then json_error (refusal none) else redirect_to_login
refusal_on path (some c) = if is_api path then json_error (refusal (some c)) else forbidden_page

abbrev pub IsRanked : ℕ → List Guard → String → Context → Type 0
IsRanked least gs path c =
    (least ≤ rank c → pass_guards gs path c ≡ allowed c)
    × (rank c < least → pass_guards gs path c ≡ refused_with (refusal_on path c))

pub open-IsRanked : (path : String) (c : Context) → IsRanked 0 [] path c
unfolding pass_guards
open-IsRanked path c = ((λ h. refl), (λ h. absurd (omega (arith, h))))

pub session-IsRanked : (path : String) (c : Context) → IsRanked 1 (needs_session ∷ []) path c
unfolding pass_guards require_auth
session-IsRanked path none = ((λ h. absurd (omega (arith, h))), (λ h. refl))
session-IsRanked path (some (s, u)) = ((λ h. refl), (λ h. absurd (ground arith)))

pub staff-IsRanked : (path : String) (c : Context) → IsRanked 2 (needs_session ∷ staff ∷ []) path c
unfolding pass_guards require_auth require_role
staff-IsRanked path none = ((λ h. absurd (omega (arith, h))), (λ h. refl))
staff-IsRanked path (some (s, u)) = elim (Bool-cases (u.role == role_admin)) [
  | inl a ↦ ((λ h. rw a refl), (λ h. absurd (ground arith)))
  | inr a ↦ elim (Bool-cases (u.role == role_mod)) [
    | inl m ↦ ((λ h. rw (a, m) refl), (λ h. absurd (ground arith)))
    | inr m ↦ ((λ h. absurd (ground arith)), (λ h. rw (a, m) refl))
  ]
]

pub admins-IsRanked :
    (path : String) (c : Context) → IsRanked 3 (needs_session ∷ admins ∷ []) path c
unfolding pass_guards require_auth require_role
admins-IsRanked path none = ((λ h. absurd (omega (arith, h))), (λ h. refl))
admins-IsRanked path (some (s, u)) = elim (Bool-cases (u.role == role_admin)) [
  | inl a ↦ ((λ h. rw a refl), (λ h. absurd (ground arith)))
  | inr a ↦ ((λ h. absurd (ground arith)), (λ h. rw a refl))
]

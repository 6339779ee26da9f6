-- ===== src/Web/Auth/Agreement.antt =====
-- internal/handler/web/handler.go beside internal/handler/api/auth.go: redeemInviteSubmit and RedeemInvite.
use anime_request_server.Prelude.{ℕ, String, ◌≡◌, refl, Option, none, some}
use anime_request_server.Models.{Uuid, InviteCode}
use anime_request_server.Server.{System, World}
use anime_request_server.Server.Agrees.{
  Match, Agrees, IsReflexive, Agrees-met, Agrees-pure, Agrees-stop_if, Agrees-or_stop, Agrees-reads,
  Agrees-then, Agrees-map_err,
}
use anime_request_server.Server.Returns.{Alike, Alike-refl}
use anime_request_server.Api.Response.{Response}
use anime_request_server.Api.Auth.{
  RedeemBody, check_invite, finish_redeem, start_session, redeem_invite,
}
use anime_request_server.Web.{Answer, redirect_with}
use anime_request_server.Web.Auth.{check_code, open_session, redeem_invite_submit}

-- Both set the same cookie, or none.
abbrev pub SameCookie : Answer → Response → Type 0
SameCookie (redirect_with c path) r = r.cookie ≡ some c
SameCookie a r = r.cookie ≡ none

abbrev pub Alike-IsReflexive : IsReflexive Alike
Alike-IsReflexive = record { same = Alike-refl }

module _ (L : World → World → Type 0) (r : IsReflexive L) where
  check_code-check_invite :
      (found : Option InviteCode) → Agrees L ◌≡◌ (check_code found) (check_invite found)
  unfolding check_code check_invite
  check_code-check_invite found = Agrees-then L ◌≡◌ _ _ _ _ (Agrees-or_stop L r found _ _) λ c.
      Agrees-then L ◌≡◌ _ _ _ _ (Agrees-stop_if L r _ _ _) λ _.
        Agrees-then L ◌≡◌ _ _ _ _ (Agrees-reads L r _) λ now.
          Agrees-then L ◌≡◌ _ _ _ _ (Agrees-stop_if L r _ _ _) λ _. Agrees-pure L r ◌≡◌ c c refl

  pub open_session-start_session :
      (sys : System) (id : Uuid) (token : Option String) (user : Uuid)
      → Agrees L ◌≡◌ (open_session sys id token user) (start_session sys id token user)
  unfolding open_session start_session
  open_session-start_session sys id token user =
      Agrees-then L ◌≡◌ _ _ _ _ (Agrees-or_stop L r token _ _) λ t.
        Agrees-then L ◌≡◌ _ _ _ _ (Agrees-reads L r _) λ now.
          Agrees-then L ◌≡◌ _ _ _ _ (Agrees-map_err L r _ _ _) λ _. Agrees-pure L r ◌≡◌ t t refl

Agrees-redeem_invite :
    (sys : System) (salt : ℕ) (user_id session_id : Uuid) (token : Option String) (b : RedeemBody)
    → Agrees Alike SameCookie
        (redeem_invite_submit sys salt user_id session_id token b)
        (redeem_invite sys salt user_id session_id token (some b))
unfolding redeem_invite_submit redeem_invite finish_redeem
Agrees-redeem_invite sys salt user_id session_id token b =
    let L = Alike in
    let r = Alike-IsReflexive in
    Agrees-met L SameCookie _ _ _ _ (
      Agrees-then L SameCookie _ _ _ _ (Agrees-stop_if L r _ _ _) λ _.
        Agrees-then L SameCookie _ _ _ _ (Agrees-stop_if L r _ _ _) λ _.
          Agrees-then L SameCookie _ _ _ _ (Agrees-map_err L r _ _ _) λ found.
            Agrees-then L SameCookie _ _ _ _ (check_code-check_invite L r found) λ c.
              Agrees-then L SameCookie _ _ _ _ (Agrees-or_stop L r _ _ _) λ hash.
                Agrees-then L SameCookie _ _ _ _ (Agrees-map_err L r _ _ _) λ user.
                  Agrees-then L SameCookie _ _ _ _ (Agrees-map_err L r _ _ _) λ _.
                    Agrees-then L SameCookie _ _ _ _
                      (open_session-start_session L r sys session_id token user_id)
                      λ t. Agrees-pure L r SameCookie _ _ refl)

-- redeemInviteSubmit and RedeemInvite take the same course: from every world, whichever call is lost, both
-- return, in the same world and with the same cookie, or both stop with the same tables.
pub redeem_invite_submit-redeem_invite :
    (sys : System) (salt : ℕ) (user_id session_id : Uuid) (token : Option String) (b : RedeemBody)
    (w : World)
    → Match Alike SameCookie
        (redeem_invite_submit sys salt user_id session_id token b w)
        (redeem_invite sys salt user_id session_id token (some b) w)
redeem_invite_submit-redeem_invite sys salt user_id session_id token b w =
    (Agrees-redeem_invite sys salt user_id session_id token b).at w

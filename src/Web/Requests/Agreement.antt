-- ===== src/Web/Requests/Agreement.antt =====
-- internal/handler/web/handler.go beside internal/handler/api/requests.go: requestNewSubmit and Create.
use anime_request_server.Prelude.{
  ℕ, String, ◌≡◌, refl, Bool, true, false, Option, none, some, List, [], ◌∷◌, ◌==◌, if◌then◌else◌,
  Bool-cases, inl, inr,
}
use anime_request_server.Text.{trim_space, equal_fold}
use anime_request_server.Text.Lines.{split}
use anime_request_server.Models.{Uuid, User, is_mod_or_admin, is_valid_status, category_batch_add}
use anime_request_server.Server.{
  System, World, Outcome, ok, err, M, pure, stop, ◌>>=◌, map_err, or_stop, stop_if, query, exec,
  is_lost, as_error,
}
use anime_request_server.Server.Returns.{Alike}
use anime_request_server.Server.Agrees.{
  Match, Agrees, Agrees-pure, Agrees-stop_if, Agrees-if, Agrees-then, Agrees-map_err, Agrees-met,
  Agrees-passed,
}
use anime_request_server.Repository.Errors.{RepoError}
use anime_request_server.Repository.Administration.{list_destinations}
use anime_request_server.Api.Response.{Response}
use anime_request_server.Api.Requests.{create_request, finish_create, batch_create}
use anime_request_server.Api.Requests.Fields.{
  CreateBody, Details, details_of, alt_field, status_field, url_field, ids_field, is_valid_http_url,
}
use anime_request_server.Web.{Answer, catch, handled}
use anime_request_server.Web.Auth.Agreement.{SameCookie, Alike-IsReflexive}
use anime_request_server.Web.Requests.{
  NewForm, render_new_request, refuse_new, refuse_if, or_refuse, new_alt_name, new_status, new_url,
  new_destinations, new_details, finish_new, request_new_submit, batch_add_submit,
}

-- The body of the API that a form stands for.
abbrev pub body_of : NewForm → CreateBody
body_of form = record {
  name = form.name;
  category = form.category;
  alt_name = some form.alt_name;
  status = if form.status == "" then none else some form.status;
  anidb_url = some (trim_space form.anidb_url);
  server_destination_ids = form.server_destination_ids;
}

-- Stops in a world like the one it began in.
abbrev Stops : {A : Type 0} → World → Outcome Answer A → Type 0
Stops w (ok a u) = ⊥
Stops w (err e u) = Alike u w

module _ (sys : System) (collated : String → String → Bool) (user : User) (form : NewForm) where
  refuse_new-Stops :
      (A : Type 0) (text : String) (w : World)
      → Stops w (refuse_new sys collated user form {A = A} text w)
  unfolding refuse_new render_new_request list_destinations query exec pure stop map_err ◌>>=◌
  refuse_new-Stops A text w = elim (Bool-cases (is_mod_or_admin user)) [
    | inl e ↦ elim (Bool-cases (is_lost w.faults)) [
      | inl f ↦ rw (e, f) (record { db = refl; limiter = refl; now = refl })
      | inr f ↦ rw (e, f) (record { db = refl; limiter = refl; now = refl })
    ]
    | inr e ↦ rw e (record { db = refl; limiter = refl; now = refl })
  ]

  stopped-Match :
      {A B : Type 0} (R : A → B → Type 0) (w : World) (o : Outcome Answer A) (e : Response)
      → Stops w o
      → Match Alike R o (err e w)
  stopped-Match R w (ok a u) e h = h
  stopped-Match R w (err f u) e h = h

  -- The form again stands against a response with an error.
  Agrees-refuse_new :
      {A B : Type 0} (R : A → B → Type 0) (text : String) (e : Response)
      → Agrees Alike R (refuse_new sys collated user form {A = A} text) (stop {A = B} e)
  unfolding stop
  Agrees-refuse_new {A} R text e = record {
    at = λ w.
        stopped-Match R w (refuse_new sys collated user form text w) e (refuse_new-Stops A text w);
  }

  abbrev L : World → World → Type 0
  L = Alike

  Agrees-refuse_if :
      (b : Bool) (text : String) (e : Response)
      → Agrees L ◌≡◌ (refuse_if sys collated user form b text) (stop_if b e)
  unfolding refuse_if stop_if pure stop
  Agrees-refuse_if true text e = Agrees-refuse_new ◌≡◌ text e
  Agrees-refuse_if false text e = Agrees-pure L Alike-IsReflexive ◌≡◌ tt tt refl

  Agrees-or_refuse :
      {A : Type 0} (o : Option A) (text : String) (e : Response)
      → Agrees L ◌≡◌ (or_refuse sys collated user form o text) (or_stop o e)
  unfolding or_refuse or_stop pure stop
  Agrees-or_refuse none text e = Agrees-refuse_new ◌≡◌ text e
  Agrees-or_refuse (some a) text e = Agrees-pure L Alike-IsReflexive ◌≡◌ a a refl

  Agrees-catch :
      {A : Type 0} (m : M RepoError A) (texts : RepoError → String) (f : RepoError → Response)
      → Agrees L ◌≡◌ (catch m (λ e. refuse_new sys collated user form (texts e))) (map_err f m)
  unfolding catch map_err stop
  Agrees-catch {A} m texts f = record { at = λ w. by_outcome (m w) }
    where
      by_outcome :
          (o : Outcome RepoError A)
          → Match L ◌≡◌
              (handled o (λ e. refuse_new sys collated user form (texts e)))
              (as_error f o)
      by_outcome (ok a w) = (refl, refl)
      by_outcome (err e w) = (Agrees-refuse_new ◌≡◌ (texts e) (f e)).at w

  new_alt_name-alt_field :
      (name : String)
      → Agrees L ◌≡◌
          (new_alt_name sys collated user form name (trim_space form.alt_name))
          (alt_field sys name (some form.alt_name))
  unfolding new_alt_name alt_field
  new_alt_name-alt_field name =
      let r = Alike-IsReflexive in
      Agrees-if L r ◌≡◌ (trim_space form.alt_name == "") _ _ _ _ (λ _. Agrees-pure L r ◌≡◌ _ _ refl)
        λ _.
          Agrees-if L r ◌≡◌ (equal_fold sys.unicode (trim_space form.alt_name) name) _ _ _ _
            (λ _. Agrees-refuse_new ◌≡◌ _ _) (λ _. Agrees-pure L r ◌≡◌ _ _ refl)

  new_status-status_field :
      (s : String)
      → Agrees L ◌≡◌
          (new_status sys collated user form s)
          (status_field (if s == "" then none else some s))
  unfolding new_status status_field
  new_status-status_field s = elim (Bool-cases (s == "")) [
    | inl e ↦ rw e (Agrees-pure L Alike-IsReflexive ◌≡◌ none none refl)
    | inr e ↦ rw e (
        Agrees-if L Alike-IsReflexive ◌≡◌ (is_valid_status s) _ _ _ _
          (λ _. Agrees-pure L Alike-IsReflexive ◌≡◌ _ _ refl) (λ _. Agrees-refuse_new ◌≡◌ _ _))
  ]

  new_url-url_field :
      (s : String) → Agrees L ◌≡◌ (new_url sys collated user form s) (url_field sys (some s))
  unfolding new_url url_field
  new_url-url_field s =
      let r = Alike-IsReflexive in
      Agrees-if L r ◌≡◌ (s == "") _ _ _ _ (λ _. Agrees-pure L r ◌≡◌ _ _ refl)
        λ _.
          Agrees-if L r ◌≡◌ (is_valid_http_url sys s) _ _ _ _ (λ _. Agrees-pure L r ◌≡◌ _ _ refl)
            (λ _. Agrees-refuse_new ◌≡◌ _ _)

  new_destinations-ids_field :
      (texts : List String)
      → Agrees L ◌≡◌ (new_destinations sys collated user form texts) (ids_field sys texts)
  unfolding new_destinations ids_field
  new_destinations-ids_field [] = Agrees-pure L Alike-IsReflexive ◌≡◌ [] [] refl
  new_destinations-ids_field (s ∷ ss) =
      Agrees-then L ◌≡◌ _ _ _ _ (Agrees-or_refuse (sys.parse_uuid s) _ _) λ id.
        Agrees-then L ◌≡◌ _ _ _ _ (new_destinations-ids_field ss)
          λ ids. Agrees-pure L Alike-IsReflexive ◌≡◌ _ _ refl

  new_details-details_of :
      (name : String)
      → Agrees L ◌≡◌
          (new_details sys collated user form name)
          (details_of sys user name (body_of form))
  unfolding new_details details_of
  new_details-details_of name =
      let r = Alike-IsReflexive in
      Agrees-if L r ◌≡◌ (is_mod_or_admin user) _ _ _ _
        (λ _. Agrees-then L ◌≡◌ _ _ _ _ (new_alt_name-alt_field name) λ alt_name.
          Agrees-then L ◌≡◌ _ _ _ _ (new_status-status_field form.status) λ status.
            Agrees-then L ◌≡◌ _ _ _ _ (new_url-url_field (trim_space form.anidb_url)) λ url.
              Agrees-then L ◌≡◌ _ _ _ _ (new_destinations-ids_field form.server_destination_ids)
                λ ids. Agrees-pure L r ◌≡◌ _ _ refl)
        (λ _. Agrees-pure L r ◌≡◌ _ _ refl)

  finish_new-finish_create :
      (id : Uuid) (name category : String) (d : Details)
      → Agrees L SameCookie
          (finish_new sys collated user form id name category d)
          (finish_create sys user id name category d)
  unfolding finish_new finish_create anime_request_server.Api.Response.json
  finish_new-finish_create id name category d =
      let r = Alike-IsReflexive in
      let S = SameCookie in
      Agrees-then L S _ _ _ _ (Agrees-map_err L r _ _ _) λ dup.
        Agrees-then L S _ _ _ _ (Agrees-refuse_if dup _ _)
          λ _. Agrees-then L S _ _ _ _ (Agrees-catch _ _ _) λ created. Agrees-pure L r S _ _ refl

  Agrees-create_request :
      (id : Uuid)
      → Agrees L SameCookie
          (request_new_submit sys collated user form id)
          (create_request sys user id (some (body_of form)))
  unfolding request_new_submit create_request
  Agrees-create_request id =
      let S = SameCookie in
      Agrees-met L S _ _ _ _ (
        Agrees-then L S _ _ _ _ (Agrees-refuse_if _ _ _) λ _.
          Agrees-then L S _ _ _ _ (Agrees-refuse_if _ _ _) λ _.
            Agrees-then L S _ _ _ _ (new_details-details_of (trim_space form.name))
              λ d. finish_new-finish_create id (trim_space form.name) form.category d)

  -- requestNewSubmit and Create take the same course, for the body that the form stands for: from every
  -- world, whichever call is lost, both add the request, in the same world, or both stop with the same
  -- tables; for mods and admins, and for other users.
  pub request_new_submit-create_request :
      (id : Uuid) (w : World)
      → Match Alike SameCookie
          (request_new_submit sys collated user form id w)
          (create_request sys user id (some (body_of form)) w)
  request_new_submit-create_request id w = (Agrees-create_request id).at w

-- batchAddSubmit and BatchCreate take the same course, for the lines of the text.
Agrees-batch_create :
    (sys : System) (user : User) (ids : ℕ → Uuid) (text : String)
    → Agrees Alike SameCookie (batch_add_submit sys user ids text) (
        batch_create sys user ids
          (some (record { names = split b'\n' text; category = category_batch_add })))
unfolding batch_add_submit batch_create anime_request_server.Api.Response.json
Agrees-batch_create sys user ids text =
    let L = Alike in
    let r = Alike-IsReflexive in
    let S = SameCookie in
    Agrees-then L S _ _ _ _ (Agrees-stop_if L r _ _ _) λ _. Agrees-met L S _ _ _ _ (
      Agrees-passed L S _ _ _ _ refl (
        Agrees-then L S _ _ _ _ (Agrees-stop_if L r _ _ _)
          λ _. Agrees-then L S _ _ _ _ (Agrees-map_err L r _ _ _) λ n. Agrees-pure L r S _ _ refl))

pub batch_add_submit-batch_create :
    (sys : System) (user : User) (ids : ℕ → Uuid) (text : String) (w : World)
    → Match Alike SameCookie (batch_add_submit sys user ids text w) (
        batch_create sys user ids
          (some (record { names = split b'\n' text; category = category_batch_add }))
          w)
batch_add_submit-batch_create sys user ids text w = (Agrees-batch_create sys user ids text).at w

-- ===== src/Web.antt =====
-- internal/handler/web: the HTML pages. Modelled are the answers: which template is rendered with which data
-- (the user of the context, which every page gets too, is left out), where a redirect leads, and the cookie.
-- The templates are assets, and rendering them does not fail here.
pub mod Admin
pub mod Auth
pub mod Edit
pub mod Requests
pub mod Routes
use anime_request_server.Prelude.{ℕ, String, Option, List}
use anime_request_server.Models.{User, AnimeRequest, Note, ServerDestination, InviteCode}
use anime_request_server.Server.{Outcome, ok, err, M}
use anime_request_server.Api.Response.{Cookie}

-- What the form for a new request shows again: to everyone, and to mods and admins.
pub record Entered : Type 0 where
  pub name : String
  pub category : String

pub record EnteredDetails : Type 0 where
  pub destinations : List ServerDestination
  pub alt_name : String
  pub status : String
  pub anidb_url : String
  pub selected : List String

-- A template with its data. An error is `none` where the source leaves it out.
pub data Page : Type 0 where
  login_page : Option String → Page
  redeem_page : Option String → Page
  requests_page :
      List AnimeRequest → (total page total_pages : ℕ) → (category status : String) → Page
  -- without an error the text is empty
  new_page : Entered → Option EnteredDetails → (error : String) → Page
  batch_page : (error names : Option String) → (added : Option ℕ) → Page
  detail_page : AnimeRequest → List ServerDestination → List Note → Page
  users_page : List User → Page
  user_page : User → Page
  invites_page : List InviteCode → (new_code : Option String) → Page
  destinations_page : List ServerDestination → (error : Option String) → Page

-- http.Error, renderPage, and http.Redirect: to a path, to the page of a request, or with a cookie.
pub data Answer : Type 0 where
  failure : ℕ → String → Answer
  shows : Page → Answer
  redirect : String → Answer
  to_request : String → Answer
  redirect_with : Cookie → String → Answer

-- A page or a form: it answers at its end, or stops early with an answer.
abbrev pub Form : Type 0
Form = M Answer Answer

abbrev pub handled : {E A : Type 0} → Outcome E A → (E → M Answer A) → Outcome Answer A
handled (ok a w) h = ok a w
handled (err e w) h = h e w

-- An error of a call, answered by a step.
unfoldable pub catch : {E A : Type 0} → M E A → (E → M Answer A) → M Answer A
catch m h w = handled (m w) h

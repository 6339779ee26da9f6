-- ===== src/Models.antt =====
-- internal/models/models.go. Role, Category and Status are named string types there, so they are texts
-- here. Identifiers are UUIDs: 128-bit numbers, `uuid.Nil` is zero.
use anime_request_server.Prelude.{ℕ, String, Bool, ◌||◌, Option, List, [], ◌∷◌, ◌==◌, any}

abbrev pub Uuid : Type 0
Uuid = ℕ

abbrev pub nil_uuid : Uuid
nil_uuid = 0

abbrev pub role_admin : String
role_admin = "admin"

abbrev pub role_mod : String
role_mod = "mod"

abbrev pub role_user : String
role_user = "user"

pub record User : Type 0 where
  pub id : Uuid
  pub username : String
  pub email : Option String
  pub password_hash : String
  pub totp_secret : Option String
  pub totp_enabled : Bool
  pub role : String
  pub can_batch_add : Bool
  pub disabled : Bool
  pub notes_blocked : Bool
  pub created_at : ℕ
  pub updated_at : ℕ

unfoldable pub is_admin : User → Bool
is_admin u = u.role == role_admin

unfoldable pub is_mod_or_admin : User → Bool
is_mod_or_admin u = u.role == role_admin || u.role == role_mod

unfoldable pub is_mod : User → Bool
is_mod u = u.role == role_mod

unfoldable pub is_user : User → Bool
is_user u = u.role == role_user

abbrev pub category_current_future : String
category_current_future = "current_future"

abbrev pub category_finished_airing : String
category_finished_airing = "finished_airing"

abbrev pub category_batch_add : String
category_batch_add = "batch_add"

abbrev pub status_new : String
status_new = "new"

-- A server destination that is assigned to a request.
pub record ServerDestinationMapping : Type 0 where
  pub id : Uuid
  pub name : String
  pub added_at : ℕ

pub record AnimeRequest : Type 0 where
  pub id : Uuid
  pub name : String
  pub alt_name : Option String
  pub category : String
  pub status : String
  pub requested_by : Uuid
  pub requested_by_username : String
  pub server_destinations : List ServerDestinationMapping
  pub anidb_url : Option String
  pub created_at : ℕ
  pub updated_at : ℕ

pub record Note : Type 0 where
  pub id : Uuid
  pub request_id : Uuid
  pub author_id : Uuid
  pub author_username : String
  pub body : String
  pub created_at : ℕ

pub record ServerDestination : Type 0 where
  pub id : Uuid
  pub name : String
  pub created_by : Uuid
  pub created_at : ℕ

pub record InviteCode : Type 0 where
  pub id : Uuid
  pub code : String
  pub created_by : Uuid
  pub used_by : Option Uuid
  pub expires_at : Option ℕ
  pub created_at : ℕ

pub record Session : Type 0 where
  pub id : Uuid
  pub user_id : Uuid
  pub token_hash : String
  pub expires_at : ℕ
  pub created_at : ℕ

unfoldable pub valid_categories : List String
valid_categories = category_current_future ∷ category_finished_airing ∷ category_batch_add ∷ []

unfoldable pub valid_statuses : List String
valid_statuses = status_new ∷ "done" ∷ "need_to_get" ∷ "acquiring" ∷ "processing" ∷ "syncing" ∷ []

unfoldable pub is_valid_category : String → Bool
unfolding valid_categories
is_valid_category c = any (λ v. v == c) valid_categories

unfoldable pub is_valid_status : String → Bool
unfolding valid_statuses
is_valid_status s = any (λ v. v == s) valid_statuses

-- ===== src/Database/Tables.antt =====
-- internal/database/migrations: the tables after the last migration. Rows stand in insertion order, which no answer of
-- PostgreSQL depends on: where an ORDER BY leaves the order of two rows open, `ties` says which comes first, for the
-- statement and the identifiers of the rows.
use anime_request_server.Prelude.{ℕ, String, Option, List, [], Bool, true}
use anime_request_server.Models.{Uuid, User, ServerDestination, InviteCode, Session}

-- anime_requests
pub record RequestRow : Type 0 where
  pub id : Uuid
  pub name : String
  pub alt_name : Option String
  pub category : String
  pub status : String
  pub requested_by : Uuid
  pub anidb_url : Option String
  pub created_at : ℕ
  pub updated_at : ℕ

-- request_server_destinations
pub record LinkRow : Type 0 where
  pub request_id : Uuid
  pub server_destination_id : Uuid
  pub added_at : ℕ

-- request_notes
pub record NoteRow : Type 0 where
  pub id : Uuid
  pub request_id : Uuid
  pub author_id : Uuid
  pub body : String
  pub created_at : ℕ

pub record Db : Type 0 where
  pub users : List User
  pub sessions : List Session
  pub server_destinations : List ServerDestination
  pub requests : List RequestRow
  pub links : List LinkRow
  pub notes : List NoteRow
  pub invite_codes : List InviteCode
  pub ties : (statement : ℕ) → Uuid → Uuid → Bool

abbrev pub empty_db : Db
empty_db = record {
  users = [];
  sessions = [];
  server_destinations = [];
  requests = [];
  links = [];
  notes = [];
  invite_codes = [];
  ties = λ statement a b. true;
}

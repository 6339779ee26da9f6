-- ===== src/Repository/Board.antt =====
-- What internal/repository/requests.go promises of requests, their destinations and their notes, without the tables:
-- functions of identifiers, in which no row stands before another, and one change for each statement that
-- writes, with the condition under which it is taken.
mod Examples
pub mod Calls
pub mod Free
pub mod Implements
pub mod Refinement
use anime_request_server.Prelude.{
  ℕ, String, ◌≡◌, Bool, true, false, not, ◌&&◌, ◌||◌, Option, none, some, same_id, if◌then◌else◌,
  ◌==◌, any, is_some,
}
use anime_request_server.Models.{Uuid, User, ServerDestination}
use anime_request_server.Database.Tables.{Db, RequestRow, LinkRow, NoteRow}
use anime_request_server.Database.Lookup.{at, kept}
use anime_request_server.Database.Sound.{request_id}
use anime_request_server.Database.Requests.{
  has_user, has_destination, is_link, insert_request, update_request, delete_request, insert_link,
  delete_link, insert_note, delete_note,
}
use anime_request_server.Database.Requests.Valid.{same_alt, valid_row}
use anime_request_server.Server.{Effect, done, refuse}
use anime_request_server.Repository.Requests.{RequestSets, apply_sets}

pub record Board : Type 0 where
  pub user : Uuid → Bool
  pub destination : Uuid → Bool
  pub request : Uuid → Option RequestRow
  pub assigned : Uuid → Uuid → Bool
  pub note : Uuid → Option NoteRow

abbrev pub note_id : NoteRow → Uuid
note_id n = n.id

-- What the tables stand for.
abbrev pub view : Db → Board
view d = record {
  user = λ id. any (λ (u : User). same_id u.id id) d.users;
  destination = λ id. any (λ (s : ServerDestination). same_id s.id id) d.server_destinations;
  request = λ id. at request_id id d.requests;
  assigned = λ request dest.
      any (λ (l : LinkRow). same_id l.request_id request && same_id l.server_destination_id dest)
        d.links;
  note = λ id. at note_id id d.notes;
}

-- The statements of Create, Update, Delete, AddDestination, RemoveDestination, AddNote and DeleteNote.
pub data Move : Type 0 where
  create : RequestRow → Move
  change : Uuid → RequestSets → Move
  erase : Uuid → Move
  assign : (request dest : Uuid) → Move
  unassign : (request dest : Uuid) → Move
  write : NoteRow → Move
  strike : (request note : Uuid) → Move

abbrev pub accepted : {A : Type 0} → Effect A → Option Db
accepted (done a e) = some e
accepted (refuse x) = none

-- What a statement makes of the tables, at NOW(); `none` where a constraint refuses it.
unfoldable pub perform : (String → String) → ℕ → Move → Db → Option Db
unfolding insert_request update_request delete_request insert_link delete_link insert_note
    delete_note apply_sets
perform lower now (create r) d = accepted (insert_request lower r d)
perform lower now (change id sets) d = accepted (update_request lower id (apply_sets now sets) d)
perform lower now (erase id) d = accepted (delete_request id d)
perform lower now (assign request dest) d = accepted (insert_link now request dest d)
perform lower now (unassign request dest) d = accepted (delete_link request dest d)
perform lower now (write n) d = accepted (insert_note n d)
perform lower now (strike request note) d = accepted (delete_note request note d)

-- What Update promises of a row: a column without a new value stays, an empty alternate name becomes NULL, and the
-- time of the change is noted.
abbrev pub new_text : Option String → String → String
new_text none old = old
new_text (some new) old = new

abbrev pub new_alt : Option String → Option String → Option String
new_alt none old = old
new_alt (some new) old = if new == "" then none else some new

abbrev pub new_url : Option String → Option String → Option String
new_url none old = old
new_url (some new) old = some new

abbrev pub edited : ℕ → RequestSets → RequestRow → RequestRow
edited now s r = record {
  id = r.id;
  name = new_text s.name r.name;
  alt_name = new_alt s.alt_name r.alt_name;
  category = new_text s.category r.category;
  status = new_text s.status r.status;
  requested_by = r.requested_by;
  anidb_url = new_url s.anidb_url r.anidb_url;
  created_at = r.created_at;
  updated_at = now;
}

module _ (lower : String → String) where
  -- No other request has the name or the alternate name.
  abbrev pub IsFree : RequestRow → Board → Type 0
  IsFree r b =
      (id : Uuid) (q : RequestRow)
      → b.request id ≡ some q
      → same_id id r.id ≡ false
      → ((lower r.name == lower q.name) ≡ false) × (same_alt lower r.alt_name q.alt_name ≡ false)

  -- The condition under which a change is taken.
  abbrev pub Admits : ℕ → Move → Board → Type 0
  Admits now (create r) b =
      (valid_row lower r ≡ true)
      × (b.request r.id ≡ none)
      × IsFree r b
      × (b.user r.requested_by ≡ true)
  Admits now (change id sets) b =
      (old : RequestRow)
      → b.request id ≡ some old
      → (valid_row lower (edited now sets old) ≡ true) × IsFree (edited now sets old) b
  Admits now (erase id) b = Unit {0}
  Admits now (assign request dest) b =
      (is_some (b.request request) ≡ true) × (b.destination dest ≡ true)
  Admits now (unassign request dest) b = Unit {0}
  Admits now (write n) b =
      (b.note n.id ≡ none) × (is_some (b.request n.request_id) ≡ true) × (b.user n.author_id ≡ true)
  Admits now (strike request note) b = Unit {0}

abbrev pub changed : (RequestRow → RequestRow) → Option RequestRow → Option RequestRow
changed set none = none
changed set (some r) = some (set r)

-- The change.
abbrev pub moved : ℕ → Move → Board → Board
moved now (create r) b = record b { request = λ q. if same_id r.id q then some r else b.request q }
moved now (change id sets) b = record b {
  request = λ q. if same_id id q then changed (edited now sets) (b.request id) else b.request q;
}
moved now (erase id) b = record b {
  request = λ q. if same_id q id then none else b.request q;
  assigned = λ r s. not (same_id r id) && b.assigned r s;
  note = λ n. kept (λ (m : NoteRow). not (same_id m.request_id id)) (b.note n);
}
moved now (assign request dest) b = record b {
  assigned = λ r s. b.assigned r s || same_id request r && same_id dest s;
}
moved now (unassign request dest) b = record b {
  assigned = λ r s. not (same_id request r && same_id dest s) && b.assigned r s;
}
moved now (write n) b = record b { note = λ q. if same_id n.id q then some n else b.note q }
moved now (strike request note) b = record b {
  note = λ q.
      kept (λ (m : NoteRow). not (same_id m.id note && same_id m.request_id request)) (b.note q);
}

-- ===== src/Database/Sound.antt =====
-- internal/database/migrations: when tables meet the constraints of the schema, table by table: identifiers and other
-- unique columns, CHECK constraints, and foreign keys.
pub mod Accounts
pub mod Requests
use anime_request_server.Prelude.{
  ℕ, String, ◌≡◌, refl, Bool, true, false, ◌&&◌, ◌||◌, Option, none, some, List, [], ◌∷◌, ◌++◌, map,
  arith, same_id, ◌==◌, if◌then◌else◌, any, any-append, filter, All, All-append, All-weaken,
}
use anime_request_server.Text.Laws.{eq_comm}
use anime_request_server.Models.{Uuid, User, Session, ServerDestination, InviteCode}
use anime_request_server.Database.Tables.{Db, RequestRow, LinkRow, NoteRow}
use anime_request_server.Database.Apart.{Apart}
use anime_request_server.Database.Requests.Valid.{same_alt, valid_row}

-- An identifier is one of a table.
module _ {A : Type 0} (key : A → Uuid) where
  abbrev pub is_known : List A → Uuid → Bool
  is_known xs id = any (λ x. same_id (key x) id) xs

  abbrev pub id_clash : A → A → Bool
  id_clash x y = same_id (key y) (key x)

  -- Whatever was known is known.
  abbrev pub Grows : List A → List A → Type 0
  Grows xs ys = (id : Uuid) → is_known xs id ≡ true → is_known ys id ≡ true

  pub Grows-append : (xs ys : List A) → Grows xs (xs ++ ys)
  Grows-append xs ys id h = rw (any-append (λ x. same_id (key x) id) xs ys, h) refl

  pub is_known-filter :
      (p : A → Bool) (xs : List A) (id : Uuid)
      → ((x : A) → same_id (key x) id ≡ true → p x ≡ true)
      → is_known xs id ≡ true
      → is_known (filter p xs) id ≡ true
  is_known-filter p [] id h k = k
  is_known-filter p (x ∷ xs) id h k = ground (arith, h x, is_known-filter p xs id h)

  pub is_known-map :
      (f : A → A) (xs : List A) (id : Uuid)
      → ((x : A) → key (f x) ≡ key x)
      → is_known (map f xs) id ≡ is_known xs id
  is_known-map f [] id h = refl
  is_known-map f (x ∷ xs) id h = rw (h x, is_known-map f xs id h) refl

pub id_clash_comm : {A : Type 0} (key : A → Uuid) (x y : A) → id_clash key x y ≡ id_clash key y x
id_clash_comm key x y = ground arith

abbrev pub text_clash : {A : Type 0} → (A → String) → A → A → Bool
text_clash text x y = text y == text x

pub text_clash_comm :
    {A : Type 0} (text : A → String) (x y : A) → text_clash text x y ≡ text_clash text y x
text_clash_comm text x y = eq_comm (text y) (text x)

abbrev pub user_id : User → Uuid
user_id u = u.id

abbrev pub destination_id : ServerDestination → Uuid
destination_id s = s.id

abbrev pub request_id : RequestRow → Uuid
request_id r = r.id

-- users_role_check
abbrev pub listed_role : String → Bool
listed_role r = r == "admin" || r == "mod" || r == "user"

-- users
pub record UsersSound (us : List User) : Type 0 where
  pub ids : Apart (id_clash user_id) us
  pub names : Apart (text_clash (λ (u : User). u.username)) us
  pub roles : All (λ (u : User). listed_role u.role ≡ true) us

-- sessions
pub record SessionsSound (us : List User) (ss : List Session) : Type 0 where
  pub ids : Apart (id_clash (λ (s : Session). s.id)) ss
  pub hashes : Apart (text_clash (λ (s : Session). s.token_hash)) ss
  pub owners : All (λ (s : Session). is_known user_id us s.user_id ≡ true) ss

-- server_destinations
pub record DestinationsSound (us : List User) (ds : List ServerDestination) : Type 0 where
  pub ids : Apart (id_clash destination_id) ds
  pub names : Apart (text_clash (λ (s : ServerDestination). s.name)) ds
  pub creators : All (λ (s : ServerDestination). is_known user_id us s.created_by ≡ true) ds

abbrev pub UserIsKnown : List User → Option Uuid → Type 0
UserIsKnown us none = Unit {0}
UserIsKnown us (some id) = is_known user_id us id ≡ true

-- invite_codes
pub record InvitesSound (us : List User) (cs : List InviteCode) : Type 0 where
  pub ids : Apart (id_clash (λ (c : InviteCode). c.id)) cs
  pub codes : Apart (text_clash (λ (c : InviteCode). c.code)) cs
  pub creators : All (λ (c : InviteCode). is_known user_id us c.created_by ≡ true) cs
  pub users : All (λ (c : InviteCode). UserIsKnown us c.used_by) cs

-- anime_requests
pub record RequestsSound (lower : String → String) (us : List User) (rs : List RequestRow)
    : Type 0 where
  pub ids : Apart (λ (r s : RequestRow). same_id r.id s.id) rs
  pub names : Apart (λ (r s : RequestRow). lower r.name == lower s.name) rs
  pub alts : Apart (λ (r s : RequestRow). same_alt lower r.alt_name s.alt_name) rs
  pub checks : All (λ (r : RequestRow). valid_row lower r ≡ true) rs
  pub requesters : All (λ (r : RequestRow). is_known user_id us r.requested_by ≡ true) rs

abbrev pub link_clash : LinkRow → LinkRow → Bool
link_clash l m =
    same_id m.request_id l.request_id && same_id m.server_destination_id l.server_destination_id

pub link_clash_comm : (l m : LinkRow) → link_clash l m ≡ link_clash m l
link_clash_comm l m = ground arith

-- request_server_destinations
pub record LinksSound (rs : List RequestRow) (ds : List ServerDestination) (ls : List LinkRow)
    : Type 0 where
  pub pairs : Apart link_clash ls
  pub requests : All (λ (l : LinkRow). is_known request_id rs l.request_id ≡ true) ls
  pub destinations :
      All (λ (l : LinkRow). is_known destination_id ds l.server_destination_id ≡ true) ls

-- request_notes
pub record NotesSound (us : List User) (rs : List RequestRow) (ns : List NoteRow) : Type 0 where
  pub ids : Apart (id_clash (λ (n : NoteRow). n.id)) ns
  pub requests : All (λ (n : NoteRow). is_known request_id rs n.request_id ≡ true) ns
  pub authors : All (λ (n : NoteRow). is_known user_id us n.author_id ≡ true) ns

pub record IsSound (lower : String → String) (d : Db) : Type 0 where
  pub users : UsersSound d.users
  pub sessions : SessionsSound d.users d.sessions
  pub destinations : DestinationsSound d.users d.server_destinations
  pub invites : InvitesSound d.users d.invite_codes
  pub requests : RequestsSound lower d.users d.requests
  pub links : LinksSound d.requests d.server_destinations d.links
  pub notes : NotesSound d.users d.requests d.notes

-- More users, with the other tables as they are.
module _ (us vs : List User) (more : Grows user_id us vs) where
  pub SessionsSound-Grows : (ss : List Session) → SessionsSound us ss → SessionsSound vs ss
  SessionsSound-Grows ss h = record {
    ids = h.ids;
    hashes = h.hashes;
    owners = All-weaken _ _ ss (λ s. more s.user_id) h.owners;
  }

  pub DestinationsSound-Grows :
      (ds : List ServerDestination) → DestinationsSound us ds → DestinationsSound vs ds
  DestinationsSound-Grows ds h = record {
    ids = h.ids;
    names = h.names;
    creators = All-weaken _ _ ds (λ s. more s.created_by) h.creators;
  }

  pub UserIsKnown-Grows : (o : Option Uuid) → UserIsKnown us o → UserIsKnown vs o
  UserIsKnown-Grows none h = tt
  UserIsKnown-Grows (some id) h = more id h

  pub InvitesSound-Grows : (cs : List InviteCode) → InvitesSound us cs → InvitesSound vs cs
  InvitesSound-Grows cs h = record {
    ids = h.ids;
    codes = h.codes;
    creators = All-weaken _ _ cs (λ c. more c.created_by) h.creators;
    users = All-weaken _ _ cs (λ c. UserIsKnown-Grows c.used_by) h.users;
  }

  pub RequestsSound-Grows :
      (lower : String → String) (rs : List RequestRow)
      → RequestsSound lower us rs
      → RequestsSound lower vs rs
  RequestsSound-Grows lower rs h = record {
    ids = h.ids;
    names = h.names;
    alts = h.alts;
    checks = h.checks;
    requesters = All-weaken _ _ rs (λ r. more r.requested_by) h.requesters;
  }

  pub NotesSound-Grows :
      (rs : List RequestRow) (ns : List NoteRow) → NotesSound us rs ns → NotesSound vs rs ns
  NotesSound-Grows rs ns h = record {
    ids = h.ids;
    requests = h.requests;
    authors = All-weaken _ _ ns (λ n. more n.author_id) h.authors;
  }

-- The users changed, and none left.
pub IsSound-users :
    (lower : String → String) (d : Db) (vs : List User)
    → Grows user_id d.users vs
    → UsersSound vs
    → IsSound lower d
    → IsSound lower (record d { users = vs })
IsSound-users lower d vs more sound h = record {
  users = sound;
  sessions = SessionsSound-Grows d.users vs more d.sessions h.sessions;
  destinations = DestinationsSound-Grows d.users vs more d.server_destinations h.destinations;
  invites = InvitesSound-Grows d.users vs more d.invite_codes h.invites;
  requests = RequestsSound-Grows d.users vs more lower d.requests h.requests;
  links = h.links;
  notes = NotesSound-Grows d.users vs more d.requests d.notes h.notes;
}

-- One table changed, or a table and those whose rows went with it.
module _ (lower : String → String) (d : Db) (h : IsSound lower d) where
  pub IsSound-sessions :
      (ss : List Session) → SessionsSound d.users ss → IsSound lower (record d { sessions = ss })
  IsSound-sessions ss k = record {
    users = h.users;
    sessions = k;
    destinations = h.destinations;
    invites = h.invites;
    requests = h.requests;
    links = h.links;
    notes = h.notes;
  }

  pub IsSound-invites :
      (cs : List InviteCode)
      → InvitesSound d.users cs
      → IsSound lower (record d { invite_codes = cs })
  IsSound-invites cs k = record {
    users = h.users;
    sessions = h.sessions;
    destinations = h.destinations;
    invites = k;
    requests = h.requests;
    links = h.links;
    notes = h.notes;
  }

  pub IsSound-destinations :
      (ds : List ServerDestination) (ls : List LinkRow)
      → DestinationsSound d.users ds
      → LinksSound d.requests ds ls
      → IsSound lower (record d { server_destinations = ds; links = ls })
  IsSound-destinations ds ls k l = record {
    users = h.users;
    sessions = h.sessions;
    destinations = k;
    invites = h.invites;
    requests = h.requests;
    links = l;
    notes = h.notes;
  }

  pub IsSound-requests :
      (rs : List RequestRow) (ls : List LinkRow) (ns : List NoteRow)
      → RequestsSound lower d.users rs
      → LinksSound rs d.server_destinations ls
      → NotesSound d.users rs ns
      → IsSound lower (record d { requests = rs; links = ls; notes = ns })
  IsSound-requests rs ls ns k l n = record {
    users = h.users;
    sessions = h.sessions;
    destinations = h.destinations;
    invites = h.invites;
    requests = k;
    links = l;
    notes = n;
  }

-- More requests or destinations, with the rows that name them as they are.
pub LinksSound-Grows :
    (rs qs : List RequestRow) (ds es : List ServerDestination) (ls : List LinkRow)
    → Grows request_id rs qs
    → Grows destination_id ds es
    → LinksSound rs ds ls
    → LinksSound qs es ls
LinksSound-Grows rs qs ds es ls more many h = record {
  pairs = h.pairs;
  requests = All-weaken _ _ ls (λ l. more l.request_id) h.requests;
  destinations = All-weaken _ _ ls (λ l. many l.server_destination_id) h.destinations;
}

pub NotesSound-requests :
    (us : List User) (rs qs : List RequestRow) (ns : List NoteRow)
    → Grows request_id rs qs
    → NotesSound us rs ns
    → NotesSound us qs ns
NotesSound-requests us rs qs ns more h = record {
  ids = h.ids;
  requests = All-weaken _ _ ns (λ n. more n.request_id) h.requests;
  authors = h.authors;
}

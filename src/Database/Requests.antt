-- ===== src/Database/Requests.antt =====
-- The effect of the statements on anime_requests, request_server_destinations and request_notes, with
-- the constraints of internal/database/migrations (001, 004, 006, 007, 008, 009) in the order in which
-- PostgreSQL checks them: CHECK constraints by name, then the unique indexes, then foreign keys. The texts
-- are ones that PostgreSQL stores and indexes; a call that it refuses for its texts is one of the lost calls of Server.
pub mod Names
pub mod Sort
pub mod Stable
pub mod Valid
use Sort.{sort}
use anime_request_server.Prelude.{
  ℕ, ◌+◌, String, Bool, true, false, not, ◌&&◌, Option, none, some, List, [], ◌∷◌, ◌++◌, map, leb,
  same_id, ◌==◌, if◌then◌else◌, any, filter, find, length, is_some, take, drop,
}
use mathlib.Core.Option
use anime_request_server.Models.{
  Uuid, User, AnimeRequest, ServerDestination, ServerDestinationMapping, Note, is_valid_category,
  is_valid_status,
}
use anime_request_server.Database.Tables.{Db, RequestRow, LinkRow, NoteRow}
use anime_request_server.Database.Apart.{replace, others}
use anime_request_server.Server.{PgError, Effect, done, refuse}

abbrev pub pg_error : String → String → PgError
pg_error code constraint = record { code = code; constraint = constraint }

abbrev pub request_id_clash : RequestRow → RequestRow → Bool
request_id_clash r s = same_id r.id s.id

abbrev pub has_request : Uuid → Db → Bool
has_request id d = any (λ (r : RequestRow). same_id r.id id) d.requests

abbrev pub has_user : Uuid → Db → Bool
has_user id d = any (λ (u : User). same_id u.id id) d.users

abbrev pub has_destination : Uuid → Db → Bool
has_destination id d = any (λ (s : ServerDestination). same_id s.id id) d.server_destinations

abbrev pub same_text? : Option String → Option String → Bool
same_text? none t = false
same_text? (some s) none = false
same_text? (some s) (some t) = s == t

module _ (lower : String → String) where
  -- idx_anime_requests_name_lower
  abbrev pub name_clash : RequestRow → RequestRow → Bool
  name_clash r s = lower r.name == lower s.name

  -- idx_anime_requests_alt_name_lower, partial: NULLs do not clash
  abbrev pub alt_clash : RequestRow → RequestRow → Bool
  alt_clash r s = same_text? (Option.map lower r.alt_name) (Option.map lower s.alt_name)

  -- chk_alt_name_differs, violated
  abbrev pub alt_is_name : RequestRow → Bool
  alt_is_name r = same_text? (Option.map lower r.alt_name) (some (lower r.name))

  unfoldable pub check_violation : RequestRow → Option PgError
  check_violation r =
      if not (is_valid_category r.category)
      then some (pg_error "23514" "anime_requests_category_check")
      else if not (is_valid_status r.status)
      then some (pg_error "23514" "anime_requests_status_check")
      else if alt_is_name r
      then some (pg_error "23514" "chk_alt_name_differs")
      else none

  -- The unique indexes, against the other rows.
  unfoldable pub unique_violation : List RequestRow → RequestRow → Option PgError
  unique_violation rows r =
      if any (request_id_clash r) rows
      then some (pg_error "23505" "anime_requests_pkey")
      else if any (name_clash r) rows
      then some (pg_error "23505" "idx_anime_requests_name_lower")
      else if any (alt_clash r) rows
      then some (pg_error "23505" "idx_anime_requests_alt_name_lower")
      else none

  abbrev pub refuse_or : {A : Type 0} → Option PgError → Effect A → Effect A
  refuse_or none e = e
  refuse_or (some v) e = refuse v

  abbrev pub put_request : {A : Type 0} → RequestRow → A → Db → Effect A
  put_request r a d =
      if has_user r.requested_by d
      then done a (record d { requests = d.requests ++ r ∷ [] })
      else refuse (pg_error "23503" "anime_requests_requested_by_fkey")

  -- INSERT INTO anime_requests
  unfoldable pub insert_request : RequestRow → Db → Effect (Unit {0})
  unfolding check_violation unique_violation
  insert_request r d =
      refuse_or (check_violation r) (refuse_or (unique_violation d.requests r) (put_request r tt d))

  -- INSERT … ON CONFLICT (LOWER(name)) DO NOTHING, which returns the rows affected. The index of the
  -- ON CONFLICT clause is looked at before the others.
  unfoldable pub insert_request_or_skip : RequestRow → Db → Effect ℕ
  unfolding check_violation unique_violation
  insert_request_or_skip r d = refuse_or (check_violation r) (
      if any (name_clash r) d.requests
      then done 0 d
      else refuse_or (unique_violation d.requests r) (put_request r 1 d))

  abbrev pub update_found :
      Uuid → (RequestRow → RequestRow) → Db → Option RequestRow → Effect (Unit {0})
  update_found id set d none = done tt d
  update_found id set d (some old) = refuse_or (check_violation (set old)) (
      refuse_or (unique_violation (others (λ (r : RequestRow). r.id) id d.requests) (set old)) (
        done tt
          (record d { requests = replace (λ (r : RequestRow). r.id) id (set old) d.requests })))

  -- UPDATE anime_requests SET … WHERE id = …, for the row as the SET list makes it.
  unfoldable pub update_request : Uuid → (RequestRow → RequestRow) → Db → Effect (Unit {0})
  unfolding check_violation unique_violation
  update_request id set d =
      update_found id set d (find (λ (r : RequestRow). same_id r.id id) d.requests)

-- DELETE FROM anime_requests WHERE id = …; links and notes go by ON DELETE CASCADE. Returns whether
-- a row was affected.
unfoldable pub delete_request : Uuid → Db → Effect Bool
delete_request id d = done (has_request id d) (record d {
  requests = filter (λ r. not (same_id r.id id)) d.requests;
  links = filter (λ l. not (same_id l.request_id id)) d.links;
  notes = filter (λ n. not (same_id n.request_id id)) d.notes;
})

abbrev pub is_link : Uuid → Uuid → LinkRow → Bool
is_link request dest l = same_id l.request_id request && same_id l.server_destination_id dest

-- INSERT INTO request_server_destinations … ON CONFLICT DO NOTHING
unfoldable pub insert_link : ℕ → Uuid → Uuid → Db → Effect (Unit {0})
insert_link now request dest d =
    if any (is_link request dest) d.links
    then done tt d
    else if not (has_request request d)
    then refuse (pg_error "23503" "request_server_destinations_request_id_fkey")
    else if not (has_destination dest d)
    then refuse (pg_error "23503" "request_server_destinations_server_destination_id_fkey")
    else done tt (record d {
      links =
          d.links
          ++ record { request_id = request; server_destination_id = dest; added_at = now } ∷ [];
    })

unfoldable pub delete_link : Uuid → Uuid → Db → Effect (Unit {0})
delete_link request dest d =
    done tt (record d { links = filter (λ l. not (is_link request dest l)) d.links })

-- INSERT INTO request_notes
unfoldable pub insert_note : NoteRow → Db → Effect (Unit {0})
insert_note n d =
    if any (λ (m : NoteRow). same_id m.id n.id) d.notes
    then refuse (pg_error "23505" "request_notes_pkey")
    else if not (has_request n.request_id d)
    then refuse (pg_error "23503" "request_notes_request_id_fkey")
    else if not (has_user n.author_id d)
    then refuse (pg_error "23503" "request_notes_author_id_fkey")
    else done tt (record d { notes = d.notes ++ n ∷ [] })

-- DELETE FROM request_notes WHERE id = … AND request_id = …
unfoldable pub delete_note : Uuid → Uuid → Db → Effect Bool
delete_note request note d =
    let hit = λ (n : NoteRow). same_id n.id note && same_id n.request_id request in
    done (any hit d.notes) (record d { notes = filter (λ n. not (hit n)) d.notes })

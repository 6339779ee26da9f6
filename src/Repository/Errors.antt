-- ===== src/Repository/Errors.antt =====
-- The errors that the repositories return. The handlers tell them apart by strings.Contains on the
-- message, so an error is its message here; what the driver says stands behind a `%w`, and `wrapped`
-- has the text before it.
use text.Mathlib.Text.{find?}
use anime_request_server.Prelude.{
  String, Bool, false, is_some, ◌==◌, ◌&&◌, ◌||◌, if◌then◌else◌, Option, none, some,
}
use anime_request_server.Server.{DbError, refused, lost}

pub data RepoError : Type 0 where
  message : String → RepoError
  wrapped : String → DbError → RepoError

-- strings.Contains(err.Error(), part), for the parts that the handlers look for. No message of the
-- driver that gets this far holds one of them.
unfoldable pub mentions : String → RepoError → Bool
mentions part (message m) = is_some (find? m part)
mentions part (wrapped m e) = is_some (find? m part)

abbrev pub name_exists : RepoError
name_exists = message "a request with this name already exists"

abbrev pub alt_must_differ : RepoError
alt_must_differ = message "alternate name must differ from the name"

abbrev pub no_destination : RepoError
no_destination = message "server destination does not exist"

-- mapRequestConstraintErr
unfoldable pub map_request_constraint_err : DbError → Option RepoError
map_request_constraint_err lost = none
map_request_constraint_err (refused e) =
    if e.code == "23505"
      && (e.constraint == "idx_anime_requests_name_lower"
          || e.constraint == "idx_anime_requests_alt_name_lower")
    then some name_exists
    else if e.code == "23514" && e.constraint == "chk_alt_name_differs"
    then some alt_must_differ
    else none

abbrev pub mapped_or : RepoError → Option RepoError → RepoError
mapped_or e none = e
mapped_or e (some f) = f

-- errors.As(err, &pgErr) && pgErr.Code == "23503"
abbrev pub is_foreign_key : DbError → Bool
is_foreign_key lost = false
is_foreign_key (refused e) = e.code == "23503"

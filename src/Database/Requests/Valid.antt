-- ===== src/Database/Requests/Valid.antt =====
-- internal/database/migrations, anime_requests: what the CHECK constraints and the indexes on names say of rows,
-- in the words of the schema.
use anime_request_server.Prelude.{
  String, ◌≡◌, refl, fun_ext, Bool, true, false, not, ◌&&◌, ◌||◌, Option, none, some, arith, ◌==◌,
}
use mathlib.Core.Option
use anime_request_server.Models.{
  valid_categories, valid_statuses, is_valid_category, is_valid_status,
}
use anime_request_server.Database.Tables.{RequestRow}
use anime_request_server.Database.Requests.{same_text?, alt_is_name, alt_clash, check_violation}

abbrev pub listed_category : String → Bool
listed_category c = "current_future" == c || "finished_airing" == c || "batch_add" == c

abbrev pub listed_status : String → Bool
listed_status s =
    "new" == s
    || "done" == s
    || "need_to_get" == s
    || "acquiring" == s
    || "processing" == s
    || "syncing" == s

or_false : (b : Bool) → (b || false) ≡ b
or_false true = refl
or_false false = refl

is_valid_category-listed : (c : String) → is_valid_category c ≡ listed_category c
unfolding is_valid_category valid_categories
is_valid_category-listed c = rw or_false (ground arith)

is_valid_status-listed : (s : String) → is_valid_status s ≡ listed_status s
unfolding is_valid_status valid_statuses
is_valid_status-listed s = rw or_false (ground arith)

module _ (lower : String → String) where
  -- Two alternate names that differ by case at most.
  abbrev pub same_alt : Option String → Option String → Bool
  same_alt none b = false
  same_alt (some a) none = false
  same_alt (some a) (some b) = lower a == lower b

  abbrev pub valid_row : RequestRow → Bool
  valid_row r =
      listed_category r.category
      && listed_status r.status
      && not (same_alt r.alt_name (some r.name))

  pub alt_clash-same_alt : (r s : RequestRow) → alt_clash lower r s ≡ same_alt r.alt_name s.alt_name
  alt_clash-same_alt r s = by_cases r.alt_name s.alt_name
    where
      by_cases :
          (a b : Option String)
          → same_text? (Option.map lower a) (Option.map lower b) ≡ same_alt a b
      by_cases none b = refl
      by_cases (some a) none = refl
      by_cases (some a) (some b) = refl

  pub alt_clashes : (alt_clash lower) ≡ (λ (r s : RequestRow). same_alt r.alt_name s.alt_name)
  alt_clashes = fun_ext λ r. fun_ext λ s. alt_clash-same_alt r s

  alt_is_name-same_alt : (r : RequestRow) → alt_is_name lower r ≡ same_alt r.alt_name (some r.name)
  alt_is_name-same_alt r = by_cases r.alt_name
    where
      by_cases :
          (a : Option String)
          → same_text? (Option.map lower a) (some (lower r.name)) ≡ same_alt a (some r.name)
      by_cases none = refl
      by_cases (some a) = refl

  -- The CHECK constraints let a row through exactly if it is valid.
  pub check_violation-valid_row :
      (r : RequestRow) → check_violation lower r ≡ none → valid_row r ≡ true
  unfolding check_violation
  check_violation-valid_row r h = ground (
    arith,
    alt_is_name-same_alt r,
    is_valid_category-listed r.category,
    is_valid_status-listed r.status,
  )

  pub valid_row-check_violation :
      (r : RequestRow) → valid_row r ≡ true → check_violation lower r ≡ none
  unfolding check_violation
  valid_row-check_violation r h = ground (
    arith,
    alt_is_name-same_alt r,
    is_valid_category-listed r.category,
    is_valid_status-listed r.status,
  )

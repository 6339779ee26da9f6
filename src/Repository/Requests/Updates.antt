-- ===== src/Repository/Requests/Updates.antt =====
-- internal/repository/requests.go: Update and the names, once NameInUse has said no to what it sets.
use mathlib.Core.Option
use anime_request_server.Prelude.{
  ℕ, String, ◌≡◌, refl, ◌⊎◌, inl, inr, Bool, true, false, Option, none, some, List, [], ◌∷◌, ◌++◌,
  arith, ◌==◌, same_id, any, find, All, any-weaken, Bool-cases,
}
use anime_request_server.Models.{Uuid}
use anime_request_server.Database.Tables.{Db, RequestRow}
use anime_request_server.Database.Apart.{others, Apart-others}
use anime_request_server.Database.Requests.{same_text?}
use anime_request_server.Database.Requests.Names.{
  row_id, cross_clash, cross_comm, update_request-NamesApart,
}
use anime_request_server.Server.{System}
use anime_request_server.Server.Ensures.{Ensures, Ensures-map_err, Ensures-exec}
use anime_request_server.Repository.Requests.{
  RequestSets, apply_sets, or_default, set_alt, updating, update, contains, lowered_candidates,
  uses_name, given_list, not_empty,
}
use anime_request_server.Repository.Requests.Names.{
  IsTrimmed, LowersAgree, NotUsed, Names, contains_cons, contains_left, contains_right,
  lowered_candidates-contains, uses_name-cross_clash,
}

All-others :
    (id : Uuid) (p : RequestRow → Bool) (rows : List RequestRow)
    → any p rows ≡ false
    → All (λ (r : RequestRow). (same_id r.id id ≡ false) × (p r ≡ false)) (others row_id id rows)
All-others id p [] h = tt
All-others id p (r ∷ rows) h = ground (arith, All-others id p rows)

module _ (lower : String → String) (names : List String) where
  name_part :
      (o alt : Option String) (old : String)
      → ((n : String) → o ≡ some n → contains names (lower n) ≡ true)
      → same_text? (Option.map lower alt) (some (lower old)) ≡ false
      → (contains names (lower (or_default o old)) ≡ true)
        ⊎ (same_text? (Option.map lower alt) (some (lower (or_default o old))) ≡ false)
  name_part none alt old h k = inr k
  name_part (some n) alt old h k = inl (h n refl)

  alt_part :
      (o old : Option String) (m : String)
      → ((a : String) → o ≡ some a → (a == "") ≡ false → contains names (lower a) ≡ true)
      → same_text? (Option.map lower old) (some m) ≡ false
      → (same_text? (Option.map lower (set_alt o old)) (some m) ≡ false)
        ⊎ ((a : String) × (set_alt o old ≡ some a) × (contains names (lower a) ≡ true))
  alt_part none old m h k = inl k
  alt_part (some a) old m h k = elim (Bool-cases (a == "")) [
    | inl e ↦ inl (rw e refl)
    | inr e ↦ inr (a, rw e refl, h a refl e)
  ]

listed_name :
    (o : Option String) (rest : List String) (n : String)
    → o ≡ some n
    → contains (given_list o ++ rest) n ≡ true
listed_name o rest n e = rw e (contains_left (n ∷ []) rest n (contains_cons n []))

listed_alt :
    (o : Option String) (first : List String) (a : String)
    → o ≡ some a
    → (a == "") ≡ false
    → contains (first ++ not_empty o) a ≡ true
listed_alt o first a e full = rw e (rw full (contains_right first (a ∷ []) a (contains_cons a [])))

module _ (sys : System) (agree : LowersAgree sys) (id : Uuid) (sets : RequestSets) where
  abbrev candidates : List String
  candidates = given_list sets.name ++ not_empty sets.alt_name

  apply_sets-Names :
      (d : Db) (now : ℕ) (old : RequestRow)
      → Names sys d
      → All IsTrimmed candidates
      → NotUsed sys id candidates d
      → find (λ r. same_id r.id id) d.requests ≡ some old
      → any (cross_clash sys.sql_lower (apply_sets now sets old)) (others row_id id d.requests)
        ≡ false
  unfolding apply_sets
  apply_sets-Names d now old v trimmed unused e =
      let names = lowered_candidates sys candidates in
      let listed = λ (c : String) (h : contains candidates c ≡ true).
        lowered_candidates-contains sys candidates c agree trimmed h in
      any-weaken
        (λ (r : RequestRow).
          (same_id r.id id ≡ false) × (uses_name sys.sql_lower id names r ≡ false))
        (cross_clash sys.sql_lower old) _ (others row_id id d.requests)
        (λ r h k.
          uses_name-cross_clash sys.sql_lower names id (apply_sets now sets old) r h.0
            (name_part sys.sql_lower names sets.name r.alt_name old.name
              (λ n e. listed n (listed_name sets.name _ n e)) (ground arith))
            (alt_part sys.sql_lower names sets.alt_name old.alt_name (sys.sql_lower r.name)
              (λ a e full. listed a (listed_alt sets.alt_name _ a e full)) (ground arith))
            h.1)
        (All-others id (uses_name sys.sql_lower id names) d.requests unused)
        (Apart-others (cross_clash sys.sql_lower) (cross_comm sys.sql_lower) row_id id d.requests
          old e v.cross)

  -- Update keeps the names apart where its candidates are not in use.
  pub update-ensures :
      All IsTrimmed candidates
      → Ensures
          (Names sys)
          (λ d. Names sys d × NotUsed sys id candidates d)
          (update sys id sets)
          (λ _. Names sys)
  unfolding update
  update-ensures trimmed =
      let P = λ (d : Db). Names sys d × NotUsed sys id candidates d in
      Ensures-map_err (Names sys) P updating _ _ (
        Ensures-exec (Names sys) P _ (λ _. Names sys) (λ d h. h.0)
          (λ now d h.
            update_request-NamesApart sys.sql_lower id (apply_sets now sets) d h.0
              (λ r. unfold apply_sets in refl)
              (λ old e. apply_sets-Names d now old h.0 trimmed h.1 e)))

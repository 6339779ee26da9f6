-- ===== src/Repository/Requests/Names.antt =====
-- internal/repository/requests.go: NameInUse, and what the writes do to the names once it has said no.
use mathlib.Core.Option
use anime_request_server.Prelude.{
  ℕ, String, ◌≡◌, refl, ◌⊎◌, inl, inr, true, false, Option, none, some, List, [], ◌∷◌, ◌++◌, arith,
  eq_iff, eq_refl, ◌==◌, same_id, if◌then◌else◌, any, All, any-weaken, any-append,
}
use anime_request_server.Text.{to_lower, trim_space}
use anime_request_server.Text.Laws.{trim_space_idem}
use anime_request_server.Models.{Uuid, nil_uuid, AnimeRequest}
use anime_request_server.Database.Tables.{Db, RequestRow}
use anime_request_server.Database.Requests.{same_text?, insert_link}
use anime_request_server.Database.Requests.Names.{
  RowsApart, NamesApart, cross_clash, insert_request-NamesApart,
}
use anime_request_server.Server.{System, pure, map_err, query}
use anime_request_server.Server.Keeps.{
  Keeps, Keeps-pure, Keeps-exec, Keeps-bind, Keeps-map_err, EffectKeeps, keeps_rules,
}
use anime_request_server.Server.Ensures.{
  Ensures, Anything, Ensures-pure, Ensures-bind, Ensures-map_err, Ensures-exec, Ensures-query,
  Ensures-transaction, Ensures-of-Keeps, Ensures-undone,
}
use anime_request_server.Repository.Errors.{RepoError, wrapped}
use anime_request_server.Repository.Requests.{
  new_row, creating, linking, link_all, create_with_details, contains, is_nil, lowered_candidates,
  given_list, alt_in, uses_name, name_in_use,
}
use anime_request_server.Repository.Requests.Select.{get_by_id, with_destinations}

-- A text as the handlers pass it: trimmed and not empty.
abbrev pub IsTrimmed : String → Type 0
IsTrimmed s = (trim_space s ≡ s) × ((s == "") ≡ false)

pub trim_space-IsTrimmed : (s : String) → (trim_space s == "") ≡ false → IsTrimmed (trim_space s)
trim_space-IsTrimmed s h = (trim_space_idem s, h)

-- strings.ToLower and SQL's LOWER agree.
abbrev pub LowersAgree : System → Type 0
LowersAgree sys = (s : String) → to_lower sys.unicode s ≡ sys.sql_lower s

pub contains_cons : (s : String) (names : List String) → contains (s ∷ names) s ≡ true
contains_cons s names = rw (eq_refl s) refl

pub contains_later :
    (s t : String) (names : List String) → contains names s ≡ true → contains (t ∷ names) s ≡ true
contains_later s t names h = ground arith

-- Every trimmed candidate is among the lowered ones.
pub lowered_candidates-contains :
    (sys : System) (cs : List String) (c : String)
    → LowersAgree sys
    → All IsTrimmed cs
    → contains cs c ≡ true
    → contains (lowered_candidates sys cs) (sys.sql_lower c) ≡ true
unfolding lowered_candidates
lowered_candidates-contains sys [] c agree h k = cc
lowered_candidates-contains sys (d ∷ cs) c agree ((same, full), h) k =
    rw (same, full, agree d)
      (ground (
        arith,
        eq_iff d c,
        eq_refl (sys.sql_lower c),
        lowered_candidates-contains sys cs c agree h,
      ))

module _ (lower : String → String) (names : List String) where
  alt_half :
      (o : Option String) (n : String)
      → (contains names n ≡ true) ⊎ (same_text? (Option.map lower o) (some n) ≡ false)
      → alt_in lower names o ≡ false
      → same_text? (Option.map lower o) (some n) ≡ false
  alt_half none n h k = refl
  alt_half (some a) n (inl c) k = ground (arith, eq_iff (lower a) n)
  alt_half (some a) n (inr e) k = e

  name_half :
      (o : Option String) (n : String)
      → (same_text? (Option.map lower o) (some n) ≡ false)
        ⊎ ((a : String) × (o ≡ some a) × (contains names (lower a) ≡ true))
      → contains names n ≡ false
      → same_text? (Option.map lower o) (some n) ≡ false
  name_half none n h k = refl
  name_half (some a) n (inl e) k = e
  name_half (some a) n (inr (b, e, c)) k = ground (arith, eq_iff (lower a) n)

  -- A row that uses none of the names crosses a new row whose name and alternate name are either
  -- among the names or known not to cross it.
  pub uses_name-cross_clash :
      (exclude : Uuid) (new r : RequestRow)
      → same_id r.id exclude ≡ false
      → (contains names (lower new.name) ≡ true)
        ⊎ (same_text? (Option.map lower r.alt_name) (some (lower new.name)) ≡ false)
      → (same_text? (Option.map lower new.alt_name) (some (lower r.name)) ≡ false)
        ⊎ ((a : String) × (new.alt_name ≡ some a) × (contains names (lower a) ≡ true))
      → uses_name lower exclude names r ≡ false
      → cross_clash lower new r ≡ false
  unfolding uses_name
  uses_name-cross_clash exclude new r other name alt h =
      ground (
        arith,
        alt_half r.alt_name (lower new.name) name,
        name_half new.alt_name (lower r.name) alt,
      )

-- Nothing uses no names.
pub uses_name-nil :
    (lower : String → String) (exclude : Uuid) (rows : List RequestRow)
    → any (uses_name lower exclude []) rows ≡ false
unfolding uses_name
uses_name-nil lower exclude [] = refl
uses_name-nil lower exclude (r ∷ rows) =
    ground (arith, alt_in-nil r.alt_name, uses_name-nil lower exclude rows)
  where
    alt_in-nil : (o : Option String) → alt_in lower [] o ≡ false
    alt_in-nil none = refl
    alt_in-nil (some a) = refl

abbrev pub NotUsed : System → Uuid → List String → Db → Type 0
NotUsed sys exclude candidates d =
    any (uses_name sys.sql_lower exclude (lowered_candidates sys candidates)) d.requests ≡ false

-- NameInUse changes nothing, and "no" means that no row but the excluded one uses a candidate.
module _ (sys : System) (exclude : Uuid) (candidates : List String) (I : Db → Type 0) where
  answered :
      (names : List String)
      → lowered_candidates sys candidates ≡ names
      → Ensures I I
          (if is_nil names
            then pure {E = RepoError} false
            else map_err
                (wrapped "checking duplicate: ")
                (query (λ now d. any (uses_name sys.sql_lower exclude names) d.requests)))
          (λ b d. I d × (b ≡ false → NotUsed sys exclude candidates d))
  answered [] e =
      Ensures-pure I I false _
        (λ d h. (h, λ _. rw e (uses_name-nil sys.sql_lower exclude d.requests)))
  answered (n ∷ ns) e =
      Ensures-map_err I I _ _ _ (Ensures-query I I _ _ (λ d h. h) (λ now d h. (h, λ k. rw e k)))

  pub name_in_use-ensures :
      Ensures I I
        (name_in_use sys exclude candidates)
        (λ b d. I d × (b ≡ false → NotUsed sys exclude candidates d))
  unfolding name_in_use
  name_in_use-ensures = answered (lowered_candidates sys candidates) refl

with_destinations-Keeps :
    {P : Db → Type 0} (o : Option AnimeRequest) → Keeps P (with_destinations o)
with_destinations-Keeps none = Keeps-pure none
with_destinations-Keeps (some r) = search keeps_rules

pub get_by_id-Keeps : {P : Db → Type 0} (id : Uuid) → Keeps P (get_by_id id)
unfolding get_by_id
get_by_id-Keeps id = search (keeps_rules, with_destinations-Keeps)

-- The statements on links leave the requests alone.
insert_link-keeps :
    (P : List RequestRow → Type 0) (now : ℕ) (id dest : Uuid) (d : Db)
    → P d.requests
    → EffectKeeps (λ e. P e.requests) (insert_link now id dest d)
unfolding insert_link
insert_link-keeps P now id dest d h = ground arith

pub link_all-Keeps :
    (P : List RequestRow → Type 0) (id : Uuid) (dests : List Uuid)
    → Keeps (λ d. P d.requests) (link_all id dests)
unfolding link_all
link_all-Keeps P id [] = Keeps-pure tt
link_all-Keeps P id (dest ∷ dests) =
    Keeps-bind _ _
      (Keeps-map_err linking _ (
        Keeps-exec (λ now d. insert_link now id dest d)
          (λ now d h. insert_link-keeps P now id dest d h)))
      (λ _. link_all-Keeps P id dests)

-- The name and the alternate name cross no request.
abbrev pub IsFree : (String → String) → RequestRow → Db → Type 0
IsFree lower new d = any (cross_clash lower new) d.requests ≡ false

module _ (sys : System) where
  abbrev pub Names : Db → Type 0
  Names d = NamesApart sys.sql_lower d

  -- CreateWithDetails keeps the names apart where the new ones cross none.
  pub create_with_details-ensures :
      (id : Uuid) (name category : String) (by : Uuid) (alt status url : Option String)
      (dests : List Uuid)
      → same_id id nil_uuid ≡ false
      → Ensures Names
          (λ d. Names d × IsFree sys.sql_lower (new_row id 0 name category by alt status url) d)
          (create_with_details sys id name category by alt status url dests)
          (λ _. Names)
  unfolding create_with_details
  create_with_details-ensures id name category by alt status url dests real =
      Ensures-bind Names _ _ _ (λ _. Names) (λ _. Names)
        (Ensures-transaction Names _ _ _ (λ _. Names) (λ d h. h.0)
          (Ensures-bind Anything _ _ _ (λ _. Names) (λ _. Names)
            (Ensures-map_err Anything _ creating _ _ (
              Ensures-exec Anything _ _ (λ _. Names) (λ d h. tt)
                (λ now d h. insert_request-NamesApart sys.sql_lower _ d h.0 real h.1)))
            λ _. Ensures-undone Names _ (link_all-Keeps (RowsApart sys.sql_lower) id dests)))
        (λ _. Ensures-of-Keeps Names (get_by_id id) (get_by_id-Keeps id))

  -- What NameInUse has said no to is free.
  pub IsFree-NotUsed :
      (new : RequestRow) (d : Db)
      → LowersAgree sys
      → All IsTrimmed (new.name ∷ given_list new.alt_name)
      → Names d
      → NotUsed sys nil_uuid (new.name ∷ given_list new.alt_name) d
      → IsFree sys.sql_lower new d
  IsFree-NotUsed new d agree trimmed v unused =
      let names = lowered_candidates sys (new.name ∷ given_list new.alt_name) in
      any-weaken (λ (r : RequestRow). same_id r.id nil_uuid ≡ false) _ _ d.requests
        (λ r real h.
          uses_name-cross_clash sys.sql_lower names nil_uuid new r real
            (inl (
              lowered_candidates-contains sys (new.name ∷ given_list new.alt_name) new.name agree
                trimmed (contains_cons new.name (given_list new.alt_name))))
            (listed new.alt_name refl r) h)
        v.real unused
    where
      listed :
          (o : Option String)
          → new.alt_name ≡ o
          → (r : RequestRow)
          → (same_text? (Option.map sys.sql_lower new.alt_name) (some (sys.sql_lower r.name))
              ≡ false)
            ⊎ ((a : String) × (new.alt_name ≡ some a)
                × (contains
                      (lowered_candidates sys (new.name ∷ given_list new.alt_name))
                      (sys.sql_lower a)
                    ≡ true))
      listed none e r = inl (rw e)
      listed (some a) e r = inr (
        a,
        e,
        lowered_candidates-contains sys (new.name ∷ given_list new.alt_name) a agree trimmed
            (rw e (contains_later a new.name (a ∷ []) (contains_cons a []))),
      )

-- What is among some candidates is among more.
pub contains_left :
    (xs ys : List String) (s : String) → contains xs s ≡ true → contains (xs ++ ys) s ≡ true
contains_left xs ys s h = rw any-append (rw h refl)

pub contains_right :
    (xs ys : List String) (s : String) → contains ys s ≡ true → contains (xs ++ ys) s ≡ true
contains_right xs ys s h = rw any-append (rw h (ground arith))

-- ===== src/Repository/Requests/Batch.antt =====
-- internal/repository/requests.go: CreateBatch, one row after the other.
pub mod Counts
use mathlib.Core.Option
use anime_request_server.Prelude.{
  ℕ, suc, ◌+◌, String, ◌≡◌, refl, sym, subst, ◌∙◌, ap, ◌⊎◌, inl, inr, Bool, true, false, not, ◌||◌,
  ◌&&◌, Option, none, some, List, [], ◌∷◌, ◌++◌, map, arith, eq_iff, eq_refl, ◌==◌, same_id,
  if◌then◌else◌, any, filter, All, any-append, Option-cases, All-weaken, All-filtered, All-halves,
  length, length-append,
}
use anime_request_server.Text.{to_lower}
use anime_request_server.Text.Laws.{eq_comm}
use anime_request_server.Models.{Uuid, nil_uuid, category_batch_add}
use anime_request_server.Database.Tables.{Db, RequestRow}
use anime_request_server.Database.Requests.{same_text?, name_clash, insert_request_or_skip}
use anime_request_server.Database.Requests.Names.{
  NamesApart, cross_clash, insert_request_or_skip-NamesApart,
}
use anime_request_server.Server.{System, M, pure, ◌>>=◌, map_err, exec, query, transaction}
use anime_request_server.Server.Ensures.{
  Ensures, Anything, EffectPost, EffectPost-weaken, Ensures-given, Ensures-pure, Ensures-bind,
  Ensures-map_err, Ensures-exec, Ensures-query, Ensures-from, Ensures-transaction, Ensures-weaken,
}
use anime_request_server.Repository.Errors.{RepoError, wrapped}
use anime_request_server.Repository.Requests.{
  new_row, alt_names, contains, taken_names, batch_row, insert_batch, not_taken, is_nil,
  create_batch,
}
use anime_request_server.Repository.Requests.Names.{LowersAgree, Names, contains_later}

module _ (lower : String → String) where
  -- No alternate name is this name.
  abbrev pub AltFree : List RequestRow → String → Type 0
  AltFree rows n =
      any (λ (r : RequestRow). same_text? (Option.map lower r.alt_name) (some (lower n))) rows
      ≡ false

  abbrev pub is_called : String → RequestRow → Bool
  is_called n r =
      lower r.name == lower n || same_text? (Option.map lower r.alt_name) (some (lower n))

  -- Some request has this name or alternate name, up to LOWER.
  abbrev pub InUse : List RequestRow → String → Type 0
  InUse rows n = any (is_called n) rows ≡ true

  name_among :
      (wanted : List String) (rows : List RequestRow) (n : String)
      → contains wanted n ≡ true
      → contains (filter (contains wanted) (map (λ (r : RequestRow). lower r.name) rows)) n
        ≡ any (λ (r : RequestRow). lower r.name == n) rows
  name_among wanted [] n h = refl
  name_among wanted (r ∷ rows) n h =
      ground (arith, eq_iff (lower r.name) n, name_among wanted rows n h)

  alt_among :
      (wanted : List String) (rows : List RequestRow) (n : String)
      → contains wanted n ≡ true
      → contains (filter (contains wanted) (alt_names lower rows)) n
        ≡ any (λ (r : RequestRow). same_text? (Option.map lower r.alt_name) (some n)) rows
  alt_among wanted [] n h = refl
  alt_among wanted (r ∷ rows) n h = elim (Option-cases r.alt_name) [
    | inl e ↦ rw e (alt_among wanted rows n h)
    | inr (a, e) ↦ rw e (ground (arith, eq_iff (lower a) n, alt_among wanted rows n h))
  ]

  any-or :
      (p q : RequestRow → Bool) (rows : List RequestRow)
      → (any p rows || any q rows) ≡ any (λ r. p r || q r) rows
  any-or p q [] = refl
  any-or p q (r ∷ rows) = ground (arith, any-or p q rows)

  -- What the query for `taken` finds.
  pub taken_cases :
      (wanted : List String) (rows : List RequestRow) (n : String)
      → contains wanted (lower n) ≡ true
      → contains
          (filter (contains wanted) (map (λ (r : RequestRow). lower r.name) rows)
            ++ filter (contains wanted) (alt_names lower rows))
          (lower n)
        ≡ any (is_called n) rows
  taken_cases wanted rows n h =
      rw (any-append, name_among wanted rows (lower n) h, alt_among wanted rows (lower n) h, any-or)
        refl

  any-is_called :
      (new : RequestRow) (rows : List RequestRow)
      → any (name_clash lower new) rows ≡ true
      → InUse rows new.name
  any-is_called new [] h = cc
  any-is_called new (r ∷ rows) h =
      ground (arith, eq_comm (lower new.name) (lower r.name), any-is_called new rows)

  -- A row without an alternate name, behind the others.
  AltFree-append :
      (new : RequestRow) (rows : List RequestRow) (n : String)
      → new.alt_name ≡ none
      → AltFree rows n
      → AltFree (rows ++ new ∷ []) n
  AltFree-append new rows n e h = rw (any-append, e, h) refl

  InUse-append :
      (new : RequestRow) (rows : List RequestRow) (n : String)
      → InUse rows n
      → InUse (rows ++ new ∷ []) n
  InUse-append new rows n h = rw (any-append, h) refl

  InUse-new : (new : RequestRow) (rows : List RequestRow) → InUse (rows ++ new ∷ []) new.name
  InUse-new new rows = rw (any-append, eq_refl (lower new.name)) (ground arith)

module _ (sys : System) (len : ℕ) where
  -- `count` rows were added; the names `seen` are in use and those to come are no alternate name.
  pub record Progress (seen : List String) (names : List String) (count : ℕ) (d : Db) : Type 0 where
    pub apart : Names sys d
    pub grown : length d.requests ≡ len + count
    pub used : All (InUse sys.sql_lower d.requests) seen
    pub free : All (AltFree sys.sql_lower d.requests) names

  -- One row of the batch.
  row-Progress :
      (new : RequestRow) (seen names : List String) (count n : ℕ) (d e : Db)
      → new.alt_name ≡ none
      → Progress seen (new.name ∷ names) count d
      → Names sys e
        × ((e.requests ≡ d.requests)
              × (n ≡ 0)
              × (any (name_clash sys.sql_lower new) d.requests ≡ true)
            ⊎ (e.requests ≡ d.requests ++ new ∷ []) × (n ≡ 1))
      → Progress (new.name ∷ seen) names (count + n) e
  row-Progress new seen names count n d e alt p (v, inl (same, zero, clash)) = record {
    apart = v;
    grown = rw (same, zero) (omega (arith, p.grown));
    used =
        subst (λ rows. All (InUse sys.sql_lower rows) (new.name ∷ seen)) (sym same)
          (any-is_called sys.sql_lower new d.requests clash, p.used);
    free = subst (λ rows. All (AltFree sys.sql_lower rows) names) (sym same) p.free.1;
  }
  row-Progress new seen names count n d e alt p (v, inr (more, one)) = record {
    apart = v;
    grown = rw (more, one, length-append) (omega (arith, p.grown));
    used =
        subst (λ rows. All (InUse sys.sql_lower rows) (new.name ∷ seen)) (sym more)
          (
            InUse-new sys.sql_lower new d.requests,
            All-weaken _ _ seen (InUse-append sys.sql_lower new d.requests) p.used,
          );
    free =
        subst (λ rows. All (AltFree sys.sql_lower rows) names) (sym more)
          (All-weaken _ _ names (λ m. AltFree-append sys.sql_lower new d.requests m alt) p.free.1);
  }

  -- `count` rows were added, and all the names are in use.
  pub record Added (seen names : List String) (count : ℕ) (d : Db) : Type 0 where
    pub apart : Names sys d
    pub grown : length d.requests ≡ len + count
    pub used_before : All (InUse sys.sql_lower d.requests) seen
    pub used : All (InUse sys.sql_lower d.requests) names

  inserted-post :
      (name : String) (seen names : List String) (count : ℕ) (new : RequestRow) (d : Db)
      → new.alt_name ≡ none
      → same_id new.id nil_uuid ≡ false
      → Progress seen (new.name ∷ names) count d
      → EffectPost
          (λ n. Progress (new.name ∷ seen) names (count + n))
          (insert_request_or_skip sys.sql_lower new d)
  inserted-post name seen names count new d alt real p =
      EffectPost-weaken _ _ (insert_request_or_skip sys.sql_lower new d)
        (λ n e. row-Progress new seen names count n d e alt p)
        (insert_request_or_skip-NamesApart sys.sql_lower new d p.apart real
          (no_cross d.requests p.free.0))
    where
      no_cross :
          (rows : List RequestRow)
          → AltFree sys.sql_lower rows new.name
          → any (cross_clash sys.sql_lower new) rows ≡ false
      no_cross rows h = rw alt h

  pub insert_batch-ensures :
      (ids : ℕ → Uuid) (count : ℕ) (by : Uuid) (seen names : List String)
      → ((i : ℕ) → same_id (ids i) nil_uuid ≡ false)
      → Ensures Anything
          (Progress seen names count)
          (insert_batch sys ids count by names)
          (Added seen names)
  unfolding insert_batch batch_row
  insert_batch-ensures ids count by seen [] real =
      Ensures-pure Anything _ count _
        (λ d h. record { apart = h.apart; grown = h.grown; used_before = h.used; used = tt })
  insert_batch-ensures ids count by seen (name ∷ names) real =
      Ensures-bind Anything _ _ _ _ _
        (Ensures-map_err Anything _ _ _ _ (
          Ensures-exec Anything _ _ (λ n. Progress (name ∷ seen) names (count + n)) (λ d h. tt)
            (λ now d.
              inserted-post name seen names count
                (new_row (ids 0) now name category_batch_add by none none none) d refl (real 0))))
        λ n.
          Ensures-weaken Anything _ _ _ _
            (insert_batch-ensures (λ i. ids (suc i)) (count + n) by (name ∷ seen) names
              (λ i. real (suc i)))
            (λ m d h. record {
              apart = h.apart;
              grown = h.grown;
              used_before = h.used_before.1;
              used = (h.used_before.0, h.used);
            })

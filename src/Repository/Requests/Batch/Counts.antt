-- ===== src/Repository/Requests/Batch/Counts.antt =====
-- internal/repository/requests.go: CreateBatch, the filter of the names that are taken and the count.
use anime_request_server.Prelude.{
  ℕ, ◌+◌, String, ◌≡◌, refl, sym, ap, subst, ◌∙◌, ap, Bool, true, false, not, List, [], ◌∷◌, map,
  arith, eq_refl, same_id, if◌then◌else◌, any, filter, All, All-weaken, All-filtered, All-halves,
  length,
}
use anime_request_server.Text.{to_lower}
use anime_request_server.Models.{Uuid, nil_uuid}
use anime_request_server.Database.Tables.{Db, RequestRow}
use anime_request_server.Server.{System, pure, ◌>>=◌, map_err, query}
use anime_request_server.Server.Ensures.{
  Ensures, Anything, Ensures-pure, Ensures-bind, Ensures-map_err, Ensures-query, Ensures-from,
  Ensures-transaction,
}
use anime_request_server.Repository.Errors.{wrapped}
use anime_request_server.Repository.Requests.{
  contains, taken_names, insert_batch, not_taken, is_nil, create_batch,
}
use anime_request_server.Repository.Requests.Names.{LowersAgree, Names, contains_later}
use anime_request_server.Repository.Requests.Batch.{
  AltFree, is_called, InUse, taken_cases, Progress, Added, insert_batch-ensures,
}

module _ (sys : System) (agree : LowersAgree sys) where
  abbrev lowered : List String → List String
  lowered names = map (to_lower sys.unicode) names

  lowered-All :
      (names : List String) → All (λ n. contains (lowered names) (sys.sql_lower n) ≡ true) names
  lowered-All [] = tt
  lowered-All (n ∷ ns) = (
    rw (agree n, eq_refl (sys.sql_lower n)) refl,
    All-weaken _ _ ns
        (λ m h. contains_later (sys.sql_lower m) (to_lower sys.unicode n) (lowered ns) h)
        (lowered-All ns),
  )

  abbrev is_taken : List String → String → Bool
  is_taken taken n = contains taken (to_lower sys.unicode n)

  taken-is_called :
      (names : List String) (d : Db) (n : String)
      → contains (lowered names) (sys.sql_lower n) ≡ true
      → is_taken (taken_names sys.sql_lower (lowered names) d) n
        ≡ any (is_called sys.sql_lower n) d.requests
  unfolding taken_names
  taken-is_called names d n h =
      rw (agree n) (taken_cases sys.sql_lower (lowered names) d.requests n h)

  not_called-AltFree :
      (rows : List RequestRow) (n : String)
      → any (is_called sys.sql_lower n) rows ≡ false
      → AltFree sys.sql_lower rows n
  not_called-AltFree [] n h = refl
  not_called-AltFree (r ∷ rows) n h = ground (arith, not_called-AltFree rows n)

  not-true : (b : Bool) → not b ≡ true → b ≡ false
  not-true b h = ground arith

  module _ (names : List String) (d : Db) where
    abbrev taken : List String
    taken = taken_names sys.sql_lower (lowered names) d

    taken-InUse : All (InUse sys.sql_lower d.requests) (filter (is_taken taken) names)
    taken-InUse =
        All-weaken _ _ (filter (is_taken taken) names)
          (λ n h. sym (taken-is_called names d n h.0) ∙ h.1)
          (All-filtered _ (is_taken taken) names (lowered-All names))

    others-AltFree : All (AltFree sys.sql_lower d.requests) (not_taken sys taken names)
    others-AltFree =
        All-weaken _ _ (not_taken sys taken names)
          (λ n h.
            not_called-AltFree d.requests n
              (sym (taken-is_called names d n h.0) ∙ not-true (is_taken taken n) h.1))
          (All-filtered _ (λ n. not (is_taken taken n)) names (lowered-All names))

  -- What CreateBatch leaves behind: the names apart, as many rows more as it says, and every name in use.
  abbrev pub BatchDone : ℕ → List String → ℕ → Db → Type 0
  BatchDone len names n d =
      Names sys d × (length d.requests ≡ len + n) × All (InUse sys.sql_lower d.requests) names

  abbrev Found : ℕ → List String → List String → Db → Type 0
  Found len names found d = Names sys d × (length d.requests ≡ len) × (found ≡ taken names d)

  starting :
      (len : ℕ) (names found : List String) (d : Db)
      → Found len names found d
      → Progress sys len (filter (is_taken found) names) (not_taken sys found names) 0 d
  starting len names found d (v, l, e) = record {
    apart = v;
    grown = omega (arith, l);
    used =
        subst (λ t. All (InUse sys.sql_lower d.requests) (filter (is_taken t) names)) (sym e)
          (taken-InUse names d);
    free =
        subst (λ t. All (AltFree sys.sql_lower d.requests) (not_taken sys t names)) (sym e)
          (others-AltFree names d);
  }

  finished :
      (len : ℕ) (names found : List String) (n : ℕ) (d : Db)
      → Added sys len (filter (is_taken found) names) (not_taken sys found names) n d
      → BatchDone len names n d
  finished len names found n d a =
      (a.apart, a.grown, All-halves _ (is_taken found) names a.used_before a.used)

  inserted-ensures :
      (len : ℕ) (ids : ℕ → Uuid) (by : Uuid) (names found to_insert : List String)
      → not_taken sys found names ≡ to_insert
      → ((i : ℕ) → same_id (ids i) nil_uuid ≡ false)
      → Ensures Anything
          (Found len names found)
          (if is_nil to_insert then pure 0 else do
            count ← insert_batch sys ids 0 by to_insert
            map_err (wrapped "closing batch: ") (query (λ now d. count)))
          (BatchDone len names)
  inserted-ensures len ids by names found [] e real = Ensures-pure Anything _ 0 _ (λ d h.
      let p = starting len names found d h in
      finished len names found 0 d (record {
        apart = p.apart;
        grown = p.grown;
        used_before = p.used;
        used = subst (All (InUse sys.sql_lower d.requests)) (sym e) tt;
      }))
  inserted-ensures len ids by names found (n ∷ ns) e real =
      Ensures-bind Anything _ _ _ _ _
        (Ensures-from Anything _ _ _ _
          (λ d h.
            subst (λ rest. Progress sys len (filter (is_taken found) names) rest 0 d) e
              (starting len names found d h))
          (insert_batch-ensures sys len ids 0 by _ (n ∷ ns) real))
        λ count. Ensures-map_err Anything _ _ _ _ (
          Ensures-query Anything _ _ _ (λ d h. tt)
            (λ now d h. finished len names found count d (
              subst (λ rest. Added sys len (filter (is_taken found) names) rest count d) (sym e)
                h)))

  -- CreateBatch does all of it or changes nothing.
  pub create_batch-ensures :
      (before : Db) (ids : ℕ → Uuid) (names : List String) (by : Uuid)
      → Names sys before
      → ((i : ℕ) → same_id (ids i) nil_uuid ≡ false)
      → Ensures
          (λ d. d ≡ before)
          (λ d. d ≡ before)
          (create_batch sys ids names by)
          (BatchDone (length before.requests) names)
  unfolding create_batch
  create_batch-ensures before ids names by v real =
      Ensures-transaction _ _ _ _ _ (λ d e. e)
        (Ensures-from Anything (λ d. Names sys d × (length d.requests ≡ length before.requests)) _ _
          _ (λ d e. (subst (Names sys) (sym e) v, ap (λ (d : Db). length d.requests) e))
          (Ensures-bind Anything _ _ _ (Found (length before.requests) names) _
            (Ensures-map_err Anything _ _ _ _
              (Ensures-query Anything _ _ _ (λ d h. tt) (λ now d h. (h.0, h.1, refl))))
            (λ found. inserted-ensures (length before.requests) ids by names found _ refl real)))

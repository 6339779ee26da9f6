-- ===== src/Database/Requests/Names.antt =====
-- The names of the requests, as the schema and the handlers' check keep them: no two requests share a
-- name or an alternate name, nor is one's name the other's alternate name, whatever the case.
use mathlib.Core.Option
use anime_request_server.Prelude.{
  ℕ, String, ◌≡◌, refl, Bool, true, false, ◌||◌, Option, none, some, List, [], ◌∷◌, ◌++◌, arith,
  same_id, if◌then◌else◌, any, find, All, All-append, All-filter, All-find, inl, inr, ◌⊎◌,
}
use anime_request_server.Text.Laws.{eq_comm}
use anime_request_server.Models.{Uuid, nil_uuid}
use anime_request_server.Database.Tables.{Db, RequestRow}
use anime_request_server.Database.Apart.{
  Apart, Apart-append, Apart-filter, Apart-replace, replace, others,
}
use anime_request_server.Server.{PgError, Effect}
use anime_request_server.Server.Ensures.{EffectPost}
use anime_request_server.Database.Requests.{
  same_text?, request_id_clash, name_clash, alt_clash, alt_is_name, check_violation,
  unique_violation, refuse_or, put_request, has_user, update_found, insert_request,
  insert_request_or_skip, update_request, delete_request,
}

same_text?_comm : (s t : Option String) → same_text? s t ≡ same_text? t s
same_text?_comm none none = refl
same_text?_comm none (some t) = refl
same_text?_comm (some s) none = refl
same_text?_comm (some s) (some t) = eq_comm s t

pub All-replace :
    {A : Type 0} (P : A → Type 0) (key : A → ℕ) (id : ℕ) (new : A) (xs : List A)
    → P new
    → All P xs
    → All P (replace key id new xs)
All-replace P key id new [] p h = tt
All-replace P key id new (x ∷ xs) p h = (ground arith, All-replace P key id new xs p h.1)

abbrev pub row_id : RequestRow → Uuid
row_id r = r.id

module _ (lower : String → String) where
  -- The name of one is the alternate name of the other.
  abbrev pub cross_clash : RequestRow → RequestRow → Bool
  cross_clash r s =
      same_text? (Option.map lower r.alt_name) (some (lower s.name))
      || same_text? (Option.map lower s.alt_name) (some (lower r.name))

  pub record RowsApart (rows : List RequestRow) : Type 0 where
    pub ids : Apart request_id_clash rows
    pub real : All (λ r. same_id r.id nil_uuid ≡ false) rows
    pub names : Apart (name_clash lower) rows
    pub alts : Apart (alt_clash lower) rows
    pub differ : All (λ r. alt_is_name lower r ≡ false) rows
    pub cross : Apart cross_clash rows

  abbrev pub NamesApart : Db → Type 0
  NamesApart d = RowsApart d.requests

  pub id_comm : (r s : RequestRow) → request_id_clash r s ≡ request_id_clash s r
  id_comm r s = ground arith

  pub name_comm : (r s : RequestRow) → name_clash lower r s ≡ name_clash lower s r
  name_comm r s = eq_comm (lower r.name) (lower s.name)

  pub alt_comm : (r s : RequestRow) → alt_clash lower r s ≡ alt_clash lower s r
  alt_comm r s = same_text?_comm (Option.map lower r.alt_name) (Option.map lower s.alt_name)

  pub cross_comm : (r s : RequestRow) → cross_clash r s ≡ cross_clash s r
  cross_comm r s = ground arith

  pub refuse_or-post :
      {A : Type 0} (Q : A → Db → Type 0) (v : Option PgError) (e : Effect A)
      → (v ≡ none → EffectPost Q e)
      → EffectPost Q (refuse_or lower v e)
  refuse_or-post Q none e h = h refl
  refuse_or-post Q (some v) e h = tt

  pub if-post :
      {A : Type 0} (Q : A → Db → Type 0) (b : Bool) (e f : Effect A)
      → (b ≡ true → EffectPost Q e)
      → (b ≡ false → EffectPost Q f)
      → EffectPost Q (if b then e else f)
  if-post Q true e f h k = h refl
  if-post Q false e f h k = k refl

  check_violation-none :
      (r : RequestRow) → check_violation lower r ≡ none → alt_is_name lower r ≡ false
  unfolding check_violation
  check_violation-none r h = ground arith

  pub unique_violation-none :
      (rows : List RequestRow) (r : RequestRow)
      → unique_violation lower rows r ≡ none
      → (any (request_id_clash r) rows ≡ false)
        × (any (name_clash lower r) rows ≡ false)
        × (any (alt_clash lower r) rows ≡ false)
  unfolding unique_violation
  unique_violation-none rows r h = ground arith

  put-NamesApart :
      (r : RequestRow) (d : Db)
      → NamesApart d
      → same_id r.id nil_uuid ≡ false
      → check_violation lower r ≡ none
      → unique_violation lower d.requests r ≡ none
      → any (cross_clash r) d.requests ≡ false
      → NamesApart (record d { requests = d.requests ++ r ∷ [] })
  put-NamesApart r d v real c u x =
      let (id, name, alt) = unique_violation-none d.requests r u in
      record {
        ids = Apart-append request_id_clash id_comm d.requests r v.ids id;
        real = All-append _ d.requests (r ∷ []) v.real (real, tt);
        names = Apart-append (name_clash lower) name_comm d.requests r v.names name;
        alts = Apart-append (alt_clash lower) alt_comm d.requests r v.alts alt;
        differ = All-append _ d.requests (r ∷ []) v.differ (check_violation-none r c, tt);
        cross = Apart-append cross_clash cross_comm d.requests r v.cross x;
      }

  pub put_request-post :
      {A : Type 0} (Q : A → Db → Type 0) (r : RequestRow) (a : A) (d : Db)
      → Q a (record d { requests = d.requests ++ r ∷ [] })
      → EffectPost Q (put_request lower r a d)
  put_request-post Q r a d h = if-post Q (has_user r.requested_by d) _ _ (λ _. h) (λ _. tt)

  -- An insert keeps the names apart if the new name and alternate name cross no other.
  pub insert_request-NamesApart :
      (r : RequestRow) (d : Db)
      → NamesApart d
      → same_id r.id nil_uuid ≡ false
      → any (cross_clash r) d.requests ≡ false
      → EffectPost (λ _. NamesApart) (insert_request lower r d)
  unfolding insert_request
  insert_request-NamesApart r d v real x = refuse_or-post _ (check_violation lower r) _ λ c.
      refuse_or-post _ (unique_violation lower d.requests r) _
        λ u. put_request-post _ r tt d (put-NamesApart r d v real c u x)

  -- So does an insert that skips a name which is there; with the count, it adds the row or nothing.
  pub insert_request_or_skip-NamesApart :
      (r : RequestRow) (d : Db)
      → NamesApart d
      → same_id r.id nil_uuid ≡ false
      → any (cross_clash r) d.requests ≡ false
      → EffectPost
          (λ n e.
            NamesApart e
            × ((e.requests ≡ d.requests) × (n ≡ 0) × (any (name_clash lower r) d.requests ≡ true)
                ⊎ (e.requests ≡ d.requests ++ r ∷ []) × (n ≡ 1)))
          (insert_request_or_skip lower r d)
  unfolding insert_request_or_skip
  insert_request_or_skip-NamesApart r d v real x = refuse_or-post _ (check_violation lower r) _ λ c.
      if-post _ (any (name_clash lower r) d.requests) _ _ (λ e. (v, inl (refl, refl, e)))
        λ _.
          refuse_or-post _ (unique_violation lower d.requests r) _
            λ u. put_request-post _ r 1 d (put-NamesApart r d v real c u x, inr (refl, refl))

  pub delete_request-NamesApart :
      (id : Uuid) (d : Db) → NamesApart d → EffectPost (λ _. NamesApart) (delete_request id d)
  unfolding delete_request
  delete_request-NamesApart id d v = record {
    ids = Apart-filter request_id_clash id_comm _ d.requests v.ids;
    real = All-filter _ _ d.requests v.real;
    names = Apart-filter (name_clash lower) name_comm _ d.requests v.names;
    alts = Apart-filter (alt_clash lower) alt_comm _ d.requests v.alts;
    differ = All-filter _ _ d.requests v.differ;
    cross = Apart-filter cross_clash cross_comm _ d.requests v.cross;
  }

  replaced :
      (id : Uuid) (new : RequestRow) (d : Db)
      → NamesApart d
      → same_id new.id nil_uuid ≡ false
      → check_violation lower new ≡ none
      → unique_violation lower (others row_id id d.requests) new ≡ none
      → any (cross_clash new) (others row_id id d.requests) ≡ false
      → NamesApart (record d { requests = replace row_id id new d.requests })
  replaced id new d v real c u x =
      let (same, name, alt) = unique_violation-none (others row_id id d.requests) new u in
      record {
        ids = Apart-replace request_id_clash id_comm row_id id new d.requests v.ids v.ids same;
        real = All-replace _ row_id id new d.requests real v.real;
        names =
            Apart-replace (name_clash lower) name_comm row_id id new d.requests v.ids v.names name;
        alts = Apart-replace (alt_clash lower) alt_comm row_id id new d.requests v.ids v.alts alt;
        differ = All-replace _ row_id id new d.requests (check_violation-none new c) v.differ;
        cross = Apart-replace cross_clash cross_comm row_id id new d.requests v.ids v.cross x;
      }

  update_found-NamesApart :
      (id : Uuid) (set : RequestRow → RequestRow) (d : Db) (o : Option RequestRow)
      → NamesApart d
      → ((r : RequestRow) → (set r).id ≡ r.id)
      → find (λ r. same_id r.id id) d.requests ≡ o
      → ((old : RequestRow)
          → o ≡ some old
          → any (cross_clash (set old)) (others row_id id d.requests) ≡ false)
      → EffectPost (λ _. NamesApart) (update_found lower id set d o)
  update_found-NamesApart id set d none v keeps_id e x = v
  update_found-NamesApart id set d (some old) v keeps_id e x =
      refuse_or-post _ (check_violation lower (set old)) _ λ c.
        refuse_or-post _ (unique_violation lower (others row_id id d.requests) (set old)) _ λ u.
          replaced id (set old) d v (rw (keeps_id old) (All-find _ _ d.requests old v.real e)) c u
            (x old refl)

  -- An update keeps them apart if it keeps the identifier and the row that it makes crosses no other.
  pub update_request-NamesApart :
      (id : Uuid) (set : RequestRow → RequestRow) (d : Db)
      → NamesApart d
      → ((r : RequestRow) → (set r).id ≡ r.id)
      → ((old : RequestRow)
          → find (λ r. same_id r.id id) d.requests ≡ some old
          → any (cross_clash (set old)) (others row_id id d.requests) ≡ false)
      → EffectPost (λ _. NamesApart) (update_request lower id set d)
  unfolding update_request
  update_request-NamesApart id set d v keeps_id x =
      update_found-NamesApart id set d (find (λ r. same_id r.id id) d.requests) v keeps_id refl x

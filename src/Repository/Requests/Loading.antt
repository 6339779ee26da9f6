-- ===== src/Repository/Requests/Loading.antt =====
-- internal/repository/requests.go: loadDestinationsForMultiple beside loadDestinations.
use mathlib.Core.Option
use anime_request_server.Prelude.{
  ◌&&◌, ◌||◌, ltb, leb, find, ℕ, ◌≡◌, refl, sym, ap, ap₂, ◌∙◌, Bool, true, false, Bool-cases, inl,
  inr, Option, none, some, List, [], ◌∷◌, ◌++◌, map, arith, same_id, same_id_refl, if◌then◌else◌,
  any, filter, All, All-weaken, All-filtered,
}
use anime_request_server.Models.{Uuid, AnimeRequest, ServerDestinationMapping, ServerDestination}
use anime_request_server.Database.Tables.{Db, LinkRow}
use anime_request_server.Database.Requests.Sort.{sort}
use anime_request_server.Database.Requests.Stable.{
  filter-sort, map-sort, sort-Agree, Apart-AllPairs,
}
use anime_request_server.Database.Apart.{Apart, Apart-filter}
use anime_request_server.Server.{World}
use anime_request_server.Server.Returns.{
  Alike-refl, Returned, Asks, Gives-pure, Gives-weaken, Gives-ask, Gives-map_err, Asks-query,
  Asks-pure,
}
use anime_request_server.Repository.Errors.{RepoError}
use anime_request_server.Repository.Requests.Select.{
  DestinationRow, mapping_of, put_row, row_of, joined, joined_rows, added_before, ordered_before,
  destinations_of, destination_rows, append_to, distribute, load_for_multiple,
}

abbrev of_request : Uuid → DestinationRow → Bool
of_request id row = same_id row.request_id id

abbrev mapping_in : DestinationRow → ServerDestinationMapping
mapping_in row = row.mapping

-- The request with more destinations behind its own.
abbrev with_more : List ServerDestinationMapping → AnimeRequest → AnimeRequest
with_more ds r = record r { server_destinations = r.server_destinations ++ ds }

abbrev share : List DestinationRow → AnimeRequest → List ServerDestinationMapping
share rows r = map mapping_in (filter (of_request r.id) rows)

append-nil : {A : Type 0} (xs : List A) → xs ++ [] ≡ xs
append-nil [] = refl
append-nil (x ∷ xs) = ap (λ t. x ∷ t) (append-nil xs)

append_assoc : {A : Type 0} (xs ys zs : List A) → (xs ++ ys) ++ zs ≡ xs ++ (ys ++ zs)
append_assoc [] ys zs = refl
append_assoc (x ∷ xs) ys zs = ap (λ t. x ∷ t) (append_assoc xs ys zs)

map-cong :
    {A B : Type 0} (f g : A → B) (P : A → Type 0) (xs : List A)
    → ((x : A) → P x → f x ≡ g x)
    → All P xs
    → map f xs ≡ map g xs
map-cong f g P [] h a = refl
map-cong f g P (x ∷ xs) h a = ap₂ (λ y ys. y ∷ ys) (h x a.0) (map-cong f g P xs h a.1)

-- One row of the loop, for one request.
row_share :
    (row : DestinationRow) (rows : List DestinationRow) (r : AnimeRequest) (b c : Bool)
    → same_id r.id row.request_id ≡ b
    → of_request r.id row ≡ c
    → b ≡ c
    → with_more
        (share rows (
          if b
          then record r { server_destinations = r.server_destinations ++ row.mapping ∷ [] }
          else r))
        (if b
          then record r { server_destinations = r.server_destinations ++ row.mapping ∷ [] }
          else r)
      ≡ with_more
          (map mapping_in
            (if c then row ∷ filter (of_request r.id) rows else filter (of_request r.id) rows))
          r
row_share row rows r true true e k h =
    ap (λ ds. record r { server_destinations = ds })
      (append_assoc r.server_destinations (row.mapping ∷ []) (share rows r))
row_share row rows r false false e k h = refl
row_share row rows r true false e k h = cc
row_share row rows r false true e k h = cc

same_id_comm : (a b : ℕ) → same_id a b ≡ same_id b a
same_id_comm a b = ground arith

no_rows : (rs : List AnimeRequest) → rs ≡ map (λ r. with_more [] r) rs
no_rows [] = refl
no_rows (r ∷ rs) =
    ap₂ (λ y ys. y ∷ ys)
      (ap (λ ds. record r { server_destinations = ds }) (sym (append-nil r.server_destinations)))
      (no_rows rs)

append_to-share :
    (row : DestinationRow) (rows : List DestinationRow) (rs : List AnimeRequest)
    → map (λ r. with_more (share rows r) r) (append_to row rs)
      ≡ map (λ r. with_more (share (row ∷ rows) r) r) rs
unfolding append_to
append_to-share row rows [] = refl
append_to-share row rows (r ∷ rs) =
    ap₂ (λ y ys. y ∷ ys) (row_share row rows r _ _ refl refl (same_id_comm r.id row.request_id))
      (append_to-share row rows rs)

-- The loop gives every request the rows that bear its identifier, in their order.
distribute-share :
    (rows : List DestinationRow) (rs : List AnimeRequest)
    → distribute rows rs ≡ map (λ r. with_more (share rows r) r) rs
unfolding distribute
distribute-share [] rs = no_rows rs
distribute-share (row ∷ rows) rs =
    distribute-share rows (append_to row rs) ∙ append_to-share row rows rs

filter-put_row :
    (id request : Uuid) (o : Option ServerDestinationMapping) (rows : List DestinationRow)
    (b : Bool)
    → same_id request id ≡ b
    → filter (of_request id) (put_row (Option.map (row_of request) o) rows) ≡ (
        if b
        then put_row (Option.map (row_of request) o) (filter (of_request id) rows)
        else filter (of_request id) rows)
filter-put_row id request none rows true e = refl
filter-put_row id request none rows false e = refl
filter-put_row id request (some m) rows true e = rw e refl
filter-put_row id request (some m) rows false e = rw e refl

map-put_row :
    (request : Uuid) (o : Option ServerDestinationMapping) (rows : List DestinationRow)
    → map mapping_in (put_row (Option.map (row_of request) o) rows)
      ≡ put_row o (map mapping_in rows)
map-put_row request none rows = refl
map-put_row request (some m) rows = refl

module _ (d : Db) where
  filter-joined_rows :
      (id : Uuid) (ls : List LinkRow)
      → filter (of_request id) (joined_rows d ls)
        ≡ joined_rows d (filter (λ (l : LinkRow). same_id l.request_id id) ls)
  filter-joined_rows id [] = refl
  filter-joined_rows id (l ∷ ls) =
      filter-put_row id l.request_id (mapping_of d l) (joined_rows d ls) _ refl
      ∙ by_test (same_id l.request_id id) (filter-joined_rows id ls)
    where
      by_test :
          (b : Bool)
          → filter (of_request id) (joined_rows d ls)
            ≡ joined_rows d (filter (λ (l : LinkRow). same_id l.request_id id) ls)
          → (if b
              then put_row
                  (Option.map (row_of l.request_id) (mapping_of d l))
                  (filter (of_request id) (joined_rows d ls))
              else filter (of_request id) (joined_rows d ls))
            ≡ joined_rows d (
                if b
                then l ∷ filter (λ (l : LinkRow). same_id l.request_id id) ls
                else filter (λ (l : LinkRow). same_id l.request_id id) ls)
      by_test true k =
          ap (λ rest. put_row (Option.map (row_of l.request_id) (mapping_of d l)) rest) k
      by_test false k = k

  map-joined_rows : (ls : List LinkRow) → map mapping_in (joined_rows d ls) ≡ joined d ls
  map-joined_rows [] = refl
  map-joined_rows (l ∷ ls) =
      map-put_row l.request_id (mapping_of d l) (joined_rows d ls)
      ∙ ap (λ rest. put_row (mapping_of d l) rest) (map-joined_rows ls)

  -- A narrower filter behind a wider one.
  filter-wider :
      (p q : LinkRow → Bool) (ls : List LinkRow)
      → ((l : LinkRow) → p l ≡ true → q l ≡ true)
      → filter p (filter q ls) ≡ filter p ls
  filter-wider p q [] h = refl
  filter-wider p q (l ∷ ls) h = elim (Bool-cases (p l)) [
    | inl e ↦ rw (h l e, e) (ap (λ rest. l ∷ rest) (filter-wider p q ls h))
    | inr e ↦ elim (Bool-cases (q l)) [
      | inl t ↦ rw (t, e) (filter-wider p q ls h)
      | inr t ↦ rw (t, e) (filter-wider p q ls h)
    ]
  ]

-- By request and time, and by time, as if the later row of two of one time stood behind the earlier one in the table.
abbrev timed : DestinationRow → DestinationRow → Bool
timed a b =
    ltb a.request_id b.request_id
    || (same_id a.request_id b.request_id && leb a.mapping.added_at b.mapping.added_at)

abbrev timed_mapping : ServerDestinationMapping → ServerDestinationMapping → Bool
timed_mapping a b = leb a.added_at b.added_at

timed_total : (a b : DestinationRow) → timed a b ≡ false → timed b a ≡ true
timed_total a b h = ground arith

timed_trans : (a b c : DestinationRow) → timed a b ≡ true → timed b c ≡ true → timed a c ≡ true
timed_trans a b c h k = ground arith

-- Rows of one request are ordered by time.
timed_alike :
    (id : Uuid) (a b : DestinationRow)
    → Unit {0} × (of_request id a ≡ true)
    → Unit {0} × (of_request id b ≡ true)
    → timed a b ≡ timed_mapping a.mapping b.mapping
timed_alike id a b h k = ground arith

-- Two links of one request, added at one time.
abbrev pub one_time : LinkRow → LinkRow → Bool
one_time l m = same_id l.request_id m.request_id && same_id l.added_at m.added_at

abbrev one_time_row : DestinationRow → DestinationRow → Bool
one_time_row a b =
    same_id a.request_id b.request_id && same_id a.mapping.added_at b.mapping.added_at

abbrev one_time_mapping : ServerDestinationMapping → ServerDestinationMapping → Bool
one_time_mapping a b = same_id a.added_at b.added_at

one_time_comm : (l m : LinkRow) → one_time l m ≡ one_time m l
one_time_comm l m = ground arith

module _ (d : Db) where
  -- A row or a mapping of the join, where there is one, clashes with none behind it.
  put_row-Apart :
      {A : Type 0} (clash : A → A → Bool) (o : Option A) (rows : List A)
      → ((a : A) → o ≡ some a → any (clash a) rows ≡ false)
      → Apart clash rows
      → Apart clash (put_row o rows)
  put_row-Apart clash none rows h k = k
  put_row-Apart clash (some a) rows h k = (h a refl, k)

  any-put_row :
      {A : Type 0} (p : A → Bool) (o : Option A) (rows : List A)
      → ((a : A) → o ≡ some a → p a ≡ false)
      → any p rows ≡ false
      → any p (put_row o rows) ≡ false
  any-put_row p none rows h k = k
  any-put_row p (some a) rows h k = rw (h a refl) k

  -- What the join makes of a link bears its time.
  mapping_of-time :
      (l : LinkRow) (m : ServerDestinationMapping)
      → mapping_of d l ≡ some m
      → m.added_at ≡ l.added_at
  mapping_of-time l m e =
      by_found
        (find (λ (s : ServerDestination). same_id s.id l.server_destination_id)
          d.server_destinations)
        e
    where
      by_found :
          (o : Option ServerDestination)
          → Option.map
              (λ (s : ServerDestination). record {
                id = s.id;
                name = s.name;
                added_at = l.added_at;
              })
              o
            ≡ some m
          → m.added_at ≡ l.added_at
      by_found none e = cc
      by_found (some s) e = cc

  any-joined :
      (id : Uuid) (l : LinkRow) (m : ServerDestinationMapping) (ls : List LinkRow)
      → l.request_id ≡ id
      → m.added_at ≡ l.added_at
      → any (one_time l) ls ≡ false
      → any (one_time_mapping m) (joined d (filter (λ (n : LinkRow). same_id n.request_id id) ls))
        ≡ false
  any-joined id l m [] own e h = refl
  any-joined id l m (n ∷ ls) own e h = elim (Bool-cases (same_id n.request_id id)) [
    | inl k ↦ rw k (
        any-put_row (one_time_mapping m) (mapping_of d n) _
          (λ a f. ground (arith, mapping_of-time n a f))
          (any-joined id l m ls own e (ground arith)))
    | inr k ↦ rw k (any-joined id l m ls own e (ground arith))
  ]

  joined-Apart :
      (id : Uuid) (ls : List LinkRow)
      → Apart one_time ls
      → Apart one_time_mapping (joined d (filter (λ (n : LinkRow). same_id n.request_id id) ls))
  joined-Apart id [] h = tt
  joined-Apart id (l ∷ ls) h = elim (Bool-cases (same_id l.request_id id)) [
    | inl k ↦ rw k (
        put_row-Apart one_time_mapping (mapping_of d l) _
          (λ m f. any-joined id l m ls (ground arith) (mapping_of-time l m f) h.0)
          (joined-Apart id ls h.1))
    | inr k ↦ rw k (joined-Apart id ls h.1)
  ]

  row_of-time :
      (l : LinkRow) (o : Option ServerDestinationMapping) (row : DestinationRow)
      → mapping_of d l ≡ o
      → Option.map (row_of l.request_id) o ≡ some row
      → (row.request_id ≡ l.request_id) × (row.mapping.added_at ≡ l.added_at)
  row_of-time l none row f e = cc
  row_of-time l (some m) row f e = ground (arith, mapping_of-time l m f)

  any-joined_rows :
      (l : LinkRow) (row : DestinationRow) (ls : List LinkRow)
      → (row.request_id ≡ l.request_id) × (row.mapping.added_at ≡ l.added_at)
      → any (one_time l) ls ≡ false
      → any (one_time_row row) (joined_rows d ls) ≡ false
  any-joined_rows l row [] e h = refl
  any-joined_rows l row (n ∷ ls) e h =
      any-put_row (one_time_row row) (Option.map (row_of n.request_id) (mapping_of d n)) _
        (λ a f. ground (arith, row_of-time n (mapping_of d n) a refl f))
        (any-joined_rows l row ls e (ground arith))

  joined_rows-Apart :
      (ls : List LinkRow) → Apart one_time ls → Apart one_time_row (joined_rows d ls)
  joined_rows-Apart [] h = tt
  joined_rows-Apart (l ∷ ls) h =
      put_row-Apart one_time_row (Option.map (row_of l.request_id) (mapping_of d l)) _
        (λ row f. any-joined_rows l row ls (row_of-time l (mapping_of d l) row refl f) h.0)
        (joined_rows-Apart ls h.1)

  ordered-timed :
      (ls : List LinkRow)
      → Apart one_time ls
      → sort (ordered_before d) (joined_rows d ls) ≡ sort timed (joined_rows d ls)
  ordered-timed ls h = sort-Agree (ordered_before d) timed (joined_rows d ls) (
      Apart-AllPairs one_time_row _ (joined_rows d ls) (λ a b e. ground arith)
        (joined_rows-Apart ls h))

everything : {A : Type 0} (xs : List A) → All (λ _. Unit {0}) xs
everything [] = tt
everything (x ∷ xs) = (tt, everything xs)

any-id :
    (id request : Uuid) (rs : List AnimeRequest)
    → any (λ (r : AnimeRequest). same_id r.id id) rs ≡ true
    → same_id request id ≡ true
    → any (λ (r : AnimeRequest). same_id r.id request) rs ≡ true
any-id id request [] h k = cc
any-id id request (r ∷ rs) h k = ground (arith, any-id id request rs)

-- The destinations of a request, in the order of time.
mappings_timed :
    (d : Db) (id : Uuid) (ls : List LinkRow)
    → Apart one_time ls
    → sort (added_before d) (joined d (filter (λ (l : LinkRow). same_id l.request_id id) ls))
      ≡ sort timed_mapping (joined d (filter (λ (l : LinkRow). same_id l.request_id id) ls))
mappings_timed d id ls h =
    sort-Agree (added_before d) timed_mapping _
      (Apart-AllPairs one_time_mapping _ _ (λ a b e. ground arith) (joined-Apart d id ls h))

-- The share of a request of the page is its own destinations.
share-destinations_of :
    (d : Db) (rs : List AnimeRequest) (r : AnimeRequest)
    → Apart one_time d.links
    → any (λ (q : AnimeRequest). same_id q.id r.id) rs ≡ true
    → share (destination_rows rs d) r ≡ destinations_of d r.id
unfolding destination_rows destinations_of
share-destinations_of d rs r times h =
    let on_page = λ (l : LinkRow). any (λ (q : AnimeRequest). same_id q.id l.request_id) rs in
    let rows : List DestinationRow = joined_rows d (filter on_page d.links) in
    ap (λ xs. map mapping_in (filter (of_request r.id) xs))
      (ordered-timed d (filter on_page d.links)
        (Apart-filter one_time one_time_comm on_page d.links times))
    ∙ ap (map mapping_in) (filter-sort timed timed_total timed_trans (of_request r.id) rows)
    ∙ map-sort timed timed_mapping mapping_in _ (timed_alike r.id) (filter (of_request r.id) rows)
        (All-filtered _ (of_request r.id) rows (everything rows))
    ∙ ap (λ xs. sort timed_mapping (map mapping_in xs))
        (filter-joined_rows d r.id (filter on_page d.links))
    ∙ ap (sort timed_mapping) (map-joined_rows d _)
    ∙ ap (λ ls. sort timed_mapping (joined d ls))
        (filter-wider d (λ (l : LinkRow). same_id l.request_id r.id) on_page d.links
          (λ l k. any-id r.id l.request_id rs h k))
    ∙ sym (mappings_timed d r.id d.links times)

abbrev pub attach : Db → AnimeRequest → AnimeRequest
attach d r = record r { server_destinations = destinations_of d r.id }

abbrev pub NoneYet : List AnimeRequest → Type 0
NoneYet rs = All (λ (r : AnimeRequest). r.server_destinations ≡ []) rs

-- Every item is found among the items.
own_ids :
    (rs : List AnimeRequest)
    → All (λ (r : AnimeRequest). any (λ (q : AnimeRequest). same_id q.id r.id) rs ≡ true) rs
own_ids [] = tt
own_ids (r ∷ rs) =
    (rw (same_id_refl r.id) refl, All-weaken _ _ rs (λ q h. rw h (ground arith)) (own_ids rs))

All-both :
    {A : Type 0} (P Q : A → Type 0) (xs : List A) → All P xs → All Q xs → All (λ x. P x × Q x) xs
All-both P Q [] a b = tt
All-both P Q (x ∷ xs) a b = ((a.0, b.0), All-both P Q xs a.1 b.1)

distribute-attach :
    (d : Db) (rs : List AnimeRequest)
    → Apart one_time d.links
    → NoneYet rs
    → distribute (destination_rows rs d) rs ≡ map (attach d) rs
distribute-attach d rs times fresh =
    distribute-share (destination_rows rs d) rs
    ∙ map-cong _ (attach d) _ rs
        (λ r h.
          ap (λ ds. record r { server_destinations = ds })
            (ap (λ ds. ds ++ share (destination_rows rs d) r) h.0
              ∙ share-destinations_of d rs r times h.1))
        (All-both _ _ rs fresh (own_ids rs))

Asks-load_for_multiple :
    (v : World) (rs : List AnimeRequest)
    → Apart one_time v.db.links
    → NoneYet rs
    → Asks {E = RepoError} v (load_for_multiple rs) (λ loaded. loaded ≡ map (attach v.db) rs)
unfolding load_for_multiple
Asks-load_for_multiple v [] times fresh = Asks-pure v []
Asks-load_for_multiple v (r ∷ rs) times fresh =
    Gives-ask v _ _ _ _ (Gives-map_err v _ _ _ (Asks-query v _)) (λ rows same.
      Gives-pure v _ _ (λ w s. (
        s,
        ap (λ (x : List DestinationRow). distribute x (r ∷ rs)) same
            ∙ distribute-attach v.db (r ∷ rs) times fresh,
      )))

-- The single query of List for the destinations of a whole page gives every request of the page the
-- destinations, in the order, that GetByID loads for it by itself, where no two links of a request were added
-- at the same time and the rows of the page have no destinations yet.
pub load_for_multiple-attach :
    (v : World) (rs : List AnimeRequest)
    → Apart one_time v.db.links
    → NoneYet rs
    → Returned (λ loaded w. loaded ≡ map (attach v.db) rs) (load_for_multiple rs v)
load_for_multiple-attach v rs times fresh =
    (Gives-weaken v _ _ _ (Asks-load_for_multiple v rs times fresh) (λ loaded w k. k.1)).at v
      (Alike-refl v)

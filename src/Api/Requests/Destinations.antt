-- ===== src/Api/Requests/Destinations.antt =====
-- internal/handler/api/requests.go: RemoveDestination and the number of destinations.
use mathlib.Core.Option
use anime_request_server.Prelude.{
  ℕ, suc, ◌≤◌, String, ◌≡◌, refl, sym, ap, ◌∙◌, subst, Bool, true, false, not, ◌&&◌, Bool-cases,
  inl, inr, Option, none, some, List, [], ◌∷◌, arith, leb, same_id, same_id_iff, find_sound,
  if◌then◌else◌, any, filter, length,
}
use anime_request_server.Models.{Uuid, AnimeRequest, ServerDestinationMapping}
use anime_request_server.Database.Tables.{Db, LinkRow, RequestRow}
use anime_request_server.Database.Apart.{Apart}
use anime_request_server.Database.Requests.{is_link, delete_link}
use anime_request_server.Database.Requests.Sort.{length-sort}
use anime_request_server.Server.{System, World, Effect, done, refuse}
use anime_request_server.Server.Returns.{
  Alike, Alike-refl, Returned, Gives, Asks, Gives-pure, Asks-or_stop, Gives-weaken, Asks-stop_if,
  Gives-ask, Gives-change, Gives-map_err, Gives-exec, Asks-query, Asks-pure,
}
use anime_request_server.Repository.Errors.{RepoError}
use anime_request_server.Repository.Requests.{remove_destination}
use anime_request_server.Repository.Requests.Loading.{attach}
use anime_request_server.Repository.Requests.Select.{
  find_user, find_request, join_user, scan_request, mapping_of, put_row, joined, destinations_of,
  select_request, get_by_id, with_destinations, added_before,
}
use anime_request_server.Api.Requests.{is_assigned, remove_destination_from}

abbrev pub same_link : LinkRow → LinkRow → Bool
same_link l m =
    same_id l.request_id m.request_id && same_id l.server_destination_id m.server_destination_id

-- PRIMARY KEY (request_id, server_destination_id)
abbrev pub LinksApart : Db → Type 0
LinksApart d = Apart same_link d.links

abbrev asked_for : Uuid → LinkRow → Bool
asked_for id l = same_id l.request_id id

nothing_removed :
    (id dest : Uuid) (ls : List LinkRow)
    → any (is_link id dest) ls ≡ false
    → filter (λ l. not (is_link id dest l)) ls ≡ ls
nothing_removed id dest [] h = refl
nothing_removed id dest (l ∷ ls) h = ground (arith, nothing_removed id dest ls)

-- No other link is that of the same pair.
others_differ :
    (id dest : Uuid) (l : LinkRow) (ls : List LinkRow)
    → is_link id dest l ≡ true
    → any (same_link l) ls ≡ false
    → any (is_link id dest) ls ≡ false
others_differ id dest l [] h k = refl
others_differ id dest l (m ∷ ls) h k = ground (arith, others_differ id dest l ls)

module _ (d : Db) where
  abbrev count_of : Uuid → List LinkRow → ℕ
  count_of id ls = length (joined d (filter (asked_for id) ls))

  put-length :
      (o : Option ServerDestinationMapping) (xs ys : List ServerDestinationMapping)
      → length xs ≤ suc (length ys)
      → length (put_row o xs) ≤ suc (length (put_row o ys))
  put-length none xs ys h = h
  put-length (some m) xs ys h = omega arith

  put-length-suc :
      (o : Option ServerDestinationMapping) (xs : List ServerDestinationMapping)
      → length (put_row o xs) ≤ suc (length xs)
  put-length-suc none xs = omega arith
  put-length-suc (some m) xs = omega arith

  one_removed :
      (id dest : Uuid) (ls : List LinkRow)
      → Apart same_link ls
      → count_of id ls ≤ suc (count_of id (filter (λ l. not (is_link id dest l)) ls))
  one_removed id dest [] a = omega arith
  one_removed id dest (l ∷ ls) a = elim (Bool-cases (is_link id dest l)) [
    | inl e ↦
        rw (e, nothing_removed id dest ls (others_differ id dest l ls e a.0))
          (one_more (asked_for id l) (filter (asked_for id) ls))
    | inr e ↦
        rw e (both_more (asked_for id l) (filter (asked_for id) ls) _ (one_removed id dest ls a.1))
  ]
    where
      one_more :
          (b : Bool) (xs : List LinkRow)
          → length (joined d (if b then l ∷ xs else xs)) ≤ suc (length (joined d xs))
      one_more true xs = put-length-suc (mapping_of d l) (joined d xs)
      one_more false xs = omega arith

      both_more :
          (b : Bool) (xs ys : List LinkRow)
          → length (joined d xs) ≤ suc (length (joined d ys))
          → length (joined d (if b then l ∷ xs else xs))
            ≤ suc (length (joined d (if b then l ∷ ys else ys)))
      both_more true xs ys h = put-length (mapping_of d l) (joined d xs) (joined d ys) h
      both_more false xs ys h = h

abbrev after_removal : Uuid → Uuid → Db → Db
after_removal id dest d = record d { links = filter (λ l. not (is_link id dest l)) d.links }

length-destinations_of :
    (d : Db) (id dest : Uuid)
    → LinksApart d
    → length (destinations_of d id) ≤ suc (length (destinations_of (after_removal id dest d) id))
unfolding destinations_of
length-destinations_of d id dest a = omega (
  arith,
  length-sort (added_before d) (joined d (filter (asked_for id) d.links)),
  length-sort (added_before (after_removal id dest d))
      (joined (after_removal id dest d) (filter (asked_for id) (after_removal id dest d).links)),
  same_joined (filter (asked_for id) (after_removal id dest d).links),
  one_removed d id dest d.links a,
)
  where
    same_joined :
        (ls : List LinkRow) → length (joined (after_removal id dest d) ls) ≡ length (joined d ls)
    same_joined [] = refl
    same_joined (l ∷ ls) = refl

map-some :
    {A B : Type 0} (f : A → B) (o : Option A) (b : B)
    → Option.map f o ≡ some b
    → (a : A) × (o ≡ some a) × (f a ≡ b)
map-some f none b h = absurd (ground arith)
map-some f (some a) b h = (a, refl, ground arith)

bind-some :
    {A B : Type 0} (f : A → Option B) (o : Option A) (b : B)
    → Option.bind o f ≡ some b
    → (a : A) × (o ≡ some a) × (f a ≡ some b)
unfolding Option.bind
bind-some f none b h = absurd (ground arith)
bind-some f (some a) b h = (a, refl, h)

-- The row of an identifier bears it.
select_request-id :
    (id : Uuid) (d : Db) (r : AnimeRequest) → select_request id d ≡ some r → r.id ≡ id
unfolding select_request
select_request-id id d r h =
    let (row, found, joined) = bind-some (join_user d) (find_request id d) r h in
    let (u, known, same) = map-some (scan_request row) (find_user row.requested_by d) r joined in
    sym (ap (λ (x : AnimeRequest). x.id) same)
    ∙ (same_id_iff row.id id).0
        (find_sound (λ (x : RequestRow). same_id x.id id) d.requests row found)

module _ (v : World) where
  Asks-with_destinations :
      (o : Option AnimeRequest)
      → Asks {E = RepoError} v (with_destinations o) (λ p. p ≡ Option.map (attach v.db) o)
  Asks-with_destinations none = Asks-pure v none
  Asks-with_destinations (some r) =
      Gives-ask v _ _ _ _ (Gives-map_err v _ _ _ (Asks-query v _)) (λ dests same.
        Gives-pure v _ _ (λ w s. (s, ap (λ ds. some (record r { server_destinations = ds })) same)))

  Asks-get_by_id :
      (id : Uuid)
      → Asks {E = RepoError} v
          (get_by_id id)
          (λ o. o ≡ Option.map (attach v.db) (select_request id v.db))
  unfolding get_by_id
  Asks-get_by_id id = Gives-ask v _ _ _ _ (Gives-map_err v _ _ _ (Asks-query v _)) (λ found same.
      Gives-weaken v _ _ _ (Asks-with_destinations found)
        (λ o w k. (k.0, k.1 ∙ ap (Option.map (attach v.db)) same)))

-- What RemoveDestination leaves: a destination of the request, and not the one removed.
pub record Removed (sys : System) (id_text dest_text : String) (v w : World) : Type 0 where
  pub id : Uuid
  pub dest : Uuid
  pub id_read : sys.parse_uuid id_text ≡ some id
  pub dest_read : sys.parse_uuid dest_text ≡ some dest
  pub db : w.db ≡ after_removal id dest v.db
  pub was_there : is_assigned dest (destinations_of v.db id) ≡ true
  pub one_left : 1 ≤ length (destinations_of w.db id)

Gives-remove_destination :
    (v : World) (id dest : Uuid)
    → Gives {E = RepoError} v
        (remove_destination id dest)
        (λ _ w. (u : World) × (u ≡ record v { db = after_removal id dest v.db }) × Alike u w)
unfolding remove_destination delete_link
Gives-remove_destination v id dest =
    Gives-weaken v _ _ _ (Gives-map_err v _ _ _ (Gives-exec v _))
      (λ _ w k. (k.0, k.1.2 ∙ ap (λ d. record v { db = d }) (done-db k.1.1), k.2))
  where
    db_of : Effect (Unit {0}) → Db → Db
    db_of (done a d) other = d
    db_of (refuse e) other = other

    done-db : {d e : Db} → done (tt {0}) d ≡ done tt e → e ≡ d
    done-db {d} {e} h = sym (ap (λ x. db_of x e) h)

two_or_more : (n : ℕ) → leb n 1 ≡ false → 2 ≤ n
two_or_more n h = ground arith

not-false : (b : Bool) → not b ≡ false → b ≡ true
not-false b h = ground arith

-- The request that GetByID found has the destinations of the identifier.
found_destinations :
    (id : Uuid) (d : Db) (o : Option AnimeRequest) (r : AnimeRequest)
    → o ≡ Option.map (attach d) (select_request id d)
    → o ≡ some r
    → r.server_destinations ≡ destinations_of d id
found_destinations id d o r found given =
    let (q, selected, same) = map-some (attach d) (select_request id d) r (sym found ∙ given) in
    sym (ap (λ (x : AnimeRequest). x.server_destinations) same)
    ∙ ap (destinations_of d) (select_request-id id d q selected)

module _ (sys : System) (id_text dest_text : String) (v : World) (apart : LinksApart v.db) where
  Gives-remove_destination_from :
      Gives v
        (remove_destination_from sys id_text dest_text)
        (λ r w. Removed sys id_text dest_text v w)
  unfolding remove_destination_from
  Gives-remove_destination_from =
      Gives-ask v _ _ _ _ (Asks-or_stop v (sys.parse_uuid id_text) _) λ id id_read.
        Gives-ask v _ _ _ _ (Asks-or_stop v (sys.parse_uuid dest_text) _) λ dest dest_read.
          Gives-ask v _ _ _ _ (Gives-map_err v _ _ _ (Asks-get_by_id v id)) λ o found.
            Gives-ask v _ _ _ _ (Asks-or_stop v o _) λ r given.
              Gives-ask v _ _ _ _ (Asks-stop_if v _ _) λ _ assigned.
                Gives-ask v _ _ _ _ (Asks-stop_if v _ _) λ _ several.
                  Gives-change v _ _ _ _
                    (Gives-map_err v _ _ _ (Gives-remove_destination v id dest))
                    λ _ u did. Gives-pure u _ _ (λ w s.
                      let same = found_destinations id v.db o r found given in
                      record {
                        id = id;
                        dest = dest;
                        id_read = id_read;
                        dest_read = dest_read;
                        db = s.db ∙ ap (λ (z : World). z.db) did;
                        was_there =
                            subst (λ ds. is_assigned dest ds ≡ true) same (not-false _ assigned);
                        one_left =
                            rw (s.db, did)
                              (omega (
                                arith,
                                length-destinations_of v.db id dest apart,
                                two_or_more (length (destinations_of v.db id)) (
                                    subst
                                      (λ (ds : List ServerDestinationMapping).
                                        leb (length ds) 1 ≡ false)
                                      same several),
                              ));
                      })

-- Whenever RemoveDestination returns, the destination was one of the request's, its link is gone and
-- nothing else, and the request still has a destination; where no pair is linked twice, as the
-- primary key has it.
pub remove_destination_from-Removed :
    (sys : System) (id_text dest_text : String) (v : World)
    → LinksApart v.db
    → Returned
        (λ r w. Removed sys id_text dest_text v w)
        (remove_destination_from sys id_text dest_text v)
remove_destination_from-Removed sys id_text dest_text v apart =
    (Gives-remove_destination_from sys id_text dest_text v apart).at v (Alike-refl v)

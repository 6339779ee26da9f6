-- ===== src/Database/Sound/Requests.antt =====
-- internal/repository/requests.go: the statements on requests, links and notes, and sound tables.
use anime_request_server.Prelude.{
  ℕ, String, ◌≡◌, refl, sym, ap, ◌∙◌, subst, true, not, ◌||◌, Bool-cases, inl, inr, Option, none,
  some, List, [], ◌∷◌, ◌++◌, arith, same_id, any, filter, find, All-append, All-filter,
  All-filtered, All-weaken, All-find,
}
use anime_request_server.Models.{Uuid}
use anime_request_server.Database.Tables.{Db, RequestRow, NoteRow}
use anime_request_server.Database.Apart.{
  Apart, Apart-append, Apart-filter, Apart-replace, replace, others,
}
use anime_request_server.Database.Requests.{
  request_id_clash, name_clash, alt_clash, check_violation, unique_violation, put_request,
  update_found, has_user, has_request, has_destination, is_link, insert_request,
  insert_request_or_skip, update_request, delete_request, insert_link, delete_link, insert_note,
  delete_note,
}
use anime_request_server.Database.Requests.Valid.{same_alt, alt_clashes, check_violation-valid_row}
use anime_request_server.Database.Requests.Names.{
  All-replace, row_id, id_comm, name_comm, alt_comm, refuse_or-post, if-post, unique_violation-none,
}
use anime_request_server.Database.Sound.{
  is_known, id_clash_comm, link_clash_comm, Grows, Grows-append, is_known-filter, request_id,
  IsSound, IsSound-requests, IsSound-destinations, RequestsSound, LinksSound-Grows,
  NotesSound-requests,
}
use anime_request_server.Server.Ensures.{EffectPost}

module _ (lower : String → String) (d : Db) (h : IsSound lower d) where
  abbrev Sound : {A : Type 0} → A → Db → Type 0
  Sound a e = IsSound lower e

  to_alts :
      (rs : List RequestRow)
      → Apart (alt_clash lower) rs
      → Apart (λ (r s : RequestRow). same_alt lower r.alt_name s.alt_name) rs
  to_alts rs a = subst (λ c. Apart c rs) (alt_clashes lower) a

  of_alts :
      (rs : List RequestRow)
      → Apart (λ (r s : RequestRow). same_alt lower r.alt_name s.alt_name) rs
      → Apart (alt_clash lower) rs
  of_alts rs a = subst (λ c. Apart c rs) (sym (alt_clashes lower)) a

  -- The requests changed, and none left.
  grown :
      (rs : List RequestRow)
      → Grows request_id d.requests rs
      → RequestsSound lower d.users rs
      → IsSound lower (record d { requests = rs })
  grown rs more k =
      IsSound-requests lower d h rs d.links d.notes k
        (LinksSound-Grows d.requests rs d.server_destinations d.server_destinations d.links more
          (λ i k. k) h.links)
        (NotesSound-requests d.users d.requests rs d.notes more h.notes)

  put :
      {A : Type 0} (r : RequestRow) (a : A)
      → check_violation lower r ≡ none
      → unique_violation lower d.requests r ≡ none
      → EffectPost Sound (put_request lower r a d)
  put r a c u =
      let (id, name, alt) = unique_violation-none lower d.requests r u in
      if-post lower _ (has_user r.requested_by d) _ _
        (λ known.
          grown (d.requests ++ r ∷ []) (Grows-append request_id d.requests (r ∷ [])) (record {
            ids = Apart-append request_id_clash (id_comm lower) d.requests r h.requests.ids id;
            names =
                Apart-append (name_clash lower) (name_comm lower) d.requests r h.requests.names
                  name;
            alts = to_alts _ (
                Apart-append (alt_clash lower) (alt_comm lower) d.requests r
                  (of_alts _ h.requests.alts) alt);
            checks =
                All-append _ d.requests (r ∷ []) h.requests.checks
                  (check_violation-valid_row lower r c, tt);
            requesters = All-append _ d.requests (r ∷ []) h.requests.requesters (known, tt);
          }))
        (λ _. tt)

  pub insert_request-IsSound : (r : RequestRow) → EffectPost Sound (insert_request lower r d)
  unfolding insert_request
  insert_request-IsSound r =
      refuse_or-post lower _ (check_violation lower r) _
        λ c. refuse_or-post lower _ (unique_violation lower d.requests r) _ λ u. put r tt c u

  pub insert_request_or_skip-IsSound :
      (r : RequestRow) → EffectPost Sound (insert_request_or_skip lower r d)
  unfolding insert_request_or_skip
  insert_request_or_skip-IsSound r = refuse_or-post lower _ (check_violation lower r) _ λ c.
      if-post lower _ (any (name_clash lower r) d.requests) _ _ (λ _. h)
        λ _. refuse_or-post lower _ (unique_violation lower d.requests r) _ λ u. put r 1 c u

  module _ (id : Uuid) (set : RequestRow → RequestRow) (same : (r : RequestRow) → (set r).id ≡ r.id)
      (requester : (r : RequestRow) → (set r).requested_by ≡ r.requested_by) where
    -- A row takes the place of the one with its identifier.
    is_known-replace :
        (new : RequestRow) (rs : List RequestRow) (i : Uuid)
        → new.id ≡ id
        → is_known request_id (replace row_id id new rs) i ≡ is_known request_id rs i
    is_known-replace new [] i e = refl
    is_known-replace new (r ∷ rs) i e = elim (Bool-cases (same_id r.id id)) [
      | inl k ↦
          rw (k, is_known-replace new rs i e)
            (ap (λ b. b || is_known request_id rs i) (same_as new.id r.id id i e k))
      | inr k ↦ rw (k, is_known-replace new rs i e) refl
    ]
      where
        same_as : (m n id i : ℕ) → m ≡ id → same_id n id ≡ true → same_id m i ≡ same_id n i
        same_as m n id i e k = ground arith

    found_id :
        (rs : List RequestRow) (old : RequestRow)
        → find (λ (r : RequestRow). same_id r.id id) rs ≡ some old
        → old.id ≡ id
    found_id [] old e = cc
    found_id (r ∷ rs) old e = ground (arith, found_id rs old)

    update_found-IsSound :
        (o : Option RequestRow)
        → find (λ (r : RequestRow). same_id r.id id) d.requests ≡ o
        → EffectPost Sound (update_found lower id set d o)
    update_found-IsSound none e = h
    update_found-IsSound (some old) e =
        refuse_or-post lower _ (check_violation lower (set old)) _ λ c.
          refuse_or-post lower _ (unique_violation lower (others row_id id d.requests) (set old)) _
            λ u.
              let (one, name, alt) =
                unique_violation-none lower (others row_id id d.requests) (set old) u in
              let ids = h.requests.ids in
              grown (replace row_id id (set old) d.requests)
                (λ i k.
                  is_known-replace (set old) d.requests i (same old ∙ found_id d.requests old e)
                  ∙ k)
                (record {
                  ids =
                      Apart-replace request_id_clash (id_comm lower) row_id id (set old) d.requests
                        ids ids one;
                  names =
                      Apart-replace (name_clash lower) (name_comm lower) row_id id (set old)
                        d.requests ids h.requests.names name;
                  alts = to_alts _ (
                      Apart-replace (alt_clash lower) (alt_comm lower) row_id id (set old)
                        d.requests ids (of_alts _ h.requests.alts) alt);
                  checks =
                      All-replace _ row_id id (set old) d.requests
                        (check_violation-valid_row lower (set old) c) h.requests.checks;
                  requesters =
                      All-replace _ row_id id (set old) d.requests
                        (rw (requester old) (All-find _ _ d.requests old h.requests.requesters e))
                        h.requests.requesters;
                })

    pub update_request-IsSound : EffectPost Sound (update_request lower id set d)
    unfolding update_request
    update_request-IsSound =
        update_found-IsSound (find (λ (r : RequestRow). same_id r.id id) d.requests) refl

  other : (i j k : ℕ) → same_id i j ≡ true → not (same_id j k) ≡ true → not (same_id i k) ≡ true
  other i j k e n = ground arith

  -- The links and the notes of the request go with it.
  pub delete_request-IsSound : (id : Uuid) → EffectPost Sound (delete_request id d)
  unfolding delete_request
  delete_request-IsSound id =
      IsSound-requests lower d h _ _ _
        (record {
          ids = Apart-filter _ (id_comm lower) _ d.requests h.requests.ids;
          names = Apart-filter _ (name_comm lower) _ d.requests h.requests.names;
          alts =
              to_alts _ (Apart-filter _ (alt_comm lower) _ d.requests (of_alts _ h.requests.alts));
          checks = All-filter _ _ d.requests h.requests.checks;
          requesters = All-filter _ _ d.requests h.requests.requesters;
        })
        (record {
          pairs = Apart-filter _ link_clash_comm _ d.links h.links.pairs;
          requests =
              All-weaken _ _ (filter (λ l. not (same_id l.request_id id)) d.links)
                (λ l k.
                  is_known-filter request_id (λ r. not (same_id r.id id)) d.requests l.request_id
                    (λ r e. other r.id l.request_id id e k.1) k.0)
                (All-filtered _ (λ l. not (same_id l.request_id id)) d.links h.links.requests);
          destinations = All-filter _ _ d.links h.links.destinations;
        })
        (record {
          ids = Apart-filter _ (id_clash_comm (λ n. n.id)) _ d.notes h.notes.ids;
          requests =
              All-weaken _ _ (filter (λ n. not (same_id n.request_id id)) d.notes)
                (λ n k.
                  is_known-filter request_id (λ r. not (same_id r.id id)) d.requests n.request_id
                    (λ r e. other r.id n.request_id id e k.1) k.0)
                (All-filtered _ (λ n. not (same_id n.request_id id)) d.notes h.notes.requests);
          authors = All-filter _ _ d.notes h.notes.authors;
        })

  pub insert_link-IsSound :
      (now : ℕ) (request dest : Uuid) → EffectPost Sound (insert_link now request dest d)
  unfolding insert_link
  insert_link-IsSound now request dest =
      if-post lower _ (any (is_link request dest) d.links) _ _ (λ _. h)
        λ new.
          if-post lower _ (not (has_request request d)) _ _ (λ _. tt)
            λ known.
              if-post lower _ (not (has_destination dest d)) _ _ (λ _. tt)
                λ there.
                  IsSound-destinations lower d h d.server_destinations _ h.destinations (record {
                    pairs = Apart-append _ link_clash_comm d.links _ h.links.pairs new;
                    requests = All-append _ d.links _ h.links.requests (ground arith, tt);
                    destinations = All-append _ d.links _ h.links.destinations (ground arith, tt);
                  })

  pub delete_link-IsSound : (request dest : Uuid) → EffectPost Sound (delete_link request dest d)
  unfolding delete_link
  delete_link-IsSound request dest =
      IsSound-destinations lower d h d.server_destinations _ h.destinations (record {
        pairs = Apart-filter _ link_clash_comm _ d.links h.links.pairs;
        requests = All-filter _ _ d.links h.links.requests;
        destinations = All-filter _ _ d.links h.links.destinations;
      })

  pub insert_note-IsSound : (n : NoteRow) → EffectPost Sound (insert_note n d)
  unfolding insert_note
  insert_note-IsSound n =
      if-post lower _ (any (λ (m : NoteRow). same_id m.id n.id) d.notes) _ _ (λ _. tt)
        λ id.
          if-post lower _ (not (has_request n.request_id d)) _ _ (λ _. tt)
            λ known.
              if-post lower _ (not (has_user n.author_id d)) _ _ (λ _. tt)
                λ author.
                  IsSound-requests lower d h d.requests d.links _ h.requests h.links (record {
                    ids = Apart-append _ (id_clash_comm (λ m. m.id)) d.notes n h.notes.ids id;
                    requests = All-append _ d.notes (n ∷ []) h.notes.requests (ground arith, tt);
                    authors = All-append _ d.notes (n ∷ []) h.notes.authors (ground arith, tt);
                  })

  pub delete_note-IsSound : (request note : Uuid) → EffectPost Sound (delete_note request note d)
  unfolding delete_note
  delete_note-IsSound request note =
      IsSound-requests lower d h d.requests d.links _ h.requests h.links (record {
        ids = Apart-filter _ (id_clash_comm (λ n. n.id)) _ d.notes h.notes.ids;
        requests = All-filter _ _ d.notes h.notes.requests;
        authors = All-filter _ _ d.notes h.notes.authors;
      })

-- ===== src/Web/Edit/Destinations.antt =====
-- internal/handler/web/handler.go: the loops of requestEditSubmit over the destinations.
use anime_request_server.Prelude.{
  ℕ, String, ◌≡◌, refl, sym, ap, ◌∙◌, Bool, true, false, not, ◌&&◌, ◌||◌, Bool-cases, inl, inr, ◌⊎◌,
  Option, none, some, List, [], ◌∷◌, ◌++◌, any, any-append, filter, same_id, arith,
}
use anime_request_server.Models.{Uuid, ServerDestinationMapping}
use anime_request_server.Database.Tables.{Db, LinkRow}
use anime_request_server.Database.Requests.{is_link, insert_link, delete_link}
use anime_request_server.Server.{System, World, Effect, done, refuse}
use anime_request_server.Server.Returns.{
  Alike, Gives, Gives-pure, Gives-weaken, Gives-change, Gives-map_err, Gives-exec,
}
use anime_request_server.Repository.Requests.{add_destination, remove_destination}
use anime_request_server.Web.Edit.{
  add_parsed, add_unless, is_listed, add_selected, remove_unless, remove_unselected, texts_of,
  update_destinations,
}

abbrev pub linked : Uuid → Uuid → Db → Bool
linked request dest d = any (is_link request dest) d.links

abbrev pub is_pair : Uuid → Uuid → Uuid → Uuid → Bool
is_pair request dest r x = same_id request r && same_id dest x

same_pair :
    (request dest r x : Uuid) (ls : List LinkRow)
    → is_pair request dest r x ≡ true
    → any (is_link r x) ls ≡ any (is_link request dest) ls
same_pair request dest r x [] h = refl
same_pair request dest r x (l ∷ ls) h = ground (arith, same_pair request dest r x ls h)

delete_link-links :
    (request dest : Uuid) (d e : Db)
    → delete_link request dest d ≡ done tt e
    → e.links ≡ filter (λ l. not (is_link request dest l)) d.links
unfolding delete_link
delete_link-links request dest d e h = sym (ap links_of h)
  where
    links_of : Effect (Unit {0}) → List LinkRow
    links_of (done a f) = f.links
    links_of (refuse r) = []

insert_link-cases :
    (now : ℕ) (request dest : Uuid) (d e : Db)
    → insert_link now request dest d ≡ done tt e
    → ((any (is_link request dest) d.links ≡ true) × (e.links ≡ d.links))
      ⊎ (e.links
          ≡ d.links
            ++ record { request_id = request; server_destination_id = dest; added_at = now } ∷ [])
unfolding insert_link
insert_link-cases now request dest d e h = ground arith

insert_link-linked :
    (now : ℕ) (request dest : Uuid) (d e : Db) (r x : Uuid)
    → insert_link now request dest d ≡ done tt e
    → linked r x e ≡ (linked r x d || is_pair request dest r x)
insert_link-linked now request dest d e r x h = elim (insert_link-cases now request dest d e h) [
  | inl k ↦ rw k.1 (elim (Bool-cases (is_pair request dest r x)) [
    | inl p ↦ ground (arith, same_pair request dest r x d.links p, k.0)
    | inr p ↦ ground arith
  ])
  | inr k ↦
      rw
        (
          k,
          any-append (is_link r x) d.links
              (record { request_id = request; server_destination_id = dest; added_at = now } ∷ []),
        )
        (ground arith)
]

delete_link-linked :
    (request dest : Uuid) (r x : Uuid) (ls : List LinkRow)
    → any (is_link r x) (filter (λ l. not (is_link request dest l)) ls)
      ≡ (any (is_link r x) ls && not (is_pair request dest r x))
delete_link-linked request dest r x [] = refl
delete_link-linked request dest r x (l ∷ ls) =
    ground (arith, delete_link-linked request dest r x ls)

-- The links that were there, and those of `f`.
abbrev Added : (Uuid → Uuid → Bool) → World → World → Type 0
Added f v u = (r x : Uuid) → linked r x u.db ≡ (linked r x v.db || f r x)

-- The links that were there, but not those of `f`.
abbrev Dropped : (Uuid → Uuid → Bool) → World → World → Type 0
Dropped f v u = (r x : Uuid) → linked r x u.db ≡ (linked r x v.db && not (f r x))

abbrev pub Leads : World → (World → Type 0) → Unit {0} → World → Type 0
Leads v K a w = (u : World) × K u × Alike u w

abbrev pub adds_one : Uuid → Bool → Option Uuid → Uuid → Uuid → Bool
adds_one id true o r x = false
adds_one id false none r x = false
adds_one id false (some dest) r x = is_pair id dest r x

abbrev pub drops_one : Uuid → Bool → Uuid → Uuid → Uuid → Bool
drops_one id true dest r x = false
drops_one id false dest r x = is_pair id dest r x

module _ (sys : System) (id : Uuid) where
  Gives-add_unless :
      (v : World) (b : Bool) (s : String)
      → Gives v (add_unless sys id b s) (Leads v (Added (adds_one id b (sys.parse_uuid s)) v))
  unfolding add_destination
  Gives-add_unless v true s = Gives-pure v tt _ (λ w k. (v, (λ r x. ground arith), k))
  Gives-add_unless v false s = by_text (sys.parse_uuid s)
    where
      by_text :
          (o : Option Uuid) → Gives v (add_parsed id o) (Leads v (Added (adds_one id false o) v))
      by_text none = Gives-pure v tt _ (λ w k. (v, (λ r x. ground arith), k))
      by_text (some dest) =
          Gives-weaken v _ _ _ (Gives-map_err v _ _ _ (Gives-map_err v _ _ _ (Gives-exec v _)))
            (λ _ w k.
              (k.0, (λ r x. rw k.1.2 (insert_link-linked v.now id dest v.db k.1.0 r x k.1.1)), k.2))

  abbrev pub is_added : List String → List String → Uuid → Uuid → Bool
  is_added known texts r x = any (λ s. adds_one id (is_listed known s) (sys.parse_uuid s) r x) texts

  Gives-add_selected :
      (v : World) (known texts : List String)
      → Gives v (add_selected sys id known texts) (Leads v (Added (is_added known texts) v))
  unfolding add_selected
  Gives-add_selected v known [] = Gives-pure v tt _ (λ w k. (v, (λ r x. ground arith), k))
  Gives-add_selected v known (s ∷ ss) =
      Gives-change v _ _ _ _ (Gives-add_unless v (is_listed known s) s) (λ _ y did.
        Gives-weaken y _ _ _ (Gives-add_selected y known ss)
          (λ _ w k. (k.0, (λ r x. rw (k.1 r x, did r x) (ground arith)), k.2)))

  Gives-remove_unless :
      (v : World) (b : Bool) (dest : Uuid)
      → Gives v (remove_unless id b dest) (Leads v (Dropped (drops_one id b dest) v))
  unfolding remove_destination
  Gives-remove_unless v true dest = Gives-pure v tt _ (λ w k. (v, (λ r x. ground arith), k))
  Gives-remove_unless v false dest =
      Gives-weaken v _ _ _ (Gives-map_err v _ _ _ (Gives-map_err v _ _ _ (Gives-exec v _)))
        (λ _ w k. (
          k.0,
          (λ r x.
              rw (k.1.2, delete_link-links id dest v.db k.1.0 k.1.1)
                (delete_link-linked id dest r x v.db.links)),
          k.2,
        ))

  abbrev pub is_dropped :
      (Uuid → String) → List String → List ServerDestinationMapping → Uuid → Uuid → Bool
  is_dropped uuid_string texts ms r x =
      any
        (λ (m : ServerDestinationMapping).
          drops_one id (is_listed texts (uuid_string m.id)) m.id r x)
        ms

  Gives-remove_unselected :
      (v : World) (uuid_string : Uuid → String) (texts : List String)
      (ms : List ServerDestinationMapping)
      → Gives v
          (remove_unselected uuid_string id texts ms)
          (Leads v (Dropped (is_dropped uuid_string texts ms) v))
  unfolding remove_unselected
  Gives-remove_unselected v uuid_string texts [] =
      Gives-pure v tt _ (λ w k. (v, (λ r x. ground arith), k))
  Gives-remove_unselected v uuid_string texts (m ∷ ms) =
      Gives-change v _ _ _ _ (Gives-remove_unless v (is_listed texts (uuid_string m.id)) m.id)
        (λ _ y did.
          Gives-weaken y _ _ _ (Gives-remove_unselected y uuid_string texts ms)
            (λ _ w k. (k.0, (λ r x. rw (k.1 r x, did r x) (ground arith)), k.2)))

  -- What is linked after the changes, where some text was selected.
  abbrev pub Changed :
      (Uuid → String) → List ServerDestinationMapping → List String → World → World → Type 0
  Changed uuid_string existing texts v u =
      (r x : Uuid)
      → linked r x u.db ≡ (
          (linked r x v.db || is_added (texts_of uuid_string existing) texts r x)
          && not (is_dropped uuid_string texts existing r x))

  pub Gives-update_destinations :
      (v : World) (uuid_string : Uuid → String) (existing : List ServerDestinationMapping)
      (s : String) (ss : List String)
      → Gives v
          (update_destinations sys uuid_string id existing (s ∷ ss))
          (Leads v (Changed uuid_string existing (s ∷ ss) v))
  unfolding update_destinations
  Gives-update_destinations v uuid_string existing s ss =
      Gives-change v _ _ _ _ (Gives-add_selected v (texts_of uuid_string existing) (s ∷ ss))
        (λ _ y did.
          Gives-weaken y _ _ _ (Gives-remove_unselected y uuid_string (s ∷ ss) existing)
            (λ _ w k. (k.0, (λ r x. k.1 r x ∙ rw (did r x) refl), k.2)))

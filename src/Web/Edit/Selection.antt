-- ===== src/Web/Edit/Selection.antt =====
-- internal/handler/web/handler.go: requestEditSubmit and the selected destinations.
use anime_request_server.Prelude.{
  String, ◌≡◌, refl, sym, ◌∙◌, subst, Bool, true, false, not, ◌&&◌, ◌||◌, Bool-cases, inl, inr, ◌⊎◌,
  Option, none, some, List, [], ◌∷◌, any, All, same_id, same_id_iff, same_id_refl, ◌==◌, eq_iff,
  eq_refl, if◌then◌else◌, arith,
}
use anime_request_server.Models.{Uuid, ServerDestinationMapping}
use anime_request_server.Server.{System, World}
use anime_request_server.Server.Returns.{Alike-refl, Returned, Gives-weaken}
use anime_request_server.Web.Edit.{is_listed, texts_of, update_destinations}
use anime_request_server.Web.Edit.Destinations.{
  linked, is_pair, adds_one, drops_one, is_added, is_dropped, Changed, Gives-update_destinations,
}

-- The texts are those that UUID.String prints, as the checkboxes of the page have them.
abbrev pub AllPrinted : System → (Uuid → String) → List String → Type 0
AllPrinted sys uuid_string texts =
    All (λ s. (x : Uuid) × (sys.parse_uuid s ≡ some x) × (uuid_string x ≡ s)) texts

-- UUID.String prints different identifiers differently.
abbrev pub PrintsApart : (Uuid → String) → Type 0
PrintsApart uuid_string = (x y : Uuid) → uuid_string x ≡ uuid_string y → x ≡ y

abbrev pub is_among : List ServerDestinationMapping → Uuid → Bool
is_among ms x = any (λ (m : ServerDestinationMapping). same_id m.id x) ms

module _ (sys : System) (id : Uuid) (uuid_string : Uuid → String) where
  printed_same :
      PrintsApart uuid_string → (x y : Uuid) → (uuid_string x == uuid_string y) ≡ same_id x y
  printed_same apart x y = elim (Bool-cases (same_id x y)) [
    | inl e ↦ rw (e, (same_id_iff x y).0 e) (eq_refl (uuid_string y))
    | inr e ↦ elim (Bool-cases (uuid_string x == uuid_string y)) [
      | inl f ↦ absurd (
          ground (arith, same_id_iff x y, apart x y ((eq_iff (uuid_string x) (uuid_string y)).0 f)))
      | inr f ↦ f ∙ sym e
    ]
  ]

  listed-texts_of :
      PrintsApart uuid_string
      → (ms : List ServerDestinationMapping) (x : Uuid)
      → is_listed (texts_of uuid_string ms) (uuid_string x) ≡ is_among ms x
  listed-texts_of apart [] x = refl
  listed-texts_of apart (m ∷ ms) x = rw (printed_same apart m.id x, listed-texts_of apart ms x) refl

  drops_one-own :
      (texts : List String) (y x : Uuid)
      → drops_one id (is_listed texts (uuid_string y)) y id x
        ≡ (same_id y x && not (is_listed texts (uuid_string x)))
  drops_one-own texts y x = elim (Bool-cases (same_id y x)) [
    | inl e ↦ rw ((same_id_iff y x).0 e) (by_listed (is_listed texts (uuid_string x)))
    | inr e ↦ by_other (is_listed texts (uuid_string y)) e
  ]
    where
      by_listed : (b : Bool) → drops_one id b x id x ≡ (same_id x x && not b)
      by_listed true = ground arith
      by_listed false = rw (same_id_refl id, same_id_refl x) refl

      by_other :
          (b : Bool)
          → same_id y x ≡ false
          → drops_one id b y id x ≡ (same_id y x && not (is_listed texts (uuid_string x)))
      by_other true e = rw e refl
      by_other false e = rw (e, same_id_refl id) refl

  is_dropped-own :
      (texts : List String) (ms : List ServerDestinationMapping) (x : Uuid)
      → is_dropped sys id uuid_string texts ms id x
        ≡ (is_among ms x && not (is_listed texts (uuid_string x)))
  is_dropped-own texts [] x = refl
  is_dropped-own texts (m ∷ ms) x =
      rw (drops_one-own texts m.id x, is_dropped-own texts ms x) (ground arith)

  adds_one-own :
      PrintsApart uuid_string
      → (known : List String) (s : String) (y x : Uuid) → uuid_string y ≡ s
      → adds_one id (is_listed known s) (some y) id x
        ≡ ((s == uuid_string x) && not (is_listed known (uuid_string x)))
  adds_one-own apart known s y x same =
      subst
        (λ t.
          adds_one id (is_listed known t) (some y) id x
          ≡ ((t == uuid_string x) && not (is_listed known (uuid_string x))))
        same (rw (printed_same apart y x) (by_same (Bool-cases (same_id y x))))
    where
      by_listed : (b : Bool) → adds_one id b (some x) id x ≡ (same_id x x && not b)
      by_listed true = ground arith
      by_listed false = rw (same_id_refl id, same_id_refl x) refl

      by_other :
          (b : Bool)
          → same_id y x ≡ false
          → adds_one id b (some y) id x ≡ (same_id y x && not (is_listed known (uuid_string x)))
      by_other true e = rw e refl
      by_other false e = rw (e, same_id_refl id) refl

      by_same :
          (same_id y x ≡ true) ⊎ (same_id y x ≡ false)
          → adds_one id (is_listed known (uuid_string y)) (some y) id x
            ≡ (same_id y x && not (is_listed known (uuid_string x)))
      by_same (inl e) = rw ((same_id_iff y x).0 e) (by_listed (is_listed known (uuid_string x)))
      by_same (inr e) = by_other (is_listed known (uuid_string y)) e

  is_added-own :
      PrintsApart uuid_string
      → (known texts : List String) (x : Uuid) → AllPrinted sys uuid_string texts
      → is_added sys id known texts id x
        ≡ (is_listed texts (uuid_string x) && not (is_listed known (uuid_string x)))
  is_added-own apart known [] x h = refl
  is_added-own apart known (s ∷ ss) x h =
      rw (h.0.1, adds_one-own apart known s h.0.0 x h.0.2, is_added-own apart known ss x h.1)
        (ground arith)

  is_pair-other : (y r x : Uuid) → same_id id r ≡ false → is_pair id y r x ≡ false
  is_pair-other y r x h = rw h refl

  is_dropped-other :
      (texts : List String) (ms : List ServerDestinationMapping) (r x : Uuid)
      → same_id id r ≡ false
      → is_dropped sys id uuid_string texts ms r x ≡ false
  is_dropped-other texts [] r x h = refl
  is_dropped-other texts (m ∷ ms) r x h =
      rw (by_listed (is_listed texts (uuid_string m.id)), is_dropped-other texts ms r x h) refl
    where
      by_listed : (b : Bool) → drops_one id b m.id r x ≡ false
      by_listed true = refl
      by_listed false = is_pair-other m.id r x h

  is_added-other :
      (known texts : List String) (r x : Uuid)
      → same_id id r ≡ false
      → is_added sys id known texts r x ≡ false
  is_added-other known [] r x h = refl
  is_added-other known (s ∷ ss) r x h =
      rw (by_text (is_listed known s) (sys.parse_uuid s), is_added-other known ss r x h) refl
    where
      by_text : (b : Bool) (o : Option Uuid) → adds_one id b o r x ≡ false
      by_text true o = refl
      by_text false none = refl
      by_text false (some y) = is_pair-other y r x h

  selected_links :
      (existing : List ServerDestinationMapping) (texts : List String) (v u : World) (r x : Uuid)
      → PrintsApart uuid_string
      → AllPrinted sys uuid_string texts
      → ((y : Uuid) → linked id y v.db ≡ is_among existing y)
      → Changed sys id uuid_string existing texts v u
      → linked r x u.db
        ≡ (if same_id id r then is_listed texts (uuid_string x) else linked r x v.db)
  selected_links existing texts v u r x apart printed all changed =
      changed r x ∙ by_request (Bool-cases (same_id id r))
    where
      by_request :
          (same_id id r ≡ true) ⊎ (same_id id r ≡ false)
          → ((linked r x v.db || is_added sys id (texts_of uuid_string existing) texts r x)
              && not (is_dropped sys id uuid_string texts existing r x))
            ≡ (if same_id id r then is_listed texts (uuid_string x) else linked r x v.db)
      by_request (inl e) =
          rw
            (
              sym ((same_id_iff id r).0 e),
              same_id_refl id,
              all x,
              is_added-own apart (texts_of uuid_string existing) texts x printed,
              listed-texts_of apart existing x,
              is_dropped-own texts existing x,
            )
            (ground arith)
      by_request (inr e) =
          rw
            (
              e,
              is_added-other (texts_of uuid_string existing) texts r x e,
              is_dropped-other texts existing r x e,
            )
            (ground arith)

-- Whenever the part of requestEditSubmit that follows its UPDATE returns, the request is linked to exactly the
-- selected destinations and no other request's links have changed, where some text was selected, the
-- texts are those that UUID.String prints, which prints different identifiers differently, and the
-- destinations that were loaded are those of the links.
pub update_destinations-selected :
    (sys : System) (id : Uuid) (uuid_string : Uuid → String)
    (existing : List ServerDestinationMapping) (s : String) (ss : List String) (v : World)
    (r x : Uuid)
    → PrintsApart uuid_string
    → AllPrinted sys uuid_string (s ∷ ss)
    → ((y : Uuid) → linked id y v.db ≡ is_among existing y)
    → Returned
        (λ _ w.
          linked r x w.db
          ≡ (if same_id id r then is_listed (s ∷ ss) (uuid_string x) else linked r x v.db))
        (update_destinations sys uuid_string id existing (s ∷ ss) v)
update_destinations-selected sys id uuid_string existing s ss v r x apart printed all =
    let gives =
      Gives-weaken v _ _ _ (Gives-update_destinations sys id v uuid_string existing s ss) (λ _ w k.
        rw k.2.db
          (selected_links sys id uuid_string existing (s ∷ ss) v k.0 r x apart printed all k.1)) in
    gives.at v (Alike-refl v)

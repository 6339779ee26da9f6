-- ===== src/Database/Apart.antt =====
-- Lists whose items do not clash, for a symmetric Boolean relation: how a table meets its unique
-- constraints, and what an insert, a delete and an update do to that.
use anime_request_server.Prelude.{
  ℕ, ◌≡◌, refl, Bool, true, false, List, [], ◌∷◌, ◌++◌, arith, same_id, if◌then◌else◌, any, filter,
  find, some, any-find, Bool-cases, inl, inr, any-append,
}

module _ {ℓ} {A : Type ℓ} where
  abbrev pub Apart : (A → A → Bool) → List A → Type 0
  Apart clash [] = Unit {0}
  Apart clash (x ∷ xs) = (any (clash x) xs ≡ false) × Apart clash xs

  -- UPDATE … WHERE id = …, for the row that becomes `new`.
  abbrev pub replace : (A → ℕ) → ℕ → A → List A → List A
  replace key id new [] = []
  replace key id new (x ∷ xs) = (if same_id (key x) id then new else x) ∷ replace key id new xs

  abbrev pub others : (A → ℕ) → ℕ → List A → List A
  others key id = filter λ x. if same_id (key x) id then false else true

module _ {ℓ} {A : Type ℓ} (clash : A → A → Bool) (sym : (x y : A) → clash x y ≡ clash y x) where
  pub Apart-append :
      (xs : List A) (y : A) → Apart clash xs → any (clash y) xs ≡ false → Apart clash (xs ++ y ∷ [])
  Apart-append [] y h k = (refl, tt)
  Apart-append (x ∷ xs) y h k =
      (rw any-append (ground (arith, sym x y)), Apart-append xs y h.1 (ground arith))

  any-filter : (p q : A → Bool) (xs : List A) → any p xs ≡ false → any p (filter q xs) ≡ false
  any-filter p q [] h = refl
  any-filter p q (x ∷ xs) h = ground (arith, any-filter p q xs)

  pub Apart-filter : (p : A → Bool) (xs : List A) → Apart clash xs → Apart clash (filter p xs)
  Apart-filter p [] h = tt
  Apart-filter p (x ∷ xs) h = ground (arith, Apart-filter p xs h.1, any-filter (clash x) p xs h.0)

  -- The row of an id clashes with none of the others.
  pub Apart-others :
      (key : A → ℕ) (id : ℕ) (xs : List A) (old : A)
      → find (λ x. same_id (key x) id) xs ≡ some old
      → Apart clash xs
      → any (clash old) (others key id xs) ≡ false
  Apart-others key id [] old e h = cc
  Apart-others key id (x ∷ xs) old e h = ground (
    arith,
    Apart-others key id xs old,
    any-filter (clash x) (λ y. if same_id (key y) id then false else true) xs h.0,
    any-find (clash x) (λ y. same_id (key y) id) xs old h.0,
    sym x old,
  )

  module _ (key : A → ℕ) (id : ℕ) (new : A) where
    -- no row of that id, no change
    replace-none :
        (xs : List A)
        → any (λ y. same_id (key y) id) xs ≡ false
        → (replace key id new xs ≡ xs) × (others key id xs ≡ xs)
    replace-none [] h = (refl, refl)
    replace-none (x ∷ xs) h = ground (arith, replace-none xs)

    any-replace :
        (x : A) (xs : List A)
        → any (clash x) xs ≡ false
        → clash x new ≡ false
        → any (clash x) (replace key id new xs) ≡ false
    any-replace x [] h k = refl
    any-replace x (y ∷ ys) h k = ground (arith, any-replace x ys)

    id_ne :
        (x : A) (xs : List A)
        → same_id (key x) id ≡ true
        → any (λ y. same_id (key x) (key y)) xs ≡ false
        → any (λ y. same_id (key y) id) xs ≡ false
    id_ne x [] e h = refl
    id_ne x (y ∷ ys) e h = ground (arith, id_ne x ys e)

    pub Apart-replace :
        (xs : List A)
        → Apart (λ x y. same_id (key x) (key y)) xs
        → Apart clash xs
        → any (clash new) (others key id xs) ≡ false
        → Apart clash (replace key id new xs)
    Apart-replace [] u h k = tt
    Apart-replace (x ∷ xs) (u, us) (h, hs) k = elim (Bool-cases (same_id (key x) id)) [
      | inl e ↦
          let (kept, all) = replace-none xs (id_ne x xs e u) in rw (e, kept) (rw (e, all) at k, hs)
      | inr e ↦
          let k' = rw e at k in
          rw e
            (any-replace x xs h (ground (arith, sym x new)), Apart-replace xs us hs (ground arith))
    ]

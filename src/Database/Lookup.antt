-- ===== src/Database/Lookup.antt =====
-- A table as a function from identifiers to rows, and what an insert, a delete and an update do to it.
use anime_request_server.Prelude.{
  ℕ, ◌≡◌, refl, Bool, true, false, ◌&&◌, Bool-cases, inl, inr, Option, none, some, List, [], ◌∷◌,
  ◌++◌, arith, same_id, if◌then◌else◌, any, filter, find, is_some,
}
use anime_request_server.Database.Apart.{Apart, replace}

abbrev pub kept {ℓ} : {A : Type ℓ} → (A → Bool) → Option A → Option A
kept p none = none
kept p (some a) = if p a then some a else none

module _ {ℓ} {A : Type ℓ} where
  -- A filter that treats all items of a kind alike.
  pub any-filter_const :
      (p k : A → Bool) (c : Bool) (xs : List A)
      → ((x : A) → p x ≡ true → k x ≡ c)
      → any p (filter k xs) ≡ (c && any p xs)
  any-filter_const p k true [] h = refl
  any-filter_const p k false [] h = refl
  any-filter_const p k c (x ∷ xs) h = ground (arith, h x, any-filter_const p k c xs h)

  any_or_none : (p q : A → Bool) (xs : List A) → any p xs ≡ false → find p (filter q xs) ≡ none
  any_or_none p q [] h = refl
  any_or_none p q (x ∷ xs) h = ground (arith, any_or_none p q xs)

module _ {ℓ} {A : Type ℓ} (key : A → ℕ) where
  abbrev pub at : ℕ → List A → Option A
  at id xs = find (λ x. same_id (key x) id) xs

  abbrev pub knows : List A → ℕ → Bool
  knows xs id = any (λ x. same_id (key x) id) xs

  abbrev pub ids_clash : A → A → Bool
  ids_clash x y = same_id (key x) (key y)

  pub is_some-at : (id : ℕ) (xs : List A) → is_some (at id xs) ≡ knows xs id
  is_some-at id [] = refl
  is_some-at id (x ∷ xs) = ground (arith, is_some-at id xs)

  pub at-append :
      (q : ℕ) (xs : List A) (x : A)
      → knows xs (key x) ≡ false
      → at q (xs ++ x ∷ []) ≡ (if same_id (key x) q then some x else at q xs)
  at-append q [] x h = refl
  at-append q (y ∷ ys) x h = ground (arith, at-append q ys x)

  not_known :
      (x : A) (xs : List A) (q : ℕ)
      → any (ids_clash x) xs ≡ false
      → same_id (key x) q ≡ true
      → knows xs q ≡ false
  not_known x [] q h e = refl
  not_known x (y ∷ ys) q h e = ground (arith, not_known x ys q)

  pub at-filter :
      (p : A → Bool) (q : ℕ) (xs : List A)
      → Apart ids_clash xs
      → at q (filter p xs) ≡ kept p (at q xs)
  at-filter p q [] h = refl
  at-filter p q (x ∷ xs) h =
      ground (
        arith,
        at-filter p q xs h.1,
        not_known x xs q h.0,
        any_or_none (λ y. same_id (key y) q) p xs,
      )

  pub at-replace :
      (id q : ℕ) (new : A) (xs : List A)
      → key new ≡ id
      → knows xs id ≡ true
      → at q (replace key id new xs) ≡ (if same_id id q then some new else at q xs)
  at-replace id q new xs e h = elim (Bool-cases (same_id id q)) [
    | inl k ↦ rw k (replaced id q new xs e h k)
    | inr k ↦ rw k (untouched id q new xs e k)
  ]
    where
      replaced :
          (id q : ℕ) (new : A) (xs : List A)
          → key new ≡ id
          → knows xs id ≡ true
          → same_id id q ≡ true
          → at q (replace key id new xs) ≡ some new
      replaced id q new [] e h k = cc
      replaced id q new (x ∷ xs) e h k = ground (arith, replaced id q new xs)

      untouched :
          (id q : ℕ) (new : A) (xs : List A)
          → key new ≡ id
          → same_id id q ≡ false
          → at q (replace key id new xs) ≡ at q xs
      untouched id q new [] e k = refl
      untouched id q new (x ∷ xs) e k = ground (arith, untouched id q new xs)

  -- Where identifiers are unique, a row that passes a test is what its identifier finds.
  pub found_row :
      (p : A → Bool) (xs : List A)
      → Apart ids_clash xs
      → any p xs ≡ true
      → (x : A) × (at (key x) xs ≡ some x) × (p x ≡ true)
  found_row p [] h e = cc
  found_row p (x ∷ xs) h e = elim (Bool-cases (p x)) [
    | inl k ↦ (x, ground arith, k)
    | inr k ↦ later (found_row p xs h.1 (ground arith))
  ]
    where
      beyond :
          (y : A) (xs : List A)
          → any (ids_clash x) xs ≡ false
          → at (key y) xs ≡ some y
          → at (key y) (x ∷ xs) ≡ some y
      beyond y [] d e = cc
      beyond y (z ∷ zs) d e = ground (arith, beyond y zs)

      later :
          (y : A) × (at (key y) xs ≡ some y) × (p y ≡ true)
          → (y : A) × (at (key y) (x ∷ xs) ≡ some y) × (p y ≡ true)
      later (y, f, k) = (y, beyond y xs h.0 f, k)

  -- A test fails on the table where it fails on every row that an identifier finds.
  pub any-at :
      (p : A → Bool) (xs : List A)
      → Apart ids_clash xs
      → ((id : ℕ) (x : A) → at id xs ≡ some x → p x ≡ false)
      → any p xs ≡ false
  any-at p xs h k = elim (Bool-cases (any p xs)) [
    | inl e ↦ let (x, f, q) = found_row p xs h e in absurd (clash (p x) q (k (key x) x f))
    | inr e ↦ e
  ]
    where
      clash : (b : Bool) → b ≡ true → b ≡ false → ⊥
      clash b h k = cc

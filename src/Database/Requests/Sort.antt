-- ===== src/Database/Requests/Sort.antt =====
-- ORDER BY: an insertion sort, by a key and, where keys are equal, which SQL leaves open, by any relation at all.
use anime_request_server.Prelude.{
  ℕ, ltb, same_id, suc, ◌≡◌, refl, Bool, List, [], ◌∷◌, arith, if◌then◌else◌, length, any, ◌||◌,
}

-- Ascending, and descending; equal keys as `tie` says.
abbrev pub ascending : {A : Type 0} → (A → ℕ) → (A → A → Bool) → A → A → Bool
ascending key tie a b = if same_id (key a) (key b) then tie a b else ltb (key a) (key b)

abbrev pub descending : {A : Type 0} → (A → ℕ) → (A → A → Bool) → A → A → Bool
descending key tie a b = if same_id (key a) (key b) then tie a b else ltb (key b) (key a)

module _ {ℓ} {A : Type ℓ} (before : A → A → Bool) where
  unfoldable pub insert : A → List A → List A
  insert x [] = x ∷ []
  insert x (y ∷ ys) = let rest = insert x ys in if before x y then x ∷ y ∷ ys else y ∷ rest

  unfoldable pub sort : List A → List A
  unfolding insert
  sort [] = []
  sort (x ∷ xs) = insert x (sort xs)

  length-insert : (x : A) (xs : List A) → length (insert x xs) ≡ suc (length xs)
  unfolding insert
  length-insert x [] = refl
  length-insert x (y ∷ ys) = ground (arith, length-insert x ys)

  pub length-sort : (xs : List A) → length (sort xs) ≡ length xs
  unfolding sort
  length-sort [] = refl
  length-sort (x ∷ xs) = ground (arith, length-insert x (sort xs), length-sort xs)

  any-insert : (p : A → Bool) (x : A) (xs : List A) → any p (insert x xs) ≡ (p x || any p xs)
  unfolding insert
  any-insert p x [] = refl
  any-insert p x (y ∷ ys) = ground (arith, any-insert p x ys)

  -- What a sorted list has, the list has.
  pub any-sort : (p : A → Bool) (xs : List A) → any p (sort xs) ≡ any p xs
  unfolding sort
  any-sort p [] = refl
  any-sort p (x ∷ xs) = ground (arith, any-insert p x (sort xs), any-sort p xs)

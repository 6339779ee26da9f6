-- ===== src/Database/Requests/Stable.antt =====
-- What a sort keeps: the order within every selection of the rows, where the order is total, and nothing of how ties
-- are broken where there are none.
use anime_request_server.Prelude.{
  ◌≡◌, refl, ap, ◌∙◌, Bool, true, false, Bool-cases, inl, inr, List, [], ◌∷◌, map, arith,
  if◌then◌else◌, filter, any, All, All-filter, All-weaken,
}
use anime_request_server.Database.Apart.{Apart}
use anime_request_server.Database.Requests.Sort.{insert, sort}

module _ {A : Type 0} (before : A → A → Bool) where
  abbrev Below : A → A → Type 0
  Below x y = before x y ≡ true

  module _ (P : A → Type 0) where
    All-insert : (x : A) (xs : List A) → P x → All P xs → All P (insert before x xs)
    unfolding insert
    All-insert x [] p h = (p, tt)
    All-insert x (y ∷ ys) p h = elim (Bool-cases (before x y)) [
      | inl e ↦ rw e (p, h)
      | inr e ↦ rw e (h.0, All-insert x ys p h.1)
    ]

    pub All-sort : (xs : List A) → All P xs → All P (sort before xs)
    unfolding sort
    All-sort [] h = tt
    All-sort (x ∷ xs) h = All-insert x (sort before xs) h.0 (All-sort xs h.1)

  -- Every row stands before all behind it.
  abbrev Sorted : List A → Type 0
  Sorted [] = Unit {0}
  Sorted (x ∷ xs) = All (Below x) xs × Sorted xs

  insert-head : (x : A) (xs : List A) → All (Below x) xs → insert before x xs ≡ x ∷ xs
  unfolding insert
  insert-head x [] h = refl
  insert-head x (y ∷ ys) h = rw h.0 refl

  module _ (total : (x y : A) → before x y ≡ false → before y x ≡ true)
      (trans : (x y z : A) → before x y ≡ true → before y z ≡ true → before x z ≡ true) where
    insert-Sorted : (x : A) (ys : List A) → Sorted ys → Sorted (insert before x ys)
    unfolding insert
    insert-Sorted x [] s = (tt, tt)
    insert-Sorted x (y ∷ ys) s = elim (Bool-cases (before x y)) [
      | inl e ↦ rw e ((e, All-weaken _ _ ys (λ z h. trans x y z e h) s.0), s)
      | inr e ↦ rw e (All-insert (Below y) x ys (total x y e) s.0, insert-Sorted x ys s.1)
    ]

    sort-Sorted : (xs : List A) → Sorted (sort before xs)
    unfolding sort
    sort-Sorted [] = tt
    sort-Sorted (x ∷ xs) = insert-Sorted x (sort before xs) (sort-Sorted xs)

    module _ (p : A → Bool) where
      filter-insert :
          (x : A) (ys : List A)
          → Sorted ys
          → filter p (insert before x ys)
            ≡ (if p x then insert before x (filter p ys) else filter p ys)
      unfolding insert
      filter-insert x [] s = ground arith
      filter-insert x (y ∷ ys) s = elim (Bool-cases (before x y)) [
        | inl e ↦
            rw
              (
                e,
                insert-head x (filter p (y ∷ ys)) (
                    All-filter (Below x) p (y ∷ ys)
                      (e, All-weaken _ _ ys (λ z h. trans x y z e h) s.0)),
              )
              refl
        | inr e ↦ rw (e, filter-insert x ys s.1) (by_tests (p x) (p y) e)
      ]
        where
          by_tests :
              (s t : Bool)
              → before x y ≡ false
              → (if t
                  then y ∷ (if s then insert before x (filter p ys) else filter p ys)
                  else (if s then insert before x (filter p ys) else filter p ys))
                ≡ (if s
                    then insert before x (if t then y ∷ filter p ys else filter p ys)
                    else (if t then y ∷ filter p ys else filter p ys))
          by_tests true true e = rw e refl
          by_tests true false e = refl
          by_tests false true e = refl
          by_tests false false e = refl

      pub filter-sort : (xs : List A) → filter p (sort before xs) ≡ sort before (filter p xs)
      unfolding sort
      filter-sort [] = refl
      filter-sort (x ∷ xs) =
          rw (filter-insert x (sort before xs) (sort-Sorted xs), filter-sort xs) (by_test (p x))
        where
          by_test :
              (s : Bool)
              → (if s
                  then insert before x (sort before (filter p xs))
                  else sort before (filter p xs))
                ≡ sort before (if s then x ∷ filter p xs else filter p xs)
          by_test true = refl
          by_test false = refl

-- Rows whose images are ordered alike are sorted alike.
module _ {A B : Type 0} (before : A → A → Bool) (other : B → B → Bool) (f : A → B) (Q : A → Type 0)
    (alike : (x y : A) → Q x → Q y → before x y ≡ other (f x) (f y)) where
  map-insert :
      (x : A) (ys : List A)
      → Q x
      → All Q ys
      → map f (insert before x ys) ≡ insert other (f x) (map f ys)
  unfolding insert
  map-insert x [] q h = refl
  map-insert x (y ∷ ys) q h =
      rw (alike x y q h.0) (by_test (other (f x) (f y)) (map-insert x ys q h.1))
    where
      by_test :
          (s : Bool)
          → map f (insert before x ys) ≡ insert other (f x) (map f ys)
          → map f (if s then x ∷ y ∷ ys else y ∷ insert before x ys)
            ≡ (if s then f x ∷ f y ∷ map f ys else f y ∷ insert other (f x) (map f ys))
      by_test true k = refl
      by_test false k = ap (λ t. f y ∷ t) k

  pub map-sort : (xs : List A) → All Q xs → map f (sort before xs) ≡ sort other (map f xs)
  unfolding sort
  map-sort [] h = refl
  map-sort (x ∷ xs) h =
      map-insert x (sort before xs) h.0 (All-sort before Q xs h.1)
      ∙ ap (λ t. insert other (f x) t) (map-sort xs h.1)

module _ {A : Type 0} where
  -- Every row stands so to all behind it.
  abbrev pub AllPairs : (A → A → Type 0) → List A → Type 0
  AllPairs R [] = Unit {0}
  AllPairs R (x ∷ xs) = All (R x) xs × AllPairs R xs

  -- Two orders that agree on the rows sort them alike.
  module _ (before other : A → A → Bool) where
    abbrev pub Agree : A → A → Type 0
    Agree x y = before x y ≡ other x y

    insert-Agree : (x : A) (ys : List A) → All (Agree x) ys → insert before x ys ≡ insert other x ys
    unfolding insert
    insert-Agree x [] h = refl
    insert-Agree x (y ∷ ys) h = rw (h.0, insert-Agree x ys h.1) refl

    pub sort-Agree : (xs : List A) → AllPairs Agree xs → sort before xs ≡ sort other xs
    unfolding sort
    sort-Agree [] h = refl
    sort-Agree (x ∷ xs) h =
        ap (insert before x) (sort-Agree xs h.1)
        ∙ insert-Agree x (sort other xs) (All-sort other (Agree x) xs h.0)

  -- Rows that do not clash, pair by pair.
  pub Apart-AllPairs :
      (clash : A → A → Bool) (R : A → A → Type 0) (xs : List A)
      → ((x y : A) → clash x y ≡ false → R x y)
      → Apart clash xs
      → AllPairs R xs
  Apart-AllPairs clash R [] h a = tt
  Apart-AllPairs clash R (x ∷ xs) h a = (row x xs a.0, Apart-AllPairs clash R xs h a.1)
    where
      row : (x : A) (ys : List A) → any (clash x) ys ≡ false → All (R x) ys
      row x [] e = tt
      row x (y ∷ ys) e = (h x y (ground arith), row x ys (ground arith))

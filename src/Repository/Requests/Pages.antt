-- ===== src/Repository/Requests/Pages.antt =====
-- internal/repository/requests.go: the pages of List and the whole list.
use anime_request_server.Prelude.{
  same_id, filter, ℕ, zero, suc, ◌+◌, ◌-◌, ◌*◌, ◌^◌, ◌≤◌, ◌<◌, ◌≡◌, refl, ap, ◌∙◌, Bool, true,
  false, List, [], ◌∷◌, ◌++◌, arith, ltb, if◌then◌else◌, length, take, drop,
}
use anime_request_server.Models.{AnimeRequest, Uuid}
use anime_request_server.Database.Apart.{Apart}
use anime_request_server.Database.Requests.Stable.{sort-Agree, Apart-AllPairs}
use anime_request_server.Database.Tables.{Db}
use anime_request_server.Server.{Effect, PgError, done, refuse}
use anime_request_server.Repository.Requests.Select.{
  RequestFilter, joined_requests, newer, clamp, matches, selected, offset_of, select_page,
}

suc_add : (m n : ℕ) → suc m + n ≡ suc (m + n)
suc_add m n = omega arith

module _ {A : Type 0} where
  take-all : (n : ℕ) (xs : List A) → length xs ≤ n → take n xs ≡ xs
  take-all zero [] h = refl
  take-all zero (x ∷ xs) h = absurd (omega arith)
  take-all (suc n) [] h = refl
  take-all (suc n) (x ∷ xs) h = ap (λ t. x ∷ t) (take-all n xs (omega arith))

  take-nil : (n : ℕ) → take {A = A} n [] ≡ []
  take-nil zero = refl
  take-nil (suc n) = refl

  take_more : (m n : ℕ) (xs : List A) → take m xs ++ take n (drop m xs) ≡ take (m + n) xs
  take_more zero n xs = ground arith
  take_more (suc m) zero [] = rw (take-nil (suc m + 0)) refl
  take_more (suc m) (suc n) [] = rw (take-nil (suc m + suc n)) refl
  take_more (suc m) n (x ∷ xs) = rw (suc_add m n) (ap (λ t. x ∷ t) (take_more m n xs))

  length-take : (n : ℕ) (xs : List A) → length (take n xs) ≤ n
  length-take zero xs = omega arith
  length-take (suc n) [] = omega arith
  length-take (suc n) (x ∷ xs) = omega (arith, length-take n xs)

-- The rows that the query of a page returns; none where it is refused.
abbrev pub page_rows : Effect (List AnimeRequest) → List AnimeRequest
page_rows (done rows d) = rows
page_rows (refuse e) = []

-- The rows of the first pages, one page after the other.
unfoldable pub first_pages : RequestFilter → Db → ℕ → List AnimeRequest
first_pages f d zero = []
first_pages f d (suc n) =
    first_pages f d n ++ page_rows (select_page (clamp (record f { page = suc n })) d)

per_page-bounds : (f : RequestFilter) → (1 ≤ (clamp f).per_page) × ((clamp f).per_page ≤ 100)
unfolding clamp
per_page-bounds f = ground arith

-- The offset of a page that is near enough is not wrapped.
offset_of-near :
    (f : RequestFilter) (n : ℕ)
    → n * (clamp f).per_page < 2 ^ 63
    → offset_of (record (clamp f) { page = suc n }) ≡ n * (clamp f).per_page
unfolding offset_of
offset_of-near f n near = rw (before_suc n) (omega arith)
  where
    before_suc : (n : ℕ) → suc n - 1 ≡ n
    before_suc n = omega arith

pub page_rows-take :
    (f : RequestFilter) (d : Db) (n : ℕ)
    → n * (clamp f).per_page < 2 ^ 63
    → page_rows (select_page (record (clamp f) { page = suc n }) d)
      ≡ take
          (clamp f).per_page
          (drop (n * (clamp f).per_page) (selected (d.ties (n * (clamp f).per_page)) f d))
unfolding select_page selected clamp matches
page_rows-take f d n near =
    rw (offset_of-near f n near, near_test (n * (clamp f).per_page) near) refl
  where
    near_test : (k : ℕ) → k < 2 ^ 63 → ltb k (2 ^ 63) ≡ true
    near_test k h = ground arith

length-page_rows : (f : RequestFilter) (d : Db) → length (page_rows (select_page f d)) ≤ f.per_page
unfolding select_page
length-page_rows f d = by_test (ltb (offset_of f) (2 ^ 63)) _
  where
    by_test :
        (b : Bool) (x : PgError)
        → length (
            page_rows (
              if b
              then done
                  (take f.per_page (drop (offset_of f) (selected (d.ties (offset_of f)) f d)))
                  d
              else refuse x))
          ≤ f.per_page
    by_test true x =
        length-take f.per_page (drop (offset_of f) (selected (d.ties (offset_of f)) f d))
    by_test false x = omega arith

pub clamp-page :
    (f : RequestFilter) (n : ℕ)
    → clamp (record f { page = suc n }) ≡ record (clamp f) { page = suc n }
unfolding clamp
clamp-page f n = rw (positive n) refl
  where
    positive : (n : ℕ) → ltb (suc n) 1 ≡ false
    positive n = ground arith

-- Two requests of one time.
abbrev pub one_time : AnimeRequest → AnimeRequest → Bool
one_time a b = same_id a.created_at b.created_at

-- No two requests that the filter selects were created at the same time.
abbrev pub HasNoTies : RequestFilter → Db → Type 0
HasNoTies f d = Apart one_time (joined_requests d (filter (matches f) d.requests))

-- Then how ties are broken does not matter.
selected-ties :
    (f : RequestFilter) (d : Db) (t u : Uuid → Uuid → Bool)
    → HasNoTies f d
    → selected t f d ≡ selected u f d
unfolding selected
selected-ties f d t u h =
    sort-Agree (newer t) (newer u) _ (Apart-AllPairs one_time _ _ (λ a b e. ground arith) h)

module _ (f : RequestFilter) (d : Db) (tie : Uuid → Uuid → Bool) (no_ties : HasNoTies f d) where
  first_pages-take :
      (n : ℕ)
      → n * (clamp f).per_page < 2 ^ 63
      → first_pages f d n ≡ take (n * (clamp f).per_page) (selected tie f d)
  unfolding first_pages
  first_pages-take zero near = ground arith
  first_pages-take (suc n) near =
      rw
        (
          first_pages-take n (omega arith),
          clamp-page f n,
          page_rows-take f d n (omega arith),
          selected-ties f d (d.ties (n * (clamp f).per_page)) tie no_ties,
          take_more (n * (clamp f).per_page) (clamp f).per_page (selected tie f d),
          next_start n (clamp f).per_page,
        )
        refl
    where
      next_start : (n p : ℕ) → n * p + p ≡ suc n * p
      next_start n p = omega arith

-- No page has more than 100 rows, and the pages from the first on, one after the other, are the
-- whole list of the rows that the filter selects, none twice and none left out, once they reach
-- as far as its length; as long as the offset fits into 63 bits and no two of the rows were created at the
-- same time.
pub first_pages-selected :
    (f : RequestFilter) (d : Db) (tie : Uuid → Uuid → Bool) (n : ℕ)
    → HasNoTies f d
    → length (selected tie f d) ≤ n * (clamp f).per_page
    → n * (clamp f).per_page < 2 ^ 63
    → (first_pages f d n ≡ selected tie f d) × (length (page_rows (select_page (clamp f) d)) ≤ 100)
first_pages-selected f d tie n no_ties far near = (
  first_pages-take f d tie no_ties n near
      ∙ take-all (n * (clamp f).per_page) (selected tie f d) far,
  omega (arith, length-page_rows (clamp f) d, per_page-bounds f),
)

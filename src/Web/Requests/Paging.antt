-- ===== src/Web/Requests/Paging.antt =====
-- internal/handler/web/handler.go: the numbers of pages, and the texts that intParam reads.
use Prim.Native.Char.{Char, code}
use anime_request_server.Prelude.{
  ℕ, zero, suc, ◌+◌, ◌-◌, ◌*◌, ◌/◌, ◌%◌, ◌^◌, ◌≤◌, ◌<◌, ◌≡◌, ◌↔◌, refl, sym, ap, ◌∙◌, subst, String,
  Bool, true, false, Option, none, some, List, [], ◌∷◌, leb, same_id, arith, length, take, drop,
  ◌&&◌, filter, All, All-filter, Option-cases, inl, inr, find, find-none,
}
use anime_request_server.Text.{push}
use anime_request_server.Text.Numbers.{
  digits_from, digits_of, atoi, at_least_one, pos, below, positive, ℤ, negsuc,
}
use anime_request_server.Totp.{digit, last_digits}
use anime_request_server.Models.{User, AnimeRequest}
use anime_request_server.Database.Tables.{Db, RequestRow}
use anime_request_server.Database.Requests.{has_user}
use anime_request_server.Database.Requests.Sort.{length-sort}
use anime_request_server.Server.{World, done, pure, ◌>>=◌}
use anime_request_server.Server.Returns.{
  Alike-refl, Returned, Asks, Gives-pure, Gives-weaken, Gives-ask, Gives-change, Gives-map_err,
  Gives-exec, Asks-query,
}
use anime_request_server.Repository.Errors.{RepoError}
use anime_request_server.Repository.Requests.Select.{
  RequestFilter, clamp, matches, joined_requests, newer, selected, select_page, DestinationRow,
  append_to, distribute, load_for_multiple, list,
}
use anime_request_server.Repository.Requests.Pages.{page_rows, page_rows-take, clamp-page}
use anime_request_server.Web.{requests_page, Answer, shows}
use anime_request_server.Web.Requests.{int_param, page_filter, total_pages, requests_list}

-- The rest of a list, cut off, has an item exactly if the list goes that far.
length-take-drop :
    {A : Type 0} (n k : ℕ) (xs : List A) → (1 ≤ length (take (suc n) (drop k xs))) ↔ (k < length xs)
length-take-drop n zero [] = ((λ h. absurd (omega (arith, h))), (λ h. absurd (omega (arith, h))))
length-take-drop n zero (x ∷ xs) = ((λ h. omega arith), (λ h. omega arith))
length-take-drop n (suc k) [] = ((λ h. absurd (omega (arith, h))), (λ h. absurd (omega (arith, h))))
length-take-drop n (suc k) (x ∷ xs) =
    let both = length-take-drop n k xs in
    ((λ h. omega (arith, both.0 h)), (λ h. both.1 (omega (arith, h))))

-- A start lies within the rows exactly if its page is one of those counted.
start-total_pages :
    (n total : ℕ) → (n * 25 < total) ↔ ((suc n ≤ total_pages total 25) × (1 ≤ total))
unfolding total_pages
start-total_pages n total = ((λ h. ground arith), (λ h. ground arith))

at_least_one_pos : (def : ℕ) (o : Option ℤ) → 1 ≤ def → 1 ≤ at_least_one def o
at_least_one_pos def none h = h
at_least_one_pos def (some (negsuc n)) h = h
at_least_one_pos def (some (pos n)) h = ground arith

int_param_pos : (s : String) (def : ℕ) → 1 ≤ def → 1 ≤ int_param s def
unfolding int_param
int_param_pos String.[] def h = h
int_param_pos (String.◌∷◌ c s) def h = at_least_one_pos def (atoi (String.◌∷◌ c s)) h

rows_on_page :
    (f : RequestFilter) (d : Db) (n : ℕ)
    → f.page ≡ suc n
    → (clamp f).per_page ≡ 25
    → n * 25 < 2 ^ 63
    → (1 ≤ length (page_rows (select_page (clamp f) d)))
      ↔ (n * 25 < length (joined_requests d (filter (matches f) d.requests)))
unfolding selected
rows_on_page f d n which size near =
    subst
      (λ (g : RequestFilter).
        (1 ≤ length (page_rows (select_page g d)))
        ↔ (n * 25 < length (joined_requests d (filter (matches f) d.requests))))
      same
      (rw (page_rows-take f d n (rw size near), size)
        (subst
          (λ k.
            (1 ≤ length (take 25 (drop (n * 25) (selected (d.ties (n * 25)) f d)))) ↔ (n * 25 < k))
          (length-sort (newer (d.ties (n * 25)))
            (joined_requests d (filter (matches f) d.requests)))
          (length-take-drop 24 (n * 25) (selected (d.ties (n * 25)) f d))))
  where
    same : record (clamp f) { page = suc n } ≡ clamp f
    same = sym (clamp-page f n) ∙ ap (λ p. clamp (record f { page = p })) (sym which)

-- Every request has its requester, as its foreign key says.
abbrev pub HasRequesters : Db → Type 0
HasRequesters d = All (λ (r : RequestRow). has_user r.requested_by d ≡ true) d.requests

-- So the join with the users leaves no request out.
length-joined_requests :
    (d : Db) (rs : List RequestRow)
    → All (λ (r : RequestRow). has_user r.requested_by d ≡ true) rs
    → length (joined_requests d rs) ≡ length rs
length-joined_requests d [] h = refl
length-joined_requests d (r ∷ rs) h =
    elim (Option-cases (find (λ (u : User). same_id u.id r.requested_by) d.users)) [
      | inl e ↦ absurd (missing (find-none _ d.users e) h.0)
      | inr (u, e) ↦ rw (length, e) (ap suc (length-joined_requests d rs h.1))
    ]
  where
    missing : {b : Bool} → b ≡ false → b ≡ true → ⊥
    missing e k = cc

length-append_to :
    (row : DestinationRow) (rs : List AnimeRequest) → length (append_to row rs) ≡ length rs
unfolding append_to
length-append_to row [] = refl
length-append_to row (r ∷ rs) = ap suc (length-append_to row rs)

length-distribute :
    (rows : List DestinationRow) (rs : List AnimeRequest) → length (distribute rows rs) ≡ length rs
unfolding distribute
length-distribute [] rs = refl
length-distribute (row ∷ rows) rs =
    length-distribute rows (append_to row rs) ∙ length-append_to row rs

module _ (v : World) where
  Asks-load_for_multiple :
      (rs : List AnimeRequest)
      → Asks {E = RepoError} v (load_for_multiple rs) (λ out. length out ≡ length rs)
  unfolding load_for_multiple
  Asks-load_for_multiple [] = Gives-pure v [] _ (λ w s. (s, refl))
  Asks-load_for_multiple (r ∷ rs) =
      Gives-ask v _ _ _ _ (Gives-map_err v _ _ _ (Asks-query v _))
        (λ rows same. Gives-pure v _ _ (λ w s. (s, length-distribute rows (r ∷ rs))))

  load_and_count :
      (page : List AnimeRequest) (total : ℕ)
      → Asks {E = RepoError} {A = List AnimeRequest × ℕ} v
          (load_for_multiple page >>= λ requests. pure (requests, total))
          (λ found. (found.1 ≡ total) × (length found.0 ≡ length page))
  load_and_count page total =
      Gives-ask v _ _ _ _ (Asks-load_for_multiple page)
        (λ rs same. Gives-pure v _ _ (λ w s. (s, (refl, same))))

module _ (v : World) where
  -- A page leaves the tables as they are.
  select_page-done :
      (f : RequestFilter) (d e : Db) (rows : List AnimeRequest)
      → select_page f d ≡ done rows e
      → e ≡ d
  unfolding select_page
  select_page-done f d e rows h = ground arith

  -- The rows and the total of List.
  Asks-list :
      (f : RequestFilter)
      → Asks v (list f) (λ found.
        (found.1 ≡ length (filter (matches f) v.db.requests))
        × (length found.0 ≡ length (page_rows (select_page (clamp f) v.db))))
  unfolding list clamp matches
  Asks-list f = Gives-ask v _ _ _ _ (Gives-map_err v _ _ _ (Asks-query v _)) λ total counted.
      Gives-change v _ _ _ _ (Gives-map_err v _ _ _ (Gives-exec v _)) λ page u did.
        Gives-weaken u _ _ _ (load_and_count u page total) (λ found w k. (
          record {
            db = k.0.db ∙ rw did.2 (select_page-done (clamp f) v.db did.0 page did.1);
            limiter = k.0.limiter ∙ rw did.2 refl;
            now = k.0.now ∙ rw did.2 refl;
          },
          (k.1.0 ∙ counted, k.1.1 ∙ rw did.1 refl),
        ))

-- What a page of requests shows fits together: it has a row exactly if its number is one of the pages that it
-- counts and there are requests by the total that it shows.
abbrev pub FitsTogether : ℕ → Answer → Type 0
FitsTogether number (shows (requests_page rows total page pages category status)) =
    (page ≡ number) × ((1 ≤ length rows) ↔ ((page ≤ pages) × (1 ≤ total)))
FitsTogether number a = ⊥

fits :
    (page category status : String) (d : Db) (rows : List AnimeRequest) (total : ℕ)
    → HasRequesters d
    → int_param page 1 * 25 < 2 ^ 63
    → total ≡ length (filter (matches (page_filter page category status)) d.requests)
    → length rows ≡ length (page_rows (select_page (clamp (page_filter page category status)) d))
    → FitsTogether (int_param page 1) (
        shows (
          requests_page rows total
            (page_filter page category status).page
            (total_pages total 25)
            category
            status))
unfolding page_filter clamp
fits page category status d rows total known near counted filled =
    let f = page_filter page category status in
    let first : 1 ≤ f.page = int_param_pos page 1 (omega arith) in
    let n = f.page - 1 in
    let which : f.page ≡ suc n = omega arith in
    let all = filter (matches f) d.requests in
    let size : length (joined_requests d all) ≡ total =
      length-joined_requests d all (All-filter _ (matches f) d.requests known) ∙ sym counted in
    let on_page = rows_on_page f d n which refl (omega arith) in
    let count = start-total_pages n total in
    (
      refl,
      (
        (λ h.
            subst (λ p. (p ≤ total_pages total 25) × (1 ≤ total)) (sym which)
              (count.0 (subst (λ k. n * 25 < k) size (on_page.0 (subst (λ k. 1 ≤ k) filled h))))),
        (λ h.
            subst (λ k. 1 ≤ k) (sym filled)
              (on_page.1 (
                subst (λ k. n * 25 < k) (sym size)
                  (count.1 (subst (λ p. (p ≤ total_pages total 25) × (1 ≤ total)) which h))))),
      ),
    )

-- Whenever requestsList shows its page, the number of the page is the one that intParam reads, and the page has
-- a row exactly if that number is at most the number of pages that it shows and the total that it shows is not
-- zero, whatever the texts of the query, as long as the offset fits into 63 bits and every request has
-- its requester.
pub rows-total_pages :
    (page category status : String) (v : World)
    → HasRequesters v.db
    → int_param page 1 * 25 < 2 ^ 63
    → Returned (λ a w. FitsTogether (int_param page 1) a) (requests_list page category status v)
unfolding requests_list page_filter clamp
rows-total_pages page category status v known near =
    (Gives-ask v _ _ _ _ (Gives-map_err v _ _ _ (Asks-list v (page_filter page category status)))
        (λ found k.
          Gives-pure v _ _
            (λ w s. fits page category status v.db found.0 found.1 known near k.0 k.1))).at
      v (Alike-refl v)

abbrev is_digit : Char → Bool
is_digit c = leb b'0' (code c) && leb (code c) b'9'

-- A text that starts with a digit.
abbrev StartsWithDigit : String → Type 0
StartsWithDigit String.[] = ⊥
StartsWithDigit (String.◌∷◌ c s) = is_digit c ≡ true

code-digit : (n : ℕ) → n < 10 → code (digit n) ≡ b'0' + n
unfolding digit
code-digit zero h = refl
code-digit (suc zero) h = refl
code-digit (suc (suc zero)) h = refl
code-digit (suc (suc (suc zero))) h = refl
code-digit (suc (suc (suc (suc zero)))) h = refl
code-digit (suc (suc (suc (suc (suc zero))))) h = refl
code-digit (suc (suc (suc (suc (suc (suc zero)))))) h = refl
code-digit (suc (suc (suc (suc (suc (suc (suc zero))))))) h = refl
code-digit (suc (suc (suc (suc (suc (suc (suc (suc zero)))))))) h = refl
code-digit (suc (suc (suc (suc (suc (suc (suc (suc (suc zero))))))))) h = refl
code-digit (suc (suc (suc (suc (suc (suc (suc (suc (suc (suc n)))))))))) h = absurd (omega arith)

digit-is_digit : (n : ℕ) → n < 10 → is_digit (digit n) ≡ true
digit-is_digit n h = ground (arith, code-digit n h)

-- The last digits of a number.
kept : ℕ → ℕ → ℕ
kept zero n = 0
kept (suc k) n = kept k (n / 10) * 10 + n % 10

kept-all : (k n : ℕ) → n < 10 ^ k → kept k n ≡ n
unfolding kept
kept-all zero n h = omega arith
kept-all (suc k) n h = omega (arith, kept-all k (n / 10) (omega arith))

digits_from-push :
    (acc n : ℕ) (s : String)
    → n < 10
    → digits_from acc (push (digit n) s) ≡ digits_from (acc * 10 + n) s
unfolding digits_from
digits_from-push acc n s h = rw (digit-is_digit n h, code-digit n h, there n) refl
  where
    there : (n : ℕ) → b'0' + n - b'0' ≡ n
    there n = omega arith

digits_from-last_digits :
    (k n : ℕ) (rest : String) → digits_from 0 (last_digits k n rest) ≡ digits_from (kept k n) rest
unfolding last_digits kept
digits_from-last_digits zero n rest = refl
digits_from-last_digits (suc k) n rest =
    digits_from-last_digits k (n / 10) (push (digit (n % 10)) rest)
    ∙ digits_from-push (kept k (n / 10)) (n % 10) rest (omega arith)

last_digits-StartsWithDigit :
    (k n : ℕ) (rest : String) → StartsWithDigit rest → StartsWithDigit (last_digits k n rest)
unfolding last_digits
last_digits-StartsWithDigit zero n rest h = h
last_digits-StartsWithDigit (suc k) n rest h =
    last_digits-StartsWithDigit k (n / 10) (push (digit (n % 10)) rest)
      (digit-is_digit (n % 10) (omega arith))

int_param-StartsWithDigit :
    (s : String) (def : ℕ)
    → StartsWithDigit s
    → int_param s def ≡ at_least_one def (positive (below (2 ^ 63) (digits_from 0 s)))
unfolding int_param atoi digits_of
int_param-StartsWithDigit String.[] def h = absurd h
int_param-StartsWithDigit (String.◌∷◌ c s) def h = rw (no_minus (code c) h, no_plus (code c) h) refl
  where
    no_minus : (n : ℕ) → (leb b'0' n && leb n b'9') ≡ true → same_id n b'-' ≡ false
    no_minus n h = ground arith

    no_plus : (n : ℕ) → (leb b'0' n && leb n b'9') ≡ true → same_id n b'+' ≡ false
    no_plus n h = ground arith

-- intParam reads a number back from its decimal digits, with or without zeros in front, as long as it is
-- at least one and fits into 63 bits.
pub int_param-last_digits :
    (k n def : ℕ)
    → 1 ≤ n
    → n < 10 ^ suc k
    → n < 2 ^ 63
    → int_param (last_digits (suc k) n "") def ≡ n
unfolding last_digits digits_from
int_param-last_digits k n def some_rows digits small =
    int_param-StartsWithDigit (last_digits (suc k) n "") def (
      last_digits-StartsWithDigit k (n / 10) (push (digit (n % 10)) "")
        (digit-is_digit (n % 10) (omega arith)))
    ∙ rw (digits_from-last_digits (suc k) n "", kept-all (suc k) n digits) (ground arith)

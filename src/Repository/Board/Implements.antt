-- ===== src/Repository/Board/Implements.antt =====
-- internal/repository/requests.go: the statements that delete, link and write notes beside the board.
use anime_request_server.Prelude.{
  ℕ, String, ◌≡◌, refl, ap, fun_ext, ◌∙◌, subst, Bool, true, false, not, ◌&&◌, Bool-cases, inl, inr,
  Option, none, some, List, [], ◌∷◌, arith, same_id, if◌then◌else◌, any, any-append, find_sound,
  All,
}
use anime_request_server.Models.{Uuid}
use anime_request_server.Database.Apart.{Apart}
use anime_request_server.Database.Tables.{Db, RequestRow, LinkRow, NoteRow}
use anime_request_server.Database.Lookup.{
  at, knows, kept, ids_clash, any-filter_const, is_some-at, at-append, at-filter,
}
use anime_request_server.Database.Sound.{request_id, id_clash_comm, IsSound}
use anime_request_server.Database.Requests.{
  has_user, has_request, has_destination, is_link, insert_link, insert_note, refuse_or,
}
use anime_request_server.Server.{PgError, Effect, refuse}
use anime_request_server.Repository.Board.{
  Board, note_id, view, Move, erase, assign, unassign, write, strike, accepted, perform, Admits,
  moved,
}

-- An outcome is the one of the board: the change, where it is admitted, and a refusal where it is not.
abbrev pub Implements : (String → String) → ℕ → Move → Db → Option Db → Type 0
Implements lower now m d none = ¬ Admits lower now m (view d)
Implements lower now m d (some e) = Admits lower now m (view d) × (view e ≡ moved now m (view d))

pub both_answers : {A : Type 0} {o : Option A} {a : A} → o ≡ some a → o ≡ none → ⊥
both_answers e k = cc

pub same_row : {A : Type 0} {o : Option A} {a b : A} → o ≡ some a → o ≡ some b → a ≡ b
same_row e k = cc

pub not_found :
    {A : Type 0} (key : A → Uuid) (id : Uuid) (xs : List A)
    → knows key xs id ≡ false
    → at key id xs ≡ none
not_found key id xs e = ground (arith, is_some-at key id xs)

changes_three :
    (b : Board) {f f' : Uuid → Option RequestRow} {g g' : Uuid → Uuid → Bool}
    {n n' : Uuid → Option NoteRow}
    → f ≡ f'
    → g ≡ g'
    → n ≡ n'
    → record b { request = f; assigned = g; note = n }
      ≡ record b { request = f'; assigned = g'; note = n' }
changes_three b e k l = rw (e, k, l) refl

module _ (lower : String → String) (now : ℕ) (d : Db) where
  -- A check that refuses.
  pub refuse_if :
      {A : Type 0} (m : Move) (b : Bool) (x : PgError) (e : Effect A)
      → (b ≡ true → ¬ Admits lower now m (view d))
      → (b ≡ false → Implements lower now m d (accepted e))
      → Implements lower now m d (accepted (if b then refuse x else e))
  refuse_if m true x e k l = k refl
  refuse_if m false x e k l = l refl

  pub refuse_violation :
      {A : Type 0} (m : Move) (o : Option PgError) (e : Effect A)
      → ((x : PgError) → o ≡ some x → ¬ Admits lower now m (view d))
      → (o ≡ none → Implements lower now m d (accepted e))
      → Implements lower now m d (accepted (refuse_or lower o e))
  refuse_violation m none e k l = l refl
  refuse_violation m (some x) e k l = k x refl

module _ (lower : String → String) (now : ℕ) (d : Db) (h : IsSound lower d) where
  Apart-notes : Apart (ids_clash note_id) d.notes
  Apart-notes =
      subst (λ c. Apart c d.notes) (fun_ext (λ x. fun_ext (λ y. id_clash_comm note_id x y)))
        h.notes.ids

  kept_other :
      (id q : Uuid) (o : Option RequestRow)
      → ((r : RequestRow) → o ≡ some r → same_id r.id q ≡ true)
      → kept (λ (r : RequestRow). not (same_id r.id id)) o ≡ (if same_id q id then none else o)
  kept_other id q none k = ground arith
  kept_other id q (some r) k = ground (arith, k r refl)

  pub erase-Implements :
      (id : Uuid) → Implements lower now (erase id) d (perform lower now (erase id) d)
  unfolding perform
  erase-Implements id = (
    tt,
    changes_three (view d)
        (fun_ext λ q.
          at-filter request_id (λ r. not (same_id r.id id)) q d.requests h.requests.ids
          ∙ kept_other id q (at request_id q d.requests)
              (find_sound (λ (r : RequestRow). same_id r.id q) d.requests))
        (fun_ext λ r. fun_ext λ s.
          any-filter_const (is_link r s) (λ l. not (same_id l.request_id id)) (not (same_id r id))
            d.links (λ l. ground arith))
        (fun_ext λ n. at-filter note_id _ n d.notes Apart-notes),
  )

  pub unassign-Implements :
      (request dest : Uuid)
      → Implements lower now (unassign request dest) d (perform lower now (unassign request dest) d)
  unfolding perform
  unassign-Implements request dest = (
    tt,
    ap (λ f. record (view d) { assigned = f })
        (fun_ext λ r. fun_ext λ s.
          any-filter_const (is_link r s) (λ l. not (is_link request dest l))
            (not (same_id request r && same_id dest s)) d.links (λ l. ground arith)),
  )

  pub strike-Implements :
      (request note : Uuid)
      → Implements lower now (strike request note) d (perform lower now (strike request note) d)
  unfolding perform
  strike-Implements request note = (
    tt,
    ap (λ f. record (view d) { note = f }) (fun_ext λ q. at-filter note_id _ q d.notes Apart-notes),
  )

  linked_as :
      (request dest r s : Uuid) (ls : List LinkRow)
      → same_id request r && same_id dest s ≡ true
      → any (is_link r s) ls ≡ any (is_link request dest) ls
  linked_as request dest r s [] e = refl
  linked_as request dest r s (l ∷ ls) e = ground (arith, linked_as request dest r s ls)

  -- What is linked exists, by the foreign keys.
  ends_known :
      (request dest : Uuid) (ls : List LinkRow)
      → All (λ (l : LinkRow). has_request l.request_id d ≡ true) ls
      → All (λ (l : LinkRow). has_destination l.server_destination_id d ≡ true) ls
      → any (is_link request dest) ls ≡ true
      → (has_request request d ≡ true) × (has_destination dest d ≡ true)
  ends_known request dest [] rs ds e = cc
  ends_known request dest (l ∷ ls) rs ds e = elim (Bool-cases (is_link request dest l)) [
    | inl k ↦ (
      subst (λ q. has_request q d ≡ true) (equal l.request_id request (ground arith)) rs.0,
      subst (λ q. has_destination q d ≡ true) (equal l.server_destination_id dest (ground arith))
          ds.0,
    )
    | inr k ↦ ends_known request dest ls rs.1 ds.1 (ground arith)
  ]
    where
      equal : (a b : Uuid) → same_id a b ≡ true → a ≡ b
      equal a b e = ground arith

  pub assign-Implements :
      (request dest : Uuid)
      → Implements lower now (assign request dest) d (perform lower now (assign request dest) d)
  unfolding perform insert_link
  assign-Implements request dest = elim (Bool-cases (any (is_link request dest) d.links)) [
    | inl linked ↦ rw linked (already linked)
    | inr new ↦ rw new (
        refuse_if lower now d (assign request dest) (not (has_request request d)) _ _
          (λ e k. ground (arith, is_some-at request_id request d.requests))
          λ there.
            refuse_if lower now d (assign request dest) (not (has_destination dest d)) _ _
              (λ e k. ground arith)
              λ known. (
                (is_some-at request_id request d.requests ∙ ground arith, ground arith),
                ap (λ f. record (view d) { assigned = f })
                    (fun_ext λ r. fun_ext λ s. rw any-append (ground arith)),
              ))
  ]
    where
      already :
          any (is_link request dest) d.links ≡ true
          → Implements lower now (assign request dest) d (some d)
      already linked =
          let (r, s) =
            ends_known request dest d.links h.links.requests h.links.destinations linked in
          (
            (is_some-at request_id request d.requests ∙ r, s),
            ap (λ f. record (view d) { assigned = f })
                (fun_ext λ q. fun_ext λ t. ground (arith, linked_as request dest q t d.links)),
          )

  pub write-Implements :
      (n : NoteRow) → Implements lower now (write n) d (perform lower now (write n) d)
  unfolding perform insert_note
  write-Implements n =
      refuse_if lower now d (write n) (knows note_id d.notes n.id) _ _
        (λ e k. ground (arith, is_some-at note_id n.id d.notes))
        λ fresh.
          refuse_if lower now d (write n) (not (has_request n.request_id d)) _ _
            (λ e k. ground (arith, is_some-at request_id n.request_id d.requests))
            λ there.
              refuse_if lower now d (write n) (not (has_user n.author_id d)) _ _
                (λ e k. ground arith)
                λ author. (
                  (
                    not_found note_id n.id d.notes fresh,
                    is_some-at request_id n.request_id d.requests ∙ ground arith,
                    ground arith,
                  ),
                  ap (λ f. record (view d) { note = f })
                      (fun_ext λ q. at-append note_id q d.notes n fresh),
                )

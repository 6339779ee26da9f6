-- ===== src/Repository/Board/Refinement.antt =====
-- internal/repository/requests.go: the statements that create and update, and all of them, beside the board.
use anime_request_server.Prelude.{
  ℕ, String, ◌≡◌, refl, sym, ap, fun_ext, ◌∙◌, subst, Bool, true, false, Bool-cases, Option-cases,
  inl, inr, Option, none, some, List, [], ◌∷◌, ◌++◌, arith, same_id, if◌then◌else◌, any, find-none,
  find-some,
}
use anime_request_server.Models.{Uuid}
use anime_request_server.Database.Apart.{others}
use anime_request_server.Database.Tables.{Db, RequestRow}
use anime_request_server.Database.Lookup.{at, knows, at-append, at-replace}
use anime_request_server.Database.Sound.{request_id, IsSound}
use anime_request_server.Database.Requests.{
  has_user, request_id_clash, check_violation, unique_violation, update_found, insert_request,
  update_request,
}
use anime_request_server.Server.{done, refuse}
use anime_request_server.Repository.Requests.{
  RequestSets, or_default, set_alt, set_column, apply_sets,
}
use anime_request_server.Database.Requests.{pg_error}
use anime_request_server.Database.Requests.Valid.{
  valid_row, check_violation-valid_row, valid_row-check_violation,
}
use anime_request_server.Database.Requests.Names.{unique_violation-none}
use anime_request_server.Repository.Board.Free.{found_id, others_all, unique-IsFree, IsFree-unique}
use anime_request_server.Repository.Board.{
  view, Move, create, change, erase, assign, unassign, write, strike, accepted, perform, IsFree,
  new_text, new_alt, new_url, edited, changed,
}
use anime_request_server.Repository.Board.Implements.{
  Implements, both_answers, same_row, refuse_violation, not_found, erase-Implements,
  assign-Implements, unassign-Implements, write-Implements, strike-Implements,
}

-- The SET list of Update makes the row that it promises.
apply_sets-edited : (now : ℕ) (sets : RequestSets) → apply_sets now sets ≡ edited now sets
unfolding apply_sets
apply_sets-edited now sets = fun_ext λ r.
    rw
      (
        text sets.name r.name,
        alt sets.alt_name r.alt_name,
        text sets.status r.status,
        text sets.category r.category,
        url sets.anidb_url r.anidb_url,
      )
      refl
  where
    text : (o : Option String) (s : String) → or_default o s ≡ new_text o s
    text none s = refl
    text (some t) s = refl

    alt : (o s : Option String) → set_alt o s ≡ new_alt o s
    alt none s = refl
    alt (some t) s = refl

    url : (o s : Option String) → set_column o s ≡ new_url o s
    url none s = refl
    url (some t) s = refl

module _ (lower : String → String) (now : ℕ) (d : Db) (h : IsSound lower d) where
  -- The identifier is new exactly if no row clashes with it.
  clash-knows :
      (r : RequestRow) (rs : List RequestRow)
      → any (request_id_clash r) rs ≡ knows request_id rs r.id
  clash-knows r [] = refl
  clash-knows r (q ∷ qs) = ground (arith, clash-knows r qs)

  free_new :
      (r : RequestRow)
      → at request_id r.id d.requests ≡ none
      → IsFree lower r (view d)
      → unique_violation lower d.requests r ≡ none
  free_new r fresh free =
      subst (λ rs. unique_violation lower rs r ≡ none)
        (others_all r.id d.requests (find-none _ d.requests fresh))
        (IsFree-unique lower d h.requests.ids r free)

  unique_new :
      (r : RequestRow)
      → unique_violation lower d.requests r ≡ none
      → (knows request_id d.requests r.id ≡ false) × IsFree lower r (view d)
  unique_new r unique =
      let fresh =
        sym (clash-knows r d.requests) ∙ (unique_violation-none lower d.requests r unique).0 in
      (
        fresh,
        unique-IsFree lower d r (
            subst (λ rs. unique_violation lower rs r ≡ none)
              (sym (others_all r.id d.requests fresh)) unique),
      )

  put-Implements :
      (r : RequestRow) (b : Bool)
      → has_user r.requested_by d ≡ b
      → check_violation lower r ≡ none
      → unique_violation lower d.requests r ≡ none
      → Implements lower now (create r) d (
          accepted {A = Unit {0}} (
            if b
            then done tt (record d { requests = d.requests ++ r ∷ [] })
            else refuse (pg_error "23503" "anime_requests_requested_by_fkey")))
  put-Implements r true known checked unique =
      let (fresh, free) = unique_new r unique in
      (
        (
          check_violation-valid_row lower r checked,
          not_found request_id r.id d.requests fresh,
          free,
          known,
        ),
        ap (λ f. record (view d) { request = f })
            (fun_ext λ q. at-append request_id q d.requests r fresh),
      )
  put-Implements r false missing checked unique = λ k. ground arith

  create-Implements :
      (r : RequestRow) → Implements lower now (create r) d (perform lower now (create r) d)
  unfolding perform insert_request
  create-Implements r =
      refuse_violation lower now d (create r) (check_violation lower r) _
        (λ x e k. both_answers e (valid_row-check_violation lower r k.0))
        λ checked.
          refuse_violation lower now d (create r) (unique_violation lower d.requests r) _
            (λ x e k. both_answers e (free_new r k.1 k.2))
            λ unique. put-Implements r (has_user r.requested_by d) refl checked unique

  change-found :
      (id : Uuid) (sets : RequestSets) (old : RequestRow)
      → at request_id id d.requests ≡ some old
      → Implements lower now
          (change id sets)
          d
          (accepted (update_found lower id (edited now sets) d (some old)))
  change-found id sets old found =
      let new = edited now sets old in
      let same : new.id ≡ id = found_id id old d.requests found in
      refuse_violation lower now d (change id sets) (check_violation lower new) _
        (λ x e k. both_answers e (valid_row-check_violation lower new (k old found).0))
        λ checked.
          refuse_violation lower now d (change id sets)
            (unique_violation lower (others request_id id d.requests) new) _
            (λ x e k. both_answers e (
              subst (λ i. unique_violation lower (others request_id i d.requests) new ≡ none) same
                (IsFree-unique lower d h.requests.ids new (k old found).1)))
            λ unique.
              let free = unique-IsFree lower d new (
                subst (λ i. unique_violation lower (others request_id i d.requests) new ≡ none)
                  (sym same) unique) in
              (
                (λ other e.
                    subst
                      (λ o.
                        (valid_row lower (edited now sets o) ≡ true)
                        × IsFree lower (edited now sets o) (view d))
                      (same_row found e) (check_violation-valid_row lower new checked, free)),
                ap (λ f. record (view d) { request = f })
                    (fun_ext λ q.
                      at-replace request_id id q new d.requests same
                        (find-some _ d.requests old found)
                      ∙ rw found refl),
              )

  change_edited :
      (id : Uuid) (sets : RequestSets)
      → Implements lower now
          (change id sets)
          d
          (accepted (update_request lower id (edited now sets) d))
  unfolding update_request
  change_edited id sets = elim (Option-cases (at request_id id d.requests)) [
    | inl missing ↦ rw missing (
      (λ old e. absurd (both_answers e missing)),
      ap (λ f. record (view d) { request = f }) (fun_ext λ q. absent id q missing),
    )
    | inr (old, found) ↦ rw found (change-found id sets old found)
  ]
    where
      same_is : (a b : Uuid) → same_id a b ≡ true → a ≡ b
      same_is a b e = ground arith

      absent :
          (id q : Uuid)
          → at request_id id d.requests ≡ none
          → at request_id q d.requests ≡ (
              if same_id id q
              then changed (edited now sets) (at request_id id d.requests)
              else at request_id q d.requests)
      absent id q missing = elim (Bool-cases (same_id id q)) [
        | inl e ↦
            rw (missing, e)
              (subst (λ i. at request_id i d.requests ≡ none) (same_is id q e) missing)
        | inr e ↦ rw e refl
      ]

  change-Implements :
      (id : Uuid) (sets : RequestSets)
      → Implements lower now (change id sets) d (perform lower now (change id sets) d)
  unfolding perform
  change-Implements id sets =
      subst
        (λ set. Implements lower now (change id sets) d (accepted (update_request lower id set d)))
        (sym (apply_sets-edited now sets)) (change_edited id sets)

-- The constraints let a statement on requests, links or notes through exactly if the board admits it, and then the
-- tables stand for the board that the change makes, from every sound state of the tables.
pub perform-Implements :
    (lower : String → String) (now : ℕ) (m : Move) (d : Db)
    → IsSound lower d
    → Implements lower now m d (perform lower now m d)
perform-Implements lower now (create r) d h = create-Implements lower now d h r
perform-Implements lower now (change id sets) d h = change-Implements lower now d h id sets
perform-Implements lower now (erase id) d h = erase-Implements lower now d h id
perform-Implements lower now (assign request dest) d h =
    assign-Implements lower now d h request dest
perform-Implements lower now (unassign request dest) d h =
    unassign-Implements lower now d h request dest
perform-Implements lower now (write n) d h = write-Implements lower now d h n
perform-Implements lower now (strike request note) d h =
    strike-Implements lower now d h request note

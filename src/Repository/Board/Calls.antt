-- ===== src/Repository/Board/Calls.antt =====
-- internal/repository/requests.go: Update, Delete, AddDestination, RemoveDestination and DeleteNote as changes of a board.
use anime_request_server.Prelude.{
  ℕ, String, ◌≡◌, refl, ◌⊎◌, inl, inr, Bool, true, false, if◌then◌else◌,
}
use anime_request_server.Models.{Uuid}
use anime_request_server.Database.Tables.{Db}
use anime_request_server.Database.Sound.{IsSound}
use anime_request_server.Server.{
  System, World, Outcome, ok, err, DbError, lost, Effect, done, refuse, is_lost, later_faults,
  settle, as_error, map_err, exec,
}
use anime_request_server.Repository.Requests.{
  RequestSets, update, delete, add_destination, remove_destination, delete_note_of,
}
use anime_request_server.Repository.Board.{
  view, Move, change, erase, assign, unassign, strike, accepted, perform, Admits, moved,
}
use anime_request_server.Repository.Board.Implements.{Implements}
use anime_request_server.Repository.Board.Refinement.{perform-Implements}

-- A call that returned made an admitted change; one that failed changed nothing, and was lost or not admitted.
abbrev pub Refined : {E A : Type 0} → (String → String) → Move → World → Outcome E A → Type 0
Refined lower m v (ok a w) =
    Admits lower v.now m (view v.db) × (view w.db ≡ moved v.now m (view v.db))
Refined lower m v (err e w) =
    (w.db ≡ v.db) × ((is_lost v.faults ≡ true) ⊎ (¬ Admits lower v.now m (view v.db)))

module _ {A : Type 0} (lower : String → String) (m : Move) (v : World) where
  settled :
      {F : Type 0} (f : DbError → F) (w : World) (e : Effect A)
      → w.db ≡ v.db
      → Implements lower v.now m v.db (accepted e)
      → Refined lower m v (as_error f (settle e w))
  settled f w (done a d) same k = k
  settled f w (refuse x) same k = (same, inr k)

  called :
      {F : Type 0} (f : DbError → F) (b : Bool) (w : World) (e : Effect A)
      → is_lost v.faults ≡ b
      → w.db ≡ v.db
      → Implements lower v.now m v.db (accepted e)
      → Refined lower m v (as_error f (if b then err lost w else settle e w))
  called f true w e h same k = (same, inl h)
  called f false w e h same k = settled f w e same k

  exec-Refined :
      {F : Type 0} (f : DbError → F) (q : ℕ → Db → Effect A)
      → Implements lower v.now m v.db (accepted (q v.now v.db))
      → Refined lower m v (map_err f (exec q) v)
  unfolding map_err exec
  exec-Refined f q k =
      called f (is_lost v.faults) (record v { faults = later_faults v.faults }) (q v.now v.db) refl
        refl k

-- Update, Delete, AddDestination, RemoveDestination and DeleteNote change the board as they promise: when one
-- returns, its change was admitted and the tables stand for the board that it makes; when it fails,
-- nothing has changed, and the call was lost or the change is not admitted. From every sound state of the tables.
pub calls-Refined :
    (sys : System) (v : World)
    → IsSound sys.sql_lower v.db
    → ((id : Uuid) (sets : RequestSets)
        → Refined sys.sql_lower (change id sets) v (update sys id sets v))
      × ((id : Uuid) → Refined sys.sql_lower (erase id) v (delete id v))
      × ((request dest : Uuid)
          → Refined sys.sql_lower (assign request dest) v (add_destination request dest v))
      × ((request dest : Uuid)
          → Refined sys.sql_lower (unassign request dest) v (remove_destination request dest v))
      × ((request note : Uuid)
          → Refined sys.sql_lower (strike request note) v (delete_note_of request note v))
unfolding update delete add_destination remove_destination delete_note_of perform
calls-Refined sys v h =
    let lower = sys.sql_lower in
    let holds = λ (m : Move). perform-Implements lower v.now m v.db h in
    (
      (λ id sets. exec-Refined lower (change id sets) v _ _ (holds (change id sets))),
      (λ id. exec-Refined lower (erase id) v _ _ (holds (erase id))),
      (λ request dest.
          exec-Refined lower (assign request dest) v _ _ (holds (assign request dest))),
      (λ request dest.
          exec-Refined lower (unassign request dest) v _ _ (holds (unassign request dest))),
      (λ request note.
          exec-Refined lower (strike request note) v _ _ (holds (strike request note))),
    )

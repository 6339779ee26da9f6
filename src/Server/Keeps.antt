-- ===== src/Server/Keeps.antt =====
-- Invariants of steps: one rule for each way to build a step.
use anime_request_server.Prelude.{
  ℕ, ◌≡◌, refl, Bool, true, false, Option, none, some, if◌then◌else◌,
}
use anime_request_server.Database.Tables.{Db}
use anime_request_server.Server.{
  World, Outcome, ok, err, after, M, next, as_error, lost, pure, stop, ◌>>=◌, stop_if, or_stop,
  map_err, reads, DbError, Effect, done, refuse, is_lost, later_faults, settle, exec, query,
  rolled_back, transaction_steps, transaction,
}

-- What holds of the tables before `m` holds of them after it, whether it returns or stops.
pub record Keeps {E A : Type 0} (P : Db → Type 0) (m : M E A) : Type 0 where
  pub at : (w : World) → P w.db → P (after (m w)).db

-- A statement keeps it, at every time.
abbrev pub EffectKeeps : {A : Type 0} → (Db → Type 0) → Effect A → Type 0
EffectKeeps P (done a d) = P d
EffectKeeps P (refuse e) = Unit {0}

module _ (P : Db → Type 0) where
  as_error-Keeps :
      {E F A : Type 0} (g : E → F) (o : Outcome E A) → P (after o).db → P (after (as_error g o)).db
  as_error-Keeps g (ok a w) h = h
  as_error-Keeps g (err e w) h = h

  settle-Keeps :
      {A : Type 0} (b : Bool) (w : World) (e : Effect A)
      → P w.db
      → EffectKeeps P e
      → P (after (if b then err lost w else settle e w)).db
  settle-Keeps true w e h k = h
  settle-Keeps false w (done a d) h k = k
  settle-Keeps false w (refuse x) h k = h

  rolled_back-Keeps :
      {E A : Type 0} (d : Db) (o : Outcome E A)
      → P d
      → P (after o).db
      → P (after (rolled_back d o)).db
  rolled_back-Keeps d (ok a w) h k = k
  rolled_back-Keeps d (err e w) h k = h

module _ {E A : Type 0} {P : Db → Type 0} where
  pub Keeps-pure : (a : A) → Keeps {E = E} P (pure a)
  unfolding pure
  Keeps-pure a = record { at = λ w h. h }

  pub Keeps-stop : (e : E) → Keeps {A = A} P (stop e)
  unfolding stop
  Keeps-stop e = record { at = λ w h. h }

  pub Keeps-reads : (f : World → A) → Keeps {E = E} P (reads f)
  unfolding reads
  Keeps-reads f = record { at = λ w h. h }

  pub Keeps-or_stop : (o : Option A) (e : E) → Keeps P (or_stop o e)
  unfolding or_stop
  Keeps-or_stop none e = record { at = λ w h. h }
  Keeps-or_stop (some a) e = record { at = λ w h. h }

  -- The branch that is taken keeps it.
  pub Keeps-if :
      (test : Bool) (one other : M E A)
      → (test ≡ true → Keeps P one)
      → (test ≡ false → Keeps P other)
      → Keeps P (if test then one else other)
  Keeps-if true one other when unless = when refl
  Keeps-if false one other when unless = unless refl

module _ {E : Type 0} {P : Db → Type 0} where
  pub Keeps-stop_if : (b : Bool) (e : E) → Keeps P (stop_if b e)
  unfolding stop_if
  Keeps-stop_if true e = record { at = λ w h. h }
  Keeps-stop_if false e = record { at = λ w h. h }

module _ {E A B : Type 0} {P : Db → Type 0} where
  next-Keeps :
      (o : Outcome E A) (f : A → M E B)
      → P (after o).db
      → ((a : A) → Keeps P (f a))
      → P (after (next o f)).db
  next-Keeps (ok a w) f h k = (k a).at w h
  next-Keeps (err e w) f h k = h

  pub Keeps-bind :
      (m : M E A) (f : A → M E B) → Keeps P m → ((a : A) → Keeps P (f a)) → Keeps P (m >>= f)
  unfolding ◌>>=◌
  Keeps-bind m f km kf = record { at = λ w h. next-Keeps (m w) f (km.at w h) kf }

module _ {E F A : Type 0} {P : Db → Type 0} where
  pub Keeps-map_err : (g : E → F) (m : M E A) → Keeps P m → Keeps P (map_err g m)
  unfolding map_err
  Keeps-map_err g m k = record { at = λ w h. as_error-Keeps P g (m w) (k.at w h) }

module _ {A : Type 0} {P : Db → Type 0} where
  pub Keeps-exec :
      (q : ℕ → Db → Effect A)
      → ((now : ℕ) (d : Db) → P d → EffectKeeps P (q now d))
      → Keeps P (exec q)
  unfolding exec
  Keeps-exec q k = record {
    at = λ w h.
        settle-Keeps P (is_lost w.faults) (record w { faults = later_faults w.faults })
          (q w.now w.db) h (k w.now w.db h);
  }

  pub Keeps-query : (f : ℕ → Db → A) → Keeps P (query f)
  unfolding query
  Keeps-query f = Keeps-exec (λ now d. done (f now d) d) (λ now d h. h)

module _ {E B : Type 0} {P : Db → Type 0} where
  -- begin and commit write nothing
  control-Keeps : (g : DbError → E) (b : B) → Keeps P (map_err g (exec (λ now d. done b d)))
  control-Keeps g b = Keeps-map_err g _ (Keeps-exec (λ now d. done b d) (λ now d h. h))

module _ {E A : Type 0} {P : Db → Type 0} where
  steps-Keeps : (g : DbError → E) (body : M E A) → Keeps P body → Keeps P (transaction_steps g body)
  unfolding transaction_steps
  steps-Keeps g body k =
      Keeps-bind _ _ (control-Keeps g (tt {0})) (λ _. Keeps-bind body _ k (λ a. control-Keeps g a))

  pub Keeps-transaction :
      (g : DbError → E) (body : M E A) → Keeps P body → Keeps P (transaction g body)
  unfolding transaction
  Keeps-transaction g body k = record {
    at = λ w h.
        rolled_back-Keeps P w.db (transaction_steps g body w) h ((steps-Keeps g body k).at w h);
  }

pub ruleset keeps_rules = (
  Keeps-pure, Keeps-stop, Keeps-reads, Keeps-or_stop, Keeps-if, Keeps-stop_if, Keeps-bind,
  Keeps-map_err, Keeps-query, Keeps-transaction,
)

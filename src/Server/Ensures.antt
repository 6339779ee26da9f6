-- ===== src/Server/Ensures.antt =====
-- What a step makes sure of: from tables with `P` it returns with `Q` of its value and the tables, or
-- stops with `I`. One rule for each way to build a step.
use anime_request_server.Prelude.{
  ℕ, ◌≡◌, refl, Bool, true, false, Option, none, some, if◌then◌else◌,
}
use anime_request_server.Database.Tables.{Db}
use anime_request_server.Server.{
  World, Outcome, ok, err, after, M, pure, stop, ◌>>=◌, next, stop_if, or_stop, map_err, as_error,
  DbError, lost, Effect, done, refuse, is_lost, later_faults, settle, exec, query, rolled_back,
  transaction_steps, transaction,
}
use anime_request_server.Server.Keeps.{Keeps}

abbrev pub Post : {E A : Type 0} → (Db → Type 0) → (A → Db → Type 0) → Outcome E A → Type 0
Post I Q (ok a w) = Q a w.db
Post I Q (err e w) = I w.db

-- Asked of tables that a rollback throws away.
abbrev pub Anything : Db → Type 0
Anything d = Unit {0}

pub record Ensures {E A : Type 0} (I P : Db → Type 0) (m : M E A) (Q : A → Db → Type 0)
    : Type 0 where
  pub at : (w : World) → P w.db → Post I Q (m w)

abbrev pub EffectPost : {A : Type 0} → (A → Db → Type 0) → Effect A → Type 0
EffectPost Q (done a d) = Q a d
EffectPost Q (refuse e) = Unit {0}

pub EffectPost-weaken :
    {A : Type 0} (Q R : A → Db → Type 0) (e : Effect A)
    → ((a : A) (d : Db) → Q a d → R a d)
    → EffectPost Q e
    → EffectPost R e
EffectPost-weaken Q R (done a d) h k = h a d k
EffectPost-weaken Q R (refuse e) h k = tt

module _ {E A : Type 0} (I P : Db → Type 0) where
  pub Ensures-pure :
      (a : A) (Q : A → Db → Type 0) → ((d : Db) → P d → Q a d) → Ensures {E = E} I P (pure a) Q
  unfolding pure
  Ensures-pure a Q h = record { at = λ w p. h w.db p }

  pub Ensures-stop : (e : E) (Q : A → Db → Type 0) → ((d : Db) → P d → I d) → Ensures I P (stop e) Q
  unfolding stop
  Ensures-stop e Q h = record { at = λ w p. h w.db p }

  pub Ensures-or_stop :
      (o : Option A) (e : E)
      → ((d : Db) → P d → I d)
      → Ensures I P (or_stop o e) (λ a d. P d × (o ≡ some a))
  unfolding or_stop
  Ensures-or_stop none e h = record { at = λ w p. h w.db p }
  Ensures-or_stop (some a) e h = record { at = λ w p. (p, refl) }

  -- From more than is asked.
  pub Ensures-from :
      (P' : Db → Type 0) (m : M E A) (Q : A → Db → Type 0)
      → ((d : Db) → P' d → P d)
      → Ensures I P m Q
      → Ensures I P' m Q
  Ensures-from P' m Q h k = record { at = λ w p. k.at w (h w.db p) }

  -- A fact that does not depend on the tables may be taken out.
  pub Ensures-given :
      (K : Type 0) (m : M E A) (Q : A → Db → Type 0)
      → ((d : Db) → P d → K)
      → (K → Ensures I P m Q)
      → Ensures I P m Q
  Ensures-given K m Q h k = record { at = λ w p. (k (h w.db p)).at w p }

  weaken-Post :
      (Q R : A → Db → Type 0) (o : Outcome E A)
      → ((a : A) (d : Db) → Q a d → R a d)
      → Post I Q o
      → Post I R o
  weaken-Post Q R (ok a w) h p = h a w.db p
  weaken-Post Q R (err e w) h p = p

  pub Ensures-weaken :
      (m : M E A) (Q R : A → Db → Type 0)
      → Ensures I P m Q
      → ((a : A) (d : Db) → Q a d → R a d)
      → Ensures I P m R
  Ensures-weaken m Q R k h = record { at = λ w p. weaken-Post Q R (m w) h (k.at w p) }

module _ {E A : Type 0} (I : Db → Type 0) where
  kept-Post : (o : Outcome E A) → I (after o).db → Post I (λ _. I) o
  kept-Post (ok a w) h = h
  kept-Post (err e w) h = h

  pub Ensures-of-Keeps : (m : M E A) → Keeps I m → Ensures I I m (λ _. I)
  Ensures-of-Keeps m k = record { at = λ w h. kept-Post (m w) (k.at w h) }

  kept : (o : Outcome E A) → Post I (λ _. I) o → I (after o).db
  kept (ok a w) h = h
  kept (err e w) h = h

  pub Ensures-after :
      (m : M E A) → Ensures I I m (λ _. I) → (w : World) → I w.db → I (after (m w)).db
  Ensures-after m k w h = kept (m w) (k.at w h)

  discarded-Post : (o : Outcome E A) → I (after o).db → Post Anything (λ _. I) o
  discarded-Post (ok a w) h = h
  discarded-Post (err e w) h = tt

  -- The same, where a stop is undone.
  pub Ensures-undone : (m : M E A) → Keeps I m → Ensures Anything I m (λ _. I)
  Ensures-undone m k = record { at = λ w h. discarded-Post (m w) (k.at w h) }

module _ {E : Type 0} (I P : Db → Type 0) where
  pub Ensures-stop_if :
      (b : Bool) (e : E)
      → ((d : Db) → P d → I d)
      → Ensures I P (stop_if b e) (λ _ d. P d × (b ≡ false))
  unfolding stop_if
  Ensures-stop_if true e h = record { at = λ w p. h w.db p }
  Ensures-stop_if false e h = record { at = λ w p. (p, refl) }

module _ {E A B : Type 0} (I P : Db → Type 0) where
  next-Post :
      (Q : A → Db → Type 0) (R : B → Db → Type 0) (o : Outcome E A) (f : A → M E B)
      → Post I Q o
      → ((a : A) → Ensures I (Q a) (f a) R)
      → Post I R (next o f)
  next-Post Q R (ok a w) f p k = (k a).at w p
  next-Post Q R (err e w) f p k = p

  pub Ensures-bind :
      (m : M E A) (f : A → M E B) (Q : A → Db → Type 0) (R : B → Db → Type 0)
      → Ensures I P m Q
      → ((a : A) → Ensures I (Q a) (f a) R)
      → Ensures I P (m >>= f) R
  unfolding ◌>>=◌
  Ensures-bind m f Q R km kf = record { at = λ w p. next-Post Q R (m w) f (km.at w p) kf }

module _ {E F A : Type 0} (I P : Db → Type 0) where
  as_error-Post :
      (g : E → F) (Q : A → Db → Type 0) (o : Outcome E A) → Post I Q o → Post I Q (as_error g o)
  as_error-Post g Q (ok a w) p = p
  as_error-Post g Q (err e w) p = p

  pub Ensures-map_err :
      (g : E → F) (m : M E A) (Q : A → Db → Type 0) → Ensures I P m Q → Ensures I P (map_err g m) Q
  unfolding map_err
  Ensures-map_err g m Q k = record { at = λ w p. as_error-Post g Q (m w) (k.at w p) }

module _ {A : Type 0} (I P : Db → Type 0) where
  settle-Post :
      (Q : A → Db → Type 0) (b : Bool) (w : World) (e : Effect A)
      → I w.db
      → EffectPost Q e
      → Post I Q (if b then err lost w else settle e w)
  settle-Post Q true w e h k = h
  settle-Post Q false w (done a d) h k = k
  settle-Post Q false w (refuse x) h k = h

  pub Ensures-exec :
      (q : ℕ → Db → Effect A) (Q : A → Db → Type 0)
      → ((d : Db) → P d → I d)
      → ((now : ℕ) (d : Db) → P d → EffectPost Q (q now d))
      → Ensures I P (exec q) Q
  unfolding exec
  Ensures-exec q Q h k = record {
    at = λ w p.
        settle-Post Q (is_lost w.faults) (record w { faults = later_faults w.faults })
          (q w.now w.db) (h w.db p) (k w.now w.db p);
  }

  pub Ensures-query :
      (f : ℕ → Db → A) (Q : A → Db → Type 0)
      → ((d : Db) → P d → I d)
      → ((now : ℕ) (d : Db) → P d → Q (f now d) d)
      → Ensures I P (query f) Q
  unfolding query
  Ensures-query f Q h k = Ensures-exec (λ now d. done (f now d) d) Q h k

module _ {E A : Type 0} (I P : Db → Type 0) where
  rolled_back-Post :
      (Q : A → Db → Type 0) (d : Db) (o : Outcome E A)
      → I d
      → Post Anything Q o
      → Post I Q (rolled_back d o)
  rolled_back-Post Q d (ok a w) h p = p
  rolled_back-Post Q d (err e w) h p = h

  steps-ensures :
      (g : DbError → E) (body : M E A) (Q : A → Db → Type 0)
      → Ensures Anything P body Q
      → Ensures Anything P (transaction_steps g body) Q
  unfolding transaction_steps
  steps-ensures g body Q k =
      Ensures-bind Anything P _ _ (λ _. P) Q
        (Ensures-map_err Anything P g _ _
          (Ensures-exec Anything P (λ now d. done tt d) (λ _. P) (λ d p. tt) (λ now d p. p)))
        λ _. Ensures-bind Anything P body _ Q Q k λ a.
          Ensures-map_err Anything (Q a) g _ _
            (Ensures-exec Anything (Q a) (λ now d. done a d) Q (λ d p. tt) (λ now d p. p))

  -- What a body does before it stops is undone.
  pub Ensures-transaction :
      (g : DbError → E) (body : M E A) (Q : A → Db → Type 0)
      → ((d : Db) → P d → I d)
      → Ensures Anything P body Q
      → Ensures I P (transaction g body) Q
  unfolding transaction
  Ensures-transaction g body Q h k = record {
    at = λ w p.
        rolled_back-Post Q w.db (transaction_steps g body w) (h w.db p)
          ((steps-ensures g body Q k).at w p);
  }

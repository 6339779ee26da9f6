-- ===== src/Server/Returns.antt =====
-- What is known of a step that returned: the answers of the calls on its way, as equations about the
-- state that it began in. A lost call is the only thing that differs between states that are alike.
use anime_request_server.Prelude.{
  ℕ, ◌≡◌, refl, Bool, true, false, Option, none, some, if◌then◌else◌,
}
use anime_request_server.Database.Tables.{Db}
use anime_request_server.Server.{
  World, Outcome, ok, err, M, pure, stop, ◌>>=◌, next, stop_if, or_stop, map_err, as_error, reads,
  lost, Effect, done, refuse, is_lost, later_faults, settle, exec, query,
}

-- Alike but for the calls that will be lost.
pub record Alike (v w : World) : Type 0 where
  pub db : w.db ≡ v.db
  pub limiter : w.limiter ≡ v.limiter
  pub now : w.now ≡ v.now

pub Alike-refl : (w : World) → Alike w w
Alike-refl w = record { db = refl; limiter = refl; now = refl }

abbrev pub Returned : {E A : Type 0} → (A → World → Type 0) → Outcome E A → Type 0
Returned Q (ok a w) = Q a w
Returned Q (err e w) = Unit {0}

-- From a state like `v`, whenever `m` returns, `Q` holds of the value and the state.
pub record Gives {E A : Type 0} (v : World) (m : M E A) (Q : A → World → Type 0) : Type 0 where
  pub at : (w : World) → Alike v w → Returned Q (m w)

module _ {E A : Type 0} (v : World) where
  -- `m` changes nothing, and `K` holds of what it returns.
  abbrev pub Asks : M E A → (A → Type 0) → Type 0
  Asks m K = Gives v m (λ a w. Alike v w × K a)

  pub Gives-pure :
      (a : A) (Q : A → World → Type 0)
      → ((w : World) → Alike v w → Q a w)
      → Gives {E = E} v (pure a) Q
  unfolding pure
  Gives-pure a Q h = record { at = λ w s. h w s }

  pub Asks-pure : (a : A) → Gives {E = E} v (pure a) (λ b w. Alike v w × (b ≡ a))
  Asks-pure a = Gives-pure a _ (λ w s. (s, refl))

  pub Gives-stop : (e : E) (Q : A → World → Type 0) → Gives v (stop e) Q
  unfolding stop
  Gives-stop e Q = record { at = λ w s. tt }

  pub Asks-or_stop : (o : Option A) (e : E) → Asks (or_stop o e) (λ a. o ≡ some a)
  unfolding or_stop
  Asks-or_stop none e = record { at = λ w s. tt }
  Asks-or_stop (some a) e = record { at = λ w s. (s, refl) }

  pub Asks-reads :
      (f : World → A) → ((w : World) → Alike v w → f w ≡ f v) → Asks (reads f) (λ a. a ≡ f v)
  unfolding reads
  Asks-reads f h = record { at = λ w s. (s, h w s) }

  returned-weaken :
      (Q R : A → World → Type 0) (o : Outcome E A)
      → ((a : A) (w : World) → Q a w → R a w)
      → Returned Q o
      → Returned R o
  returned-weaken Q R (ok a w) h q = h a w q
  returned-weaken Q R (err e w) h q = tt

  pub Gives-weaken :
      (m : M E A) (Q R : A → World → Type 0)
      → Gives v m Q
      → ((a : A) (w : World) → Q a w → R a w)
      → Gives v m R
  Gives-weaken m Q R k h = record { at = λ w s. returned-weaken Q R (m w) h (k.at w s) }

  pub Gives-if :
      (b : Bool) (m n : M E A) (Q : A → World → Type 0)
      → (b ≡ true → Gives v m Q)
      → (b ≡ false → Gives v n Q)
      → Gives v (if b then m else n) Q
  Gives-if true m n Q h k = h refl
  Gives-if false m n Q h k = k refl

module _ {E : Type 0} (v : World) where
  pub Asks-stop_if : (b : Bool) (e : E) → Asks v (stop_if b e) (λ _. b ≡ false)
  unfolding stop_if
  Asks-stop_if true e = record { at = λ w s. tt }
  Asks-stop_if false e = record { at = λ w s. (s, refl) }

module _ {E A B : Type 0} (v : World) where
  next-returned :
      (Q : A → World → Type 0) (R : B → World → Type 0) (o : Outcome E A) (f : A → M E B)
      → Returned Q o
      → ((a : A) (w : World) → Q a w → Returned R (f a w))
      → Returned R (next o f)
  next-returned Q R (ok a w) f q k = k a w q
  next-returned Q R (err e w) f q k = tt

  -- Behind a question, its answer is known.
  pub Gives-ask :
      (m : M E A) (f : A → M E B) (K : A → Type 0) (R : B → World → Type 0)
      → Asks v m K
      → ((a : A) → K a → Gives v (f a) R)
      → Gives v (m >>= f) R
  unfolding ◌>>=◌
  Gives-ask m f K R km kf = record {
    at = λ w s. next-returned _ R (m w) f (km.at w s) (λ a x q. (kf a q.1).at x q.0);
  }

  -- Behind a change, the state is like another one.
  pub Gives-change :
      (m : M E A) (f : A → M E B) (K : A → World → Type 0) (R : B → World → Type 0)
      → Gives v m (λ a w. (u : World) × K a u × Alike u w)
      → ((a : A) (u : World) → K a u → Gives u (f a) R)
      → Gives v (m >>= f) R
  unfolding ◌>>=◌
  Gives-change m f K R km kf = record {
    at = λ w s. next-returned _ R (m w) f (km.at w s) (λ a x q. (kf a q.0 q.1).at x q.2);
  }

module _ {E F A : Type 0} (v : World) where
  as_error-returned :
      (g : E → F) (Q : A → World → Type 0) (o : Outcome E A)
      → Returned Q o
      → Returned Q (as_error g o)
  as_error-returned g Q (ok a w) q = q
  as_error-returned g Q (err e w) q = tt

  pub Gives-map_err :
      (g : E → F) (m : M E A) (Q : A → World → Type 0) → Gives v m Q → Gives v (map_err g m) Q
  unfolding map_err
  Gives-map_err g m Q k = record { at = λ w s. as_error-returned g Q (m w) (k.at w s) }

module _ {A : Type 0} (v : World) where
  -- What a statement did.
  abbrev pub Did : (ℕ → Db → Effect A) → A → World → Type 0
  Did q a u = (d : Db) × (q v.now v.db ≡ done a d) × (u ≡ record v { db = d })

  settle-returned :
      (q : ℕ → Db → Effect A) (b : Bool) (w : World) (e : Effect A)
      → Alike v w
      → q v.now v.db ≡ e
      → Returned
          (λ a w'. (u : World) × Did q a u × Alike u w')
          (if b then err lost w else settle e w)
  settle-returned q true w e s h = tt
  settle-returned q false w (done a d) s h =
      (record v { db = d }, (d, h, refl), record { db = refl; limiter = s.limiter; now = s.now })
  settle-returned q false w (refuse x) s h = tt

  pub Gives-exec :
      (q : ℕ → Db → Effect A) → Gives v (exec q) (λ a w. (u : World) × Did q a u × Alike u w)
  unfolding exec
  Gives-exec q = record {
    at = λ w s.
        settle-returned q (is_lost w.faults) (record w { faults = later_faults w.faults })
          (q w.now w.db) (record { db = s.db; limiter = s.limiter; now = s.now })
          (rw (s.now, s.db) refl);
  }

  asked :
      (b : Bool) (w : World) (f : ℕ → Db → A) (n : ℕ) (d : Db)
      → Alike v w
      → d ≡ v.db
      → n ≡ v.now
      → Returned
          (λ a x. Alike v x × (a ≡ f v.now v.db))
          (if b then err lost w else settle (done (f n d) d) w)
  asked true w f n d s e k = tt
  asked false w f n d s e k = (record { db = e; limiter = s.limiter; now = s.now }, rw (e, k) refl)

  pub Asks-query : (f : ℕ → Db → A) → Asks v (query f) (λ a. a ≡ f v.now v.db)
  unfolding query exec
  Asks-query f = record {
    at = λ w s.
        asked (is_lost w.faults) (record w { faults = later_faults w.faults }) f w.now w.db
          (record { db = s.db; limiter = s.limiter; now = s.now }) s.db s.now;
  }

-- ===== src/Server/Agrees.antt =====
-- Two steps that take the same course, as two front ends of one operation do: from every world both return, in
-- the same world, or both stop, in worlds that are alike in the sense of `L`. One rule for each way to
-- build a step.
use anime_request_server.Prelude.{◌≡◌, refl, Bool, true, false, Option, none, some, if◌then◌else◌}
use anime_request_server.Server.{
  World, Outcome, ok, err, M, next, as_error, pure, stop, ◌>>=◌, stop_if, or_stop, map_err, reads,
  ◌>>◌,
}

module _ (L : World → World → Type 0) where
  abbrev pub Match : {E F A B : Type 0} → (A → B → Type 0) → Outcome E A → Outcome F B → Type 0
  Match R (ok a u) (ok b v) = (u ≡ v) × R a b
  Match R (err e u) (err f v) = L u v
  Match R (ok a u) (err f v) = ⊥
  Match R (err e u) (ok b v) = ⊥

pub record Agrees {E F A B : Type 0} (L : World → World → Type 0) (R : A → B → Type 0) (m : M E A)
    (n : M F B) : Type 0 where
  pub at : (w : World) → Match L R (m w) (n w)

pub record IsReflexive (L : World → World → Type 0) : Type 0 where
  pub same : (w : World) → L w w

module _ {E F : Type 0} (L : World → World → Type 0) (r : IsReflexive L) where
  pub Agrees-pure :
      {A B : Type 0} (R : A → B → Type 0) (a : A) (b : B)
      → R a b
      → Agrees {E = E} {F = F} L R (pure a) (pure b)
  unfolding pure
  Agrees-pure R a b r = record { at = λ w. (refl, r) }

  pub Agrees-stop :
      {A B : Type 0} (R : A → B → Type 0) (e : E) (f : F)
      → Agrees L R (stop {A = A} e) (stop {A = B} f)
  unfolding stop
  Agrees-stop R e f = record { at = λ w. r.same w }

  pub Agrees-stop_if : (b : Bool) (e : E) (f : F) → Agrees L ◌≡◌ (stop_if b e) (stop_if b f)
  unfolding stop_if
  Agrees-stop_if true e f = record { at = λ w. r.same w }
  Agrees-stop_if false e f = record { at = λ w. (refl, refl) }

  pub Agrees-or_stop :
      {A : Type 0} (o : Option A) (e : E) (f : F) → Agrees L ◌≡◌ (or_stop o e) (or_stop o f)
  unfolding or_stop
  Agrees-or_stop none e f = record { at = λ w. r.same w }
  Agrees-or_stop (some a) e f = record { at = λ w. (refl, refl) }

  pub Agrees-reads : {A : Type 0} (f : World → A) → Agrees {E = E} {F = F} L ◌≡◌ (reads f) (reads f)
  unfolding reads
  Agrees-reads f = record { at = λ w. (refl, refl) }

  pub Agrees-if :
      {A B : Type 0} (R : A → B → Type 0) (b : Bool) (m m' : M E A) (n n' : M F B)
      → (b ≡ true → Agrees L R m n)
      → (b ≡ false → Agrees L R m' n')
      → Agrees L R (if b then m else m') (if b then n else n')
  Agrees-if R true m m' n n' h k = h refl
  Agrees-if R false m m' n n' h k = k refl

module _ {E F A B C D : Type 0} (L : World → World → Type 0) (R : A → B → Type 0)
    (S : C → D → Type 0) where
  next-Match :
      (o : Outcome E A) (p : Outcome F B) (f : A → M E C) (g : B → M F D)
      → Match L R o p
      → ((a : A) (b : B) → R a b → Agrees L S (f a) (g b))
      → Match L S (next o f) (next p g)
  next-Match (ok a u) (ok b v) f g h k = rw h.0 ((k a b h.1).at v)
  next-Match (err e u) (err d v) f g h k = h
  next-Match (ok a u) (err d v) f g h k = absurd h
  next-Match (err e u) (ok b v) f g h k = absurd h

  pub Agrees-bind :
      (m : M E A) (n : M F B) (f : A → M E C) (g : B → M F D)
      → Agrees L R m n
      → ((a : A) (b : B) → R a b → Agrees L S (f a) (g b))
      → Agrees L S (m >>= f) (n >>= g)
  unfolding ◌>>=◌
  Agrees-bind m n f g h k = record { at = λ w. next-Match (m w) (n w) f g (h.at w) k }

module _ {E F A C D : Type 0} (L : World → World → Type 0) (S : C → D → Type 0) where
  -- The value is the same.
  pub Agrees-then :
      (m : M E A) (n : M F A) (f : A → M E C) (g : A → M F D)
      → Agrees L ◌≡◌ m n
      → ((a : A) → Agrees L S (f a) (g a))
      → Agrees L S (m >>= f) (n >>= g)
  Agrees-then m n f g h k = Agrees-bind L ◌≡◌ S m n f g h (λ a b e. rw e (k b))

module _ {G E F A : Type 0} (L : World → World → Type 0) (r : IsReflexive L) where
  errors-Match :
      (f : G → E) (g : G → F) (o : Outcome G A) → Match L ◌≡◌ (as_error f o) (as_error g o)
  errors-Match f g (ok a w) = (refl, refl)
  errors-Match f g (err e w) = r.same w

  -- One call of a repository, with two ways to answer its error.
  pub Agrees-map_err :
      (f : G → E) (g : G → F) (m : M G A) → Agrees L ◌≡◌ (map_err f m) (map_err g m)
  unfolding map_err
  Agrees-map_err f g m = record { at = λ w. errors-Match f g (m w) }

module _ {E F A B : Type 0} (L : World → World → Type 0) (R : A → B → Type 0) where
  -- A check that is met on one side.
  pub Agrees-met :
      {C : Type 0} (m : M E A) (c : C) (f : F) (k : C → M F B)
      → Agrees L R m (k c)
      → Agrees L R m (or_stop (some c) f >>= k)
  unfolding or_stop ◌>>=◌
  Agrees-met m c f k h = record { at = λ w. h.at w }

  pub Agrees-passed :
      (m : M E A) (b : Bool) (f : F) (n : M F B)
      → b ≡ false
      → Agrees L R m n
      → Agrees L R m (stop_if b f >> n)
  unfolding stop_if ◌>>=◌
  Agrees-passed m b f n e h = rw e (record { at = λ w. h.at w })

-- ===== src/Text/Laws.antt =====
-- Laws of the text functions.
use Prim.Native.Char.{Char, code}
use Prim.Native.String.{[], ◌∷◌}
use anime_request_server.Prelude.{
  ◌+◌, ◌<◌, ap, Bool, not, String, ◌≡◌, refl, true, false, ◌&&◌, arith, ◌==◌, eq_iff, Bool-cases,
  inl, inr,
}
use anime_request_server.Text.{
  is_space, trim_left, trim_right, trim_space, is_empty, push, byte_length,
}

trim_left_space : (c : Char) (s : String) → is_space c ≡ true → trim_left (c ∷ s) ≡ trim_left s
unfolding trim_left
trim_left_space c s e = rw e

trim_left_stop : (c : Char) (s : String) → is_space c ≡ false → trim_left (c ∷ s) ≡ c ∷ s
unfolding trim_left
trim_left_stop c s e = rw e

trim_right_stop :
    (c : Char) (s : String) → is_space c ≡ false → trim_right (c ∷ s) ≡ c ∷ trim_right s
unfolding trim_right
trim_right_stop c s e = rw e

trim_right_idem : (s : String) → trim_right (trim_right s) ≡ trim_right s
unfolding trim_right
trim_right_idem [] = refl
trim_right_idem (c ∷ s) = elim (Bool-cases (is_space c && is_empty (trim_right s))) [
  | inl e ↦ rw e refl
  | inr e ↦ rw (e, trim_right) (rw (trim_right_idem s, e) refl)
]

trim_left-trim_right :
    (s : String) → trim_left (trim_right (trim_left s)) ≡ trim_right (trim_left s)
trim_left-trim_right [] = unfold trim_left trim_right in refl
trim_left-trim_right (c ∷ s) = elim (Bool-cases (is_space c)) [
  | inl e ↦ rw (trim_left_space c s e) (trim_left-trim_right s)
  | inr e ↦
      rw (trim_left_stop c s e) (rw (trim_right_stop c s e) (trim_left_stop c (trim_right s) e))
]

-- TrimSpace changes nothing the second time.
pub trim_space_idem : (s : String) → trim_space (trim_space s) ≡ trim_space s
unfolding trim_space
trim_space_idem s = rw (trim_left-trim_right s) (trim_right_idem (trim_left s))

pub eq_comm : (s t : String) → (s == t) ≡ (t == s)
eq_comm s t = ground (arith, eq_iff s t, eq_iff t s)

-- A text without spaces.
unfoldable pub no_space : String → Bool
no_space [] = true
no_space (c ∷ s) = not (is_space c) && no_space s

trim_right-no_space : (s : String) → no_space s ≡ true → trim_right s ≡ s
unfolding trim_right no_space
trim_right-no_space [] h = refl
trim_right-no_space (c ∷ s) h =
    rw (head_plain (is_space c) (no_space s) h)
      (ap (λ t. c ∷ t) (trim_right-no_space s (tail_plain (is_space c) (no_space s) h)))
  where
    head_plain : (a b : Bool) → (not a && b) ≡ true → a ≡ false
    head_plain a b h = ground arith

    tail_plain : (a b : Bool) → (not a && b) ≡ true → b ≡ true
    tail_plain a b h = ground arith

trim_left-no_space : (s : String) → no_space s ≡ true → trim_left s ≡ s
unfolding trim_left no_space
trim_left-no_space [] h = refl
trim_left-no_space (c ∷ s) h = rw (head_plain (is_space c) (no_space s) h) refl
  where
    head_plain : (a b : Bool) → (not a && b) ≡ true → a ≡ false
    head_plain a b h = ground arith

pub trim_space-no_space : (s : String) → no_space s ≡ true → trim_space s ≡ s
unfolding trim_space
trim_space-no_space s h = rw (trim_left-no_space s h) (trim_right-no_space s h)

pub no_space-push :
    (c : Char) (s : String) → is_space c ≡ false → no_space s ≡ true → no_space (push c s) ≡ true
unfolding no_space
no_space-push c s h k = rw (h, k) refl

pub byte_length-push :
    (c : Char) (s : String) → code c < 128 → byte_length (push c s) ≡ 1 + byte_length s
unfolding byte_length
byte_length-push c s h = ground arith

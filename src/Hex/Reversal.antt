-- ===== src/Hex/Reversal.antt =====
-- The in-place loop at the end of `decToHexa` reverses the text.
use mathlib.Core.List.{reverse-append, reverse-cons}
use matter_lwm2m_bridge.Base.{
  ℕ, zero, suc, ◌+◌, ◌-◌, ◌≤◌, ◌<◌, ◌≡◌, refl, ap, sym, ◌∙◌, some, List, [], ◌∷◌, ◌++◌,
  append_assoc, append-nil, get_elem?, set, set-append, length, length-append, arith, reverse,
  lt→ltb,
}
use matter_lwm2m_bridge.Text.{Bytes}
use matter_lwm2m_bridge.Hex.{swap, swap_loop}

get_elem?-append {ℓ} :
    {A : Type ℓ} (a : List A) (x : A) (r : List A) → get_elem? (a ++ x ∷ r) (length a) ≡ some x
get_elem?-append [] x r = refl
get_elem?-append (y ∷ a) x r = get_elem?-append a x r

swap_found :
    (s : Bytes) (i j x y : ℕ)
    → get_elem? s i ≡ some x
    → get_elem? s j ≡ some y
    → swap s i j ≡ set (set s i y) j x
unfolding swap
swap_found s i j x y e e' = ground arith

swap_ends :
    (a m b : Bytes) (x y j : ℕ)
    → j ≡ length (a ++ x ∷ m)
    → swap (a ++ x ∷ m ++ y ∷ b) (length a) j ≡ a ++ y ∷ m ++ x ∷ b
swap_ends a m b x y j e =
    let same : length (a ++ x ∷ m) ≡ length (a ++ y ∷ m) =
      omega (arith, length-append {0} a (x ∷ m), length-append {0} a (y ∷ m)) in
    let first : get_elem? (a ++ x ∷ m ++ y ∷ b) (length a) ≡ some x =
      rw (append_assoc a (x ∷ m) (y ∷ b)) (get_elem?-append a x (m ++ y ∷ b)) in
    let last : get_elem? (a ++ x ∷ m ++ y ∷ b) j ≡ some y =
      rw e (get_elem?-append (a ++ x ∷ m) y b) in
    let front : set (a ++ x ∷ m ++ y ∷ b) (length a) y ≡ a ++ y ∷ m ++ y ∷ b =
      rw (append_assoc a (x ∷ m) (y ∷ b), set-append a x y (m ++ y ∷ b))
        (sym (append_assoc a (y ∷ m) (y ∷ b))) in
    rw (swap_found _ (length a) j x y first last, front, e, same) (set-append (a ++ y ∷ m) y x b)

-- A list of two items or more has a last one.
data EndsView : Bytes → Type 0 where
  none_left : EndsView []
  one_left : (x : ℕ) → EndsView (x ∷ [])
  two_ends : (x y : ℕ) (m : Bytes) {s : Bytes} → s ≡ x ∷ m ++ y ∷ [] → EndsView s

cons-EndsView : (z : ℕ) (s : Bytes) → EndsView s → EndsView (z ∷ s)
cons-EndsView z s none_left = one_left z
cons-EndsView z s (one_left x) = two_ends z x [] refl
cons-EndsView z s (two_ends x y m e) = two_ends z y (x ∷ m) (ap (λ t. z ∷ t) e)

ends_of : (s : Bytes) → EndsView s
ends_of [] = none_left
ends_of (x ∷ s) = cons-EndsView x s (ends_of s)

swap_loop_done : (fuel i end : ℕ) (s : Bytes) → end ≤ i → swap_loop fuel s i end ≡ s
unfolding swap_loop
swap_loop_done zero i end s h = refl
swap_loop_done (suc fuel) i end s h = ground arith

swap_loop_round :
    (fuel i end : ℕ) (s : Bytes)
    → i < end
    → swap_loop (suc fuel) s i end ≡ swap_loop fuel (swap s i (end - 1)) (i + 1) (end - 1)
unfolding swap_loop
swap_loop_round fuel i end s h = rw (lt→ltb i end h)

-- The loop reverses what stands between its two ends, and leaves the rest of the text.
swap_loop_lem :
    (fuel : ℕ) (a m b : Bytes) (i end : ℕ)
    → EndsView m
    → i ≡ length a
    → end ≡ length a + length m
    → length m ≤ fuel
    → swap_loop fuel (a ++ m ++ b) i end ≡ a ++ reverse m ++ b
swap_loop_lem fuel a m b i end none_left ei ee h =
    swap_loop_done fuel i end (a ++ [] ++ b) (omega arith)
swap_loop_lem zero a m b i end (one_left x) ei ee h = absurd (omega arith)
swap_loop_lem (suc fuel) a m b i end (one_left x) ei ee h =
    let only : get_elem? (a ++ x ∷ [] ++ b) (length a) ≡ some x =
      rw (append_assoc a (x ∷ []) b) (get_elem?-append a x b) in
    let at : end - 1 ≡ length a = omega arith in
    let kept : set (a ++ x ∷ [] ++ b) (length a) x ≡ a ++ x ∷ [] ++ b =
      rw (append_assoc a (x ∷ []) b) (set-append a x x b) in
    rw (
      swap_loop_round fuel i end _ (omega arith),
      swap_loop_done fuel (i + 1) (end - 1) _ (omega arith),
      at,
      ei,
      swap_found _ (length a) (length a) x x only only,
      kept,
      kept,
    )
swap_loop_lem zero a m b i end (two_ends x y m' e) ei ee h =
    absurd (omega (arith, ap {B = ℕ} (length {0}) e))
swap_loop_lem (suc fuel) a m b i end (two_ends x y m' e) ei ee h =
    let n : length m ≡ length m' + 2 =
      omega (arith, ap {B = ℕ} (length {0}) e, length-append {0} m' (y ∷ [])) in
    let text : a ++ m ++ b ≡ a ++ x ∷ m' ++ y ∷ b = rw e (simp append_assoc) in
    let at : end - 1 ≡ length (a ++ x ∷ m') = omega (arith, length-append {0} a (x ∷ m')) in
    let moved : a ++ y ∷ m' ++ x ∷ b ≡ a ++ y ∷ [] ++ m' ++ x ∷ b = simp append_assoc in
    let rest =
      swap_loop_lem fuel (a ++ y ∷ []) m' (x ∷ b) (i + 1) (end - 1) (ends_of m')
        (omega (arith, length-append {0} a (y ∷ []))) (omega (arith, length-append {0} a (y ∷ [])))
        (omega arith) in
    let swapped : swap (a ++ x ∷ m' ++ y ∷ b) i (end - 1) ≡ a ++ y ∷ [] ++ m' ++ x ∷ b =
      rw ei (swap_ends a m' b x y (end - 1) at) ∙ moved in
    rw
      (
        text,
        swap_loop_round fuel i end _ (omega arith),
        swapped,
        rest,
        e,
        reverse-append (x ∷ m') (y ∷ []),
        reverse-cons x m',
      )
      (simp append_assoc)

-- The loop over the whole text reverses it.
pub swap_loop-reverse : (s : Bytes) → swap_loop (length s) s 0 (length s) ≡ reverse s
swap_loop-reverse s =
    let whole =
      swap_loop_lem (length s) [] s [] 0 (length s) (ends_of s) refl (omega arith) (omega arith) in
    simp append-nil at whole

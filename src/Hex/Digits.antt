-- ===== src/Hex/Digits.antt =====
-- The digits that `decToHexa` writes, and their value.
use mathlib.Core.List.{reverse-append, reverse-cons}
use native.Mathlib.Nat.{pow-suc, le_refl}
use matter_lwm2m_bridge.Base.{
  ℕ, zero, suc, ◌+◌, ◌-◌, ◌*◌, ◌/◌, ◌%◌, ◌^◌, ◌≤◌, ◌<◌, ◌≡◌, ◌≢◌, ◌⊎◌, refl, [], ◌∷◌, ◌++◌, length,
  arith, reverse, ltb, if◌then◌else◌, All, All-append, length-append, ==_of_ne, List, ◌∙◌, ◌↔◌, sym,
  ap,
}
use matter_lwm2m_bridge.Text.{Bytes}
use matter_lwm2m_bridge.Hex.{hex_char, hex_loop, swap_loop, dec_to_hexa}
use matter_lwm2m_bridge.Hex.Reversal.{swap_loop-reverse}

-- A digit of the upper-case hexadecimal notation.
abbrev pub IsHexDigit : ℕ → Type 0
IsHexDigit c = ((b'0' ≤ c) × (c ≤ b'9')) ⊎ ((b'A' ≤ c) × (c ≤ b'F'))

unfoldable pub hex_digit : ℕ → ℕ
hex_digit c = if ltb c b'A' then c - b'0' else c - b'A' + 10

-- The number that digits spell behind `n`.
unfoldable pub hex_value_from : ℕ → Bytes → ℕ
hex_value_from n [] = n
hex_value_from n (c ∷ s) = hex_value_from (n * 16 + hex_digit c) s

abbrev pub hex_value : Bytes → ℕ
hex_value s = hex_value_from 0 s

hex_digit-hex_char : (r : ℕ) → r < 16 → hex_digit (hex_char r) ≡ r
unfolding hex_digit hex_char
hex_digit-hex_char r h = ground arith

hex_loop_done : (fuel : ℕ) (ans : Bytes) → hex_loop fuel 0 ans ≡ ans
unfolding hex_loop
hex_loop_done zero ans = refl
hex_loop_done (suc fuel) ans = refl

hex_loop_round :
    (fuel n : ℕ) (ans : Bytes)
    → n ≢ 0
    → hex_loop (suc fuel) n ans ≡ hex_loop fuel (n / 16) (ans ++ hex_char (n % 16) ∷ [])
unfolding hex_loop
hex_loop_round fuel n ans h = rw (==_of_ne n 0 h)

hex_value_from-cons :
    (n c : ℕ) (s : Bytes) → hex_value_from n (c ∷ s) ≡ hex_value_from (n * 16 + hex_digit c) s
unfolding hex_value_from
hex_value_from-cons n c s = refl

-- Reading the reversed text of the loop gives the number, and goes on behind it.
hex_loop-value :
    (fuel n : ℕ) (ans : Bytes)
    → n ≤ fuel
    → hex_value_from 0 (reverse (hex_loop fuel n ans)) ≡ hex_value_from n (reverse ans)
hex_loop-value fuel zero ans h = rw hex_loop_done
hex_loop-value zero (suc n) ans h = elim h [ ]
hex_loop-value (suc fuel) (suc n) ans h =
    let k = suc n in
    let exact : k / 16 * 16 + hex_digit (hex_char (k % 16)) ≡ k =
      omega (arith, hex_digit-hex_char (k % 16) (omega arith)) in
    rw
      (
        hex_loop_round fuel k ans (λ e. omega arith),
        hex_loop-value fuel (k / 16) (ans ++ hex_char (k % 16) ∷ []) (omega arith),
        reverse-append ans (hex_char (k % 16) ∷ []),
      )
      (hex_value_from-cons (k / 16) _ (reverse ans) ∙ rw exact)

hex_char-IsHexDigit : (r : ℕ) → r < 16 → IsHexDigit (hex_char r)
unfolding hex_char
hex_char-IsHexDigit r h = ground arith

hex_loop-IsHexDigit :
    (fuel n : ℕ) (ans : Bytes) → All IsHexDigit ans → All IsHexDigit (hex_loop fuel n ans)
hex_loop-IsHexDigit fuel zero ans h = rw hex_loop_done h
hex_loop-IsHexDigit zero (suc n) ans h = unfold hex_loop in h
hex_loop-IsHexDigit (suc fuel) (suc n) ans h =
    rw (hex_loop_round fuel (suc n) ans (λ e. omega arith)) (
      hex_loop-IsHexDigit fuel (suc n / 16) (ans ++ hex_char (suc n % 16) ∷ [])
        (All-append IsHexDigit ans _ h (hex_char-IsHexDigit (suc n % 16) (omega arith), tt)))

length-hex_loop :
    (fuel n k : ℕ) (ans : Bytes) → n < 16 ^ k → length (hex_loop fuel n ans) ≤ length ans + k
length-hex_loop fuel zero k ans h = rw hex_loop_done (omega arith)
length-hex_loop zero (suc n) k ans h = unfold hex_loop in omega arith
length-hex_loop (suc fuel) (suc n) zero ans h = absurd (omega arith)
length-hex_loop (suc fuel) (suc n) (suc k) ans h =
    let small : suc n / 16 < 16 ^ k = omega (arith, pow-suc 16 k) in
    rw (hex_loop_round fuel (suc n) ans (λ e. omega arith)) (
      omega (
        arith,
        length-hex_loop fuel (suc n / 16) k (ans ++ hex_char (suc n % 16) ∷ []) small,
        length-append {0} ans (hex_char (suc n % 16) ∷ []),
      ))

All-reverse {ℓ} : {A : Type 0} (P : A → Type ℓ) (s : List A) → All P s → All P (reverse s)
All-reverse P [] h = tt
All-reverse P (x ∷ s) (h, hs) =
    rw (reverse-cons x s) (All-append P (reverse s) (x ∷ []) (All-reverse P s hs) (h, tt))

length-reverse {ℓ} : {A : Type ℓ} (s : List A) → length (reverse s) ≡ length s
length-reverse [] = refl
length-reverse (x ∷ s) =
    rw (reverse-cons x s) (omega (arith, length-append {ℓ} (reverse s) (x ∷ []), length-reverse s))

dec_to_hexa-eq-reverse : (n : ℕ) → dec_to_hexa n ≡ reverse (hex_loop n n [])
unfolding dec_to_hexa
dec_to_hexa-eq-reverse n = swap_loop-reverse (hex_loop n n [])

hex_value-dec_to_hexa : (n : ℕ) → n ≡ hex_value (dec_to_hexa n)
hex_value-dec_to_hexa n =
    rw (dec_to_hexa-eq-reverse n)
      (sym (hex_loop-value n n [] (le_refl n) ∙ (unfold hex_value_from in refl)))

-- `decToHexa` writes upper-case hexadecimal digits whose value is the number, and at most `k` of
-- them for a number below 16 ^ k.
pub dec_to_hexa-value :
    (n k : ℕ)
    → n < 16 ^ k
    → (hex_value (dec_to_hexa n) ≡ n)
      × All IsHexDigit (dec_to_hexa n)
      × (length (dec_to_hexa n) ≤ k)
dec_to_hexa-value n k h =
    rw (dec_to_hexa-eq-reverse n, length-reverse {0})
      (
        hex_loop-value n n [] (le_refl n) ∙ (unfold hex_value_from in refl),
        All-reverse IsHexDigit (hex_loop n n []) (hex_loop-IsHexDigit n n [] tt),
        omega (arith, length-hex_loop n n k [] h),
      )

-- Nothing at all is written for 0, and only for 0.
pub dec_to_hexa-nil_iff : (n : ℕ) → (dec_to_hexa n ≡ []) ↔ (n ≡ 0)
dec_to_hexa-nil_iff n = (
  (λ e. hex_value-dec_to_hexa n ∙ ap hex_value e ∙ (unfold hex_value_from in refl)),
  (λ e. rw e (unfold dec_to_hexa hex_loop swap_loop in refl)),
)

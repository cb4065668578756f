-- ===== src/Text/Decimal.antt =====
-- `std::to_string` and `std::stoi` on the `int`s of the source: what is printed is read back.
use matter_lwm2m_bridge.Base.{
  ℕ, zero, suc, ◌+◌, ◌/◌, ◌%◌, ◌^◌, ◌≤◌, ◌<◌, ◌≡◌, ◌≢◌, refl, [], ◌∷◌, arith, All, ℤ, pos, negsuc,
  IsInt32, ok, length,
}
use matter_lwm2m_bridge.Text.Defs.{
  Bytes, Lacks, slash, decimal_loop, decimal, to_string, read_digits, read_signed, stoi,
}

abbrev IsDigit : ℕ → Type 0
IsDigit d = (d ≤ b'9') × (b'0' ≤ d)

decimal_loop-IsDigit :
    (fuel n : ℕ) (out : Bytes) → All IsDigit out → All IsDigit (decimal_loop fuel n out)
unfolding decimal_loop
decimal_loop-IsDigit zero n out h = h
decimal_loop-IsDigit (suc fuel) n out h =
    ground (arith, decimal_loop-IsDigit fuel (n / 10) ((b'0' + n % 10) ∷ out))

-- Reading what the loop wrote gives the number, and goes on behind it.
read_digits-decimal_loop :
    (fuel n : ℕ) (out : Bytes)
    → n < fuel
    → read_digits (decimal_loop fuel n out) 0 ≡ read_digits out n
unfolding decimal_loop read_digits
read_digits-decimal_loop zero n out h = elim h [ ]
read_digits-decimal_loop (suc fuel) n out h =
    ground (arith, read_digits-decimal_loop fuel (n / 10) ((b'0' + n % 10) ∷ out))

decimal_loop-ne-nil : (fuel n : ℕ) (out : Bytes) → n < fuel → decimal_loop fuel n out ≢ []
unfolding decimal_loop
decimal_loop-ne-nil zero n out h = elim h [ ]
decimal_loop-ne-nil (suc fuel) n out h =
    ground (arith, decimal_loop-ne-nil fuel (n / 10) ((b'0' + n % 10) ∷ out))

decimal-IsDigit : (n : ℕ) → All IsDigit (decimal n)
unfolding decimal
decimal-IsDigit n = decimal_loop-IsDigit (n + 1) n [] tt

read_digits-decimal : (n : ℕ) → read_digits (decimal n) 0 ≡ n
unfolding decimal read_digits
read_digits-decimal n = read_digits-decimal_loop (n + 1) n [] (omega arith)

decimal-ne-nil : (n : ℕ) → decimal n ≢ []
unfolding decimal
decimal-ne-nil n = decimal_loop-ne-nil (n + 1) n [] (omega arith)

-- What `stoi` makes of digits, with and without a minus sign.
stoi_of_digits :
    (s : Bytes) {n : ℕ}
    → s ≢ []
    → All IsDigit s
    → read_digits s 0 ≡ n
    → n < 2 ^ 31
    → stoi s ≡ ok (pos n)
unfolding stoi read_signed
stoi_of_digits [] h d e l = absurd (h refl)
stoi_of_digits (c ∷ s) h d e l = ground arith

stoi_of_minus :
    (s : Bytes) {n : ℕ}
    → s ≢ []
    → All IsDigit s
    → read_digits s 0 ≡ suc n
    → n < 2 ^ 31
    → stoi (b'-' ∷ s) ≡ ok (negsuc n)
unfolding stoi read_signed
stoi_of_minus [] h d e l = absurd (h refl)
stoi_of_minus (c ∷ s) h d e l = ground arith

-- Every `int` of 32 bits is read back by `std::stoi` from what `std::to_string` prints.
pub stoi-to_string : (v : ℤ) → IsInt32 v → stoi (to_string v) ≡ ok v
unfolding to_string
stoi-to_string (pos n) h =
    stoi_of_digits (decimal n) (decimal-ne-nil n) (decimal-IsDigit n) (read_digits-decimal n) h
stoi-to_string (negsuc n) h =
    stoi_of_minus (decimal (n + 1)) (decimal-ne-nil (n + 1)) (decimal-IsDigit (n + 1))
      (omega (arith, read_digits-decimal (n + 1))) h

Lacks-IsDigit : (s : Bytes) → All IsDigit s → Lacks slash s
Lacks-IsDigit [] h = tt
Lacks-IsDigit (c ∷ s) (h, hs) = ((λ e. omega arith), Lacks-IsDigit s hs)

-- A printed `int` holds no slash, so it is one part of a path.
pub to_string-Lacks : (v : ℤ) → Lacks slash (to_string v)
unfolding to_string
to_string-Lacks (pos n) = Lacks-IsDigit (decimal n) (decimal-IsDigit n)
to_string-Lacks (negsuc n) =
    ((λ e. omega arith), Lacks-IsDigit (decimal (n + 1)) (decimal-IsDigit (n + 1)))

-- A number below 10 ^ (k + 1) is printed with at most k + 1 digits.
length-decimal_loop :
    (fuel n k : ℕ) (out : Bytes)
    → n < 10 ^ suc k
    → length (decimal_loop fuel n out) ≤ length out + suc k
unfolding decimal_loop
length-decimal_loop zero n k out h = omega arith
length-decimal_loop (suc fuel) n zero out h = ground arith
length-decimal_loop (suc fuel) n (suc k) out h =
    ground (arith, length-decimal_loop fuel (n / 10) k ((b'0' + n % 10) ∷ out))

pub length-to_string : (n k : ℕ) → n < 10 ^ suc k → length (to_string (pos n)) ≤ suc k
unfolding to_string decimal
length-to_string n k h = omega (arith, length-decimal_loop (n + 1) n k [] h)

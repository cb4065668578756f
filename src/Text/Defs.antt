-- ===== src/Text/Defs.antt =====
-- `std::string` as a list of character codes: `find`, `substr`, `std::to_string`, `std::stoi`, and
-- `SplitString` of main/CoapServer.cpp.
use Prim.Native.Char.{code}
use Prim.Native.String.{String}
use matter_lwm2m_bridge.Base.{
  ℕ, zero, suc, ◌+◌, ◌-◌, ◌*◌, ◌/◌, ◌%◌, ◌≡◌, ◌≢◌, refl, Bool, true, false, ◌&&◌, ◌||◌, Option,
  none, some, List, [], ◌∷◌, ◌++◌, ltb, leb, ◌==◌, if◌then◌else◌, length, take, drop, ℤ, pos,
  negsuc, fits_int32, Result, ok, err, Fault, ℕ_discrete, All,
}
use mathlib.Core.Option
use mathlib.Core.Logic.{ite}
use native.Mathlib.Omega.{arith}

abbrev pub Bytes : Type 0
Bytes = List ℕ

-- The codes of a literal; these are its bytes, since the source's literals are ASCII.
abbrev pub codes : String → Bytes
codes String.[] = []
codes (String.◌∷◌ c s) = code c ∷ codes s

unfoldable pub Bytes_discrete : Discrete Bytes
unfolding ℕ_discrete
Bytes_discrete = hlevel ℕ_discrete

-- A choice by the comparison of two texts, once it is known.
pub ite_of_eq : (u v : Bytes) {A : Type 0} (x y : A) → u ≡ v → ite (Bytes_discrete u v) x y ≡ x
ite_of_eq u v x y e = ground arith

pub ite_of_ne : (u v : Bytes) {A : Type 0} (x y : A) → u ≢ v → ite (Bytes_discrete u v) x y ≡ y
ite_of_ne u v x y e = ground arith

abbrev pub slash : ℕ
slash = b'/'

-- A text in which a character does not occur.
abbrev pub Lacks : ℕ → Bytes → Type 0
Lacks c = All (λ d. d ≢ c)

-- The position of the first `c`.
unfoldable pub index_of : ℕ → Bytes → Option ℕ
index_of c [] = none
index_of c (d ∷ s) = if d == c then some 0 else Option.map suc (index_of c s)

-- `s.find(c, start)`, with `none` for `npos`.
unfoldable pub find_char : Bytes → ℕ → ℕ → Option ℕ
unfolding index_of
find_char s c start = Option.map (λ i. start + i) (index_of c (drop start s))

-- `s.substr(start, n)` and `s.substr(start)`, for `start` within the text.
unfoldable pub substr : Bytes → ℕ → ℕ → Bytes
substr s start n = take n (drop start s)

unfoldable pub substr_from : Bytes → ℕ → Bytes
substr_from s start = drop start s

-- The `while` loop of `SplitString`: `start` is behind the last delimiter found. A round is made
-- for each delimiter and one for the last token, so the length of the text and one is enough fuel.
unfoldable pub split_loop : ℕ → Bytes → ℕ → ℕ → List Bytes → List Bytes
unfolding find_char substr substr_from
split_loop zero s delimiter start tokens = tokens
split_loop (suc fuel) s delimiter start tokens = elim (find_char s delimiter start) [
  | none ↦ tokens ++ substr_from s start ∷ []
  | some end ↦ split_loop fuel s delimiter (end + 1) (tokens ++ substr s start (end - start) ∷ [])
]

unfoldable pub split_string : Bytes → ℕ → List Bytes
unfolding split_loop
split_string s delimiter = split_loop (length s + 1) s delimiter 0 []

-- The digits of a number, the last one first on `out`; a number has no more digits than its value
-- and one.
unfoldable pub decimal_loop : ℕ → ℕ → Bytes → Bytes
decimal_loop zero n out = out
decimal_loop (suc fuel) n out =
    let rest = decimal_loop fuel (n / 10) ((b'0' + n % 10) ∷ out) in
    if ltb n 10 then (b'0' + n) ∷ out else rest

unfoldable pub decimal : ℕ → Bytes
unfolding decimal_loop
decimal n = decimal_loop (n + 1) n []

-- `std::to_string` of an `int`.
unfoldable pub to_string : ℤ → Bytes
unfolding decimal
to_string (pos n) = decimal n
to_string (negsuc n) = b'-' ∷ decimal (n + 1)

-- `isspace` and `isdigit` of the "C" locale.
unfoldable pub is_space : ℕ → Bool
is_space c = (c == 32) || (leb 9 c && leb c 13)

unfoldable pub is_digit : ℕ → Bool
is_digit c = leb b'0' c && leb c b'9'

-- The longest prefix of digits, behind the number `n` that the digits before it spell.
unfoldable pub read_digits : Bytes → ℕ → ℕ
unfolding is_digit
read_digits [] n = n
read_digits (c ∷ s) n =
    let more = read_digits s (n * 10 + (c - b'0')) in if is_digit c then more else n

-- The value behind a sign, in the range of an `int`. No digit is `std::invalid_argument`, a value
-- out of range is `std::out_of_range`.
unfoldable pub read_signed : Bool → Bytes → Result ℤ
unfolding is_digit read_digits
read_signed minus [] = err Fault.invalid_argument
read_signed minus (c ∷ s) =
    let n = read_digits (c ∷ s) 0 in
    let v = if minus then (if n == 0 then pos 0 else negsuc (n - 1)) else pos n in
    if is_digit c
    then (if fits_int32 v then ok v else err Fault.out_of_range)
    else err Fault.invalid_argument

unfoldable pub read_sign : Bytes → Result ℤ
unfolding read_signed
read_sign [] = err Fault.invalid_argument
read_sign (c ∷ s) =
    if c == b'-'
    then read_signed true s
    else if c == b'+'
    then read_signed false s
    else read_signed false (c ∷ s)

-- `std::stoi(s)`: leading white space, a sign, digits; what follows the digits is not read.
unfoldable pub stoi : Bytes → Result ℤ
unfolding is_space read_sign
stoi [] = err Fault.invalid_argument
stoi (c ∷ s) = let rest = stoi s in if is_space c then rest else read_sign (c ∷ s)

test_split : split_string (codes "3311/0/5850") slash ≡ codes "3311" ∷ codes "0" ∷ codes "5850" ∷ []
unfolding split_string
test_split = refl

test_split_edges : split_string (codes "/a/") slash ≡ [] ∷ codes "a" ∷ [] ∷ []
unfolding split_string
test_split_edges = refl

test_to_string : (to_string (pos 0) ≡ codes "0") × (to_string (negsuc 41) ≡ codes "-42")
unfolding to_string
test_to_string = (refl, refl)

test_stoi :
    (stoi (codes " -42x") ≡ ok (negsuc 41))
    × (stoi (codes "x") ≡ err Fault.invalid_argument)
    × (stoi (codes "2147483648") ≡ err Fault.out_of_range)
    × (stoi (codes "-2147483648") ≡ ok (negsuc 2147483647))
unfolding stoi
test_stoi = (refl, refl, refl, refl)

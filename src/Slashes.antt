-- ===== src/Slashes.antt =====
-- `ExtractBetweenSlashes` of main/include/BridgeUtils.h.
pub mod Between
use matter_lwm2m_bridge.Base.{
  ℕ, zero, suc, ◌+◌, ◌-◌, ◌%◌, ◌^◌, ◌≡◌, refl, Option, none, some, [], ◌∷◌, ◌==◌, if◌then◌else◌,
  take,
}
use matter_lwm2m_bridge.Text.{Bytes, codes, slash, substr}

-- `size_t` has 32 bits on the board; `npos` is its largest value.
abbrev pub size_mod : ℕ
size_mod = 2 ^ 32

abbrev pub npos : ℕ
npos = size_mod - 1

-- `a - b` in `size_t`, which wraps round.
abbrev pub sub_size : ℕ → ℕ → ℕ
sub_size a b = (a + size_mod - b) % size_mod

-- The position of the last `c`.
unfoldable pub last_index_of : ℕ → Bytes → Option ℕ
last_index_of c [] = none
last_index_of c (d ∷ s) = elim (last_index_of c s) [
  | some i ↦ some (suc i)
  | none ↦ if d == c then some 0 else none
]

-- `s.rfind(c, p)`: the last `c` at a position not behind `p`.
unfoldable pub rfind_char : Bytes → ℕ → ℕ → Option ℕ
unfolding last_index_of
rfind_char s c p = last_index_of c (take (p + 1) s)

unfoldable pub extract_between_slashes : Bytes → Bytes
extract_between_slashes s = elim (rfind_char s slash npos) [
  | none ↦ []
  | some last ↦ elim (rfind_char s slash (sub_size last 1)) [
    | none ↦ []
    | some prev ↦ substr s (prev + 1) (sub_size (sub_size last prev) 1)
  ]
]

test_extract :
    (extract_between_slashes (codes "#/sdfObject/Thermo/sdfProperty/Value") ≡ codes "sdfProperty")
    × (extract_between_slashes (codes "#/sdfObject") ≡ [])
    × (extract_between_slashes (codes "/sdfObject") ≡ codes "sdfObject")
unfolding extract_between_slashes rfind_char substr
test_extract = (refl, refl, refl)

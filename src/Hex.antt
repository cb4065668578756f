-- ===== src/Hex.antt =====
-- `decToHexa` and `Ip6ToStr` of main/BridgeUtils.cpp.
pub mod Reversal
pub mod Digits
pub mod Address
use matter_lwm2m_bridge.Base.{
  ℕ, zero, suc, ◌+◌, ◌-◌, ◌*◌, ◌/◌, ◌%◌, ◌^◌, ◌≡◌, refl, Option, none, some, List, [], ◌∷◌, ◌++◌,
  ◌==◌, ltb, if◌then◌else◌, get_elem?, set, length,
}
use matter_lwm2m_bridge.Text.{Bytes, codes}

-- The character of one digit.
unfoldable pub hex_char : ℕ → ℕ
hex_char rem = if ltb rem 10 then rem + 48 else rem + 55

-- The `while (n != 0)` loop: it appends the digits from the last one on. The callers pass an
-- `uint16_t`, so `n` is not negative; a number has no more digits than its value.
unfoldable pub hex_loop : ℕ → ℕ → Bytes → Bytes
hex_loop zero n ans = ans
hex_loop (suc fuel) n ans =
    let rest = hex_loop fuel (n / 16) (ans ++ hex_char (n % 16) ∷ []) in
    if n == 0 then ans else rest

-- `std::swap(ans[i], ans[j])`
unfoldable pub swap : Bytes → ℕ → ℕ → Bytes
swap s i j = elim (get_elem? s i) [
  | none ↦ s
  | some x ↦ elim (get_elem? s j) [ none ↦ s | some y ↦ set (set s i y) j x ]
]

-- The `while (i <= j)` loop, with `end` for `j + 1`, which is 0 for an empty text. A round moves both
-- ends, so the length of the text is enough fuel.
unfoldable pub swap_loop : ℕ → Bytes → ℕ → ℕ → Bytes
swap_loop zero ans i end = ans
swap_loop (suc fuel) ans i end =
    let rest = swap_loop fuel (swap ans i (end - 1)) (i + 1) (end - 1) in
    if ltb i end then rest else ans

unfoldable pub dec_to_hexa : ℕ → Bytes
dec_to_hexa n = let ans = hex_loop n n [] in swap_loop (length ans) ans 0 (length ans)

-- The four words of an `esp_ip6_addr_t`.
pub record Ip6Addr : Type 0 where
  pub addr_0 : ℕ
  pub addr_1 : ℕ
  pub addr_2 : ℕ
  pub addr_3 : ℕ

-- `(uint16_t)((w >> 16) & 0xffff)` and `(uint16_t)(w & 0xffff)`
abbrev pub high_block : ℕ → ℕ
high_block w = w / 2 ^ 16 % 2 ^ 16

abbrev pub low_block : ℕ → ℕ
low_block w = w % 2 ^ 16

abbrev pub colon : ℕ
colon = b':'

-- `esp_netif_htonl` is the network stack's, and a parameter.
module _ (htonl : ℕ → ℕ) where
  unfoldable pub ip6_to_str : Ip6Addr → Bytes
  ip6_to_str ip6addr =
      dec_to_hexa (high_block (htonl ip6addr.addr_0))
      ++ colon ∷ dec_to_hexa (low_block (htonl ip6addr.addr_0))
      ++ colon ∷ dec_to_hexa (high_block (htonl ip6addr.addr_1))
      ++ colon ∷ dec_to_hexa (low_block (htonl ip6addr.addr_1))
      ++ colon ∷ dec_to_hexa (high_block (htonl ip6addr.addr_2))
      ++ colon ∷ dec_to_hexa (low_block (htonl ip6addr.addr_2))
      ++ colon ∷ dec_to_hexa (high_block (htonl ip6addr.addr_3))
      ++ colon ∷ dec_to_hexa (low_block (htonl ip6addr.addr_3))

test_hex : (dec_to_hexa 0x2A02 ≡ codes "2A02") × (dec_to_hexa 0 ≡ [])
unfolding dec_to_hexa hex_loop hex_char swap_loop swap
test_hex = (refl, refl)

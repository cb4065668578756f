-- ===== src/Hex/Address.antt =====
-- The text of an address: eight blocks of hexadecimal digits between colons.
use matter_lwm2m_bridge.Base.{
  ℕ, ◌^◌, ◌<◌, ◌≡◌, ◌≢◌, refl, List, [], ◌∷◌, ◌++◌, arith, All, map, append_assoc, inl, inr, Bool,
  true, false, ◌==◌, ==_of_ne, sym, ◌∙◌, zero, suc,
}
use matter_lwm2m_bridge.Text.{Bytes, Lacks, split_string}
use matter_lwm2m_bridge.Text.Split.{
  tokens_of, tokens_of-append, tokens_of_self, split_string-eq-tokens_of,
}
use matter_lwm2m_bridge.Hex.{dec_to_hexa, Ip6Addr, high_block, low_block, colon, ip6_to_str}
use matter_lwm2m_bridge.Hex.Digits.{hex_value, IsHexDigit, dec_to_hexa-value, dec_to_hexa-nil_iff}

Lacks-IsHexDigit : (s : Bytes) → All IsHexDigit s → Lacks colon s
Lacks-IsHexDigit [] h = tt
Lacks-IsHexDigit (c ∷ s) (inl h, hs) = ((λ e. omega arith), Lacks-IsHexDigit s hs)
Lacks-IsHexDigit (c ∷ s) (inr h, hs) = ((λ e. omega arith), Lacks-IsHexDigit s hs)

block-Lacks : (n : ℕ) → n < 16 ^ 4 → Lacks colon (dec_to_hexa n)
block-Lacks n h = Lacks-IsHexDigit (dec_to_hexa n) (dec_to_hexa-value n 4 h).1

-- The eight blocks of an address, in the order of the text.
abbrev pub blocks : (ℕ → ℕ) → Ip6Addr → List ℕ
blocks htonl a =
    high_block (htonl a.addr_0)
    ∷ low_block (htonl a.addr_0)
    ∷ high_block (htonl a.addr_1)
    ∷ low_block (htonl a.addr_1)
    ∷ high_block (htonl a.addr_2)
    ∷ low_block (htonl a.addr_2)
    ∷ high_block (htonl a.addr_3)
    ∷ low_block (htonl a.addr_3)
    ∷ []

abbrev pub colon_separated : List ℕ → Bytes
colon_separated [] = []
colon_separated (n ∷ []) = dec_to_hexa n
colon_separated (n ∷ k ∷ ns) = dec_to_hexa n ++ colon ∷ colon_separated (k ∷ ns)

tokens_of-blocks :
    (n : ℕ) (ns : List ℕ)
    → All (λ k. k < 16 ^ 4) (n ∷ ns)
    → tokens_of colon (colon_separated (n ∷ ns)) ≡ map dec_to_hexa (n ∷ ns)
tokens_of-blocks n [] (h, _) = tokens_of_self colon (dec_to_hexa n) (block-Lacks n h)
tokens_of-blocks n (k ∷ ns) (h, hs) =
    rw (tokens_of-append colon (dec_to_hexa n) _ (block-Lacks n h), tokens_of-blocks k ns hs)

map-hex_value : (ns : List ℕ) → All (λ k. k < 16 ^ 4) ns → map hex_value (map dec_to_hexa ns) ≡ ns
map-hex_value [] h = refl
map-hex_value (n ∷ ns) (h, hs) = rw ((dec_to_hexa-value n 4 h).0, map-hex_value ns hs)

abbrev pub is_empty : Bytes → Bool
is_empty [] = true
is_empty (_ ∷ _) = false

is_empty-dec_to_hexa : (n : ℕ) → is_empty (dec_to_hexa n) ≡ (n == 0)
is_empty-dec_to_hexa zero = rw ((dec_to_hexa-nil_iff 0).1 refl) refl
is_empty-dec_to_hexa (suc n) =
    not_empty (dec_to_hexa (suc n)) (λ e. absurd (omega (arith, (dec_to_hexa-nil_iff (suc n)).0 e)))
    ∙ sym (==_of_ne (suc n) 0 (λ e. omega (arith, e)))
  where
    not_empty : (s : Bytes) → s ≢ [] → is_empty s ≡ false
    not_empty [] h = absurd (h refl)
    not_empty (c ∷ s) h = refl

map-is_empty : (ns : List ℕ) → map is_empty (map dec_to_hexa ns) ≡ map (λ n. n == 0) ns
map-is_empty [] = refl
map-is_empty (n ∷ ns) = rw (is_empty-dec_to_hexa n, map-is_empty ns)

module _ (htonl : ℕ → ℕ) (a : Ip6Addr) where
  ip6_to_str-colon_separated : ip6_to_str htonl a ≡ colon_separated (blocks htonl a)
  unfolding ip6_to_str
  ip6_to_str-colon_separated = simp append_assoc

  blocks_in_range : All (λ k. k < 16 ^ 4) (blocks htonl a)
  blocks_in_range = omega arith

  -- Cut at its colons, the text of an address has eight parts, one for each half of a word of the
  -- address in network order: the part of a half other than 0 has the half as its hexadecimal value,
  -- and exactly the part of a half that is 0 is empty, without the digit that an address has there.
  pub split_string-ip6_to_str :
      (map hex_value (split_string (ip6_to_str htonl a) colon) ≡ blocks htonl a)
      × (map is_empty (split_string (ip6_to_str htonl a) colon)
          ≡ map (λ n. n == 0) (blocks htonl a))
  split_string-ip6_to_str =
      rw
        (
          split_string-eq-tokens_of,
          ip6_to_str-colon_separated,
          tokens_of-blocks _ _ blocks_in_range,
        )
        (map-hex_value (blocks htonl a) blocks_in_range, map-is_empty (blocks htonl a))

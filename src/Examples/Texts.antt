-- ===== src/Examples/Texts.antt =====
-- The text functions of main/include/BridgeUtils.h, main/BridgeUtils.cpp and main/CoapServer.cpp.
use matter_lwm2m_bridge.Base.{◌==◌, ◌≤◌, ◌≡◌, map, All, arith, length}
use matter_lwm2m_bridge.Text.{Bytes, codes, slash, split_string}
use matter_lwm2m_bridge.Text.Split.{tokens_of, split_string-eq-tokens_of}
use matter_lwm2m_bridge.Slashes.{extract_between_slashes}
use matter_lwm2m_bridge.Slashes.Between.{extract_two_slashes, extract_leading_slash}
use matter_lwm2m_bridge.Hex.{dec_to_hexa, Ip6Addr, ip6_to_str, colon}
use matter_lwm2m_bridge.Hex.Digits.{hex_value, IsHexDigit, dec_to_hexa-value}
use matter_lwm2m_bridge.Hex.Address.{blocks, is_empty, split_string-ip6_to_str}

abbrev path : Bytes
path = codes "3311/0/5850"

split_string-eq-tokens_of_example : split_string path slash ≡ tokens_of slash path
split_string-eq-tokens_of_example = split_string-eq-tokens_of path slash

extract_two_slashes_example : extract_between_slashes (codes "#/sdfAction/On") ≡ codes "sdfAction"
extract_two_slashes_example =
    extract_two_slashes (codes "#") (codes "sdfAction") (codes "On") (ground arith) (ground arith)
      (omega arith)

extract_leading_slash_example : extract_between_slashes (codes "/On") ≡ codes "On"
extract_leading_slash_example = extract_leading_slash (codes "On") (ground arith) (omega arith)

dec_to_hexa-value_example :
    (hex_value (dec_to_hexa 0x2A02) ≡ 0x2A02)
    × All IsHexDigit (dec_to_hexa 0x2A02)
    × (length (dec_to_hexa 0x2A02) ≤ 4)
dec_to_hexa-value_example = dec_to_hexa-value 0x2A02 4 (omega arith)

abbrev address : Ip6Addr
address = record {
  addr_0 = 0x2A028109;
  addr_1 = 0x0C400000;
  addr_2 = 0x815045C1;
  addr_3 = 0xC7965026;
}

split_string-ip6_to_str_example :
    (map hex_value (split_string (ip6_to_str (λ w. w) address) colon) ≡ blocks (λ w. w) address)
    × (map is_empty (split_string (ip6_to_str (λ w. w) address) colon)
        ≡ map (λ n. n == 0) (blocks (λ w. w) address))
split_string-ip6_to_str_example = split_string-ip6_to_str (λ w. w) address

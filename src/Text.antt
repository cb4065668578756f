-- ===== src/Text.antt =====
-- Text of the bridge: the standard library's `std::string` operations that the source uses, and
-- `SplitString` of main/CoapServer.cpp.
mod Defs
pub mod Split
pub mod Decimal
pub use Defs.{ite_of_eq, ite_of_ne, Bytes, codes, slash, Lacks}
unfoldable pub use Defs.{
  Bytes_discrete, index_of, find_char, substr, substr_from, decimal, to_string, stoi, split_string,
}

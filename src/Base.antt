-- ===== src/Base.antt =====
-- The names that the modules share: the libraries', passed on, and those of the children.
mod Tests
mod Lists
mod Int
mod Faults
mod Dict
pub use Tests.*
pub use Lists.*
pub use Int.{ℤ, pos, negsuc, minus_one, IsInt32, fits_int32, to_unsigned}
unfoldable pub use Int.{ℤ_discrete}
pub use Faults.{Fault, Result, ok, err, ◌>>=◌, IfOk, IfOk-bind, IfOk-bind_second}
pub use Dict.{find-put}
unfoldable pub use Dict.{find, put}
pub use Prim.Native.Nat.{ℕ, zero, suc, ◌+◌, ◌-◌, ◌*◌, ◌/◌, ◌%◌, ◌^◌, ◌≤◌, ◌<◌}
pub use mathlib.Core.Path.{◌≡◌, refl, sym, ap, ◌∙◌}
pub use mathlib.Core.Logic.{◌≢◌, ◌↔◌, ◌⊎◌, inl, inr}
pub use mathlib.Core.Bool.{Bool, true, false, not, ◌&&◌, ◌||◌}
pub use mathlib.Core.Option.{Option, none, some}
pub use mathlib.Core.List.Memᴰ.{head, tail, cases_cons}
pub use mathlib.Core.List.{Memᴰ, List, [], ◌∷◌, ◌++◌, map, reverse, append_assoc, append-nil}
pub use native.Mathlib.Omega.{arith}
unfoldable pub use native.Mathlib.Decide.{dec_lt, ℕ_discrete}

-- ===== src/Common.antt =====
-- What the other modules share: the libraries' names, passed on; tests, lists, bytes and words;
-- and the interface through which floating-point numbers enter.
mod Tests
mod Lists
mod Bits
mod Bytes
mod Floats
pub mod Results
pub use Tests.*
pub use Lists.*
pub use Bits.*
unfoldable pub use Bytes.*
pub use Floats.*
pub use Prim.Native.Nat.{
  ℕ, zero, suc, ◌+◌, ◌-◌, ◌*◌, ◌/◌, ◌%◌, ◌^◌, ◌≤◌, ◌<◌, min, max, bit_and, bit_or,
}
pub use mathlib.Core.Path.{◌≡◌, refl, sym, ap, ap₂, ◌∙◌, subst}
pub use mathlib.Core.Logic.{◌≢◌, ◌↔◌, ◌⊎◌, inl, inr}
pub use mathlib.Core.Bool.{Bool, true, false, not, ◌&&◌, ◌||◌}
pub use mathlib.Core.Option.{Option, none, some}
pub use mathlib.Core.List.{List, [], ◌∷◌, ◌++◌, map, reverse}
pub use native.Mathlib.Omega.{arith}

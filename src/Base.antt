-- ===== src/Base.antt =====
-- The names that the other modules share, and the laws of bits, words and lists that they use.
mod Tests
mod Bits
mod Lists
mod Options
mod Product
pub use Tests.*
pub use Lists.*
pub use Options.*
unfoldable pub use Product.{prod}
pub use Product.{prod-ext, without, prod-without, prod-⊕, prod_and, prod-false, prod-true}
unfoldable pub use Bits.{bit, popcount}
pub use Bits.*
pub use Prim.Native.Nat.{ℕ, zero, suc, ◌+◌, ◌-◌, ◌*◌, ◌/◌, ◌%◌, ◌^◌, ◌≤◌, ◌<◌}
pub use Prim.Native.Nat.{bit_and, bit_or, bit_xor}
pub use mathlib.Core.Path.{◌≡◌, refl, sym, ap, ◌∙◌}
pub use mathlib.Core.Logic.{◌≢◌, ◌↔◌, ◌⊎◌, inl, inr}
pub use mathlib.Core.Bool.{Bool, true, false, not, ◌&&◌, ◌||◌}
pub use mathlib.Core.Option.{Option, none, some}
pub use mathlib.Core.List.{List, [], ◌∷◌, ◌++◌, map}
pub use native.Mathlib.Omega.{arith}

-- ===== src/Base/Bits.antt =====
-- The bits of a number, and those of the native `bit_and`, `bit_or`, `bit_xor`, of a word's
-- complement and of a power of two.
mod Step
mod Extent
mod Count
mod Lowest
mod Pack
unfoldable pub use Step.{bit}
pub use Step.{bit-and, bit-or, bit-xor, bit-zero, bit-two-pow, bit-complement}
pub use Extent.*
unfoldable pub use Count.{popcount}
pub use Count.{popcount-zero, popcount_below, zero_of_popcount}
pub use Lowest.{IsLowest, lowest, single_bit, positive_of_bit, positive_of_popcount}
pub use Pack.{bit_or-lt, bit_or-pack}

-- ===== src/Base/Bits/Count.antt =====
-- The set bits of a word: how many there are, and the lowest of them by `x & -x` and `x & (x - 1)`.
use Prim.Native.Nat.{◌≤◌, ℕ, zero, suc, ◌+◌, ◌*◌, ◌/◌, ◌%◌, ◌^◌, ◌<◌, bit_and}
use mathlib.Core.Path.{ap, ◌≡◌, refl, sym, ◌∙◌}
use mathlib.Core.Bool.{◌&&◌}
use native.Mathlib.Nat.{two-pow-succ}
use native.Mathlib.Omega.{arith}
use losys.Base.Tests.{◌==◌}
use losys.Base.Bits.Step.{bit, bit-and}
use losys.Base.Bits.Extent.{bit_ext}

-- How many of the low `w` bits are set: `__builtin_popcount` at `w = 32`.
unfoldable pub popcount : ℕ → ℕ → ℕ
popcount zero x = 0
popcount (suc w) x = x % 2 + popcount w (x / 2)

pub popcount-zero : (w : ℕ) → popcount w 0 ≡ 0
unfolding popcount
popcount-zero zero = refl
popcount-zero (suc w) = omega (arith, popcount-zero w)

pub zero_of_popcount : (w x : ℕ) → x < 2 ^ w → popcount w x ≡ 0 → x ≡ 0
unfolding popcount
zero_of_popcount zero x h e = omega arith
zero_of_popcount (suc w) x h e = omega (
  arith,
  two-pow-succ w,
  zero_of_popcount w (x / 2) (omega (arith, two-pow-succ w)) (omega arith),
)

bit_and_half : (a b : ℕ) → bit_and a b / 2 ≡ bit_and (a / 2) (b / 2)
bit_and_half a b =
    bit_ext _ _ λ i. unfold bit in (bit-and a b (suc i) ∙ sym (bit-and (a / 2) (b / 2) i))

bit_and_low : (a b : ℕ) → (bit_and a b % 2 == 1) ≡ (a % 2 == 1 && b % 2 == 1)
unfolding bit
bit_and_low a b = bit-and a b 0

pub bit_and_even : (a b c d : ℕ) → a ≡ 2 * c → b / 2 ≡ d → bit_and a b ≡ 2 * bit_and c d
bit_and_even a b c d e h =
    let u : a / 2 ≡ c = omega arith in
    let half : bit_and a b / 2 ≡ bit_and c d = bit_and_half a b ∙ (rw (u, h)) in
    let low : bit_and a b % 2 ≡ 0 = ground (arith, bit_and_low a b) in omega arith

pub bit_and_odd : (a b c d : ℕ) → a ≡ 2 * c + 1 → b ≡ 2 * d + 1 → bit_and a b ≡ 2 * bit_and c d + 1
bit_and_odd a b c d e h =
    let u : a / 2 ≡ c = omega arith in
    let v : b / 2 ≡ d = omega arith in
    let half : bit_and a b / 2 ≡ bit_and c d = bit_and_half a b ∙ (rw (u, v)) in
    let low : bit_and a b % 2 ≡ 1 = ground (arith, bit_and_low a b) in omega arith

pub bit_and_swap : (a b : ℕ) → bit_and a b ≡ bit_and b a
bit_and_swap a b = bit_ext _ _ λ i. ground (arith, bit-and a b i, bit-and b a i)

pub bit_and_self : (a : ℕ) → bit_and a a ≡ a
bit_and_self a = bit_ext _ _ λ i. ground (arith, bit-and a a i)

pub popcount_below : (w n x : ℕ) → x < 2 ^ n → popcount w x ≤ n
unfolding popcount
popcount_below zero n x h = omega arith
popcount_below (suc w) zero x h =
    let e : x ≡ 0 = omega arith in omega (arith, ap (popcount (suc w)) e, popcount-zero (suc w))
popcount_below (suc w) (suc n) x h =
    omega (arith, two-pow-succ n, popcount_below w n (x / 2) (omega (arith, two-pow-succ n)))

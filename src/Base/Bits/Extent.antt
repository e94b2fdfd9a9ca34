-- ===== src/Base/Bits/Extent.antt =====
-- A number is its bits: equality bit by bit, and `x < 2 ^ n` as `no bit from n on`.
use Prim.Native.Nat.{ℕ, zero, suc, ◌+◌, ◌/◌, ◌^◌, ◌≤◌, ◌<◌}
use mathlib.Core.Path.{◌≡◌}
use mathlib.Core.Bool.{false}
use native.Mathlib.Nat.{two-pow-succ}
use native.Mathlib.Omega.{arith}
use losys.Base.Bits.Step.{bit, bit-zero}

bit_ext_fuel : (n a b : ℕ) → a ≤ n → b ≤ n → ((i : ℕ) → bit a i ≡ bit b i) → a ≡ b
unfolding bit
bit_ext_fuel zero a b p q h = omega arith
bit_ext_fuel (suc n) a b p q h =
    ground (arith, h 0, bit_ext_fuel n (a / 2) (b / 2) (omega arith) (omega arith) (λ i. h (suc i)))

-- Two numbers with the same bits are the same.
pub bit_ext : (a b : ℕ) → ((i : ℕ) → bit a i ≡ bit b i) → a ≡ b
bit_ext a b h = bit_ext_fuel (a + b) a b (omega arith) (omega arith) h

pub bit_above : (n x i : ℕ) → x < 2 ^ n → n ≤ i → bit x i ≡ false
unfolding bit
bit_above zero x i h k = let e : x ≡ 0 = omega arith in rw e (bit-zero i)
bit_above (suc n) x zero h k = absurd (omega arith)
bit_above (suc n) x (suc i) h k =
    bit_above n (x / 2) i (omega (arith, two-pow-succ n)) (omega arith)

pub lt-two-pow : (n x : ℕ) → ((i : ℕ) → n ≤ i → bit x i ≡ false) → x < 2 ^ n
unfolding bit
lt-two-pow zero x h =
    let e : x ≡ 0 = bit_ext x 0 (λ i. rw (bit-zero i) (h i (omega arith))) in omega arith
lt-two-pow (suc n) x h =
    omega (arith, two-pow-succ n, lt-two-pow n (x / 2) (λ i k. h (suc i) (omega arith)))

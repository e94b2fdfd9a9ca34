-- ===== src/Base/Bits/Pack.antt =====
-- Two words side by side: `m * 2 ^ w + p`.
use Prim.Native.Nat.{ℕ, zero, suc, ◌+◌, ◌-◌, ◌*◌, ◌/◌, ◌^◌, ◌≤◌, ◌<◌, bit_or}
use mathlib.Core.Path.{◌≡◌, ap, ◌∙◌}
use mathlib.Core.Logic.{inl, inr}
use native.Mathlib.Nat.{two-pow-succ}
use native.Mathlib.Omega.{arith}
use losys.Base.Tests.{ltb, ltb→lt, Bool-cases}
use losys.Base.Bits.Step.{bit, bit-or}
use losys.Base.Bits.Extent.{bit_ext, bit_above, lt-two-pow}

mul-two-pow-suc : (m w : ℕ) → m * 2 ^ suc w ≡ 2 * (m * 2 ^ w)
mul-two-pow-suc m w = omega (arith, ap (λ (t : ℕ). m * t) (two-pow-succ w))

bit-pack-low : (w m p i : ℕ) → p < 2 ^ w → i < w → bit (m * 2 ^ w + p) i ≡ bit p i
unfolding bit
bit-pack-low zero m p i h k = elim k [ ]
bit-pack-low (suc w) m p zero h k = ground (arith, mul-two-pow-suc m w)
bit-pack-low (suc w) m p (suc i) h k =
    let e : (m * 2 ^ suc w + p) / 2 ≡ m * 2 ^ w + p / 2 = omega (arith, mul-two-pow-suc m w) in
    rw e (bit-pack-low w m (p / 2) i (omega (arith, two-pow-succ w)) (omega arith))

bit-pack-high : (w m p i : ℕ) → p < 2 ^ w → w ≤ i → bit (m * 2 ^ w + p) i ≡ bit m (i - w)
unfolding bit
bit-pack-high zero m p i h k =
    let e : m * 2 ^ 0 + p ≡ m = omega arith in let f : i - 0 ≡ i = omega arith in rw (e, f)
bit-pack-high (suc w) m p zero h k = absurd (omega arith)
bit-pack-high (suc w) m p (suc i) h k =
    let e : (m * 2 ^ suc w + p) / 2 ≡ m * 2 ^ w + p / 2 = omega (arith, mul-two-pow-suc m w) in
    let f : suc i - suc w ≡ i - w = omega arith in
    rw (e, f) (bit-pack-high w m (p / 2) i (omega (arith, two-pow-succ w)) (omega arith))

pub bit_or-lt : (w a b : ℕ) → a < 2 ^ w → b < 2 ^ w → bit_or a b < 2 ^ w
bit_or-lt w a b h k =
    lt-two-pow w (bit_or a b)
      λ i le. ground (arith, bit-or a b i, bit_above w a i h le, bit_above w b i k le)

-- `|` works on both halves at once.
pub bit_or-pack :
    (w m n p q : ℕ)
    → p < 2 ^ w
    → q < 2 ^ w
    → bit_or (m * 2 ^ w + p) (n * 2 ^ w + q) ≡ bit_or m n * 2 ^ w + bit_or p q
bit_or-pack w m n p q h k = bit_ext _ _ λ i.
    bit-or (m * 2 ^ w + p) (n * 2 ^ w + q) i ∙ elim (Bool-cases (ltb i w)) [
      | inl e ↦
          let lt = ltb→lt i w e in
          rw (
            bit-pack-low w m p i h lt,
            bit-pack-low w n q i k lt,
            bit-pack-low w (bit_or m n) (bit_or p q) i (bit_or-lt w p q h k) lt,
            bit-or p q i,
          )
      | inr e ↦
          let le : w ≤ i = ground arith in
          rw (
            bit-pack-high w m p i h le,
            bit-pack-high w n q i k le,
            bit-pack-high w (bit_or m n) (bit_or p q) i (bit_or-lt w p q h k) le,
            bit-or m n (i - w),
          )
    ]

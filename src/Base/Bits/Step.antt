-- ===== src/Base/Bits/Step.antt =====
-- `bit x i` is `(x >> i) & 1`, by recursion on `i`. The native operations mean a recursion on
-- binary digits, with a count of the digits to go; here each of them is read bit by bit.
use Prim.Native.Nat.{ℕ, zero, suc, ◌+◌, ◌-◌, ◌*◌, ◌/◌, ◌%◌, ◌^◌, ◌≤◌, ◌<◌, min, max, digits, differ}
use Prim.Native.Nat.{bit_and, bit_or, bit_xor, bit_and-bitwise, bit_or-bitwise, bit_xor-bitwise}
use mathlib.Core.Path.{◌≡◌, refl, ap, ◌∙◌}
use mathlib.Core.Bool.{Bool, false, not, ◌&&◌, ◌||◌}
use native.Mathlib.Nat.{le_refl, two-pow-succ}
use native.Mathlib.Omega.{arith}
use losys.Base.Tests.{◌==◌, ◌⊕◌}

unfoldable pub bit : ℕ → ℕ → Bool
bit x zero = x % 2 == 1
bit x (suc i) = bit (x / 2) i

pub bit-zero : (i : ℕ) → bit 0 i ≡ false
unfolding bit
bit-zero zero = refl
bit-zero (suc i) = bit-zero i

-- A digit-wise operation is the Boolean operation `op` on each bit.
module _ (z : ℕ → ℕ) (f : ℕ → ℕ → ℕ) (op : Bool → Bool → Bool)
    (rest : (b i : ℕ) → bit (z b) i ≡ op false (bit b i))
    (digit : (a b : ℕ) → a < 2 → b < 2 → f a b < 2)
    (digit_op : (a b : ℕ) → a < 2 → b < 2 → (f a b == 1) ≡ op (a == 1) (b == 1)) where
  bit-digits : (n a b i : ℕ) → a ≤ n → bit (digits z f n a b) i ≡ op (bit a i) (bit b i)
  unfolding bit
  bit-digits zero zero b i h = rw bit-zero (rest b i)
  bit-digits zero (suc a) b i h = absurd (omega arith)
  bit-digits (suc n) zero b i h = rw bit-zero (rest b i)
  bit-digits (suc n) (suc a) b zero h =
      let d = f (suc a % 2) (b % 2) in
      let low : d < 2 = digit (suc a % 2) (b % 2) (omega arith) (omega arith) in
      let e : (digits z f n (suc a / 2) (b / 2) * 2 + d) % 2 ≡ d = omega arith in
      rw e (digit_op (suc a % 2) (b % 2) (omega arith) (omega arith))
  bit-digits (suc n) (suc a) b (suc i) h =
      let d = f (suc a % 2) (b % 2) in
      let low : d < 2 = digit (suc a % 2) (b % 2) (omega arith) (omega arith) in
      let r = digits z f n (suc a / 2) (b / 2) in
      let e : (r * 2 + d) / 2 ≡ r = omega arith in
      rw e (bit-digits n (suc a / 2) (b / 2) i (omega arith))

-- Two binary digits, by cases.
digit_cases :
    (P : ℕ → ℕ → Type 0) → P 0 0 → P 0 1 → P 1 0 → P 1 1 → (a b : ℕ) → a < 2 → b < 2 → P a b
digit_cases P p q r s zero zero h k = p
digit_cases P p q r s zero (suc zero) h k = q
digit_cases P p q r s (suc zero) zero h k = r
digit_cases P p q r s (suc zero) (suc zero) h k = s
digit_cases P p q r s (suc (suc a)) b h k = absurd (omega arith)
digit_cases P p q r s zero (suc (suc b)) h k = absurd (omega arith)
digit_cases P p q r s (suc zero) (suc (suc b)) h k = absurd (omega arith)

pub bit-and : (a b i : ℕ) → bit (bit_and a b) i ≡ (bit a i && bit b i)
bit-and a b i =
    ap (λ (t : ℕ). bit t i) (bit_and-bitwise a b)
    ∙ bit-digits (λ _. 0) min (λ x y. x && y) (λ _ i. bit-zero i) (λ a b h k. omega arith)
        (digit_cases _ refl refl refl refl) a a b i (le_refl a)

pub bit-or : (a b i : ℕ) → bit (bit_or a b) i ≡ (bit a i || bit b i)
bit-or a b i =
    ap (λ (t : ℕ). bit t i) (bit_or-bitwise a b)
    ∙ bit-digits (λ b. b) max (λ x y. x || y) (λ _ _. refl) (λ a b h k. omega arith)
        (digit_cases _ refl refl refl refl) a a b i (le_refl a)

pub bit-xor : (a b i : ℕ) → bit (bit_xor a b) i ≡ (bit a i ⊕ bit b i)
bit-xor a b i =
    ap (λ (t : ℕ). bit t i) (bit_xor-bitwise a b)
    ∙ bit-digits (λ b. b) differ (λ x y. x ⊕ y) (λ _ _. refl)
        (digit_cases (λ a b. differ a b < 2) (omega arith) (omega arith) (omega arith)
          (omega arith))
        (digit_cases _ refl refl refl refl) a a b i (le_refl a)

-- `1 << k` has the bit `k` and no other.
pub bit-two-pow : (k i : ℕ) → bit (2 ^ k) i ≡ (k == i)
unfolding bit
bit-two-pow zero zero = refl
bit-two-pow zero (suc i) = rw (bit-zero i) (ground arith)
bit-two-pow (suc k) zero = ground (arith, two-pow-succ k)
bit-two-pow (suc k) (suc i) =
    let e : 2 ^ suc k / 2 ≡ 2 ^ k = omega (arith, two-pow-succ k) in
    rw e (bit-two-pow k i ∙ ground arith)

-- The complement of a word of `w` bits flips each of them.
pub bit-complement : (w x i : ℕ) → x < 2 ^ w → i < w → bit (2 ^ w - 1 - x) i ≡ not (bit x i)
unfolding bit
bit-complement zero x i h k = absurd (omega arith)
bit-complement (suc w) x zero h k = ground (arith, two-pow-succ w)
bit-complement (suc w) x (suc i) h k =
    let e : (2 ^ suc w - 1 - x) / 2 ≡ 2 ^ w - 1 - x / 2 = omega (arith, two-pow-succ w) in
    rw e (bit-complement w (x / 2) i (omega (arith, two-pow-succ w)) (omega arith))

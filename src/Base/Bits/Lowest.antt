-- ===== src/Base/Bits/Lowest.antt =====
-- The lowest set bit of a word: `x & -x` isolates it and `x & (x - 1)` clears it.
use Prim.Native.Nat.{ℕ, zero, suc, ◌+◌, ◌-◌, ◌*◌, ◌/◌, ◌%◌, ◌^◌, ◌<◌, bit_and}
use mathlib.Core.Path.{◌≡◌, ap, ◌∙◌}
use mathlib.Core.Logic.{inl, inr}
use mathlib.Core.Bool.{false, true, not, ◌&&◌}
use native.Mathlib.Nat.{two-pow-succ}
use native.Mathlib.Omega.{arith}
use losys.Base.Tests.{==_iff, ◌==◌, Bool-cases, ltb, ltb→lt}
use losys.Base.Bits.Step.{bit, bit-and, bit-zero, bit-complement}
use losys.Base.Bits.Extent.{lt-two-pow, bit_ext, bit_above}
use losys.Base.Bits.Count.{
  popcount, popcount-zero, zero_of_popcount, bit_and_even, bit_and_odd, bit_and_swap, bit_and_self,
}

pub record IsLowest (w x j : ℕ) : Type 0 where
  pub below : j < w
  pub is_set : bit x j ≡ true
  pub isolates : bit_and x (2 ^ w - x) ≡ 2 ^ j
  pub clears : (i : ℕ) → bit (bit_and x (x - 1)) i ≡ (bit x i && not (j == i))
  pub counts : popcount w x ≡ suc (popcount w (bit_and x (x - 1)))

disjoint_complement : (w y : ℕ) → y < 2 ^ w → bit_and y (2 ^ w - 1 - y) ≡ 0
disjoint_complement w y h = bit_ext _ _ λ i. elim (Bool-cases (ltb i w)) [
  | inl e ↦
      ground (arith, bit-and y (2 ^ w - 1 - y) i, bit-zero i, bit-complement w y i h (ltb→lt i w e))
  | inr e ↦
      ground (arith, bit-and y (2 ^ w - 1 - y) i, bit-zero i, bit_above w y i h (ground arith))
]

clears_odd : (x y : ℕ) → x ≡ 2 * y + 1 → bit_and x (x - 1) ≡ 2 * y
clears_odd x y e =
    bit_and_swap x (x - 1)
    ∙ bit_and_even (x - 1) x y y (omega arith) (omega arith)
    ∙ ap (λ (t : ℕ). 2 * t) (bit_and_self y)

double_half : (n : ℕ) → 2 * n / 2 ≡ n
double_half n = omega arith

IsLowest-odd : (w x y : ℕ) → x ≡ 2 * y + 1 → x < 2 ^ suc w → IsLowest (suc w) x 0
unfolding bit popcount
IsLowest-odd w x y e h = record {
  below = omega arith;
  is_set = ground arith;
  isolates =
      bit_and_odd x (2 ^ suc w - x) y (2 ^ w - 1 - y) e (omega (arith, two-pow-succ w))
      ∙ omega (arith, disjoint_complement w y (omega (arith, two-pow-succ w)));
  clears = odd_clears;
  counts = rw (clears_odd x y e) (
      let u : x / 2 ≡ y = omega arith in
      let v : 2 * y / 2 ≡ y = omega arith in rw (u, v) (omega arith));
}
  where
    odd_clears : (i : ℕ) → bit (bit_and x (x - 1)) i ≡ (bit x i && not (0 == i))
    odd_clears zero = rw (clears_odd x y e) (ground arith)
    odd_clears (suc i) = rw (clears_odd x y e) (
        let u : x / 2 ≡ y = omega arith in
        let v : 2 * y / 2 ≡ y = omega arith in rw (u, v) (ground arith))

IsLowest-even :
    (w x y j : ℕ) → x ≡ 2 * y → 0 < y → x < 2 ^ suc w → IsLowest w y j → IsLowest (suc w) x (suc j)
unfolding bit popcount
IsLowest-even w x y j e pos h l = record {
  below = omega (arith, l.below);
  is_set = rw half l.is_set;
  isolates =
      bit_and_even x (2 ^ suc w - x) y (2 ^ w - y) e (omega (arith, two-pow-succ w))
      ∙ omega (arith, l.isolates, two-pow-succ j);
  clears = even_clears;
  counts = rw (cleared, half, double_half (bit_and y (y - 1))) (omega (arith, l.counts));
}
  where
    half : x / 2 ≡ y
    half = omega arith

    cleared : bit_and x (x - 1) ≡ 2 * bit_and y (y - 1)
    cleared = bit_and_even x (x - 1) y (y - 1) e (omega arith)

    even_clears : (i : ℕ) → bit (bit_and x (x - 1)) i ≡ (bit x i && not (suc j == i))
    even_clears zero = rw cleared (ground arith)
    even_clears (suc i) =
        rw (cleared, half)
          (let u : 2 * bit_and y (y - 1) / 2 ≡ bit_and y (y - 1) = omega arith in
            rw u (l.clears i ∙ ground arith))

-- Every word but 0 has a lowest set bit.
pub lowest : (w x : ℕ) → 0 < x → x < 2 ^ w → (j : ℕ) × IsLowest w x j
lowest zero x p h = absurd (omega arith)
lowest (suc w) x p h = elim (Bool-cases (x % 2 == 1)) [
  | inl odd ↦ (0, IsLowest-odd w x (x / 2) (ground arith) h)
  | inr even ↦
      let (j, l) = lowest w (x / 2) (ground arith) (omega (arith, two-pow-succ w)) in
      (suc j, IsLowest-even w x (x / 2) j (ground arith) (ground arith) h l)
]

pub positive_of_bit : (x i : ℕ) → bit x i ≡ true → 0 < x
positive_of_bit x i h = elim (Bool-cases (ltb 0 x)) [
  | inl p ↦ ltb→lt 0 x p
  | inr p ↦ let z : x ≡ 0 = ground arith in ground (arith, ap (λ (t : ℕ). bit t i) z, bit-zero i)
]

clear-lt : (w x j : ℕ) → IsLowest w x j → x < 2 ^ w → bit_and x (x - 1) < 2 ^ w
clear-lt w x j l h =
    lt-two-pow w (bit_and x (x - 1)) λ i le. l.clears i ∙ ground (arith, bit_above w x i h le)

-- A word of one set bit is that bit.
pub single_bit :
    (w x : ℕ) → x < 2 ^ w → popcount w x ≡ 1 → (j : ℕ) × (j < w) × ((i : ℕ) → bit x i ≡ (j == i))
single_bit w x h e = let (j, l) = lowest w x positive h in (j, l.below, only j l)
  where
    positive : 0 < x
    positive = elim (Bool-cases (ltb 0 x)) [
      | inl p ↦ ltb→lt 0 x p
      | inr p ↦
          let z : x ≡ 0 = ground arith in absurd (omega (arith, ap (popcount w) z, popcount-zero w))
    ]

    only : (j : ℕ) → IsLowest w x j → (i : ℕ) → bit x i ≡ (j == i)
    only j l i =
        let y = bit_and x (x - 1) in
        let z : y ≡ 0 = zero_of_popcount w y (clear-lt w x j l h) (omega (arith, l.counts)) in
        let b : bit y i ≡ false = ap (λ (t : ℕ). bit t i) z ∙ bit-zero i in
        elim (Bool-cases (j == i)) [
          | inl p ↦ let q : j ≡ i = (==_iff j i).0 p in rw p (rw q at l.is_set)
          | inr p ↦ ground (arith, l.clears i)
        ]

pub positive_of_popcount : (w x : ℕ) → 0 < popcount w x → 0 < x
positive_of_popcount w x h = elim (Bool-cases (ltb 0 x)) [
  | inl p ↦ ltb→lt 0 x p
  | inr p ↦
      let z : x ≡ 0 = ground arith in absurd (omega (arith, ap (popcount w) z, popcount-zero w))
]

-- ===== src/Kernel/Cube32/Rotate.antt =====
-- `rotate` steps one literal through `-`, `1`, `0`.
use losys.Base.{
  ℕ, ◌^◌, ◌≤◌, ◌<◌, ◌≡◌, ◌∙◌, ap, not, ◌&&◌, ◌⊕◌, ◌==◌, Bool-cases, inl, inr, arith, bit, bit_above,
  bit_and, bit_xor, lt-two-pow, bit-and, bit-xor, bit-or, bit-complement,
}
use losys.Kernel.Cube32.{Cube32, shl32, not32, rotate, difference}
use losys.Kernel.Cube32.Meaning.{
  cube_ext, IsCube, canonical_false, mask_above, polarity_fits, word_of_fits, bit-shl32-one,
}

pub bit_xor-lt : (w a b : ℕ) → a < 2 ^ w → b < 2 ^ w → bit_xor a b < 2 ^ w
bit_xor-lt w a b h k =
    lt-two-pow w (bit_xor a b)
      λ i le. ground (arith, bit-xor a b i, bit_above w a i h le, bit_above w b i k le)

-- `~x & (1 << var)`.
bit-not32-shl32 :
    (x var i : ℕ)
    → x < 2 ^ 32
    → var < 32
    → bit (bit_and (not32 x) (shl32 1 var)) i ≡ (not (bit x i) && var == i)
bit-not32-shl32 x var i h k = elim (Bool-cases (var == i)) [
  | inl e ↦ ground (
    arith,
    bit-and (not32 x) (shl32 1 var) i,
    bit-shl32-one var i k,
    bit-complement 32 x i h (ground arith),
  )
  | inr e ↦ ground (arith, bit-and (not32 x) (shl32 1 var) i, bit-shl32-one var i k)
]

module _ {c : Cube32} {n : ℕ} (k : IsCube n c) (le : n ≤ 32) where
  pub word_polarity : c.polarity < 2 ^ 32
  word_polarity = word_of_fits n c.polarity le (polarity_fits k)

  pub word_mask : c.mask < 2 ^ 32
  word_mask = word_of_fits n c.mask le k.fits

  module _ (var : ℕ) (lt : var < n) where
    pub rotate-mask :
        (i : ℕ) → bit (rotate var c).mask i ≡ (bit c.mask i ⊕ (not (bit c.polarity i) && var == i))
    unfolding rotate
    rotate-mask i =
        bit-xor c.mask (bit_and (not32 c.polarity) (shl32 1 var)) i
        ∙ ap (λ b. bit c.mask i ⊕ b) (bit-not32-shl32 c.polarity var i word_polarity (omega arith))

    pub rotate-polarity :
        (i : ℕ)
        → bit (rotate var c).polarity i
          ≡ (bit c.polarity i ⊕ (not (bit c.polarity i ⊕ bit c.mask i) && var == i))
    unfolding rotate
    rotate-polarity i =
        let x = bit_xor c.polarity c.mask in
        let w : x < 2 ^ 32 = bit_xor-lt 32 c.polarity c.mask word_polarity word_mask in
        bit-xor c.polarity (bit_and (not32 x) (shl32 1 var)) i
        ∙ ap (λ b. bit c.polarity i ⊕ b)
            (bit-not32-shl32 x var i w (omega arith)
              ∙ ap (λ b. not b && var == i) (bit-xor c.polarity c.mask i))

    pub rotate-IsCube : IsCube n (rotate var c)
    rotate-IsCube = record {
      fits =
          lt-two-pow n (rotate var c).mask λ i h. rotate-mask i ∙ ground (arith, mask_above k i h);
      canonical = λ i h.
          ground (arith, rotate-mask i, rotate-polarity i, k.canonical i, canonical_false k i);
    }

    -- The literals of `c` and of its rotation differ at `var` and nowhere else.
    pub rotate-difference : (i : ℕ) → bit (difference c (rotate var c)) i ≡ (var == i)
    unfolding difference
    rotate-difference i = ground (
      arith,
      bit-or (bit_xor c.polarity (rotate var c).polarity) (bit_xor c.mask (rotate var c).mask) i,
      bit-xor c.polarity (rotate var c).polarity i,
      bit-xor c.mask (rotate var c).mask i,
      rotate-mask i,
      rotate-polarity i,
      canonical_false k i,
    )

-- Three rotations of a literal give the cube back.
rotate_thrice :
    (c : Cube32) (n var : ℕ)
    → IsCube n c
    → n ≤ 32
    → var < n
    → rotate var (rotate var (rotate var c)) ≡ c
rotate_thrice c n var k le lt =
    let k1 = rotate-IsCube k le var lt in
    let k2 = rotate-IsCube k1 le var lt in
    cube_ext _ c
      (λ i. ground (
        arith,
        rotate-mask k le var lt i,
        rotate-polarity k le var lt i,
        rotate-mask k1 le var lt i,
        rotate-polarity k1 le var lt i,
        rotate-mask k2 le var lt i,
        canonical_false k i,
      ))
      (λ i. ground (
        arith,
        rotate-mask k le var lt i,
        rotate-polarity k le var lt i,
        rotate-mask k1 le var lt i,
        rotate-polarity k1 le var lt i,
        rotate-polarity k2 le var lt i,
        canonical_false k i,
      ))

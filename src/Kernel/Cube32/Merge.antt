-- ===== src/Kernel/Cube32/Merge.antt =====
-- `difference`, `distance` and `merge`: two cubes that differ in one literal have a single cube
-- for their exclusive or.
use losys.Base.{
  ℕ, ◌^◌, ◌≤◌, ◌<◌, ◌≡◌, ◌≢◌, ◌∙◌, ap, Bool, not, ◌&&◌, ◌||◌, ◌⊕◌, ◌==◌, Bool-cases, ltb, ltb→lt,
  inl, inr, arith, bit, bit_above, bit_and, bit_xor, lt-two-pow, bit-and, bit-xor, bit-or,
  bit-complement, single_bit, bit_or-lt, prod-⊕,
}
use losys.Kernel.Cube32.{rotate, Cube32, not32, difference, distance, merge}
use losys.Kernel.Cube32.Meaning.{lit, eval, IsCube, canonical_false, mask_above, polarity_above}
use losys.Kernel.Cube32.Rotate.{
  rotate-polarity, rotate-mask, rotate-IsCube, rotate-difference, word_polarity, word_mask,
  bit_xor-lt,
}

pub bit-difference :
    (c d : Cube32) (i : ℕ)
    → bit (difference c d) i
      ≡ ((bit c.polarity i ⊕ bit d.polarity i) || (bit c.mask i ⊕ bit d.mask i))
unfolding difference
bit-difference c d i = ground (
  arith,
  bit-or (bit_xor c.polarity d.polarity) (bit_xor c.mask d.mask) i,
  bit-xor c.polarity d.polarity i,
  bit-xor c.mask d.mask i,
)

-- The cubes have different literals for the variable `j` and for no other.
abbrev pub DiffersAt : ℕ → Cube32 → Cube32 → Type 0
DiffersAt j c d = (i : ℕ) → bit (difference c d) i ≡ (j == i)

module _ {c d : Cube32} {n : ℕ} (kc : IsCube n c) (kd : IsCube n d) (le : n ≤ 32) where
  pub difference-lt : difference c d < 2 ^ n
  difference-lt = lt-two-pow n (difference c d) λ i h. ground (
    arith,
    bit-difference c d i,
    mask_above kc i h,
    mask_above kd i h,
    polarity_above kc i h,
    polarity_above kd i h,
  )

  pub difference_word : difference c d < 2 ^ 32
  unfolding difference
  difference_word =
      bit_or-lt 32 _ _ (bit_xor-lt 32 _ _ (word_polarity kc le) (word_polarity kd le))
        (bit_xor-lt 32 _ _ (word_mask kc le) (word_mask kd le))

  -- Distance 1 singles out a variable.
  pub distance_one : distance c d ≡ 1 → (j : ℕ) × (j < n) × DiffersAt j c d
  unfolding distance
  distance_one e =
      let (j, _, only) = single_bit 32 (difference c d) difference_word e in
      (j, inside j only, only)
    where
      inside : (j : ℕ) → DiffersAt j c d → j < n
      inside j only = elim (Bool-cases (ltb j n)) [
        | inl p ↦ ltb→lt j n p
        | inr p ↦ absurd (ground (arith, only j, bit_above n (difference c d) j difference-lt))
      ]

  module _ (j : ℕ) (lt : j < n) (at : DiffersAt j c d) where
    pub merge-mask : (i : ℕ) → bit (merge c d).mask i ≡ (bit c.mask i ⊕ (bit d.mask i && j == i))
    unfolding merge
    merge-mask i = ground (
      arith,
      bit-xor c.mask (bit_and d.mask (difference c d)) i,
      bit-and d.mask (difference c d) i,
      at i,
    )

    pub merge-polarity :
        (i : ℕ)
        → bit (merge c d).polarity i ≡ (bit c.polarity i ⊕ (not (bit d.polarity i) && j == i))
    unfolding merge
    merge-polarity i =
        bit-xor c.polarity (bit_and (not32 d.polarity) (difference c d)) i
        ∙ ap (λ b. bit c.polarity i ⊕ b) masked
      where
        masked :
            bit (bit_and (not32 d.polarity) (difference c d)) i ≡ (not (bit d.polarity i) && j == i)
        masked = elim (Bool-cases (j == i)) [
          | inl e ↦ ground (
            arith,
            bit-and (not32 d.polarity) (difference c d) i,
            at i,
            bit-complement 32 d.polarity i (word_polarity kd le) (ground arith),
          )
          | inr e ↦ ground (arith, bit-and (not32 d.polarity) (difference c d) i, at i)
        ]

    pub merge-IsCube : IsCube n (merge c d)
    merge-IsCube = record {
      fits =
          lt-two-pow n (merge c d).mask
            λ i h. merge-mask i ∙ ground (arith, mask_above kc i h, mask_above kd i h);
      canonical = λ i h. ground (
        arith,
        merge-mask i,
        merge-polarity i,
        kc.canonical i,
        kd.canonical i,
        at i,
        bit-difference c d i,
        canonical_false kc i,
        canonical_false kd i,
      );
    }

    -- The cube stands for the exclusive or of the two.
    pub eval-merge : (v : ℕ → Bool) → eval (merge c d) v ≡ (eval c v ⊕ eval d v)
    unfolding eval
    eval-merge v = prod-⊕ 32 j _ _ _ (omega arith) elsewhere here
      where
        elsewhere :
            (i : ℕ)
            → i < 32
            → i ≢ j
            → (lit (bit c.mask i) (bit c.polarity i) (v i)
                ≡ lit (bit (merge c d).mask i) (bit (merge c d).polarity i) (v i))
              × (lit (bit d.mask i) (bit d.polarity i) (v i)
                  ≡ lit (bit (merge c d).mask i) (bit (merge c d).polarity i) (v i))
        elsewhere i _ ne = (
          ground (arith, merge-mask i, merge-polarity i),
          ground (arith, merge-mask i, merge-polarity i, at i, bit-difference c d i),
        )

        here : lit (bit (merge c d).mask j) (bit (merge c d).polarity j) (v j) ≡ (
            lit (bit c.mask j) (bit c.polarity j) (v j)
            ⊕ lit (bit d.mask j) (bit d.polarity j) (v j))
        here = ground (
          arith,
          merge-mask j,
          merge-polarity j,
          at j,
          bit-difference c d j,
          canonical_false kc j,
          canonical_false kd j,
        )

-- Cubes at distance 1 merge into a cube that stands for their exclusive or.
pub merge_lem :
    (c d : Cube32) (n : ℕ)
    → IsCube n c
    → IsCube n d
    → n ≤ 32
    → distance c d ≡ 1
    → IsCube n (merge c d) × ((v : ℕ → Bool) → eval (merge c d) v ≡ (eval c v ⊕ eval d v))
merge_lem c d n kc kd le e =
    let (j, lt, at) = distance_one kc kd le e in
    (merge-IsCube kc kd le j lt at, eval-merge kc kd le j lt at)

module _ (c : Cube32) (n var : ℕ) (k : IsCube n c) (le : n ≤ 32) (lt : var < n) where
  pub rotate-DiffersAt : DiffersAt var c (rotate var c)
  rotate-DiffersAt = rotate-difference k le var lt

  pub rotate_twice-DiffersAt : DiffersAt var c (rotate var (rotate var c))
  rotate_twice-DiffersAt i =
      let k1 = rotate-IsCube k le var lt in
      ground (
        arith,
        bit-difference c (rotate var (rotate var c)) i,
        rotate-mask k le var lt i,
        rotate-polarity k le var lt i,
        rotate-mask k1 le var lt i,
        rotate-polarity k1 le var lt i,
        canonical_false k i,
      )

-- ===== src/Kernel/Cube32/Single.antt =====
-- `invert` on a single literal, `add_lit` on a free variable, and which cubes `rotate` reaches.
use losys.Base.{
  ℕ, zero, suc, ◌≤◌, ◌<◌, ◌≡◌, refl, ◌∙◌, ap, Bool, true, false, not, ◌&&◌, ◌||◌, ◌⊕◌, ◌⊎◌, ◌==◌,
  ==_iff, Bool-cases, inl, inr, arith, bit, lt-two-pow, bit-or, bit-xor, bit-zero, single_bit, prod,
  prod-ext, prod-without, prod-true, without,
}
use losys.Kernel.Cube32.{Cube32, invert, n_lits, add_lit, rotate, shl32}
use losys.Kernel.Cube32.Meaning.{
  lit, eval, IsCube, canonical_false, mask_above, cube_ext, bit-shl32-one,
}
use losys.Kernel.Cube32.Rotate.{word_mask, rotate-mask, rotate-polarity, rotate-IsCube}
use losys.Kernel.Cube32.Merge.{DiffersAt, bit-difference}

invert-polarity :
    (c : Cube32) (i : ℕ) → bit (invert c).polarity i ≡ (bit c.polarity i ⊕ bit c.mask i)
unfolding invert
invert-polarity c i = bit-xor c.polarity c.mask i

invert-mask : (c : Cube32) → (invert c).mask ≡ c.mask
unfolding invert
invert-mask c = refl

pub invert-IsCube : {c : Cube32} {n : ℕ} → IsCube n c → IsCube n (invert c)
invert-IsCube {c} {n} k = record {
  fits = rw (invert-mask c) k.fits;
  canonical = λ i h.
      ground (arith, invert-polarity c i, ap (λ (t : ℕ). bit t i) (invert-mask c), k.canonical i);
}

-- A cube of one literal is that literal.
pub eval_single :
    (c : Cube32) (j : ℕ) (v : ℕ → Bool)
    → j < 32
    → ((i : ℕ) → bit c.mask i ≡ (j == i))
    → eval c v ≡ not (bit c.polarity j ⊕ v j)
unfolding eval
eval_single c j v h only =
    let f = λ (i : ℕ). lit (bit c.mask i) (bit c.polarity i) (v i) in
    let others : prod 32 (without j f) ≡ true =
      prod-true 32 (without j f) (λ i _. ground (arith, only i)) in
    ground (arith, prod-without 32 j f h, others, only j)

-- The inversion of a single literal is its complement.
pub invert_lem :
    (c : Cube32) (n : ℕ)
    → IsCube n c
    → n ≤ 32
    → n_lits c ≡ 1
    → IsCube n (invert c) × ((v : ℕ → Bool) → eval (invert c) v ≡ not (eval c v))
unfolding n_lits
invert_lem c n k le e =
    let (j, h, only) = single_bit 32 c.mask (word_mask k le) e in
    let inverted : (i : ℕ) → bit (invert c).mask i ≡ (j == i) =
      λ i. ap (λ (t : ℕ). bit t i) (invert-mask c) ∙ only i in
    (
      invert-IsCube k,
      λ v. ground (
        arith,
        eval_single c j v h only,
        eval_single (invert c) j v h inverted,
        only j,
        invert-polarity c j,
      ),
    )

module _ {c : Cube32} {n : ℕ} (k : IsCube n c) (var : ℕ) (lt : var < n) (le : n ≤ 32) where
  bit-shl32 : (p i : ℕ) → p ≤ 1 → bit (shl32 p var) i ≡ (p == 1 && var == i)
  bit-shl32 zero i h = let e : shl32 0 var ≡ 0 = omega arith in rw e (bit-zero i)
  bit-shl32 (suc zero) i h = bit-shl32-one var i (omega arith)
  bit-shl32 (suc (suc p)) i h = absurd (omega arith)

  module _ (p : ℕ) (is_bit : p ≤ 1) (free : bit c.mask var ≡ false) where
    add_lit-mask : (i : ℕ) → bit (add_lit var p c).mask i ≡ (bit c.mask i || var == i)
    unfolding add_lit
    add_lit-mask i =
        ground (arith, bit-or c.mask (shl32 1 var) i, bit-shl32-one var i (omega arith))

    add_lit-polarity :
        (i : ℕ) → bit (add_lit var p c).polarity i ≡ (bit c.polarity i || (p == 1 && var == i))
    unfolding add_lit
    add_lit-polarity i = ground (arith, bit-or c.polarity (shl32 p var) i, bit-shl32 p i is_bit)

    pub add_lit-IsCube : IsCube n (add_lit var p c)
    add_lit-IsCube = record {
      fits =
          lt-two-pow n (add_lit var p c).mask
            λ i h. ground (arith, add_lit-mask i, mask_above k i h);
      canonical = λ i h. ground (arith, add_lit-mask i, add_lit-polarity i, k.canonical i);
    }

    pub eval-add_lit :
        (v : ℕ → Bool) → eval (add_lit var p c) v ≡ ((not ((p == 1) ⊕ v var)) && eval c v)
    unfolding eval
    eval-add_lit v =
        let d = add_lit var p c in
        let f = λ (i : ℕ). lit (bit d.mask i) (bit d.polarity i) (v i) in
        let g = λ (i : ℕ). lit (bit c.mask i) (bit c.polarity i) (v i) in
        let same : prod 32 (without var f) ≡ prod 32 g = prod-ext 32 (without var f) g (λ i _.
          elim (Bool-cases (var == i)) [
            | inl e ↦
                let q : var ≡ i = (==_iff var i).0 e in
                ground (arith, ap (λ (t : ℕ). bit c.mask t) q)
            | inr e ↦ ground (arith, add_lit-mask i, add_lit-polarity i)
          ]) in
        ground (
          arith,
          prod-without 32 var f (omega arith),
          same,
          add_lit-mask var,
          add_lit-polarity var,
          canonical_false k var,
        )

-- Two cubes that agree off one variable and at it are the same.
eq_at :
    (c d : Cube32) (var : ℕ)
    → ((i : ℕ)
        → (var == i) ≡ false
        → (bit c.mask i ≡ bit d.mask i) × (bit c.polarity i ≡ bit d.polarity i))
    → (bit c.mask var ≡ bit d.mask var) × (bit c.polarity var ≡ bit d.polarity var)
    → c ≡ d
eq_at c d var off on =
    cube_ext c d
      (λ i. elim (Bool-cases (var == i)) [
        | inl e ↦ let q : var ≡ i = (==_iff var i).0 e in rw q at on.0
        | inr e ↦ (off i e).0
      ])
      (λ i. elim (Bool-cases (var == i)) [
        | inl e ↦ let q : var ≡ i = (==_iff var i).0 e in rw q at on.1
        | inr e ↦ (off i e).1
      ])

-- One or two rotations reach every cube that differs at the variable: the two that `add_cube`
-- looks for are all there are.
pub rotate_reaches :
    (c d : Cube32) (n var : ℕ)
    → IsCube n c
    → IsCube n d
    → n ≤ 32
    → var < n
    → DiffersAt var c d
    → (d ≡ rotate var c) ⊎ (d ≡ rotate var (rotate var c))
rotate_reaches c d n var kc kd le lt at = elim (Bool-cases same) [
  | inl e ↦ inl (eq_at d once var off_once (ground arith, ground arith))
  | inr e ↦ inr (
      eq_at d (rotate var once) var off_twice (
        ground (
          arith,
          at var,
          bit-difference c d var,
          rotate-mask kc le var lt var,
          rotate-polarity kc le var lt var,
          rotate-mask k1 le var lt var,
          canonical_false kc var,
          canonical_false kd var,
        ),
        ground (
          arith,
          at var,
          bit-difference c d var,
          rotate-mask kc le var lt var,
          rotate-polarity kc le var lt var,
          rotate-polarity k1 le var lt var,
          canonical_false kc var,
          canonical_false kd var,
        ),
      ))
]
  where
    once : Cube32
    once = rotate var c

    k1 : IsCube n once
    k1 = rotate-IsCube kc le var lt

    same : Bool
    same =
        not (bit d.mask var ⊕ bit once.mask var) && not (bit d.polarity var ⊕ bit once.polarity var)

    off_once :
        (i : ℕ)
        → (var == i) ≡ false
        → (bit d.mask i ≡ bit once.mask i) × (bit d.polarity i ≡ bit once.polarity i)
    off_once i e = (
      ground (arith, at i, bit-difference c d i, rotate-mask kc le var lt i),
      ground (arith, at i, bit-difference c d i, rotate-polarity kc le var lt i),
    )

    off_twice :
        (i : ℕ)
        → (var == i) ≡ false
        → (bit d.mask i ≡ bit (rotate var once).mask i)
          × (bit d.polarity i ≡ bit (rotate var once).polarity i)
    off_twice i e =
        let o = off_once i e in
        (ground (arith, rotate-mask k1 le var lt i), ground (arith, rotate-polarity k1 le var lt i))

-- A literal added for a variable that the cube does not mention is one more condition on it.
pub add_lit_lem :
    (c : Cube32) (n var p : ℕ)
    → IsCube n c
    → n ≤ 32
    → var < n
    → p ≤ 1
    → bit c.mask var ≡ false
    → IsCube n (add_lit var p c)
      × ((v : ℕ → Bool) → eval (add_lit var p c) v ≡ (not ((p == 1) ⊕ v var) && eval c v))
add_lit_lem c n var p k le lt h free =
    (add_lit-IsCube k var lt le p h free, eval-add_lit k var lt le p h free)

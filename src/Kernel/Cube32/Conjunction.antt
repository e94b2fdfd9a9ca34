-- ===== src/Kernel/Cube32/Conjunction.antt =====
-- `operator&`, `invert` and `add_lit`: conjunction, negation of a single literal, a new literal.
use losys.Base.{
  ℕ, ◌+◌, ◌*◌, ◌/◌, ◌%◌, ◌^◌, ◌≤◌, ◌<◌, ◌≡◌, ◌∙◌, ap, Bool, true, false, not, ◌&&◌, ◌⊕◌, ◌⊎◌, ◌==◌,
  ==_iff, Bool-cases, inl, inr, arith, bit, bit_above, bit_and, bit_or, bit_xor, lt-two-pow,
  bit-and, bit-or, bit-xor, bit-zero, lowest, bit_or-lt, bit_or-pack, prod-ext, prod-without,
  prod_and,
}
use losys.Kernel.Cube32.{Cube32, cube32, cube32_zero, value, of_value, conj}
use losys.Kernel.Cube32.Meaning.{lit, eval, IsCube, canonical_false, mask_above}
use losys.Kernel.Cube32.Rotate.{word_polarity, word_mask}

-- The word that `operator&` tests: the variables with opposite literals.
abbrev clash : Cube32 → Cube32 → ℕ
clash c d = bit_and (bit_xor c.polarity d.polarity) (bit_and c.mask d.mask)

-- The two cubes have opposite literals for a variable.
abbrev pub Clash : Cube32 → Cube32 → Type 0
Clash c d =
    (j : ℕ) × (j < 32)
    × (bit c.mask j ≡ true)
    × (bit d.mask j ≡ true)
    × (bit c.polarity j ≡ not (bit d.polarity j))

union : Cube32 → Cube32 → Cube32
union c d = cube32 (bit_or c.mask d.mask) (bit_or c.polarity d.polarity)

bit-clash :
    (c d : Cube32) (i : ℕ)
    → bit (clash c d) i ≡ ((bit c.polarity i ⊕ bit d.polarity i) && (bit c.mask i && bit d.mask i))
bit-clash c d i = ground (
  arith,
  bit-and (bit_xor c.polarity d.polarity) (bit_and c.mask d.mask) i,
  bit-xor c.polarity d.polarity i,
  bit-and c.mask d.mask i,
)

of_value-value : (m p : ℕ) → p < 2 ^ 32 → of_value (m * 2 ^ 32 + p) ≡ cube32 m p
unfolding of_value
of_value-value m p h =
    let e : (m * 2 ^ 32 + p) % 2 ^ 32 ≡ p = omega arith in
    let f : (m * 2 ^ 32 + p) / 2 ^ 32 ≡ m = omega arith in
    λ j. record { polarity = e j; mask = f j }

module _ {c d : Cube32} {n : ℕ} (kc : IsCube n c) (kd : IsCube n d) (le : n ≤ 32) where
  conj_agree : clash c d ≡ 0 → conj c d ≡ union c d
  unfolding conj value union
  conj_agree e =
      rw (e, conj)
        (ap of_value (
            bit_or-pack 32 c.mask d.mask c.polarity d.polarity (word_polarity kc le)
              (word_polarity kd le))
          ∙ of_value-value (bit_or c.mask d.mask) (bit_or c.polarity d.polarity)
              (bit_or-lt 32 c.polarity d.polarity (word_polarity kc le) (word_polarity kd le)))

  agree : clash c d ≡ 0 → (i : ℕ) → bit (clash c d) i ≡ false
  agree e i = ap (λ (t : ℕ). bit t i) e ∙ bit-zero i

  union-IsCube : IsCube n (union c d)
  unfolding union
  union-IsCube = record {
    fits =
        lt-two-pow n (bit_or c.mask d.mask)
          λ i h. ground (arith, bit-or c.mask d.mask i, mask_above kc i h, mask_above kd i h);
    canonical = λ i h. ground (
      arith,
      bit-or c.mask d.mask i,
      bit-or c.polarity d.polarity i,
      kc.canonical i,
      kd.canonical i,
    );
  }

  no_clash : clash c d ≡ 0 → Clash c d → ⊥
  no_clash e (j, h, mc, md, p) = absurd (ground (arith, agree e j, bit-clash c d j, mc, md, p))

  eval-union : clash c d ≡ 0 → (v : ℕ → Bool) → eval (union c d) v ≡ (eval c v && eval d v)
  unfolding eval union
  eval-union e v =
      prod-ext 32 _ _ (λ i _. ground (
        arith,
        agree e i,
        bit-clash c d i,
        bit-or c.mask d.mask i,
        bit-or c.polarity d.polarity i,
        canonical_false kc i,
        canonical_false kd i,
      ))
      ∙ prod_and 32 (λ i. lit (bit c.mask i) (bit c.polarity i) (v i))
          (λ i. lit (bit d.mask i) (bit d.polarity i) (v i))

  clash-lt : clash c d < 2 ^ 32
  clash-lt =
      lt-two-pow 32 (clash c d)
        λ i h. ground (arith, bit-clash c d i, bit_above 32 c.mask i (word_mask kc le) h)

  find_clash : 0 < clash c d → Clash c d
  find_clash p =
      let (j, l) = lowest 32 (clash c d) p clash-lt in
      (
        j,
        l.below,
        ground (arith, l.is_set, bit-clash c d j),
        ground (arith, l.is_set, bit-clash c d j),
        ground (arith, l.is_set, bit-clash c d j),
      )

eval-Clash : (c d : Cube32) → Clash c d → (v : ℕ → Bool) → (eval c v && eval d v) ≡ false
unfolding eval
eval-Clash c d (j, h, mc, md, p) v = ground (
  arith,
  prod-without 32 j (λ i. lit (bit c.mask i) (bit c.polarity i) (v i)) h,
  prod-without 32 j (λ i. lit (bit d.mask i) (bit d.polarity i) (v i)) h,
)

-- Two cubes over at most 32 variables either have opposite literals for a variable, and then
-- `operator&` returns the mark `cube32_zero` and no assignment satisfies both; or they have none, and
-- then it returns the cube of the conjunction.
pub conj_cases :
    (c d : Cube32) (n : ℕ)
    → IsCube n c
    → IsCube n d
    → n ≤ 32
    → (Clash c d × (conj c d ≡ cube32_zero) × ((v : ℕ → Bool) → (eval c v && eval d v) ≡ false))
      ⊎ ((Clash c d → ⊥)
          × IsCube n (conj c d)
          × ((v : ℕ → Bool) → eval (conj c d) v ≡ (eval c v && eval d v)))
unfolding conj
conj_cases c d n kc kd le = elim (Bool-cases (clash c d == 0)) [
  | inl e ↦
      let z : clash c d ≡ 0 = (==_iff _ _).0 e in
      inr (
        λ x. no_clash kc kd le z x,
        rw (conj_agree kc kd le z) (union-IsCube kc kd le),
        λ v. rw (conj_agree kc kd le z) (eval-union kc kd le z v),
      )
  | inr e ↦ let x = find_clash kc kd le (ground arith) in inl (x, rw e, eval-Clash c d x)
]

-- The two results that `operator&` can have.
pub conj_union :
    (c d : Cube32) (n : ℕ)
    → IsCube n c
    → IsCube n d
    → n ≤ 32
    → (conj c d ≡ cube32_zero)
      ⊎ (conj c d ≡ cube32 (bit_or c.mask d.mask) (bit_or c.polarity d.polarity))
unfolding conj union
conj_union c d n kc kd le = elim (Bool-cases (clash c d == 0)) [
  | inl e ↦ inr (conj_agree kc kd le ((==_iff _ _).0 e))
  | inr e ↦ inl (rw e)
]

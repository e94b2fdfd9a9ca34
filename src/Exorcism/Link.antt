-- ===== src/Exorcism/Link.antt =====
-- One cube of `exorlink`: the literals that the table chooses at the positions where the two cubes
-- differ, and those of the first cube elsewhere.
use mathlib.Core.Path.{subst}
use losys.Base.{
  sym, ==_iff, lt-two-pow, ◌++◌, ℕ, ◌-◌, ◌^◌, ◌<◌, ◌≡◌, refl, ◌∙◌, ap, bit_and, bit_xor, Bool, true,
  false, ◌&&◌, ◌==◌, ==_self, Bool-cases, inl, inr, if◌then◌else◌, List, [], ◌∷◌, All, length,
  arith, bit, bit-and, bit-xor, bit-two-pow, IsLowest, prod, without, prod-ext, positive_of_bit,
}
use losys.Kernel.Cube32.{Cube32}
use losys.Kernel.Cube32.Meaning.{mask_above, IsCube, lit, eval}
use losys.Exorcism.{take_bits, take_literal, link_cube, neg32, pred32}
use losys.Exorcism.Positions.{
  IsPositions, IsOff, IsOff-lowest, Positions_word, withouts, withouts-ext, prod-withouts,
}

-- The choice of the table as a cube.
abbrev pub chosen : ℕ → Cube32 → Cube32 → Cube32 → Cube32
chosen choice c0 c1 other = if choice == 1 then c1 else if choice == 2 then other else c0

-- Two cubes have the same literal, or none, for the variable `i`.
abbrev pub AgreeAt : ℕ → Cube32 → Cube32 → Type 0
AgreeAt i c d = (bit c.mask i ≡ bit d.mask i) × (bit c.polarity i ≡ bit d.polarity i)

bit-take_bits :
    (source p tmp j i : ℕ)
    → ((k : ℕ) → bit p k ≡ (j == k))
    → bit (take_bits source p tmp) i ≡ (if j == i then bit source i else bit tmp i)
unfolding take_bits
bit-take_bits source p tmp j i at = ground (
  arith,
  at i,
  bit-xor tmp (bit_and (bit_xor (bit_and source p) tmp) p) i,
  bit-and (bit_xor (bit_and source p) tmp) p i,
  bit-xor (bit_and source p) tmp i,
  bit-and source p i,
)

module _ (choice p j : ℕ) (c1 other tmp : Cube32) (at : (k : ℕ) → bit p k ≡ (j == k)) where
  -- At `j` the choice is taken, elsewhere nothing changes.
  take_literal-at : AgreeAt j (take_literal choice p c1 other tmp) (chosen choice tmp c1 other)
  unfolding take_literal
  take_literal-at = (
    ground (
      arith,
      ==_self j,
      bit-take_bits c1.mask p tmp.mask j j at,
      bit-take_bits other.mask p tmp.mask j j at,
    ),
    ground (
      arith,
      ==_self j,
      bit-take_bits c1.polarity p tmp.polarity j j at,
      bit-take_bits other.polarity p tmp.polarity j j at,
    ),
  )

  take_literal-off : (i : ℕ) → (j == i) ≡ false → AgreeAt i (take_literal choice p c1 other tmp) tmp
  unfolding take_literal
  take_literal-off i e = (
    ground (
      arith,
      bit-take_bits c1.mask p tmp.mask j i at,
      bit-take_bits other.mask p tmp.mask j i at,
    ),
    ground (
      arith,
      bit-take_bits c1.polarity p tmp.polarity j i at,
      bit-take_bits other.polarity p tmp.polarity j i at,
    ),
  )

-- The literal of `c` for the variable `i` under `v`.
abbrev pub literal : Cube32 → (ℕ → Bool) → ℕ → Bool
literal c v i = lit (bit c.mask i) (bit c.polarity i) (v i)

-- The literals that a line of the table chooses.
abbrev pub chosen_literals : List ℕ → List ℕ → Cube32 → Cube32 → Cube32 → (ℕ → Bool) → Bool
chosen_literals gs [] c0 c1 other v = true
chosen_literals [] (j ∷ js) c0 c1 other v = true
chosen_literals (g ∷ gs) (j ∷ js) c0 c1 other v =
    literal (chosen g c0 c1 other) v j && chosen_literals gs js c0 c1 other v

chosen_literals-ext :
    (gs js : List ℕ) (c d c1 other : Cube32) (v : ℕ → Bool)
    → All (λ k. AgreeAt k c d) js
    → chosen_literals gs js c c1 other v ≡ chosen_literals gs js d c1 other v
chosen_literals-ext gs [] c d c1 other v h = refl
chosen_literals-ext [] (j ∷ js) c d c1 other v h = refl
chosen_literals-ext (g ∷ gs) (j ∷ js) c d c1 other v h =
    ground (arith, h.0, chosen_literals-ext gs js c d c1 other v h.1)

-- `x & -x` and `x & (x - 1)` as the code computes them.
isolated : (d j : ℕ) → IsLowest 32 d j → d < 2 ^ 32 → bit_and d (neg32 d) ≡ 2 ^ j
isolated d j l h =
    let pos : 0 < d = positive_of_bit d j l.is_set in
    let e : neg32 d ≡ 2 ^ 32 - d = omega arith in rw e l.isolates

cleared : (d j : ℕ) → IsLowest 32 d j → d < 2 ^ 32 → bit_and d (pred32 d) ≡ bit_and d (d - 1)
cleared d j l h =
    let pos : 0 < d = positive_of_bit d j l.is_set in let e : pred32 d ≡ d - 1 = omega arith in rw e

module _ (g d j : ℕ) (c1 other tmp : Cube32) (l : IsLowest 32 d j) (h : d < 2 ^ 32) where
  -- One round of the loop.
  abbrev round : Cube32
  round = take_literal g (bit_and d (neg32 d)) c1 other tmp

  one_bit : (k : ℕ) → bit (bit_and d (neg32 d)) k ≡ (j == k)
  one_bit k = ap (λ (t : ℕ). bit t k) (isolated d j l h) ∙ bit-two-pow j k

  round-at : AgreeAt j round (chosen g tmp c1 other)
  round-at = take_literal-at g (bit_and d (neg32 d)) j c1 other tmp one_bit

  round-off : (i : ℕ) → (j == i) ≡ false → AgreeAt i round tmp
  round-off = take_literal-off g (bit_and d (neg32 d)) j c1 other tmp one_bit

  round-All : (ks : List ℕ) → IsOff j ks → All (λ k. AgreeAt k round tmp) ks
  round-All [] o = tt
  round-All (k ∷ ks) o = (round-off k (ground (arith, o.0)), round-All ks o.1)

  round-literals :
      (gs js : List ℕ) (v : ℕ → Bool)
      → IsOff j js
      → (chosen_literals gs js round c1 other v && prod 32 (withouts js (literal round v))) ≡ (
          chosen_literals (g ∷ gs) (j ∷ js) tmp c1 other v
          && prod 32 (withouts (j ∷ js) (literal tmp v)))
  round-literals gs js v o = ground (
    arith,
    chosen_literals-ext gs js round tmp c1 other v (round-All js o),
    prod-withouts js j (literal round v) l.below o,
    round-at.0,
    round-at.1,
    prod-ext 32 (withouts js (without j (literal round v)))
        (withouts js (without j (literal tmp v)))
        (λ i _. withouts-ext js (without j (literal round v)) (without j (literal tmp v)) off i),
  )
    where
      off : (i : ℕ) → IsOff i js → without j (literal round v) i ≡ without j (literal tmp v) i
      off i _ = elim (Bool-cases (j == i)) [
        | inl e ↦ rw e
        | inr e ↦ let a = round-off i e in ground (arith, a.0, a.1)
      ]

-- What `link_cube` makes, for as many choices as there are positions.
pub eval-link_cube :
    (gs js more : List ℕ) (d : ℕ) (c1 other tmp : Cube32) (v : ℕ → Bool)
    → length gs ≡ length js
    → d < 2 ^ 32
    → IsPositions d js
    → (eval (link_cube (length js) (gs ++ more) d c1 other tmp).0 v
        ≡ (chosen_literals gs js tmp c1 other v && prod 32 (withouts js (literal tmp v))))
      × ((link_cube (length js) (gs ++ more) d c1 other tmp).1 ≡ more)
unfolding link_cube eval
eval-link_cube [] [] more d c1 other tmp v e h p = (refl, refl)
eval-link_cube [] (j ∷ js) more d c1 other tmp v e h p = absurd (omega arith)
eval-link_cube (g ∷ gs) [] more d c1 other tmp v e h p = absurd (omega arith)
eval-link_cube (g ∷ gs) (j ∷ js) more d c1 other tmp v e h (l, p) =
    let ih =
      eval-link_cube gs js more (bit_and d (d - 1)) c1 other (round g d j c1 other tmp l h) v
        (omega arith) (Positions_word d j l h) p in
    rw (cleared d j l h)
      (ih.0 ∙ round-literals g d j c1 other tmp l h gs js v (IsOff-lowest d j js l p), ih.1)

module _ {n : ℕ} {c1 : Cube32} (k1 : IsCube n c1) (other : Cube32) where
  -- The choice `other` is a literal at each position, and the positions are variables.
  abbrev pub IsOther : List ℕ → Type 0
  IsOther js = All (λ j. (j < n) × (bit other.polarity j ≡ true → bit other.mask j ≡ true)) js

  round-IsCube :
      (g d j : ℕ) (tmp : Cube32) (l : IsLowest 32 d j) (h : d < 2 ^ 32)
      → IsCube n tmp
      → j < n
      → (bit other.polarity j ≡ true → bit other.mask j ≡ true)
      → IsCube n (round g d j c1 other tmp l h)
  round-IsCube g d j tmp l h k lt canon = record {
    fits = lt-two-pow n (round g d j c1 other tmp l h).mask λ i le.
        let a = round-off g d j c1 other tmp l h i (ground arith) in a.0 ∙ mask_above k i le;
    canonical = λ i b. elim (Bool-cases (j == i)) [
      | inl e ↦ let q : j ≡ i = (==_iff j i).0 e in rw q at (here (rw (← q) at b))
      | inr e ↦
          let a = round-off g d j c1 other tmp l h i e in ground (arith, a.0, a.1, k.canonical i)
    ];
  }
    where
      here :
          bit (round g d j c1 other tmp l h).polarity j ≡ true
          → bit (round g d j c1 other tmp l h).mask j ≡ true
      here b =
          let a = round-at g d j c1 other tmp l h in
          ground (arith, a.0, a.1, k.canonical j, k1.canonical j, canon)

  pub link_cube-IsCube :
      (gs js : List ℕ) (d : ℕ) (tmp : Cube32)
      → d < 2 ^ 32
      → IsPositions d js
      → IsCube n tmp
      → IsOther js
      → IsCube n (link_cube (length js) gs d c1 other tmp).0
  unfolding link_cube
  link_cube-IsCube gs [] d tmp h p k o = k
  link_cube-IsCube [] (j ∷ js) d tmp h p k o = k
  link_cube-IsCube (g ∷ gs) (j ∷ js) d tmp h (l, p) k o =
      subst (λ t. IsCube n (link_cube (length js) gs t c1 other (round g d j c1 other tmp l h)).0)
        (sym (cleared d j l h))
        (link_cube-IsCube gs js (bit_and d (d - 1)) (round g d j c1 other tmp l h)
          (Positions_word d j l h) p (round-IsCube g d j tmp l h k o.0.0 o.0.1) o.1)

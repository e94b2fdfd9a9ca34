-- ===== src/Exorcism/LinkCubes.antt =====
-- `exorlink`: what the cubes made from a table sum up to.
use losys.Exorcism.Table.{picks, table_sum, all_true, flat}
use losys.Base.{
  ℕ, suc, ◌-◌, ◌<◌, ◌≤◌, ◌≡◌, refl, ap, bit_and, Bool, true, false, not, ◌&&◌, ◌⊕◌, Bool-cases, inl,
  inr, List, [], ◌∷◌, ◌++◌, map, All, length, arith, bit, bit-and, bit-xor, bit_above,
  bit-complement, prod, prod-ext, ltb, ltb→lt,
}
use losys.Kernel.Cube32.{Cube32, difference, not32}
use losys.Kernel.Cube32.Meaning.{eval, IsCube, canonical_false}
use losys.Kernel.Cube32.Rotate.{word_polarity}
use losys.Kernel.Cube32.Merge.{bit-difference, difference-lt, difference_word}
use losys.Kernel.CubeSet.Esop.{eval_esop}
use losys.Kernel.CubeSet.Laws.{IsCubes}
use losys.Exorcism.{link_cubes, other_literals}
use losys.Exorcism.Positions.{
  IsPositions, IsOff, IsOff-lowest, IsPositions-set, IsPositions-off, withouts, withouts-ext,
  prod-withouts,
}
use losys.Exorcism.Link.{literal, chosen_literals, eval-link_cube, link_cube-IsCube, IsOther}

module _ {n : ℕ} {c0 c1 : Cube32} (k0 : IsCube n c0) (k1 : IsCube n c1) (le : n ≤ 32) where
  -- Where the cubes differ the other literal is their exclusive or.
  bit-other :
      (i : ℕ)
      → i < 32
      → (bit (other_literals c0 c1).mask i ≡ (bit c0.mask i ⊕ bit c1.mask i))
        × (bit (other_literals c0 c1).polarity i
            ≡ (not (bit c0.polarity i) && not (bit c1.polarity i)))
  unfolding other_literals
  bit-other i lt = (
    bit-xor c0.mask c1.mask i,
    ground (
      arith,
      bit-and (not32 c0.polarity) (not32 c1.polarity) i,
      bit-complement 32 c0.polarity i (word_polarity k0 le) lt,
      bit-complement 32 c1.polarity i (word_polarity k1 le) lt,
    ),
  )

  other-literal :
      (i : ℕ) (v : ℕ → Bool)
      → i < 32
      → bit (difference c0 c1) i ≡ true
      → literal (other_literals c0 c1) v i ≡ (literal c0 v i ⊕ literal c1 v i)
  other-literal i v lt d =
      let o = bit-other i lt in
      ground (arith, o.0, o.1, bit-difference c0 c1 i, canonical_false k0 i, canonical_false k1 i)

  other-canonical :
      (i : ℕ)
      → i < 32
      → bit (difference c0 c1) i ≡ true
      → bit (other_literals c0 c1).polarity i ≡ true
      → bit (other_literals c0 c1).mask i ≡ true
  other-canonical i lt d b =
      let o = bit-other i lt in
      ground (arith, o.0, o.1, bit-difference c0 c1 i, canonical_false k0 i, canonical_false k1 i)

  inside : (i : ℕ) → bit (difference c0 c1) i ≡ true → i < n
  inside i d = elim (Bool-cases (ltb i n)) [
    | inl e ↦ ltb→lt i n e
    | inr e ↦ absurd (ground (arith, bit_above n (difference c0 c1) i (difference-lt k0 k1 le)))
  ]

  others-IsOther :
      (js : List ℕ)
      → All (λ k. bit (difference c0 c1) k ≡ true) js
      → IsOther k1 (other_literals c0 c1) js
  others-IsOther [] h = tt
  others-IsOther (j ∷ js) h =
      let lt = inside j h.0 in ((lt, other-canonical j (omega arith) h.0), others-IsOther js h.1)

  chosen_literals-picks :
      (gs js : List ℕ) (v : ℕ → Bool)
      → All (λ k. bit (difference c0 c1) k ≡ true) js
      → chosen_literals gs js c0 c1 (other_literals c0 c1) v
        ≡ picks gs (map (literal c0 v) js) (map (literal c1 v) js)
  chosen_literals-picks [] [] v h = refl
  chosen_literals-picks [] (j ∷ js) v h = refl
  chosen_literals-picks (g ∷ gs) [] v h = refl
  chosen_literals-picks (g ∷ gs) (j ∷ js) v h =
      let lt = inside j h.0 in
      ground (arith, other-literal j v (omega arith) h.0, chosen_literals-picks gs js v h.1)

-- A cube is its literals at the positions and the rest.
pub eval_at :
    (d : ℕ) (js : List ℕ) (c : Cube32) (v : ℕ → Bool)
    → IsPositions d js
    → eval c v ≡ (all_true (map (literal c v) js) && prod 32 (withouts js (literal c v)))
unfolding eval
eval_at d [] c v p = refl
eval_at d (j ∷ js) c v (l, p) = ground (
  arith,
  eval_at (bit_and d (d - 1)) js c v p,
  prod-withouts js j (literal c v) l.below (IsOff-lowest d j js l p),
)

pub length-literals : (js : List ℕ) (f : ℕ → Bool) → length (map f js) ≡ length js
length-literals [] f = refl
length-literals (j ∷ js) f = ap suc (length-literals js f)

module _ {n : ℕ} {c0 c1 : Cube32} (k0 : IsCube n c0) (k1 : IsCube n c1) (le : n ≤ 32) (js : List ℕ)
    (ps : IsPositions (difference c0 c1) js) where
  -- The two cubes have the same rest.
  pub same_rest :
      (v : ℕ → Bool) → prod 32 (withouts js (literal c1 v)) ≡ prod 32 (withouts js (literal c0 v))
  same_rest v = prod-ext 32 _ _ λ i _. withouts-ext js (literal c1 v) (literal c0 v) off i
    where
      off : (i : ℕ) → IsOff i js → literal c1 v i ≡ literal c0 v i
      off i o = ground (arith, IsPositions-off (difference c0 c1) js i ps o, bit-difference c0 c1 i)

  pub eval-link_cubes :
      (table : List (List ℕ)) (v : ℕ → Bool)
      → All (λ gs. length gs ≡ length js) table
      → eval_esop
          (link_cubes
            (length table)
            (length js)
            (flat table)
            (difference c0 c1)
            c0
            c1
            (other_literals c0 c1))
          v
        ≡ (table_sum table (map (literal c0 v) js) (map (literal c1 v) js)
            && prod 32 (withouts js (literal c0 v)))
  unfolding link_cubes eval_esop
  eval-link_cubes [] v w = refl
  eval-link_cubes (gs ∷ table) v w =
      let (e, more) =
        eval-link_cube gs js (flat table) (difference c0 c1) c1 (other_literals c0 c1) c0 v w.0
          (difference_word k0 k1 le) ps in
      let set = IsPositions-set (difference c0 c1) js ps in
      rw more
        (ground (arith, e, chosen_literals-picks k0 k1 le gs js v set, eval-link_cubes table v w.1))

  pub link_cubes-IsCubes :
      (table : List (List ℕ))
      → All (λ gs. length gs ≡ length js) table
      → IsCubes n (
          link_cubes
            (length table)
            (length js)
            (flat table)
            (difference c0 c1)
            c0
            c1
            (other_literals c0 c1))
        × (length (
              link_cubes
                (length table)
                (length js)
                (flat table)
                (difference c0 c1)
                c0
                c1
                (other_literals c0 c1))
            ≡ length table)
  unfolding link_cubes
  link_cubes-IsCubes [] w = (tt, refl)
  link_cubes-IsCubes (gs ∷ table) w =
      let (e, more) =
        eval-link_cube gs js (flat table) (difference c0 c1) c1 (other_literals c0 c1) c0
          (λ _. false) w.0 (difference_word k0 k1 le) ps in
      let set = IsPositions-set (difference c0 c1) js ps in
      let (ks, len) = link_cubes-IsCubes table w.1 in
      rw more (
        (
          link_cube-IsCube k1 (other_literals c0 c1) (gs ++ flat table) js (difference c0 c1) c0
              (difference_word k0 k1 le) ps k0 (others-IsOther k0 k1 le js set),
          ks,
        ),
        ap suc len,
      )

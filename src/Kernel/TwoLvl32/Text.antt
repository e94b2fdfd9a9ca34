-- ===== src/Kernel/TwoLvl32/Text.antt =====
-- A row of a PLA: reading the text of a cube gives the cube back.
use losys.Kernel.CubeSet.Esop.{eval_esop, eval_esop-append}
use native.Mathlib.Nat.{two-pow-succ, div-div-eq-div-mul, div-one}
use losys.Base.{
  ◌⊕◌, Bool, ⊕-false, length, List, [], ◌∷◌, ◌∙◌, ap, ◌%◌, ==_iff, ℕ, zero, suc, ◌+◌, ◌*◌, ◌/◌, ◌^◌,
  ◌≤◌, ◌<◌, ◌≡◌, refl, sym, bit_and, true, false, not, ◌&&◌, ◌==◌, ==_self, ltb, arith, Bool-cases,
  inl, inr, bit, bit-and, bit-or, bit-zero, bit_ext,
}
use losys.Kernel.Cube32.{str, str_from, cube32, Cube32, add_lit, shl32}
use losys.Kernel.Cube32.Meaning.{
  eval, mask_above, polarity_above, cube_ext, IsCube, canonical_false, bit-shl32-one,
}
use losys.Kernel.TwoLvl32.{TwoLvl32, push_marked, add_cube, cube_of}

-- The tests of `str` on a bit.
pub shifted_bit : (x i : ℕ) → bit (x / 2 ^ i) 0 ≡ bit x i
unfolding bit
shifted_bit x zero = ap (λ (y : ℕ). y % 2 == 1) (div-one x)
shifted_bit x (suc i) =
    let e : 2 ^ suc i ≡ 2 * 2 ^ i = omega (arith, two-pow-succ i) in
    ap (λ (y : ℕ). y % 2 == 1) (ap (λ (k : ℕ). x / k) e ∙ sym (div-div-eq-div-mul x 2 (2 ^ i)))
    ∙ shifted_bit (x / 2) i

pub zero_test :
    (x y : ℕ) (i : ℕ) → ((j : ℕ) → bit y j ≡ (i == j)) → (bit_and x y == 0) ≡ not (bit x i)
zero_test x y i only = elim (Bool-cases (bit x i)) [
  | inl e ↦ elim (Bool-cases (bit_and x y == 0)) [
    | inl z ↦
        let w = ap (λ (t : ℕ). bit t i) ((==_iff (bit_and x y) 0).0 z) in
        absurd (ground (arith, w, bit-and x y i, only i, bit-zero i, ==_self i))
    | inr z ↦ ground arith
  ]
  | inr e ↦ let w : bit_and x y ≡ 0 = bit_ext _ _ λ j. clear_bit e j in rw w (ground arith)
]
  where
    clear_bit : bit x i ≡ false → (j : ℕ) → bit (bit_and x y) j ≡ bit 0 j
    clear_bit e j = elim (Bool-cases (i == j)) [
      | inl q ↦
          ground (arith, bit-and x y j, bit-zero j, ap (λ (t : ℕ). bit x t) ((==_iff i j).0 q))
      | inr q ↦ ground (arith, bit-and x y j, bit-zero j, only j)
    ]

pub one_bit : (j : ℕ) → bit 1 j ≡ (0 == j)
unfolding bit
one_bit zero = refl
one_bit (suc j) = bit-zero j ∙ ground arith

bit_shl : (i p j : ℕ) → p ≤ 1 → i < 32 → bit (shl32 p i) j ≡ (p == 1 && i == j)
bit_shl i zero j h lt = let e : shl32 0 i ≡ 0 = omega arith in rw e (bit-zero j)
bit_shl i (suc zero) j h lt = bit-shl32-one i j lt
bit_shl i (suc (suc p)) j h lt = absurd (omega arith)

-- `acc` has the literals of `c` below `i`.
record IsRead (i : ℕ) (c acc : Cube32) : Type 0 where
  mask : (j : ℕ) → bit acc.mask j ≡ (ltb j i && bit c.mask j)
  polarity : (j : ℕ) → bit acc.polarity j ≡ (ltb j i && bit c.polarity j)

module _ {n : ℕ} {c : Cube32} (k : IsCube n c) (le : n ≤ 32) where
  -- A literal read is the literal of the cube.
  IsRead-next :
      (i p : ℕ) (acc : Cube32)
      → i < n
      → p ≤ 1
      → bit c.mask i ≡ true
      → bit c.polarity i ≡ (p == 1)
      → IsRead i c acc
      → IsRead (i + 1) c (add_lit i p acc)
  unfolding add_lit
  IsRead-next i p acc lt bound m q r = record {
    mask = λ j. elim (Bool-cases (i == j)) [
      | inl e ↦ ground (
        arith,
        bit-or acc.mask (shl32 1 i) j,
        bit-shl32-one i j (omega arith),
        ap (λ (t : ℕ). bit c.mask t) ((==_iff i j).0 e),
        r.mask j,
      )
      | inr e ↦
          ground (arith, bit-or acc.mask (shl32 1 i) j, bit-shl32-one i j (omega arith), r.mask j)
    ];
    polarity = λ j. elim (Bool-cases (i == j)) [
      | inl e ↦ ground (
        arith,
        bit-or acc.polarity (shl32 p i) j,
        bit_shl i p j bound (omega arith),
        ap (λ (t : ℕ). bit c.polarity t) ((==_iff i j).0 e),
        r.polarity j,
      )
      | inr e ↦ ground (
        arith,
        bit-or acc.polarity (shl32 p i) j,
        bit_shl i p j bound (omega arith),
        r.polarity j,
      )
    ];
  }

  IsRead-skip :
      (i : ℕ) (acc : Cube32) → bit c.mask i ≡ false → IsRead i c acc → IsRead (i + 1) c acc
  IsRead-skip i acc m r = record {
    mask = λ j. elim (Bool-cases (i == j)) [
      | inl e ↦ ground (arith, ap (λ (t : ℕ). bit c.mask t) ((==_iff i j).0 e), r.mask j)
      | inr e ↦ ground (arith, r.mask j)
    ];
    polarity = λ j. elim (Bool-cases (i == j)) [
      | inl e ↦ ground (
        arith,
        canonical_false k i m,
        ap (λ (t : ℕ). bit c.polarity t) ((==_iff i j).0 e),
        r.polarity j,
      )
      | inr e ↦ ground (arith, r.polarity j)
    ];
  }

  mask_test : (i : ℕ) → (bit_and (c.mask / 2 ^ i) 1 == 0) ≡ not (bit c.mask i)
  mask_test i = zero_test (c.mask / 2 ^ i) 1 0 one_bit ∙ ap not (shifted_bit c.mask i)

  polarity_test : (i : ℕ) → i < 32 → (bit_and c.polarity (shl32 1 i) == 0) ≡ not (bit c.polarity i)
  polarity_test i lt = zero_test c.polarity (shl32 1 i) i λ j. bit-shl32-one i j lt

  cube_of-str_from :
      (left i : ℕ) (acc : Cube32)
      → i + left ≡ n
      → IsRead i c acc
      → cube_of i (str_from left i c) acc ≡ c
  unfolding cube_of str_from
  cube_of-str_from zero i acc e r =
      cube_ext acc c (λ j. ground (arith, r.mask j, mask_above k j))
        (λ j. ground (arith, r.polarity j, polarity_above k j))
  cube_of-str_from (suc left) i acc e r =
      let lt : i < n = omega arith in
      let next : i + 1 + left ≡ n = omega arith in
      elim (Bool-cases (bit c.mask i)) [
        | inr m ↦
            let t : (bit_and (c.mask / 2 ^ i) 1 == 0) ≡ true = ground (arith, mask_test i) in
            rw t (cube_of-str_from left (i + 1) acc next (IsRead-skip i acc m r))
        | inl m ↦
            let t : (bit_and (c.mask / 2 ^ i) 1 == 0) ≡ false = ground (arith, mask_test i) in
            elim (Bool-cases (bit c.polarity i)) [
              | inl q ↦
                  let u : (bit_and c.polarity (shl32 1 i) == 0) ≡ false =
                    ground (arith, polarity_test i (omega arith)) in
                  rw (t, u)
                    (cube_of-str_from left (i + 1) (add_lit i 1 acc) next
                      (IsRead-next i 1 acc lt (omega arith) m (ground arith) r))
              | inr q ↦
                  let u : (bit_and c.polarity (shl32 1 i) == 0) ≡ true =
                    ground (arith, polarity_test i (omega arith)) in
                  rw (t, u)
                    (cube_of-str_from left (i + 1) (add_lit i 0 acc) next
                      (IsRead-next i 0 acc lt (omega arith) m (ground arith) r))
            ]
      ]

-- Writing a cube over at most 32 inputs with `str` and reading the row as `add_cube` does gives the
-- cube back.
pub cube_of-str : (n : ℕ) (c : Cube32) → n ≤ 32 → IsCube n c → cube_of 0 (str n c) (cube32 0 0) ≡ c
unfolding str
cube_of-str n c le k =
    cube_of-str_from k le n 0 (cube32 0 0) (omega arith) (record {
      mask = λ j. ground (arith, bit-zero j);
      polarity = λ j. ground (arith, bit-zero j);
    })

-- The outputs marked by `out` have got the cube, output by output.
abbrev pub Marks : Cube32 → List ℕ → List (List Cube32) → List (List Cube32) → Type 0
Marks c [] [] [] = Unit
Marks c (o ∷ out) (e ∷ es) (e' ∷ es') =
    ((v : ℕ → Bool) → eval_esop e' v ≡ (eval_esop e v ⊕ (o == b'1' && eval c v)))
    × Marks c out es es'
Marks c _ _ _ = ⊥

push_marked-Marks :
    (c : Cube32) (out : List ℕ) (es : List (List Cube32))
    → length out ≡ length es
    → Marks c out es (push_marked c out es)
unfolding push_marked
push_marked-Marks c [] [] h = tt
push_marked-Marks c [] (e ∷ es) h = absurd (omega arith)
push_marked-Marks c (o ∷ out) [] h = absurd (omega arith)
push_marked-Marks c (o ∷ out) (e ∷ es) h = (
  λ v. elim (Bool-cases (o == b'1')) [
    | inl q ↦ rw q (eval_esop-append e (c ∷ []) v ∙ single_sum v)
    | inr q ↦ rw q (sym (⊕-false (eval_esop e v)))
  ],
  push_marked-Marks c out es (omega arith),
)
  where
    single_sum :
        (v : ℕ → Bool) → (eval_esop e v ⊕ eval_esop (c ∷ []) v) ≡ (eval_esop e v ⊕ eval c v)
    single_sum v = unfold eval_esop in ap (λ b. eval_esop e v ⊕ b) (⊕-false (eval c v))

-- `add_cube` on the row of a cube over at most 32 inputs, with a byte for each output, adds the
-- cube to the exclusive sum of the outputs whose byte is `1` and leaves the other sums.
pub add_cube-Marks :
    (n : ℕ) (c : Cube32) (out : List ℕ) (f : TwoLvl32)
    → n ≤ 32
    → IsCube n c
    → length out ≡ length f.cubes
    → Marks c out f.cubes (add_cube (str n c) out f).cubes
unfolding add_cube
add_cube-Marks n c out f le k h = rw (cube_of-str n c le k) (push_marked-Marks c out f.cubes h)

-- ===== src/Kernel/TwoLvl32/Shape.antt =====
-- What the methods of `two_lvl32` keep: the kind, the inputs, the number of outputs, and cubes within
-- the inputs.
use losys.Base.{
  replicate, ℕ, zero, suc, ◌+◌, ◌≤◌, ◌<◌, ◌==◌, List, [], ◌∷◌, All, All-append, length, ◌≡◌, refl,
  ap, ◌∙◌, arith, Bool-cases, inl, inr,
}
use losys.Kernel.Cube32.{Cube32, cube32, add_lit}
use losys.Kernel.Cube32.Meaning.{IsCube, IsCube-mono, mask_above, cube32_one-IsCube}
use losys.Kernel.Cube32.Single.{add_lit_lem}
use losys.Kernel.CubeSet.Laws.{IsCubes}
use losys.Kernel.TwoLvl32.{
  TwoLvl32, Kind, resize, set_n_inputs, set_n_outputs, set_kind, parse_kind, cube_of, push_marked,
  add_cube,
}

pub record IsTwoLvl (k : Kind) (n m : ℕ) (f : TwoLvl32) : Type 0 where
  pub kind : f.kind ≡ k
  pub inputs : f.n_inputs ≡ n
  pub outputs : length f.cubes ≡ m
  pub within : All (IsCubes n) f.cubes

add_lit-next : (i p : ℕ) (c : Cube32) → IsCube i c → i < 32 → p ≤ 1 → IsCube (i + 1) (add_lit i p c)
add_lit-next i p c k lt le =
    (add_lit_lem c (i + 1) i p (IsCube-mono (omega arith) k) (omega arith) (omega arith) le
      (mask_above k i (omega arith))).0

cube_of-IsCube :
    (i : ℕ) (input : List ℕ) (c : Cube32)
    → IsCube i c
    → i + length input ≤ 32
    → IsCube (i + length input) (cube_of i input c)
unfolding cube_of
cube_of-IsCube i [] c k le = IsCube-mono (omega arith) k
cube_of-IsCube i (x ∷ input) c k le =
    let next : (d : Cube32)
        → IsCube (i + 1) d
        → IsCube (i + length (x ∷ input)) (cube_of (i + 1) input d) =
      λ d h. IsCube-mono (omega arith) (cube_of-IsCube (i + 1) input d h (omega arith)) in
    elim (Bool-cases (x == b'1')) [
      | inl e ↦ rw e (next (add_lit i 1 c) (add_lit-next i 1 c k (omega arith) (omega arith)))
      | inr e ↦ elim (Bool-cases (x == b'0')) [
        | inl u ↦
            rw (e, u) (next (add_lit i 0 c) (add_lit-next i 0 c k (omega arith) (omega arith)))
        | inr u ↦ rw (e, u) (next c (IsCube-mono (omega arith) k))
      ]
    ]

-- A row of at most 32 bytes gives a cube within its variables.
pub row-IsCube :
    (input : List ℕ) → length input ≤ 32 → IsCube (length input) (cube_of 0 input (cube32 0 0))
row-IsCube input le =
    IsCube-mono (omega arith)
      (cube_of-IsCube 0 input (cube32 0 0) (cube32_one-IsCube 0) (omega arith))

length-push_marked :
    (c : Cube32) (out : List ℕ) (cubes : List (List Cube32))
    → length out ≤ length cubes
    → length (push_marked c out cubes) ≡ length cubes
unfolding push_marked
length-push_marked c [] cubes le = refl
length-push_marked c (o ∷ out) [] le = absurd (omega arith)
length-push_marked c (o ∷ out) (cs ∷ cubes) le =
    ap suc (length-push_marked c out cubes (omega arith))

push_marked-IsCubes :
    (n : ℕ) (c : Cube32) (out : List ℕ) (cubes : List (List Cube32))
    → IsCube n c
    → All (IsCubes n) cubes
    → All (IsCubes n) (push_marked c out cubes)
unfolding push_marked
push_marked-IsCubes n c [] cubes k h = h
push_marked-IsCubes n c (o ∷ out) [] k h = tt
push_marked-IsCubes n c (o ∷ out) (cs ∷ cubes) k (hc, h) = (
  elim (Bool-cases (o == b'1')) [
    | inl e ↦ rw e (All-append (IsCube n) cs (c ∷ []) hc (k, tt))
    | inr e ↦ rw e hc
  ],
  push_marked-IsCubes n c out cubes k h,
)

-- A row with a byte for each input and each output adds cubes within the inputs.
pub add_cube-IsTwoLvl :
    (k : Kind) (n m : ℕ) (input output : List ℕ) (f : TwoLvl32)
    → n ≤ 32
    → length input ≡ n
    → length output ≡ m
    → IsTwoLvl k n m f
    → IsTwoLvl k n m (add_cube input output f)
unfolding add_cube
add_cube-IsTwoLvl k n m input output f le ni mo h = record {
  kind = h.kind;
  inputs = h.inputs;
  outputs =
      length-push_marked (cube_of 0 input (cube32 0 0)) output f.cubes
        (let e = h.outputs in omega arith)
      ∙ h.outputs;
  within =
      push_marked-IsCubes n (cube_of 0 input (cube32 0 0)) output f.cubes
        (IsCube-mono (omega arith) (row-IsCube input (omega arith))) h.within;
}

length-resize : (m : ℕ) (cubes : List (List Cube32)) → length (resize m cubes) ≡ m
unfolding resize
length-resize zero cubes = refl
length-resize (suc m) [] = ap suc (length-resize m [])
length-resize (suc m) (c ∷ cubes) = ap suc (length-resize m cubes)

resize-IsCubes :
    (n m : ℕ) (cubes : List (List Cube32))
    → All (IsCubes n) cubes
    → All (IsCubes n) (resize m cubes)
unfolding resize
resize-IsCubes n zero cubes h = tt
resize-IsCubes n (suc m) [] h = (tt, resize-IsCubes n m [] tt)
resize-IsCubes n (suc m) (c ∷ cubes) (hc, h) = (hc, resize-IsCubes n m cubes h)

-- `kind`, `n_inputs` and `n_outputs` on an object without a cube.
pub declared-IsTwoLvl :
    (name : List ℕ) (n m : ℕ) (f : TwoLvl32)
    → f.cubes ≡ []
    → IsTwoLvl (parse_kind name) n m (set_n_outputs m (set_n_inputs n (set_kind name f)))
unfolding set_n_outputs set_n_inputs set_kind
declared-IsTwoLvl name n m f e = record {
  kind = refl;
  inputs = refl;
  outputs = length-resize m f.cubes;
  within = resize-IsCubes n m f.cubes (rw e tt);
}

resize-nil : (m : ℕ) → resize m [] ≡ replicate m []
unfolding resize
resize-nil zero = refl
resize-nil (suc m) = ap (λ cubes. [] ∷ cubes) (resize-nil m)

-- `n_outputs` on an object without a cube.
pub set_n_outputs-empty :
    (m : ℕ) (f : TwoLvl32) → f.cubes ≡ [] → (set_n_outputs m f).cubes ≡ replicate m []
unfolding set_n_outputs
set_n_outputs-empty m f e = rw e (resize-nil m)

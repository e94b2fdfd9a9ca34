-- ===== src/Aig/Examples.antt =====
-- The collapse of small AIGs, and the theorems about it at concrete inputs.
use losys.Aig.Support.{IsFree}
use losys.Aig.Unread.{run-IsFree}
use losys.Kernel.Cube32.Meaning.{IsCube, IsCube-by}
use losys.Kernel.CubeSet.Laws.{IsCubes}
use losys.Kernel.CubeSet.Esop.{eval_esop}
use losys.Aig.Gap.{compute_and_gap}
use losys.Aig.Product.{Summed, multiply-Summed, prepare_input-IsCubes}
use losys.Aig.AddCube.{Added, add_cube-Added}
use mathlib.Core.List.Permᴰ
use losys.Base.{
  All, ℕ, Bool, ◌⊕◌, ◌&&◌, get_or, true, false, ◌≡◌, refl, popcount, some, [], ◌∷◌, arith, Returns,
}
use losys.Aig
use losys.Kernel.CubeSet
use losys.Kernel.Cube32
use losys.Kernel.Cube32.{Cube32, cube32, cube32_one, conj, eq}
use losys.Kernel.CubeSet.{HashOrder}
use losys.Kernel.TwoLvl32.{Kind}
use losys.Aig.{
  AigExtrMngr, compute_and, add_cube, multiply, prepare_input, AndNode, Output, Gia, Extraction,
  extracted, aig_extract,
}
use losys.Aig.Correct.{Extracts, IsAig, aig_extract-Extracts}

-- New elements come first.
abbrev front : HashOrder
front = record { place = λ c s. c ∷ s; place_perm = λ c s. Permᴰ.refl (c ∷ s) }

-- not (x0 and not x1).
abbrev implies : Gia
implies = record {
  n_objs = 5;
  ci_ids = 1 ∷ 2 ∷ [];
  ands = record { id = 3; fanin0 = 1; compl0 = false; fanin1 = 2; compl1 = true } ∷ [];
  cos = record { fanin = 3; compl = true } ∷ [];
}

implies-IsAig : IsAig implies
implies-IsAig = record {
  inputs = (refl, omega arith, (refl, omega arith, tt));
  order = (refl, refl, refl, omega arith, tt);
  outputs = (refl, tt);
}

-- 1 ⊕ x0 x1': the cube of the product, complemented by a constant.
implies_cubes :
    aig_extract front implies
    ≡ some (
        extracted
          (record { kind = Kind.esop; n_inputs = 2; cubes = (cube32 0 0 ∷ cube32 3 1 ∷ []) ∷ [] }))
unfolding aig_extract Aig.run Aig.and_esops Aig.and_step compute_and Aig.prepare_input
    Aig.complement Aig.input_esops Aig.output_esops Aig.is_empty Aig.multiply Aig.add_row
    Aig.add_product Aig.add_all add_cube Aig.add_cube_loop Aig.find_neighbour eq Cube32.ne
    Cube32.value Cube32.of_value Cube32.n_lits Cube32.invert conj Cube32.difference Cube32.merge
    Cube32.rotate popcount CubeSet.contains CubeSet.erase CubeSet.find CubeSet.insert
implies_cubes = refl

aig_extract-Extracts_example : Returns (aig_extract front implies) (Extracts implies)
aig_extract-Extracts_example = aig_extract-Extracts front implies (λ e. ground arith) implies-IsAig

abbrev x0 : Cube32
x0 = cube32 1 1

abbrev not_x0 : Cube32
not_x0 = cube32 1 0

x0-IsCube : IsCube 2 x0
x0-IsCube = IsCube-by 2 x0 (omega arith) refl

not_x0-IsCube : IsCube 2 not_x0
not_x0-IsCube = IsCube-by 2 not_x0 (omega arith) refl

-- x0 added to the set of its complement leaves the constant 1.
add_cube-Added_example : Returns (add_cube front 2 x0 (not_x0 ∷ [])) (Added 2 x0 (not_x0 ∷ []))
add_cube-Added_example =
    add_cube-Added front 2 x0 (not_x0 ∷ []) (omega arith) x0-IsCube
      (record { cubes = (not_x0-IsCube, tt); distinct = (unfold CubeSet.contains in refl, tt) })

multiply-Summed_example :
    Returns
      (multiply front 2 (x0 ∷ cube32 2 2 ∷ []) (cube32 2 0 ∷ []) [])
      (Summed 2 (λ v. eval_esop (x0 ∷ cube32 2 2 ∷ []) v && eval_esop (cube32 2 0 ∷ []) v) [])
multiply-Summed_example =
    multiply-Summed front 2 (x0 ∷ cube32 2 2 ∷ []) (cube32 2 0 ∷ []) [] (omega arith)
      (x0-IsCube, (IsCube-by 2 (cube32 2 2) (omega arith) refl, tt))
      (IsCube-by 2 (cube32 2 0) (omega arith) refl, tt) (record { cubes = tt; distinct = tt })

prepare_input-IsCubes_example :
    IsCubes 2 (prepare_input 0 true ((x0 ∷ []) ∷ []))
    × ((v : ℕ → Bool)
        → eval_esop (prepare_input 0 true ((x0 ∷ []) ∷ [])) v ≡ (true ⊕ eval_esop (x0 ∷ []) v))
prepare_input-IsCubes_example =
    prepare_input-IsCubes 2 (omega arith) 0 true ((x0 ∷ []) ∷ []) (x0-IsCube, tt)

-- The 32 negative literals, split in two cubes.
abbrev lower : Cube32
lower = cube32 0x0000FFFF 0

abbrev upper : Cube32
upper = cube32 0xFFFF0000 0

abbrev split_product : AigExtrMngr
split_product = record {
  m_esops = [] ∷ [];
  m_esop0 = lower ∷ [];
  m_esop1 = upper ∷ [];
  m_curr_esop = [];
}

compute_and_gap_example :
    Returns (compute_and front 32 0 split_product) (λ m'. get_or m'.m_esops 0 [] ≡ [])
    × ((eval_esop (lower ∷ []) (λ _. false) && eval_esop (upper ∷ []) (λ _. false)) ≡ true)
compute_and_gap_example =
    compute_and_gap front 32 0 split_product lower upper refl refl refl refl
      (IsCube-by 32 lower (omega arith) refl) (IsCube-by 32 upper (omega arith) refl)
      (refl, omega arith) (refl, omega arith) refl

-- x0 of two inputs.
abbrev first_input : Gia
first_input = record {
  n_objs = 4;
  ci_ids = 1 ∷ 2 ∷ [];
  ands = [];
  cos = record { fanin = 1; compl = true } ∷ [];
}

first_input-IsAig : IsAig first_input
first_input-IsAig = record {
  inputs = (refl, omega arith, (refl, omega arith, tt));
  order = tt;
  outputs = (refl, tt);
}

run-IsFree_example : Returns (Aig.run front first_input) (λ f. All (All (IsFree 1)) f.cubes)
run-IsFree_example =
    run-IsFree front first_input 1 (omega arith) first_input-IsAig
      (record { gates = tt; outputs = (refl, tt) })

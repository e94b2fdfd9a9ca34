-- ===== src/Bdd/Examples.antt =====
-- The diagrams over one variable, and the theorems about `psdkro` at them.
use mathlib.Core.List.Permᴰ
use losys.Bdd.OneVar.{one_var, one_var-IsDiagram}
use losys.Base.{ℕ, Bool, length, ◌≤◌, ◌≡◌, refl, some, none, Returns, [], ◌∷◌, arith}
use losys.Kernel.CubeSet
use losys.Kernel.Cube32
use losys.Kernel.Cube32.{Cube32, cube32}
use losys.Kernel.CubeSet.{HashOrder}
use losys.Kernel.TwoLvl32.{Kind}
use losys.Aig.{extracted}
use losys.Bdd
use losys.Bdd.{Cudd, Psdkro, bdd_extract, extract_esop, empty_psdkro}
use losys.Bdd.CostOf.{no_costs-IsCounted}
use losys.Bdd.Recalls.{Recalls, count_cubes-Recalls}
use losys.Bdd.Diagram
use losys.Kernel.CubeSet.Esop.{eval_esop}
use losys.Bdd.Least.{IsPsdkro, extract_esop_least}
use losys.Bdd.Correct.{
  node_value, node_cubes, Extracts, extract_esop-Extracts, Collapsed, bdd_extract-Collapsed,
}

-- New elements come first.
abbrev front : HashOrder
front = record { place = λ c s. c ∷ s; place_perm = λ c s. Permᴰ.refl (c ∷ s) }

extract_esop-Extracts_example :
    Returns
      (extract_esop front one_var (some 2) (empty_psdkro 1))
      (Extracts 1 (node_value one_var-IsDiagram.value (some 2)) (node_cubes one_var 1 (some 2)))
extract_esop-Extracts_example =
    extract_esop-Extracts front 1 one_var one_var-IsDiagram (some 2) (empty_psdkro 1) (omega arith)
      (record { no_vars = refl; size = refl })

count_cubes-Recalls_example : Returns (Bdd.count_cubes one_var 2 2 []) (Recalls one_var-IsDiagram 2)
count_cubes-Recalls_example =
    count_cubes-Recalls one_var-IsDiagram 2 2 [] (omega arith, λ e. omega arith)
      (no_costs-IsCounted one_var 1)

-- The variable, by the Shannon expansion.
variable-IsPsdkro : IsPsdkro one_var 2 1
unfolding Bdd.left_node Bdd.right_node Diagram.is_terminal
variable-IsPsdkro =
    IsPsdkro.expands 2 0 1 Bdd.shannon refl (IsPsdkro.at_zero _ refl) (IsPsdkro.at_one _ refl refl)

extract_esop_least_example :
    Returns
      (extract_esop front one_var (some 2) (empty_psdkro 1))
      (λ r. ((v : ℕ → Bool) → eval_esop r.0 v ≡ one_var-IsDiagram.value 2 v) × (length r.0 ≤ 1))
extract_esop_least_example =
    extract_esop_least front 1 one_var one_var-IsDiagram 2 1 (empty_psdkro 1) (omega arith)
      (record { no_vars = refl; size = refl }) variable-IsPsdkro

bdd_extract-Collapsed_example :
    Returns
      (bdd_extract front one_var 1 (some 2 ∷ some 3 ∷ none ∷ []))
      (Collapsed 1 one_var-IsDiagram.value (some 2 ∷ some 3 ∷ none ∷ []))
bdd_extract-Collapsed_example =
    bdd_extract-Collapsed front 1 one_var one_var-IsDiagram (some 2 ∷ some 3 ∷ none ∷ [])

-- The variable itself, the constant 1 and a null node.
two_outputs :
    bdd_extract front one_var 1 (some 2 ∷ some 3 ∷ none ∷ [])
    ≡ some (
        extracted (record {
          kind = Kind.esop;
          n_inputs = 1;
          cubes = (cube32 1 1 ∷ []) ∷ (cube32 0 0 ∷ []) ∷ [] ∷ [];
        }))
unfolding bdd_extract Bdd.extract_all extract_esop Bdd.generate_exact Bdd.count_cubes Bdd.find_cost
    Bdd.least_cost Bdd.left_node Bdd.right_node Bdd.left_value Bdd.right_value Bdd.push_var
    Bdd.pop_var Bdd.assign Bdd.path_cube Cube32.value Cube32.eq CubeSet.contains CubeSet.insert
two_outputs = refl

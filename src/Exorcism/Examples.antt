-- ===== src/Exorcism/Examples.antt =====
-- A small ESOP made smaller, and the theorems about `exorcism_mngr` at concrete inputs.
use losys.Exorcism.Turns.{IsPass, exorlink2-IsPass, exorlink3-IsPass}
use losys.Exorcism.Buckets.{eval_buckets}
use losys.Exorcism.AddCube.{Adds, add_cube-Adds}
use losys.Exorcism.Invariant.{IsMngr}
use mathlib.Core.List.Permᴰ
use losys.Base.{◌+◌, ◌*◌, Returns, false, ◌≡◌, refl, popcount, some, [], ◌∷◌, arith}
use losys.Exorcism
use losys.Kernel.CubeSet
use losys.Kernel.Cube32
use losys.Kernel.Cube32.{Cube32, cube32, distance, difference}
use losys.Kernel.Cube32.Meaning.{IsCube, IsCube-by}
use losys.Kernel.CubeSet.{HashOrder}
use losys.Kernel.TwoLvl32.{Kind, TwoLvl32}
use losys.Exorcism.{exorlink}
use losys.Exorcism.Manager
use losys.Exorcism.Manager.{CubePair, ExorcismMngr, total, add_cube}
use losys.Exorcism.Passes
use losys.Exorcism.Passes.{exorlink2, exorlink3}
use losys.Exorcism.Run
use losys.Exorcism.Run.{run, exorcise}
use losys.Exorcism.Correct.{Ran, Sums, run-Sums, Exorcises, exorcise-Exorcises}

-- New elements come first.
abbrev front : HashOrder
front = record { place = λ c s. c ∷ s; place_perm = λ c s. Permᴰ.refl (c ∷ s) }

-- x0 x1 x2, x0' x1' x2 and x1'.
abbrev all_three : Cube32
all_three = cube32 7 7

abbrev only_x2 : Cube32
only_x2 = cube32 7 4

abbrev not_x1 : Cube32
not_x1 = cube32 2 0

abbrev three_cubes : TwoLvl32
three_cubes = record {
  kind = Kind.esop;
  n_inputs = 3;
  cubes = (all_three ∷ only_x2 ∷ not_x1 ∷ []) ∷ [];
}

all_three-IsCube : IsCube 3 all_three
all_three-IsCube = IsCube-by 3 all_three (omega arith) refl

only_x2-IsCube : IsCube 3 only_x2
only_x2-IsCube = IsCube-by 3 only_x2 (omega arith) refl

not_x1-IsCube : IsCube 3 not_x1
not_x1-IsCube = IsCube-by 3 not_x1 (omega arith) refl

exorcise-Exorcises_example : Returns (exorcise front three_cubes) (Exorcises three_cubes)
exorcise-Exorcises_example =
    exorcise-Exorcises front three_cubes (omega arith)
      ((all_three-IsCube, (only_x2-IsCube, (not_x1-IsCube, tt))), tt)

-- x1' x2' and x0 x2.
two_cubes :
    exorcise front three_cubes
    ≡ some (record { kind = Kind.esop; n_inputs = 3; cubes = (cube32 6 0 ∷ cube32 5 5 ∷ []) ∷ [] })
unfolding exorcise Run.exorcise_each Run.exorcism_mngr run Run.run_loop Run.iteration
    Run.repeat_passes Run.both_passes Run.count_without Run.all_cubes exorlink2 exorlink3
    Passes.turns Passes.exorlink2_turn Passes.exorlink3_turn Passes.exorlink2_front
    Passes.exorlink3_front Passes.exorlink2_pair Passes.exorlink3_pair Passes.reshape2
    Passes.reshape3 Passes.try_groups3 Passes.try_each Passes.try_group2 Passes.try_made
    Passes.try_two Passes.give_up2 Passes.add_all Passes.holds_pair Passes.remove_pair
    Passes.restore_pair add_cube Manager.add_cube_loop Manager.scan Manager.scan_buckets
    Manager.scan_bucket Manager.note_pair Manager.copy_pairs Manager.erase_at Manager.insert_at
    Manager.pairs_bookmark Manager.pairs_rollback Manager.resize_pairs Manager.n_cubes total
    exorlink Exorcism.other_literals Exorcism.link_cubes Exorcism.link_cube Exorcism.take_literal
    Exorcism.take_bits Cube32.value Cube32.eq Cube32.n_lits distance difference Cube32.merge
    popcount CubeSet.contains CubeSet.erase CubeSet.insert
two_cubes = refl

-- The manager with these cubes, which has noted the first two as a pair.
abbrev pair : CubePair
pair = record { first = only_x2; second = all_three }

abbrev with_pair : ExorcismMngr
with_pair = record {
  m_cubes = [] ∷ (not_x1 ∷ []) ∷ [] ∷ (all_three ∷ only_x2 ∷ []) ∷ [];
  m_n_vars = 3;
  m_pairs0 = pair ∷ [];
  m_pairs1 = [];
  m_pairs_tmp0 = [];
  m_pairs_tmp1 = [];
  m_pairs_bookmark0 = 0;
  m_pairs_bookmark1 = 0;
}

apart_two : distance only_x2 all_three ≡ 2
unfolding distance difference popcount
apart_two = refl

with_pair-IsMngr : IsMngr 3 with_pair
unfolding CubeSet.contains Cube32.eq Cube32.value
with_pair-IsMngr = record {
  vars = refl;
  size = refl;
  buckets = (
    record { cubes = tt; distinct = tt },
    (
      record { cubes = (not_x1-IsCube, tt); distinct = (refl, tt) },
      (
        record { cubes = tt; distinct = tt },
        (
          record {
            cubes = (all_three-IsCube, (only_x2-IsCube, tt));
            distinct = (refl, (refl, tt));
          },
          tt,
        ),
      ),
    ),
  );
  pairs0 = (record { first = only_x2-IsCube; second = all_three-IsCube; apart = apart_two }, tt);
  pairs1 = tt;
  tmp0 = tt;
  tmp1 = tt;
}

-- x1' x2 is merged with x1'.
add_cube-Adds_example :
    Returns (add_cube front (cube32 6 4) false with_pair) (Adds 3 (cube32 6 4) false with_pair)
add_cube-Adds_example =
    add_cube-Adds front 3 (cube32 6 4) false with_pair (omega arith)
      (IsCube-by 3 (cube32 6 4) (omega arith) refl) with_pair-IsMngr

exorlink2-IsPass_example : Returns (exorlink2 front with_pair) (IsPass 3 with_pair)
exorlink2-IsPass_example = exorlink2-IsPass front 3 with_pair (omega arith) with_pair-IsMngr

exorlink3-IsPass_example : Returns (exorlink3 front with_pair) (IsPass 3 with_pair)
exorlink3-IsPass_example = exorlink3-IsPass front 3 with_pair (omega arith) with_pair-IsMngr

run-Sums_example : Returns (run front with_pair) (λ cs.
    Sums 3 (total with_pair.m_cubes) (eval_buckets with_pair.m_cubes) cs
    × Ran front (3 * total with_pair.m_cubes + 3) with_pair cs)
run-Sums_example = run-Sums front 3 with_pair (omega arith) with_pair-IsMngr

-- ===== src/Exorcism/Run.antt =====
-- `exorcism_mngr`: the constructor and `run`, and `exorcise`. The reservation of memory and what is
-- only printed are left out. A gain is an `int`, kept as its 32 bits. `run` goes on until three
-- rounds in a row have no gain; the fuel is three rounds for each cube and three more.
use losys.Base.{
  if◌then◌else◌, ℕ, zero, suc, ◌+◌, ◌*◌, ◌%◌, ◌^◌, Bool, true, false, ◌&&◌, ltb, leb, Option, none,
  some, ◌>>=◌, List, [], ◌∷◌, ◌++◌, replicate,
}
use losys.Kernel.Cube32.{Cube32}
use losys.Kernel.CubeSet.{HashOrder}
use losys.Kernel.TwoLvl32.{TwoLvl32}
use losys.Exorcism.Manager.{ExorcismMngr, total}
use losys.Exorcism.Passes.{add_all, exorlink2, exorlink3}

abbrev pub empty_mngr : ℕ → ExorcismMngr
empty_mngr n_vars = record {
  m_cubes = replicate (n_vars + 1) [];
  m_n_vars = n_vars;
  m_pairs0 = [];
  m_pairs1 = [];
  m_pairs_tmp0 = [];
  m_pairs_tmp1 = [];
  m_pairs_bookmark0 = 0;
  m_pairs_bookmark1 = 0;
}

unfoldable pub exorcism_mngr : HashOrder → List Cube32 → ℕ → Option ExorcismMngr
exorcism_mngr o original n_vars = add_all o original (empty_mngr n_vars)

-- `gain += exorlink2(); gain += exorlink3();`
unfoldable pub both_passes : HashOrder → ℕ → ExorcismMngr → Option (ℕ × ExorcismMngr)
both_passes o gain m = do
  (gain2, m2) ← exorlink2 o m
  (gain3, m3) ← exorlink3 o m2
  some (((gain + gain2) % 2 ^ 32 + gain3) % 2 ^ 32, m3)

unfoldable pub repeat_passes : HashOrder → ℕ → ℕ → ExorcismMngr → Option (ℕ × ExorcismMngr)
repeat_passes o zero gain m = some (gain, m)
repeat_passes o (suc left) gain m = do
  (gain', m') ← both_passes o gain m
  repeat_passes o left gain' m'

-- An iteration of `run`: the two passes, six times over.
unfoldable pub iteration : HashOrder → ExorcismMngr → Option (ℕ × ExorcismMngr)
iteration o m = repeat_passes o 6 0 m

-- `gain > 0` on an `int`.
abbrev pub is_positive : ℕ → Bool
is_positive gain = ltb 0 gain && ltb gain (2 ^ 31)

-- `without_improv` after an iteration.
unfoldable pub count_without : ℕ → ℕ → ℕ
count_without gain without_improv = if is_positive gain then 0 else without_improv + 1

unfoldable pub run_loop : HashOrder → ℕ → ℕ → ExorcismMngr → Option ExorcismMngr
unfolding count_without
run_loop o zero without_improv m = none
run_loop o (suc fuel) without_improv m = do
  (gain, m') ← iteration o m
  elim (leb (count_without gain without_improv) 2) [
    | true ↦ run_loop o fuel (count_without gain without_improv) m'
    | false ↦ some m'
  ]

-- The cubes of all buckets.
unfoldable pub all_cubes : List (List Cube32) → List Cube32
all_cubes [] = []
all_cubes (bucket ∷ buckets) = bucket ++ all_cubes buckets

unfoldable pub run : HashOrder → ExorcismMngr → Option (List Cube32)
run o m = do m' ← run_loop o (3 * total m.m_cubes + 3) 0 m; some (all_cubes m'.m_cubes)

-- The loop of `exorcise` over the outputs.
unfoldable pub exorcise_each : HashOrder → ℕ → List (List Cube32) → Option (List (List Cube32))
exorcise_each o n_inputs [] = some []
exorcise_each o n_inputs (esop ∷ esops) = do
  m ← exorcism_mngr o esop n_inputs
  cubes ← run o m
  rest ← exorcise_each o n_inputs esops
  some (cubes ∷ rest)

unfoldable pub exorcise : HashOrder → TwoLvl32 → Option TwoLvl32
exorcise o original = do
  cubes ← exorcise_each o original.n_inputs original.cubes
  some (record { kind = original.kind; n_inputs = original.n_inputs; cubes = cubes })

-- ===== src/Exorcism/Passes.antt =====
-- `exorcism_mngr`: the passes `exorlink2` and `exorlink3`. The counts that are only printed are left
-- out. A gain is an `int`, kept as its 32 bits.
use losys.Base.{
  ℕ, zero, suc, ◌+◌, ◌-◌, ◌%◌, ◌^◌, Bool, true, false, ◌&&◌, ltb, leb, Option, none, some, ◌>>=◌,
  List, [], ◌∷◌, ◌++◌, length, get_or,
}
use losys.Kernel.Cube32.{Cube32, n_lits}
use losys.Kernel.CubeSet.{HashOrder, contains}
use losys.Exorcism.{exorlink, groups2_first, groups2_second, cube_groups3}
use losys.Exorcism.Manager.{
  CubePair, ExorcismMngr, n_cubes, pairs_bookmark, pairs_rollback, erase_at, insert_at, add_cube,
}

-- Both cubes of the pair are in their buckets.
unfoldable pub holds_pair : CubePair → ExorcismMngr → Bool
holds_pair p m =
    contains p.first (get_or m.m_cubes (n_lits p.first) [])
    && contains p.second (get_or m.m_cubes (n_lits p.second) [])

unfoldable pub remove_pair : CubePair → ExorcismMngr → ExorcismMngr
remove_pair p m = erase_at (n_lits p.second) p.second (erase_at (n_lits p.first) p.first m)

unfoldable pub restore_pair : HashOrder → CubePair → ExorcismMngr → ExorcismMngr
restore_pair o p m = insert_at o (n_lits p.second) p.second (insert_at o (n_lits p.first) p.first m)

unfoldable pub add_all : HashOrder → List Cube32 → ExorcismMngr → Option ExorcismMngr
add_all o [] m = some m
add_all o (c ∷ cs) m = do (gain, m1) ← add_cube o c true m; add_all o cs m1

-- The tests of `exorlink2` on a group: whether a cube of the two gains, with the other one added.
unfoldable pub try_two : HashOrder → Cube32 → Cube32 → ExorcismMngr → Option (Bool × ExorcismMngr)
try_two o n0 n1 m = do
  (gain0, m0) ← add_cube o n0 false m
  elim (ltb 0 gain0) [
    | true ↦ do m' ← add_all o (n1 ∷ []) m0; some (true, m')
    | false ↦ do
      (gain1, m1) ← add_cube o n1 false m0
      elim (ltb 0 gain1) [
        | true ↦ do m' ← add_all o (n0 ∷ []) m1; some (true, m')
        | false ↦ some (false, m1)
      ]
  ]

-- `n[0]` and `n[1]`; `none` stands for a read past them.
unfoldable pub try_made : HashOrder → List Cube32 → ExorcismMngr → Option (Bool × ExorcismMngr)
try_made o (n0 ∷ n1 ∷ ns) m = try_two o n0 n1 m
try_made o _ m = none

unfoldable pub try_group2 :
    HashOrder → CubePair → List ℕ → ExorcismMngr → Option (Bool × ExorcismMngr)
try_group2 o p group m = try_made o (exorlink p.first p.second 2 group) m

-- The pair goes back, and is noted again.
unfoldable pub give_up2 : HashOrder → CubePair → ExorcismMngr → ExorcismMngr
give_up2 o p m =
    let m' = pairs_rollback (restore_pair o p m) in record m' { m_pairs0 = m'.m_pairs0 ++ p ∷ [] }

unfoldable pub reshape2 : HashOrder → CubePair → ExorcismMngr → Option ExorcismMngr
reshape2 o p m = do
  (found, m1) ← try_group2 o p groups2_first m
  elim found [
    | true ↦ some m1
    | false ↦ do
      (found', m2) ← try_group2 o p groups2_second (pairs_rollback m1)
      elim found' [ true ↦ some m2 | false ↦ some (give_up2 o p m2) ]
  ]

-- A turn of the loop over the pairs. `none` stands for the front of an empty vector.
-- The body of the loop, with the pair popped.
unfoldable pub exorlink2_pair : HashOrder → CubePair → ExorcismMngr → Option ExorcismMngr
exorlink2_pair o p m = elim (holds_pair p m) [
  | true ↦ reshape2 o p (pairs_bookmark (remove_pair p m))
  | false ↦ some m
]

unfoldable pub exorlink2_front : HashOrder → List CubePair → ExorcismMngr → Option ExorcismMngr
exorlink2_front o [] m = none
exorlink2_front o (p ∷ pairs) m = exorlink2_pair o p (record m { m_pairs0 = pairs })

unfoldable pub exorlink2_turn : HashOrder → ExorcismMngr → Option ExorcismMngr
exorlink2_turn o m = exorlink2_front o m.m_pairs0 m

unfoldable pub turns : (ExorcismMngr → Option ExorcismMngr) → ℕ → ExorcismMngr → Option ExorcismMngr
turns turn zero m = some m
turns turn (suc left) m = do m' ← turn m; turns turn left m'

-- `old_size - curr_size`.
abbrev pub sub32 : ℕ → ℕ → ℕ
sub32 a b = (a + 2 ^ 32 - b) % 2 ^ 32

unfoldable pub exorlink2 : HashOrder → ExorcismMngr → Option (ℕ × ExorcismMngr)
exorlink2 o m = do
  m' ← turns (exorlink2_turn o) (length m.m_pairs0) m
  some (sub32 (n_cubes m) (n_cubes m'), m')

-- The loop over `j`: the cubes `before` it have been tried.
unfoldable pub try_each :
    HashOrder → List Cube32 → List Cube32 → ExorcismMngr → Option (Bool × ExorcismMngr)
try_each o before [] m = some (false, m)
try_each o before (c ∷ cs) m = do
  (gain, m1) ← add_cube o c false m
  elim (leb 1 gain) [
    | true ↦ do m' ← add_all o (before ++ cs) m1; some (true, m')
    | false ↦ try_each o (before ++ c ∷ []) cs (pairs_rollback m1)
  ]

unfoldable pub try_groups3 :
    HashOrder → CubePair → List (List ℕ) → ExorcismMngr → Option (Bool × ExorcismMngr)
try_groups3 o p [] m = some (false, m)
try_groups3 o p (group ∷ groups) m = do
  (found, m1) ← try_each o [] (exorlink p.first p.second 3 group) m
  elim found [ true ↦ some (true, m1) | false ↦ try_groups3 o p groups m1 ]

unfoldable pub reshape3 : HashOrder → CubePair → ExorcismMngr → Option ExorcismMngr
reshape3 o p m = do
  (found, m1) ← try_groups3 o p cube_groups3 m
  elim found [ true ↦ some m1 | false ↦ some (restore_pair o p m1) ]

-- The body of the loop, with the pair popped.
unfoldable pub exorlink3_pair : HashOrder → CubePair → ExorcismMngr → Option ExorcismMngr
exorlink3_pair o p m = elim (holds_pair p m) [
  | true ↦ reshape3 o p (pairs_bookmark (remove_pair p m))
  | false ↦ some m
]

unfoldable pub exorlink3_front : HashOrder → List CubePair → ExorcismMngr → Option ExorcismMngr
exorlink3_front o [] m = none
exorlink3_front o (p ∷ pairs) m = exorlink3_pair o p (record m { m_pairs1 = pairs })

unfoldable pub exorlink3_turn : HashOrder → ExorcismMngr → Option ExorcismMngr
exorlink3_turn o m = exorlink3_front o m.m_pairs1 m

unfoldable pub exorlink3 : HashOrder → ExorcismMngr → Option (ℕ × ExorcismMngr)
exorlink3 o m = do
  m' ← turns (exorlink3_turn o) (length m.m_pairs1) m
  some (sub32 (n_cubes m) (n_cubes m'), m')

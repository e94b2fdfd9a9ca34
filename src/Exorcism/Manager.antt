-- ===== src/Exorcism/Manager.antt =====
-- `exorcism_mngr`: the state and `add_cube`. `none` stands for what the code leaves undefined, the
-- front of an empty vector, and for a loop that has run out of fuel.
use losys.Base.{
  ℕ, zero, suc, ◌+◌, ◌-◌, ◌%◌, ◌^◌, Bool, true, ◌==◌, if◌then◌else◌, Option, none, some, ◌>>=◌,
  List, [], ◌∷◌, ◌++◌, length, get_or, set,
}
use Prim.Native.Nat.{min}
use losys.Kernel.Cube32.{Cube32, n_lits, distance, merge, cube32_one}
use losys.Kernel.CubeSet.{HashOrder, erase, insert}

pub record CubePair : Type 0 where
  pub first : Cube32
  pub second : Cube32

-- `m_pairs`, `m_pairs_tmp` and `m_pairs_bookmark` have one field for each of their first two
-- elements, the only ones used.
pub record ExorcismMngr : Type 0 where
  pub m_cubes : List (List Cube32)
  pub m_n_vars : ℕ
  pub m_pairs0 : List CubePair
  pub m_pairs1 : List CubePair
  pub m_pairs_tmp0 : List CubePair
  pub m_pairs_tmp1 : List CubePair
  pub m_pairs_bookmark0 : ℕ
  pub m_pairs_bookmark1 : ℕ

abbrev pub m_max_dist : ℕ
m_max_dist = 3

unfoldable pub pairs_bookmark : ExorcismMngr → ExorcismMngr
pairs_bookmark m = record m {
  m_pairs_bookmark0 = length m.m_pairs0;
  m_pairs_bookmark1 = length m.m_pairs1;
}

-- `std::vector::resize` on pairs: new elements are pairs of default cubes.
unfoldable pub resize_pairs : ℕ → List CubePair → List CubePair
resize_pairs zero pairs = []
resize_pairs (suc n) [] = record { first = cube32_one; second = cube32_one } ∷ resize_pairs n []
resize_pairs (suc n) (p ∷ pairs) = p ∷ resize_pairs n pairs

unfoldable pub pairs_rollback : ExorcismMngr → ExorcismMngr
pairs_rollback m = record m {
  m_pairs0 = resize_pairs m.m_pairs_bookmark0 m.m_pairs0;
  m_pairs1 = resize_pairs m.m_pairs_bookmark1 m.m_pairs1;
}

unfoldable pub total : List (List Cube32) → ℕ
total [] = 0
total (bucket ∷ buckets) = length bucket + total buckets

unfoldable pub n_cubes : ExorcismMngr → ℕ
unfolding total
n_cubes m = total m.m_cubes % 2 ^ 32

unfoldable pub erase_at : ℕ → Cube32 → ExorcismMngr → ExorcismMngr
erase_at i c m = record m { m_cubes = set m.m_cubes i (erase c (get_or m.m_cubes i [])) }

unfoldable pub insert_at : HashOrder → ℕ → Cube32 → ExorcismMngr → ExorcismMngr
insert_at o i c m = record m { m_cubes = set m.m_cubes i (insert o c (get_or m.m_cubes i [])) }

-- What the loops of `add_cube` come upon: a cube at distance 1 or 0 in a bucket, or none.
pub data Found : Type 0 where
  near : Cube32 → ℕ → Found
  same : Cube32 → ℕ → Found
  clear : Found

unfoldable pub note_pair : ℕ → Cube32 → Cube32 → ExorcismMngr → ExorcismMngr
note_pair dist c it m =
    if dist == 2
    then record m { m_pairs_tmp0 = m.m_pairs_tmp0 ++ record { first = c; second = it } ∷ [] }
    else if dist == m_max_dist
    then record m { m_pairs_tmp1 = m.m_pairs_tmp1 ++ record { first = c; second = it } ∷ [] }
    else m

unfoldable pub scan_bucket : Cube32 → ℕ → List Cube32 → ExorcismMngr → Found × ExorcismMngr
scan_bucket c i [] m = (clear, m)
scan_bucket c i (it ∷ bucket) m =
    if distance c it == 1
    then (near it i, m)
    else if distance c it == 0
    then (same it i, m)
    else scan_bucket c i bucket (note_pair (distance c it) c it m)

unfoldable pub scan_buckets : ℕ → ℕ → Cube32 → ExorcismMngr → Found × ExorcismMngr
scan_buckets zero i c m = (clear, m)
scan_buckets (suc left) i c m =
    let (found, m') = scan_bucket c i (get_or m.m_cubes i []) m in
    elim found [
      | near it j ↦ (near it j, m')
      | same it j ↦ (same it j, m')
      | clear ↦ scan_buckets left (i + 1) c m'
    ]

unfoldable pub copy_pairs : ExorcismMngr → ExorcismMngr
copy_pairs m = record m {
  m_pairs0 = m.m_pairs0 ++ m.m_pairs_tmp0;
  m_pairs1 = m.m_pairs1 ++ m.m_pairs_tmp1;
}

-- The buckets that can hold a cube within the distance `m_max_dist`, from `begin` to `end`.
unfoldable pub scan : Cube32 → ExorcismMngr → Found × ExorcismMngr
scan c m =
    let begin = n_lits c - m_max_dist in
    let end = min m.m_n_vars (n_lits c + m_max_dist) in
    scan_buckets (end + 1 - begin) begin c (record m { m_pairs_tmp0 = []; m_pairs_tmp1 = [] })

-- The result with the gain. Each recursive call takes a cube out of its bucket first.
unfoldable pub add_cube_loop :
    HashOrder → ℕ → Cube32 → Bool → ExorcismMngr → Option (ℕ × ExorcismMngr)
add_cube_loop o zero c add m = none
add_cube_loop o (suc fuel) c add m =
    let (found, m1) = scan c m in
    elim found [
      | near it i ↦ do
        (gain, m2) ← add_cube_loop o fuel (merge c it) true (erase_at i it m1)
        some (gain + 1, m2)
      | same it i ↦ some (2, record (erase_at i it m1) { m_pairs_tmp0 = [] })
      | clear ↦ some (0, copy_pairs (if add then insert_at o (n_lits c) c m1 else m1))
    ]

unfoldable pub add_cube : HashOrder → Cube32 → Bool → ExorcismMngr → Option (ℕ × ExorcismMngr)
unfolding add_cube_loop
add_cube o c add m = add_cube_loop o (suc (total m.m_cubes)) c add m

-- ===== src/Exorcism.antt =====
-- source/opt/exorcism32.hpp and source/opt/exorcism32.cpp: an ESOP made smaller by reshaping pairs
-- of cubes (`exorcism_mngr`).
pub mod Positions
pub mod Link
pub mod Table
pub mod LinkCubes
pub mod Exorlink
pub mod Manager
pub mod Buckets
pub mod Invariant
pub mod Scan
pub mod Store
pub mod AddCube
pub mod Rollback
pub mod Removal
pub mod Passes
pub mod Attempts
pub mod TryTwo
pub mod Reshape
pub mod ReshapeThree
pub mod Turns
pub mod Run
pub mod Iterate
pub mod Rounds
pub mod Correct
mod Examples
use losys.Base.{
  ℕ, zero, suc, ◌+◌, ◌-◌, ◌%◌, ◌^◌, bit_and, bit_xor, Bool, true, false, ◌||◌, ◌==◌, ltb,
  if◌then◌else◌, Option, none, some, ◌>>=◌, List, [], ◌∷◌, ◌++◌, length, get_or, set, replicate,
}
use losys.Kernel.Cube32.{Cube32, cube32, value, not32, n_lits, difference, distance, merge}
use losys.Kernel.CubeSet.{HashOrder, contains, erase, insert}

-- `tmp ^= ((source & p) ^ tmp) & p`: the bits of `p` are taken from the source.
unfoldable pub take_bits : ℕ → ℕ → ℕ → ℕ
take_bits source p tmp = bit_xor tmp (bit_and (bit_xor (bit_and source p) tmp) p)

-- `-x` and `x - 1` on 32 bits.
abbrev pub neg32 : ℕ → ℕ
neg32 x = (2 ^ 32 - x) % 2 ^ 32

abbrev pub pred32 : ℕ → ℕ
pred32 x = (x + 2 ^ 32 - 1) % 2 ^ 32

-- What stands for 0, 1 and 2 in a group table: the first cube, the second, and `other`.
unfoldable pub take_literal : ℕ → ℕ → Cube32 → Cube32 → Cube32 → Cube32
take_literal choice p c1 other tmp =
    if choice == 1
    then cube32 (take_bits c1.mask p tmp.mask) (take_bits c1.polarity p tmp.polarity)
    else if choice == 2
    then cube32 (take_bits other.mask p tmp.mask) (take_bits other.polarity p tmp.polarity)
    else tmp

-- The loop over `j`: the cube made, and what is left of the table. A read past the table is
-- undefined; here the loop stops.
unfoldable pub link_cube : ℕ → List ℕ → ℕ → Cube32 → Cube32 → Cube32 → Cube32 × List ℕ
link_cube zero group tmp_pos c1 other tmp = (tmp, group)
link_cube (suc left) [] tmp_pos c1 other tmp = (tmp, [])
link_cube (suc left) (choice ∷ group) tmp_pos c1 other tmp =
    link_cube left group (bit_and tmp_pos (pred32 tmp_pos)) c1 other
      (take_literal choice (bit_and tmp_pos (neg32 tmp_pos)) c1 other tmp)

-- The loop over `i`, with `left` cubes to go.
unfoldable pub link_cubes : ℕ → ℕ → List ℕ → ℕ → Cube32 → Cube32 → Cube32 → List Cube32
link_cubes zero dist group diff c0 c1 other = []
link_cubes (suc left) dist group diff c0 c1 other =
    let (c, rest) = link_cube dist group diff c1 other c0 in
    c ∷ link_cubes left dist rest diff c0 c1 other

-- The literals that are neither cube's where the two differ.
unfoldable pub other_literals : Cube32 → Cube32 → Cube32
other_literals c0 c1 =
    cube32 (bit_xor c0.mask c1.mask) (bit_and (not32 c0.polarity) (not32 c1.polarity))

-- The first `dist` of the four cubes that `exorlink` returns; it leaves the others as they are.
unfoldable pub exorlink : Cube32 → Cube32 → ℕ → List ℕ → List Cube32
exorlink c0 c1 dist group =
    let diff = difference c0 c1 in
    if ltb (value c1) (value c0)
    then link_cubes dist dist group diff c1 c0 (other_literals c1 c0)
    else link_cubes dist dist group diff c0 c1 (other_literals c0 c1)

-- `cube_groups2` and `cube_groups3`, one list for each group of the table.
abbrev pub groups2_first : List ℕ
groups2_first = 2 ∷ 0 ∷ 1 ∷ 2 ∷ []

abbrev pub groups2_second : List ℕ
groups2_second = 0 ∷ 2 ∷ 2 ∷ 1 ∷ []

abbrev pub cube_groups3 : List (List ℕ)
cube_groups3 =
    (2 ∷ 0 ∷ 0 ∷ 1 ∷ 2 ∷ 0 ∷ 1 ∷ 1 ∷ 2 ∷ [])
    ∷ (2 ∷ 0 ∷ 0 ∷ 1 ∷ 0 ∷ 2 ∷ 1 ∷ 2 ∷ 1 ∷ [])
    ∷ (0 ∷ 2 ∷ 0 ∷ 2 ∷ 1 ∷ 0 ∷ 1 ∷ 1 ∷ 2 ∷ [])
    ∷ (0 ∷ 2 ∷ 0 ∷ 0 ∷ 1 ∷ 2 ∷ 2 ∷ 1 ∷ 1 ∷ [])
    ∷ (0 ∷ 0 ∷ 2 ∷ 2 ∷ 0 ∷ 1 ∷ 1 ∷ 2 ∷ 1 ∷ [])
    ∷ (0 ∷ 0 ∷ 2 ∷ 0 ∷ 2 ∷ 1 ∷ 2 ∷ 1 ∷ 1 ∷ [])
    ∷ []

-- ===== src/Kernel/TwoLvl32/Examples.antt =====
-- The theorems about rows at concrete rows.
use losys.Base.{◌≡◌, refl, [], ◌∷◌, arith}
use losys.Kernel.Cube32
use losys.Kernel.Cube32.{cube32, str}
use losys.Kernel.Cube32.Meaning.{IsCube-by}
use losys.Kernel.TwoLvl32.{Kind, TwoLvl32, cube_of, add_cube}
use losys.Kernel.TwoLvl32.Text.{cube_of-str, Marks, add_cube-Marks}

-- x0 x2' over three inputs.
row : str 3 (cube32 5 1) ≡ b'1' ∷ b'-' ∷ b'0' ∷ []
unfolding str Cube32.str_from
row = refl

cube_of-str_example : cube_of 0 (str 3 (cube32 5 1)) (cube32 0 0) ≡ cube32 5 1
cube_of-str_example =
    cube_of-str 3 (cube32 5 1) (omega arith) (IsCube-by 3 (cube32 5 1) (omega arith) refl)

abbrev two_outputs : TwoLvl32
two_outputs = record { kind = Kind.esop; n_inputs = 3; cubes = (cube32 1 1 ∷ []) ∷ [] ∷ [] }

add_cube-Marks_example :
    Marks
      (cube32 5 1)
      (b'0' ∷ b'1' ∷ [])
      two_outputs.cubes
      (add_cube (str 3 (cube32 5 1)) (b'0' ∷ b'1' ∷ []) two_outputs).cubes
add_cube-Marks_example =
    add_cube-Marks 3 (cube32 5 1) (b'0' ∷ b'1' ∷ []) two_outputs (omega arith)
      (IsCube-by 3 (cube32 5 1) (omega arith) refl) refl

-- ===== src/Pla/Write.antt =====
-- source/io/write_pla.hpp: a file for each output of an ESOP.
use losys.Base.{ℕ, ◌+◌, List, [], ◌∷◌, ◌++◌, length}
use losys.Kernel.Cube32.{Cube32, str}
use losys.Kernel.TwoLvl32.{TwoLvl32}
use losys.Pla.Decimal.{decimal}

-- The rows of the loop over the cubes.
unfoldable pub write_rows : ℕ → List Cube32 → List ℕ
write_rows n_inputs [] = []
write_rows n_inputs (cube ∷ esop) =
    str n_inputs cube ++ (b' ' ∷ b'1' ∷ b'\n' ∷ write_rows n_inputs esop)

-- What is written to the file of an output.
unfoldable pub write_esop : ℕ → List Cube32 → List ℕ
unfolding write_rows
write_esop n_inputs esop =
    b'.'
    ∷ b'i'
    ∷ b' '
    ∷ (decimal n_inputs
        ++ (b'\n'
            ∷ b'.'
            ∷ b'o'
            ∷ b' '
            ∷ b'1'
            ∷ b'\n'
            ∷ b'.'
            ∷ b'p'
            ∷ b' '
            ∷ (decimal (length esop)
                ++ (b'\n' ∷ (write_rows n_inputs esop ++ (b'.' ∷ b'e' ∷ b'\n' ∷ []))))))

-- A file written: its name and its bytes.
pub record File : Type 0 where
  pub name : List ℕ
  pub content : List ℕ

-- The loop over the outputs, from the output `i` on.
unfoldable pub write_files : List ℕ → ℕ → ℕ → List (List Cube32) → List File
unfolding write_esop
write_files fname n_inputs i [] = []
write_files fname n_inputs i (esop ∷ cubes) =
    (record {
      name = fname ++ (b'_' ∷ decimal i) ++ (b'.' ∷ b'p' ∷ b'l' ∷ b'a' ∷ []);
      content = write_esop n_inputs esop;
    })
    ∷ write_files fname n_inputs (i + 1) cubes

unfoldable pub write_pla : List ℕ → TwoLvl32 → List File
unfolding write_files
write_pla fname pla = write_files fname pla.n_inputs 0 pla.cubes

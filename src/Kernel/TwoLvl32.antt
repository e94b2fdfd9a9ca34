-- ===== src/Kernel/TwoLvl32.antt =====
-- source/kernel/two_lvl32.hpp: a function with one list of cubes for each output. Text is the list
-- of its bytes.
pub mod Text
pub mod Shape
mod Examples
use losys.Base.{
  ℕ, zero, suc, ◌+◌, ◌==◌, Bool, true, false, ◌&&◌, ◌||◌, if◌then◌else◌, List, [], ◌∷◌, ◌++◌,
}
use losys.Kernel.Cube32.{Cube32, cube32, add_lit}

pub data Kind : Type 0 where
  sop esop undef : Kind

pub record TwoLvl32 : Type 0 where
  pub kind : Kind
  pub n_inputs : ℕ
  pub cubes : List (List Cube32)

-- `std::string::find(pattern) != npos`.
starts_with : List ℕ → List ℕ → Bool
starts_with [] text = true
starts_with (p ∷ ps) [] = false
starts_with (p ∷ ps) (c ∷ text) = p == c && starts_with ps text

has_text : List ℕ → List ℕ → Bool
has_text pattern [] = starts_with pattern []
has_text pattern (c ∷ text) = starts_with pattern (c ∷ text) || has_text pattern text

-- The method `kind`.
unfoldable pub parse_kind : List ℕ → Kind
unfolding has_text starts_with
parse_kind k =
    if has_text (b'e' ∷ b's' ∷ b'o' ∷ b'p' ∷ []) k
    then esop
    else if has_text (b's' ∷ b'o' ∷ b'p' ∷ []) k
    then sop
    else undef

unfoldable pub set_kind : List ℕ → TwoLvl32 → TwoLvl32
unfolding parse_kind
set_kind k f = record f { kind = parse_kind k }

unfoldable pub set_n_inputs : ℕ → TwoLvl32 → TwoLvl32
set_n_inputs n_in f = record f { n_inputs = n_in }

-- `std::vector::resize`.
resize : ℕ → List (List Cube32) → List (List Cube32)
resize zero cubes = []
resize (suc n) [] = [] ∷ resize n []
resize (suc n) (c ∷ cubes) = c ∷ resize n cubes

unfoldable pub set_n_outputs : ℕ → TwoLvl32 → TwoLvl32
unfolding resize
set_n_outputs n_out f = record f { cubes = resize n_out f.cubes }

-- The cube of an input row, from the variable `i` on.
unfoldable pub cube_of : ℕ → List ℕ → Cube32 → Cube32
cube_of i [] cube = cube
cube_of i (c ∷ input) cube =
    cube_of (i + 1) input
      (if c == b'1' then add_lit i 1 cube else if c == b'0' then add_lit i 0 cube else cube)

-- Appends the cube to each output that the row marks; a mark past the outputs is out of bounds.
unfoldable pub push_marked : Cube32 → List ℕ → List (List Cube32) → List (List Cube32)
push_marked cube [] cubes = cubes
push_marked cube (o ∷ out) [] = []
push_marked cube (o ∷ out) (cs ∷ cubes) =
    (if o == b'1' then cs ++ cube ∷ [] else cs) ∷ push_marked cube out cubes

unfoldable pub add_cube : List ℕ → List ℕ → TwoLvl32 → TwoLvl32
unfolding cube_of push_marked
add_cube input output f = record f {
  cubes = push_marked (cube_of 0 input (cube32 0 0)) output f.cubes;
}

-- ===== src/Tools/FileNames.antt =====
-- The tests of file names in source/main.cpp, tools/exorcism/main.cpp and tools/collapse/main.cpp.
pub mod Laws
use losys.Base.{
  ℕ, zero, suc, ◌+◌, Bool, true, false, ◌&&◌, ◌==◌, if◌then◌else◌, Option, none, some, List, [],
  ◌∷◌,
}

-- `strrchr`: the text from the last byte `c` on.
unfoldable pub strrchr : ℕ → List ℕ → Option (List ℕ)
strrchr c [] = none
strrchr c (x ∷ text) = elim (strrchr c text) [
  | none ↦ if x == c then some (x ∷ text) else none
  | some found ↦ some found
]

-- `std::string::rfind`: the place of the last byte `c`.
unfoldable pub rfind : ℕ → List ℕ → Option ℕ
rfind c [] = none
rfind c (x ∷ text) = elim (rfind c text) [
  | none ↦ if x == c then some 0 else none
  | some i ↦ some (suc i)
]

-- `std::string::substr(pos)`.
unfoldable pub substr : ℕ → List ℕ → List ℕ
substr zero text = text
substr (suc pos) [] = []
substr (suc pos) (x ∷ text) = substr pos text

-- `strcmp(lhs, rhs) == 0`.
unfoldable pub same_text : List ℕ → List ℕ → Bool
same_text [] [] = true
same_text [] (y ∷ ys) = false
same_text (x ∷ xs) [] = false
same_text (x ∷ xs) (y ∷ ys) = x == y && same_text xs ys

-- What a test says of a file name: the two messages of an error, or that the name is fine.
pub data NameCheck : Type 0 where
  name_ok : NameCheck
  unrecognized : NameCheck
  unsupported : List ℕ → NameCheck

-- The text from the last period on against `extension`.
unfoldable pub check_extension : List ℕ → Option (List ℕ) → NameCheck
unfolding same_text
check_extension extension none = unrecognized
check_extension extension (some dot) = if same_text dot extension then name_ok else unsupported dot

-- `fname_ok` of tools/exorcism/main.cpp.
unfoldable pub fname_ok : List ℕ → NameCheck
unfolding check_extension strrchr
fname_ok fname = check_extension (b'.' ∷ b'p' ∷ b'l' ∷ b'a' ∷ []) (strrchr b'.' fname)

-- The test in `main` of source/main.cpp.
unfoldable pub aig_fname_ok : List ℕ → NameCheck
unfolding check_extension strrchr
aig_fname_ok fname = check_extension (b'.' ∷ b'a' ∷ b'i' ∷ b'g' ∷ []) (strrchr b'.' fname)

-- `extrac_fname` of tools/collapse/main.cpp.
unfoldable pub extrac_fname : List ℕ → List ℕ
unfolding rfind substr
extrac_fname filepath = elim (rfind b'/' filepath) [
  | some pos ↦ substr (pos + 1) filepath
  | none ↦ filepath
]

-- `is_fname_ok` of tools/collapse/main.cpp.
unfoldable pub is_fname_ok : List ℕ → NameCheck
unfolding rfind substr same_text
is_fname_ok filename = elim (rfind b'.' filename) [
  | some dot ↦
      if same_text (substr (dot + 1) filename) (b'a' ∷ b'i' ∷ b'g' ∷ [])
      then name_ok
      else unsupported (substr (dot + 1) filename)
  | none ↦ unrecognized
]

-- ===== src/Kernel/Cube32/Examples.antt =====
-- The theorems about cubes at concrete cubes of two variables, and the repository's own tests.
use losys.Base.{◌∷◌, [], ℕ, ◌*◌, ◌^◌, ◌≡◌, refl, Bool, false, not, ◌&&◌, ◌⊕◌, ◌⊎◌, arith, popcount}
use losys.Kernel.Cube32
use losys.Kernel.Cube32.{
  Cube32, cube32, cube32_zero, cube32_one, value, conj, invert, rotate, merge, add_lit, n_lits,
  distance, str, eq,
}
use losys.Kernel.Cube32.Meaning.{eval, IsCube, IsCube-by}
use losys.Kernel.Cube32.Merge.{merge_lem, rotate-DiffersAt}
use losys.Kernel.Cube32.Conjunction.{Clash, conj_cases}
use losys.Kernel.Cube32.Single.{invert_lem, rotate_reaches}

-- x0 x1 and x0 x1'.
abbrev both : Cube32
both = cube32 3 3

abbrev first_only : Cube32
first_only = cube32 3 1

both-IsCube : IsCube 2 both
both-IsCube = IsCube-by 2 both (omega arith) refl

first_only-IsCube : IsCube 2 first_only
first_only-IsCube = IsCube-by 2 first_only (omega arith) refl

close : distance both first_only ≡ 1
unfolding distance popcount
close = refl

merge_lem_example :
    IsCube 2 (merge both first_only)
    × ((v : ℕ → Bool) → eval (merge both first_only) v ≡ (eval both v ⊕ eval first_only v))
merge_lem_example = merge_lem both first_only 2 both-IsCube first_only-IsCube (omega arith) close

rotate_reaches_example :
    (rotate 1 both ≡ rotate 1 both) ⊎ (rotate 1 both ≡ rotate 1 (rotate 1 both))
rotate_reaches_example =
    rotate_reaches both (rotate 1 both) 2 1 both-IsCube
      (unfold rotate in IsCube-by 2 (rotate 1 both) (omega arith) refl) (omega arith) (omega arith)
      (rotate-DiffersAt both 2 1 both-IsCube (omega arith) (omega arith))

conj_cases_example :
    (Clash both first_only
      × (conj both first_only ≡ cube32_zero)
      × ((v : ℕ → Bool) → (eval both v && eval first_only v) ≡ false))
    ⊎ ((Clash both first_only → ⊥)
        × IsCube 2 (conj both first_only)
        × ((v : ℕ → Bool) → eval (conj both first_only) v ≡ (eval both v && eval first_only v)))
conj_cases_example = conj_cases both first_only 2 both-IsCube first_only-IsCube (omega arith)

literal-IsCube : IsCube 2 (cube32 2 2)
literal-IsCube = IsCube-by 2 (cube32 2 2) (omega arith) refl

one_literal : n_lits (cube32 2 2) ≡ 1
unfolding n_lits popcount
one_literal = refl

invert_lem_example :
    IsCube 2 (invert (cube32 2 2))
    × ((v : ℕ → Bool) → eval (invert (cube32 2 2)) v ≡ not (eval (cube32 2 2) v))
invert_lem_example = invert_lem (cube32 2 2) 2 literal-IsCube (omega arith) one_literal

-- The cases of test/cube32.cpp, at the variables 4 and 5.
single_literals :
    (value (cube32 (2 ^ 4) (2 ^ 4)) ≡ 0x0000000100000001 * 2 ^ 4)
    × (value (cube32 (2 ^ 4) 0) ≡ 0x0000000100000000 * 2 ^ 4)
unfolding value
single_literals = (refl, refl)

and_of_literals :
    (value (conj (cube32 (2 ^ 4) (2 ^ 4)) (cube32 (2 ^ 5) (2 ^ 5))) ≡ 0x0000000300000003 * 2 ^ 4)
    × (conj (cube32 (2 ^ 4) (2 ^ 4)) (cube32 (2 ^ 4) 0) ≡ cube32_zero)
unfolding value conj Cube32.of_value
and_of_literals = (refl, refl)

printed : str 3 first_only ≡ b'1' ∷ b'0' ∷ b'-' ∷ []
unfolding str
printed = refl

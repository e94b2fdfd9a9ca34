-- ===== src/Exorcism/Table.antt =====
-- The group tables of `exorlink`: which literal each new cube takes at each position.
use losys.Base.{
  ℕ, ◌≡◌, refl, Bool, true, false, ◌&&◌, ◌⊕◌, ◌==◌, if◌then◌else◌, List, [], ◌∷◌, ◌++◌, All, length,
  arith,
}
use losys.Exorcism.{cube_groups3}

-- What a table makes of the literals `xs` of the first cube and `ys` of the second.
abbrev pub pick : ℕ → Bool → Bool → Bool
pick choice x y = if choice == 1 then y else if choice == 2 then x ⊕ y else x

abbrev pub picks : List ℕ → List Bool → List Bool → Bool
picks [] xs ys = true
picks (g ∷ gs) [] ys = true
picks (g ∷ gs) (x ∷ xs) [] = true
picks (g ∷ gs) (x ∷ xs) (y ∷ ys) = pick g x y && picks gs xs ys

abbrev pub table_sum : List (List ℕ) → List Bool → List Bool → Bool
table_sum [] xs ys = false
table_sum (gs ∷ table) xs ys = picks gs xs ys ⊕ table_sum table xs ys

abbrev pub all_true : List Bool → Bool
all_true [] = true
all_true (x ∷ xs) = x && all_true xs

-- `k` lines of `k` choices that sum up to the two products.
pub record IsTable (k : ℕ) (table : List (List ℕ)) : Type 0 where
  pub lines : length table ≡ k
  pub widths : All (λ gs. length gs ≡ k) table
  pub links :
      (xs ys : List Bool)
      → length xs ≡ k
      → length ys ≡ k
      → table_sum table xs ys ≡ (all_true xs ⊕ all_true ys)

abbrev pub flat : List (List ℕ) → List ℕ
flat [] = []
flat (gs ∷ table) = gs ++ flat table

-- The tables of the source.
table2 :
    (table : List (List ℕ))
    → ((x0 x1 y0 y1 : Bool)
        → table_sum table (x0 ∷ x1 ∷ []) (y0 ∷ y1 ∷ [])
          ≡ (all_true (x0 ∷ x1 ∷ []) ⊕ all_true (y0 ∷ y1 ∷ [])))
    → (xs ys : List Bool) → length xs ≡ 2
    → length ys ≡ 2
    → table_sum table xs ys ≡ (all_true xs ⊕ all_true ys)
table2 table h (x0 ∷ x1 ∷ []) (y0 ∷ y1 ∷ []) p q = h x0 x1 y0 y1
table2 table h [] ys p q = absurd (omega arith)
table2 table h (x0 ∷ []) ys p q = absurd (omega arith)
table2 table h (x0 ∷ x1 ∷ x2 ∷ xs) ys p q = absurd (omega arith)
table2 table h (x0 ∷ x1 ∷ []) [] p q = absurd (omega arith)
table2 table h (x0 ∷ x1 ∷ []) (y0 ∷ []) p q = absurd (omega arith)
table2 table h (x0 ∷ x1 ∷ []) (y0 ∷ y1 ∷ y2 ∷ ys) p q = absurd (omega arith)

table3 :
    (table : List (List ℕ))
    → ((x0 x1 x2 y0 y1 y2 : Bool)
        → table_sum table (x0 ∷ x1 ∷ x2 ∷ []) (y0 ∷ y1 ∷ y2 ∷ [])
          ≡ (all_true (x0 ∷ x1 ∷ x2 ∷ []) ⊕ all_true (y0 ∷ y1 ∷ y2 ∷ [])))
    → (xs ys : List Bool) → length xs ≡ 3
    → length ys ≡ 3
    → table_sum table xs ys ≡ (all_true xs ⊕ all_true ys)
table3 table h (x0 ∷ x1 ∷ x2 ∷ []) (y0 ∷ y1 ∷ y2 ∷ []) p q = h x0 x1 x2 y0 y1 y2
table3 table h [] ys p q = absurd (omega arith)
table3 table h (x0 ∷ []) ys p q = absurd (omega arith)
table3 table h (x0 ∷ x1 ∷ []) ys p q = absurd (omega arith)
table3 table h (x0 ∷ x1 ∷ x2 ∷ x3 ∷ xs) ys p q = absurd (omega arith)
table3 table h (x0 ∷ x1 ∷ x2 ∷ []) [] p q = absurd (omega arith)
table3 table h (x0 ∷ x1 ∷ x2 ∷ []) (y0 ∷ []) p q = absurd (omega arith)
table3 table h (x0 ∷ x1 ∷ x2 ∷ []) (y0 ∷ y1 ∷ []) p q = absurd (omega arith)
table3 table h (x0 ∷ x1 ∷ x2 ∷ []) (y0 ∷ y1 ∷ y2 ∷ y3 ∷ ys) p q = absurd (omega arith)

abbrev pub table2_first : List (List ℕ)
table2_first = (2 ∷ 0 ∷ []) ∷ (1 ∷ 2 ∷ []) ∷ []

abbrev pub table2_second : List (List ℕ)
table2_second = (0 ∷ 2 ∷ []) ∷ (2 ∷ 1 ∷ []) ∷ []

-- Both groups of `cube_groups2` link.
pub table2_first-IsTable : IsTable 2 table2_first
table2_first-IsTable = record {
  lines = refl;
  widths = (refl, (refl, tt));
  links = table2 table2_first (λ x0 x1 y0 y1. ground arith);
}

pub table2_second-IsTable : IsTable 2 table2_second
table2_second-IsTable = record {
  lines = refl;
  widths = (refl, (refl, tt));
  links = table2 table2_second (λ x0 x1 y0 y1. ground arith);
}

-- A group of `cube_groups3`, in lines of three.
abbrev pub lines3 : List ℕ → List (List ℕ)
lines3 (a ∷ b ∷ c ∷ d ∷ e ∷ f ∷ g ∷ h ∷ i ∷ []) =
    (a ∷ b ∷ c ∷ []) ∷ (d ∷ e ∷ f ∷ []) ∷ (g ∷ h ∷ i ∷ []) ∷ []
lines3 _ = []

abbrev pub Links3 : List ℕ → Type 0
Links3 group = (IsTable 3 (lines3 group)) × (flat (lines3 group) ≡ group)

links3 :
    (group : List ℕ)
    → length (lines3 group) ≡ 3
    → All (λ gs. length gs ≡ 3) (lines3 group)
    → flat (lines3 group) ≡ group
    → ((x0 x1 x2 y0 y1 y2 : Bool)
        → table_sum (lines3 group) (x0 ∷ x1 ∷ x2 ∷ []) (y0 ∷ y1 ∷ y2 ∷ [])
          ≡ (all_true (x0 ∷ x1 ∷ x2 ∷ []) ⊕ all_true (y0 ∷ y1 ∷ y2 ∷ [])))
    → Links3 group
links3 group size w same h =
    (record { lines = size; widths = w; links = table3 (lines3 group) h }, same)

-- All six groups of `cube_groups3` link.
pub cube_groups3-IsTable : All Links3 cube_groups3
cube_groups3-IsTable = (
  links3 _ refl (refl, (refl, (refl, tt))) refl (λ x0 x1 x2 y0 y1 y2. ground arith),
  (
    links3 _ refl (refl, (refl, (refl, tt))) refl (λ x0 x1 x2 y0 y1 y2. ground arith),
    (
      links3 _ refl (refl, (refl, (refl, tt))) refl (λ x0 x1 x2 y0 y1 y2. ground arith),
      (
        links3 _ refl (refl, (refl, (refl, tt))) refl (λ x0 x1 x2 y0 y1 y2. ground arith),
        (
          links3 _ refl (refl, (refl, (refl, tt))) refl (λ x0 x1 x2 y0 y1 y2. ground arith),
          (links3 _ refl (refl, (refl, (refl, tt))) refl (λ x0 x1 x2 y0 y1 y2. ground arith), tt),
        ),
      ),
    ),
  ),
)

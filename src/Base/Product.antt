-- ===== src/Base/Product.antt =====
-- The conjunction of `f 0 … f (n - 1)`, and what happens to it when one factor changes.
use Prim.Native.Nat.{ℕ, zero, suc, ◌<◌}
use mathlib.Core.Path.{◌≡◌, refl}
use mathlib.Core.Logic.{◌≢◌, inl, inr}
use mathlib.Core.Bool.{false, Bool, true, ◌&&◌}
use native.Mathlib.Omega.{arith}
use losys.Base.Tests.{◌==◌, ◌⊕◌, if◌then◌else◌, Bool-cases}

unfoldable pub prod : ℕ → (ℕ → Bool) → Bool
prod zero f = true
prod (suc n) f = f n && prod n f

pub prod-ext : (n : ℕ) (f g : ℕ → Bool) → ((i : ℕ) → i < n → f i ≡ g i) → prod n f ≡ prod n g
unfolding prod
prod-ext zero f g h = refl
prod-ext (suc n) f g h = rw (h n (omega arith), prod-ext n f g (λ i p. h i (omega arith)))

-- The same factors with the one at `k` left out.
abbrev pub without : ℕ → (ℕ → Bool) → ℕ → Bool
without k f i = if k == i then true else f i

pub prod-without : (n k : ℕ) (f : ℕ → Bool) → k < n → prod n f ≡ (f k && prod n (without k f))
unfolding prod
prod-without zero k f h = elim h [ ]
prod-without (suc n) k f h = elim (Bool-cases (k == n)) [
  | inl e ↦ ground (arith, prod-ext n f (without k f) (λ i p. ground arith))
  | inr ne ↦ ground (arith, prod-without n k f (ground arith))
]

-- Two products that differ in one factor add up to the product with that factor added up.
pub prod-⊕ :
    (n k : ℕ) (f g h : ℕ → Bool)
    → k < n
    → ((i : ℕ) → i < n → i ≢ k → (f i ≡ h i) × (g i ≡ h i))
    → h k ≡ (f k ⊕ g k)
    → prod n h ≡ (prod n f ⊕ prod n g)
prod-⊕ n k f g h lt same at = ground (
  arith,
  prod-without n k f lt,
  prod-without n k g lt,
  prod-without n k h lt,
  prod-ext n (without k f) (without k h) (rest f (λ i p ne. (same i p ne).0)),
  prod-ext n (without k g) (without k h) (rest g (λ i p ne. (same i p ne).1)),
)
  where
    rest :
        (u : ℕ → Bool)
        → ((i : ℕ) → i < n → i ≢ k → u i ≡ h i)
        → (i : ℕ) → i < n
        → without k u i ≡ without k h i
    rest u e i p = elim (Bool-cases (k == i)) [ inl b ↦ rw b | inr b ↦ rw b (e i p (ground arith)) ]

pub prod_and : (n : ℕ) (f g : ℕ → Bool) → prod n (λ i. f i && g i) ≡ (prod n f && prod n g)
unfolding prod
prod_and zero f g = refl
prod_and (suc n) f g = ground (arith, prod_and n f g)

pub prod-false : (n k : ℕ) (f : ℕ → Bool) → k < n → f k ≡ false → prod n f ≡ false
prod-false n k f h e = ground (arith, prod-without n k f h)

pub prod-true : (n : ℕ) (f : ℕ → Bool) → ((i : ℕ) → i < n → f i ≡ true) → prod n f ≡ true
unfolding prod
prod-true zero f h = refl
prod-true (suc n) f h = rw (h n (omega arith), prod-true n f (λ i p. h i (omega arith)))

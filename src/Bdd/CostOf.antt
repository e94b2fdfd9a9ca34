-- ===== src/Bdd/CostOf.antt =====
-- The costs of `count_cubes` by the plain recursion, without a memory.
use losys.Base.{
  ℕ, zero, suc, ◌+◌, ◌%◌, ◌^◌, ◌<◌, ◌≡◌, refl, sym, ap, ◌∙◌, true, false, ◌==◌, if◌then◌else◌, some,
  List, [], arith, Bool-cases, inl, inr,
}
use Prim.Native.Nat.{max}
use losys.Bdd.{
  Cudd, Cost, positive_davio, cofactor0, cofactor1, cofactor2, find_cost, least_cost, left_node,
  right_node,
}
use losys.Bdd.Diagram.{
  is_terminal, IsBelow, IsDiagram, cofactor0-IsBelow, cofactor1-IsBelow, cofactor2-IsBelow,
  IsEnough, IsEnough-below,
}

-- The cost of a node by the plain recursion, without a memory.
unfoldable pub cost_of : Cudd → ℕ → ℕ → Cost
cost_of cudd zero f = record { node = f; exp_type = positive_davio; count = 0 }
cost_of cudd (suc fuel) f =
    let c0 = cost_of cudd fuel (cofactor0 cudd f) in
    let c1 = cost_of cudd fuel (cofactor1 cudd f) in
    let c2 = cost_of cudd fuel (cofactor2 cudd f) in
    if f == cudd.logic_zero
    then record { node = f; exp_type = positive_davio; count = 0 }
    else if f == cudd.one
    then record { node = f; exp_type = positive_davio; count = 1 }
    else least_cost f c0.count c1.count c2.count

-- The cubes of a node over `n` variables.
abbrev pub n_cubes : Cudd → ℕ → ℕ → ℕ
n_cubes cudd n f = (cost_of cudd (suc n) f).count

-- The costs in the memory are those of the plain recursion.
abbrev pub IsCounted : Cudd → ℕ → List Cost → Type 0
IsCounted cudd n costs =
    (f : ℕ) (c : Cost) → find_cost f costs ≡ some c → c ≡ cost_of cudd (suc n) f

-- The expansion chosen has as many cubes as its two branches.
least_cost-branches :
    (cudd : Cudd) (f : ℕ) (k : ℕ → ℕ) (c : Cost)
    → c ≡ least_cost f (k (cofactor0 cudd f)) (k (cofactor1 cudd f)) (k (cofactor2 cudd f))
    → c.count ≡ (k (left_node cudd c.exp_type f) + k (right_node cudd c.exp_type f)) % 2 ^ 32
unfolding least_cost left_node right_node
least_cost-branches cudd f k c e =
    let n0 = k (cofactor0 cudd f) in
    let n1 = k (cofactor1 cudd f) in
    let n2 = k (cofactor2 cudd f) in
    elim (Bool-cases (max (max n0 n1) n2 == n0)) [
      | inl q ↦ rw (e, q) refl
      | inr q ↦ elim (Bool-cases (max (max n0 n1) n2 == n1)) [
        | inl r ↦ rw (e, q, r) refl
        | inr r ↦ rw (e, q, r) refl
      ]
    ]

pub cost_of-zero :
    (cudd : Cudd) (n f : ℕ)
    → (f == cudd.logic_zero) ≡ true
    → cost_of cudd (suc n) f ≡ record { node = f; exp_type = positive_davio; count = 0 }
unfolding cost_of
cost_of-zero cudd n f z = rw z refl

pub cost_of-one :
    (cudd : Cudd) (n f : ℕ)
    → (f == cudd.logic_zero) ≡ false
    → (f == cudd.one) ≡ true
    → cost_of cudd (suc n) f ≡ record { node = f; exp_type = positive_davio; count = 1 }
unfolding cost_of
cost_of-one cudd n f z w = rw (z, w) refl

pub n_cubes-zero : (cudd : Cudd) (n f : ℕ) → (f == cudd.logic_zero) ≡ true → n_cubes cudd n f ≡ 0
n_cubes-zero cudd n f z = ap (λ (c : Cost). c.count) (cost_of-zero cudd n f z)

pub n_cubes-one :
    (cudd : Cudd) (n f : ℕ)
    → (f == cudd.logic_zero) ≡ false
    → (f == cudd.one) ≡ true
    → n_cubes cudd n f ≡ 1
n_cubes-one cudd n f z w = ap (λ (c : Cost). c.count) (cost_of-one cudd n f z w)

pub no_costs-IsCounted : (cudd : Cudd) (n : ℕ) → IsCounted cudd n []
unfolding find_cost
no_costs-IsCounted cudd n f c e = absurd (ground arith)

module _ {cudd : Cudd} {n : ℕ} (d : IsDiagram cudd n) where
  cost_of-enough :
      (fuel fuel' f : ℕ)
      → IsEnough d fuel f
      → IsEnough d fuel' f
      → cost_of cudd fuel f ≡ cost_of cudd fuel' f
  unfolding cost_of
  cost_of-enough zero fuel' f e e' = absurd (omega (arith, e.0))
  cost_of-enough (suc fuel) zero f e e' = absurd (omega (arith, e'.0))
  cost_of-enough (suc fuel) (suc fuel') f e e' = elim (Bool-cases (f == cudd.logic_zero)) [
    | inl z ↦ rw z refl
    | inr z ↦ elim (Bool-cases (f == cudd.one)) [
      | inl w ↦ rw (z, w) refl
      | inr w ↦
          let inner : is_terminal cudd f ≡ false = unfold is_terminal in ground arith in
          let b0 = cofactor0-IsBelow d f inner in
          let b1 = cofactor1-IsBelow d f inner in
          let b2 = cofactor2-IsBelow d f inner in
          rw
            (
              z,
              w,
              cost_of-enough fuel fuel' (cofactor0 cudd f) (IsEnough-below d fuel f _ inner e b0)
                  (IsEnough-below d fuel' f _ inner e' b0),
              cost_of-enough fuel fuel' (cofactor1 cudd f) (IsEnough-below d fuel f _ inner e b1)
                  (IsEnough-below d fuel' f _ inner e' b1),
              cost_of-enough fuel fuel' (cofactor2 cudd f) (IsEnough-below d fuel f _ inner e b2)
                  (IsEnough-below d fuel' f _ inner e' b2),
            )
            refl
    ]
  ]

  IsEnough-all : (f : ℕ) → IsEnough d (suc n) f
  IsEnough-all f = (omega arith, λ inner. omega arith)

  cost_of-below :
      (f g : ℕ)
      → is_terminal cudd f ≡ false
      → IsBelow cudd d.place (d.place (cudd.read_index f)) g
      → cost_of cudd n g ≡ cost_of cudd (suc n) g
  cost_of-below f g inner b =
      cost_of-enough n (suc n) g (IsEnough-below d n f g inner (IsEnough-all f) b) (IsEnough-all g)

  cost_of_inner :
      (fuel f : ℕ)
      → is_terminal cudd f ≡ false
      → cost_of cudd (suc fuel) f
        ≡ least_cost f
            (cost_of cudd fuel (cofactor0 cudd f)).count
            (cost_of cudd fuel (cofactor1 cudd f)).count
            (cost_of cudd fuel (cofactor2 cudd f)).count
  unfolding cost_of is_terminal
  cost_of_inner fuel f inner =
      let z : (f == cudd.logic_zero) ≡ false = ground arith in
      let w : (f == cudd.one) ≡ false = ground arith in rw (z, w) refl

  pub cost_of-cofactors :
      (f : ℕ)
      → is_terminal cudd f ≡ false
      → cost_of cudd (suc n) f
        ≡ least_cost f
            (n_cubes cudd n (cofactor0 cudd f))
            (n_cubes cudd n (cofactor1 cudd f))
            (n_cubes cudd n (cofactor2 cudd f))
  cost_of-cofactors f inner =
      rw
        (
          cost_of_inner n f inner,
          cost_of-below f (cofactor0 cudd f) inner (cofactor0-IsBelow d f inner),
          cost_of-below f (cofactor1 cudd f) inner (cofactor1-IsBelow d f inner),
          cost_of-below f (cofactor2 cudd f) inner (cofactor2-IsBelow d f inner),
        )
        refl

  pub n_cubes-branches :
      (f : ℕ) (c : Cost)
      → is_terminal cudd f ≡ false
      → c ≡ cost_of cudd (suc n) f
      → n_cubes cudd n f
        ≡ (n_cubes cudd n (left_node cudd c.exp_type f)
            + n_cubes cudd n (right_node cudd c.exp_type f))
          % 2 ^ 32
  n_cubes-branches f c inner e =
      ap (λ (x : Cost). x.count) (sym e)
      ∙ least_cost-branches cudd f (n_cubes cudd n) c (e ∙ cost_of-cofactors f inner)

  pub n_cubes-bound : (f : ℕ) → n_cubes cudd n f < 2 ^ 32
  n_cubes-bound f = elim (Bool-cases (f == cudd.logic_zero)) [
    | inl z ↦ omega (arith, n_cubes-zero cudd n f z)
    | inr z ↦ elim (Bool-cases (f == cudd.one)) [
      | inl w ↦ omega (arith, n_cubes-one cudd n f z w)
      | inr w ↦
          let inner : is_terminal cudd f ≡ false = unfold is_terminal in ground arith in
          omega (arith, n_cubes-branches f (cost_of cudd (suc n) f) inner refl)
    ]
  ]

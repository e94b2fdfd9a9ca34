-- ===== src/Bdd/Recalls.antt =====
-- `count_cubes` with its memory of costs against the plain recursion.
use losys.Base.{
  ℕ, zero, suc, ◌≡◌, sym, ap, ◌∙◌, false, ◌==◌, ==_iff, Option-cases, some, ◌>>=◌, Returns,
  Returns-bind, List, ◌∷◌, arith, Bool-cases, inl, inr,
}
use std.Option.{some-injective}
use losys.Bdd.{Cudd, Cost, cofactor0, cofactor1, cofactor2, find_cost, least_cost, count_cubes}
use losys.Bdd.Diagram.{
  is_terminal, IsDiagram, cofactor0-IsBelow, cofactor1-IsBelow, cofactor2-IsBelow, IsEnough,
  IsEnough-below,
}
use losys.Bdd.Costs.{least_cost-node}
use losys.Bdd.CostOf.{cost_of, IsCounted, cost_of-zero, cost_of-one, cost_of-cofactors}

module _ {cudd : Cudd} {n : ℕ} (d : IsDiagram cudd n) where
  stored-IsCounted :
      (f : ℕ) (costs : List Cost) (c : Cost)
      → c.node ≡ f
      → c ≡ cost_of cudd (suc n) f
      → IsCounted cudd n costs
      → IsCounted cudd n (c ∷ costs)
  unfolding find_cost
  stored-IsCounted f costs c node e h g x q = elim (Bool-cases (c.node == g)) [
    | inl r ↦
        let same : f ≡ g = sym node ∙ (==_iff c.node g).0 r in
        let first : c ≡ x = some-injective (ground (arith, r, q)) in
        sym first ∙ e ∙ ap (cost_of cudd (suc n)) same
    | inr r ↦ h g x (ground (arith, r, q))
  ]

  -- `count_cubes` gives the cost of the plain recursion, and keeps such costs alone.
  pub record Recalls (f : ℕ) (r : Cost × List Cost) : Type 0 where
    pub cost : r.0 ≡ cost_of cudd (suc n) f
    pub counted : IsCounted cudd n r.1

  store-Recalls :
      (f : ℕ) (c0 c1 c2 : Cost) (costs : List Cost)
      → is_terminal cudd f ≡ false
      → c0 ≡ cost_of cudd (suc n) (cofactor0 cudd f)
      → c1 ≡ cost_of cudd (suc n) (cofactor1 cudd f)
      → Recalls (cofactor2 cudd f) (c2, costs)
      → Recalls f
          (least_cost f c0.count c1.count c2.count, least_cost f c0.count c1.count c2.count ∷ costs)
  store-Recalls f c0 c1 c2 costs inner e0 e1 a =
      let e : least_cost f c0.count c1.count c2.count ≡ cost_of cudd (suc n) f =
        rw (e0, e1, a.cost) (sym (cost_of-cofactors d f inner)) in
      record {
        cost = e;
        counted =
            stored-IsCounted f costs (least_cost f c0.count c1.count c2.count)
              (least_cost-node d f c0.count c1.count c2.count) e a.counted;
      }

  -- With the fuel for a diagram over `n` variables, and a memory that holds costs of the plain
  -- recursion alone, `count_cubes` returns the cost that the plain recursion gives, and its memory
  -- holds such costs alone.
  pub count_cubes-Recalls :
      (fuel f : ℕ) (costs : List Cost)
      → IsEnough d fuel f
      → IsCounted cudd n costs
      → Returns (count_cubes cudd fuel f costs) (Recalls f)
  unfolding count_cubes
  count_cubes-Recalls zero f costs enough h = absurd (omega (arith, enough.0))
  count_cubes-Recalls (suc fuel) f costs enough h = elim (Bool-cases (f == cudd.logic_zero)) [
    | inl z ↦ rw (count_cubes, z) (record { cost = sym (cost_of-zero cudd n f z); counted = h })
    | inr z ↦ elim (Bool-cases (f == cudd.one)) [
      | inl w ↦
          rw (count_cubes, z, w) (record { cost = sym (cost_of-one cudd n f z w); counted = h })
      | inr w ↦ elim (Option-cases (find_cost f costs)) [
        | inr (c, q) ↦ rw (count_cubes, z, w, q) (record { cost = h f c q; counted = h })
        | inl q ↦
            let inner : is_terminal cudd f ≡ false = unfold is_terminal in ground arith in
            rw (count_cubes, z, w, q)
              (Returns-bind (count_cubes cudd fuel (cofactor0 cudd f) costs)
                (λ r0. count_cubes cudd fuel (cofactor1 cudd f) r0.1 >>= λ r1.
                  count_cubes cudd fuel (cofactor2 cudd f) r1.1 >>= λ r2.
                  some (entry r0.0 r1.0 r2.0, entry r0.0 r1.0 r2.0 ∷ r2.1))
                (Recalls (cofactor0 cudd f)) (Recalls f)
                (count_cubes-Recalls fuel (cofactor0 cudd f) costs
                  (IsEnough-below d fuel f _ inner enough (cofactor0-IsBelow d f inner)) h)
                λ r0 a0.
                  Returns-bind (count_cubes cudd fuel (cofactor1 cudd f) r0.1)
                    (λ r1. count_cubes cudd fuel (cofactor2 cudd f) r1.1 >>= λ r2.
                      some (entry r0.0 r1.0 r2.0, entry r0.0 r1.0 r2.0 ∷ r2.1))
                    (Recalls (cofactor1 cudd f)) (Recalls f)
                    (count_cubes-Recalls fuel (cofactor1 cudd f) r0.1
                      (IsEnough-below d fuel f _ inner enough (cofactor1-IsBelow d f inner))
                      a0.counted)
                    λ r1 a1.
                      Returns-bind (count_cubes cudd fuel (cofactor2 cudd f) r1.1)
                        (λ r2. some (entry r0.0 r1.0 r2.0, entry r0.0 r1.0 r2.0 ∷ r2.1))
                        (Recalls (cofactor2 cudd f)) (Recalls f)
                        (count_cubes-Recalls fuel (cofactor2 cudd f) r1.1
                          (IsEnough-below d fuel f _ inner enough (cofactor2-IsBelow d f inner))
                          a1.counted)
                        λ r2 a2. store-Recalls f r0.0 r1.0 r2.0 r2.1 inner a0.cost a1.cost a2)
      ]
    ]
  ]
    where
      entry : Cost → Cost → Cost → Cost
      entry c0 c1 c2 = least_cost f c0.count c1.count c2.count

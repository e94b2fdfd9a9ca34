-- ===== src/Bdd/Expand.antt =====
-- `generate_exact` as a whole.
use losys.Base.{
  ==_iff, Returns, Returns-bind, some, zero, suc, ◌∙◌, ◌==◌, ℕ, ◌≤◌, ◌≡◌, ap, true, false, ◌>>=◌,
  List, ◌∷◌, arith, Bool-cases, inl, inr, set,
}
use losys.Kernel.CubeSet.{HashOrder}
use losys.Bdd.{
  Cost, Psdkro, VarValue, unused, left_node, right_node, left_value, right_value, find_cost,
  generate_exact, push_var, pop_var, assign, Cudd,
}
use losys.Bdd.Diagram.{IsEnough, IsEnough-below, is_terminal, IsDiagram}
use losys.Bdd.Costs.{is_known, IsClosed, has_cost, find_cost-some}
use losys.Bdd.CostOf.{n_cubes-zero, n_cubes-one, n_cubes-branches, IsCounted}
use losys.Bdd.Branches.{left-IsBelow, right-IsBelow, left_known, right_known}
use losys.Bdd.Generate.{IsState, Generates, at_one, at_zero}
use losys.Bdd.Branch.{IsReady, joined, left-IsState, left-IsReady, right-IsState, right-IsReady}

module _ {n : ℕ} (le : n ≤ 32) (o : HashOrder) {cudd : Cudd} (d : IsDiagram cudd n)
    (costs : List Cost) (closed : IsClosed cudd costs) (counted : IsCounted cudd n costs) where
  pub generate_exact-Generates :
      (fuel f : ℕ) (vars : List ℕ) (values : List VarValue) (m : Psdkro)
      → IsEnough d fuel f
      → is_known cudd costs f ≡ true
      → IsState n vars values costs m
      → IsReady d f vars values m
      → Returns (generate_exact o cudd fuel f m) (Generates d f vars values costs m)
  unfolding generate_exact
  generate_exact-Generates zero f vars values m enough known s r = absurd (omega (arith, enough.0))
  generate_exact-Generates (suc fuel) f vars values m enough known s r =
      elim (Bool-cases (f == cudd.logic_zero)) [
        | inl z ↦
            let w = (==_iff f cudd.logic_zero).0 z in
            rw (generate_exact, z)
              (at_zero le o d vars values costs m s f
                (λ v. ap (λ x. d.value x v) w ∙ d.value_zero v) (n_cubes-zero cudd n f z))
        | inr z ↦ elim (Bool-cases (f == cudd.one)) [
          | inl y ↦
              let w = (==_iff f cudd.one).0 y in
              rw (generate_exact, z, y)
                (at_one le o d vars values costs m s r.path r.fresh f
                  (λ v. ap (λ x. d.value x v) w ∙ d.value_one v) (n_cubes-one cudd n f z y))
          | inr y ↦
              let inner : is_terminal cudd f ≡ false = unfold is_terminal in ground arith in
              let held : has_cost f costs ≡ true = unfold is_known in ground (arith, inner) in
              let (c, q) = find_cost-some f costs held in
              let q' : find_cost f m.m_exp_costs ≡ some c = ap (find_cost f) s.costs_are ∙ q in
              let idx = cudd.read_index f in
              let e = c.exp_type in
              let mL = assign idx (left_value e) (push_var idx m) in
              rw (generate_exact, z, y, q')
                (Returns-bind (generate_exact o cudd fuel (left_node cudd e f) mL)
                  (λ m1.
                    generate_exact o cudd fuel (right_node cudd e f) (assign idx (right_value e) m1)
                    >>= λ m2. some (assign idx unused (pop_var m2)))
                  (Generates d (left_node cudd e f) (idx ∷ vars) (set values idx (left_value e))
                    costs mL)
                  (Generates d f vars values costs m)
                  (generate_exact-Generates fuel (left_node cudd e f) (idx ∷ vars)
                    (set values idx (left_value e)) mL
                    (IsEnough-below d fuel f _ inner enough (left-IsBelow d f inner e))
                    (left_known cudd costs closed f held e)
                    (left-IsState d f vars values inner r.path (r.before inner) costs (left_value e)
                      m s)
                    (left-IsReady d f vars values inner r.path (r.before inner) (left_node cudd e f)
                      (left_value e) m (left-IsBelow d f inner e) r.fresh))
                  λ m1 a.
                    Returns-bind
                      (generate_exact o cudd fuel (right_node cudd e f)
                        (assign idx (right_value e) m1))
                      (λ m2. some (assign idx unused (pop_var m2)))
                      (Generates d (right_node cudd e f) (idx ∷ vars)
                        (set values idx (right_value e)) costs (assign idx (right_value e) m1))
                      (Generates d f vars values costs m)
                      (generate_exact-Generates fuel (right_node cudd e f) (idx ∷ vars)
                        (set values idx (right_value e)) (assign idx (right_value e) m1)
                        (IsEnough-below d fuel f _ inner enough (right-IsBelow d f inner e))
                        (right_known cudd costs closed f held e)
                        (right-IsState d f vars values inner r.path (r.before inner) costs
                          (left_value e) (right_value e) m1 a.state)
                        (right-IsReady d f vars values inner r.path (r.before inner) costs e m m1
                          r.fresh a))
                      λ m2 b.
                        joined d f vars values inner r.path (r.before inner) costs e m m1 m2
                          (n_cubes-branches d f c inner (counted f c q)) a b)
        ]
      ]

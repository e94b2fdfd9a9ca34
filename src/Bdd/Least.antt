-- ===== src/Bdd/Least.antt =====
-- The cubes of `extract_esop` against those of any pseudo-Kronecker expression of the node.
use losys.Base.{
  some, ℕ, suc, ◌+◌, ◌^◌, ◌≤◌, ◌≡◌, ap, true, false, ◌==◌, Returns, Returns-map, arith, Bool-cases,
  inl, inr, length, zero, Bool,
}
use Prim.Native.Nat.{max}
use losys.Kernel.CubeSet.{HashOrder}
use losys.Kernel.CubeSet.Esop.{eval_esop}
use losys.Bdd.{
  Cudd, Cost, ExpType, Psdkro, positive_davio, negative_davio, shannon, cofactor0, cofactor1,
  cofactor2, least_cost, left_node, right_node, extract_esop,
}
use losys.Bdd.Diagram.{is_terminal, IsDiagram}
use losys.Bdd.CostOf.{n_cubes, n_cubes-zero, n_cubes-one, cost_of-cofactors}
use losys.Bdd.Correct.{IsIdle, Extracts, extract_esop-Extracts}
use losys.Base.{Returns-IfSome}
use losys.Bdd.Few.{pow_pos, extract_esop-few}

-- The node has a pseudo-Kronecker expression of so many cubes: an expansion at each node on the way,
-- whichever, down to the terminals.
pub data IsPsdkro (cudd : Cudd) : ℕ → ℕ → Type 0 where
  at_zero : (f : ℕ) → (f == cudd.logic_zero) ≡ true → IsPsdkro cudd f 0
  at_one : (f : ℕ) → (f == cudd.logic_zero) ≡ false → (f == cudd.one) ≡ true → IsPsdkro cudd f 1
  expands :
      (f a b : ℕ) (e : ExpType)
      → is_terminal cudd f ≡ false
      → IsPsdkro cudd (left_node cudd e f) a
      → IsPsdkro cudd (right_node cudd e f) b
      → IsPsdkro cudd f (a + b)

least_cost-le :
    (f n0 n1 n2 : ℕ)
    → ((least_cost f n0 n1 n2).count ≤ n0 + n2)
      × ((least_cost f n0 n1 n2).count ≤ n1 + n2)
      × ((least_cost f n0 n1 n2).count ≤ n0 + n1)
unfolding least_cost
least_cost-le f n0 n1 n2 = elim (Bool-cases (max (max n0 n1) n2 == n0)) [
  | inl q ↦ rw q (ground arith, ground arith, ground arith)
  | inr q ↦ elim (Bool-cases (max (max n0 n1) n2 == n1)) [
    | inl r ↦ rw (q, r) (ground arith, ground arith, ground arith)
    | inr r ↦ rw (q, r) (ground arith, ground arith, ground arith)
  ]
]

-- No expansion has fewer cubes than the one chosen.
least_cost-branches_le :
    (cudd : Cudd) (k : ℕ → ℕ) (f : ℕ) (e : ExpType)
    → (least_cost f (k (cofactor0 cudd f)) (k (cofactor1 cudd f)) (k (cofactor2 cudd f))).count
      ≤ k (left_node cudd e f) + k (right_node cudd e f)
unfolding left_node right_node
least_cost-branches_le cudd k f positive_davio =
    (least_cost-le f (k (cofactor0 cudd f)) (k (cofactor1 cudd f)) (k (cofactor2 cudd f))).0
least_cost-branches_le cudd k f negative_davio =
    (least_cost-le f (k (cofactor0 cudd f)) (k (cofactor1 cudd f)) (k (cofactor2 cudd f))).1
least_cost-branches_le cudd k f shannon =
    (least_cost-le f (k (cofactor0 cudd f)) (k (cofactor1 cudd f)) (k (cofactor2 cudd f))).2

n_cubes-le :
    {cudd : Cudd} {n : ℕ} (d : IsDiagram cudd n) (f k : ℕ)
    → IsPsdkro cudd f k
    → n_cubes cudd n f ≤ k
n_cubes-le {cudd} {n} d _ _ (at_zero f z) = omega (arith, n_cubes-zero cudd n f z)
n_cubes-le {cudd} {n} d _ _ (at_one f z w) = omega (arith, n_cubes-one cudd n f z w)
n_cubes-le {cudd} {n} d _ _ (expands f a b e inner l r) =
    let chosen = ap (λ (c : Cost). c.count) (cost_of-cofactors d f inner) in
    omega (
      arith,
      chosen,
      least_cost-branches_le cudd (n_cubes cudd n) f e,
      n_cubes-le d (left_node cudd e f) a l,
      n_cubes-le d (right_node cudd e f) b r,
    )

pow_mono : (k n : ℕ) → k ≤ n → 2 ^ k ≤ 2 ^ n
pow_mono k zero le = let e : k ≡ 0 = omega arith in rw e (omega arith)
pow_mono zero (suc n) le = pow_pos (suc n)
pow_mono (suc k) (suc n) le = omega (arith, pow_mono k n (omega arith))

-- Over a diagram of at most 31 variables in which a node has a pseudo-Kronecker expression of `k`
-- cubes, `extract_esop` returns a set of cubes that computes the node, of at most `k` cubes.
pub extract_esop_least :
    (o : HashOrder) (n : ℕ) (cudd : Cudd) (d : IsDiagram cudd n) (f k : ℕ) (m : Psdkro)
    → n ≤ 31
    → IsIdle n m
    → IsPsdkro cudd f k
    → Returns
        (extract_esop o cudd (some f) m)
        (λ r. ((v : ℕ → Bool) → eval_esop r.0 v ≡ d.value f v) × (length r.0 ≤ k))
extract_esop_least o n cudd d f k m le h p =
    Returns-map (extract_esop o cudd (some f) m)
      (λ r. Extracts n (d.value f) (n_cubes cudd n f) r × (length r.0 ≤ 2 ^ length m.m_var_values))
      (λ r. ((v : ℕ → Bool) → eval_esop r.0 v ≡ d.value f v) × (length r.0 ≤ k))
      (Returns-IfSome (extract_esop o cudd (some f) m) (Extracts n (d.value f) (n_cubes cudd n f))
        (λ r. length r.0 ≤ 2 ^ length m.m_var_values)
        (extract_esop-Extracts o n cudd d (some f) m (omega arith) h)
        (extract_esop-few o cudd (some f) m))
      λ r (x, few).
        let small = pow_mono (length m.m_var_values) 31 (omega (arith, h.size)) in
        (x.sum, omega (arith, x.counted, small, few, n_cubes-le d f k p))

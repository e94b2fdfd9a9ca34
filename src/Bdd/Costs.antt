-- ===== src/Bdd/Costs.antt =====
-- The costs that `count_cubes` keeps, and the nodes that `generate_exact` comes to.
use mathlib.Core.Path.{subst}
use losys.Base.{
  ℕ, zero, suc, ◌≡◌, refl, sym, ◌∙◌, Bool, true, false, ◌||◌, ◌==◌, ==_self, ==_iff, Option-cases,
  none, some, ◌>>=◌, Returns, Returns-bind, List, [], ◌∷◌, arith, Bool-cases, inl, inr,
}
use losys.Bdd.{Cudd, Cost, cofactor0, cofactor1, cofactor2, find_cost, least_cost, count_cubes}
use losys.Bdd.Diagram.{
  is_terminal, IsDiagram, cofactor0-IsBelow, cofactor1-IsBelow, cofactor2-IsBelow, IsEnough,
  IsEnough-below,
}

unfoldable pub has_cost : ℕ → List Cost → Bool
has_cost f [] = false
has_cost f (c ∷ costs) = c.node == f || has_cost f costs

find_cost-none : (f : ℕ) (costs : List Cost) → find_cost f costs ≡ none → has_cost f costs ≡ false
unfolding find_cost has_cost
find_cost-none f [] e = refl
find_cost-none f (c ∷ costs) e = elim (Bool-cases (c.node == f)) [
  | inl q ↦ absurd (ground arith)
  | inr q ↦ ground (arith, find_cost-none f costs)
]

pub find_cost-some :
    (f : ℕ) (costs : List Cost)
    → has_cost f costs ≡ true
    → (c : Cost) × (find_cost f costs ≡ some c)
find_cost-some f costs e = elim (Option-cases (find_cost f costs)) [
  | inl q ↦ absurd (ground (arith, find_cost-none f costs q))
  | inr q ↦ q
]

has_cost-some :
    (f : ℕ) (costs : List Cost) (c : Cost) → find_cost f costs ≡ some c → has_cost f costs ≡ true
unfolding find_cost has_cost
has_cost-some f [] c e = cc
has_cost-some f (x ∷ costs) c e = elim (Bool-cases (x.node == f)) [
  | inl q ↦ ground arith
  | inr q ↦ ground (arith, has_cost-some f costs c)
]

module _ (cudd : Cudd) where
  -- A terminal, or a node with a cost.
  unfoldable pub is_known : List Cost → ℕ → Bool
  is_known costs f = is_terminal cudd f || has_cost f costs

  -- The cofactors of a node with a cost are known.
  abbrev pub IsClosed : List Cost → Type 0
  IsClosed costs =
      (f : ℕ)
      → has_cost f costs ≡ true
      → (is_known costs (cofactor0 cudd f) ≡ true)
        × (is_known costs (cofactor1 cudd f) ≡ true)
        × (is_known costs (cofactor2 cudd f) ≡ true)

  -- What `count_cubes` adds to the costs.
  pub record Counts (f : ℕ) (costs : List Cost) (r : Cost × List Cost) : Type 0 where
    pub closed : IsClosed r.1
    pub known : is_known r.1 f ≡ true
    pub keeps : (g : ℕ) → is_known costs g ≡ true → is_known r.1 g ≡ true

module _ {cudd : Cudd} {n : ℕ} (d : IsDiagram cudd n) where
  -- The entry made for a node whose cofactors are known.
  store-Counts :
      (f : ℕ) (costs costs2 : List Cost) (c : Cost)
      → c.node ≡ f
      → ((g : ℕ) → is_known cudd costs g ≡ true → is_known cudd costs2 g ≡ true)
      → IsClosed cudd costs2
      → is_known cudd costs2 (cofactor0 cudd f) ≡ true
      → is_known cudd costs2 (cofactor1 cudd f) ≡ true
      → is_known cudd costs2 (cofactor2 cudd f) ≡ true
      → Counts cudd f costs (c, c ∷ costs2)
  unfolding is_known has_cost
  store-Counts f costs costs2 c e keeps closed k0 k1 k2 = record {
    closed = λ g h. elim (Bool-cases (c.node == g)) [
      | inl q ↦
          let w : f ≡ g = sym e ∙ (==_iff c.node g).0 q in
          subst
            (λ x.
              (is_known cudd (c ∷ costs2) (cofactor0 cudd x) ≡ true)
              × (is_known cudd (c ∷ costs2) (cofactor1 cudd x) ≡ true)
              × (is_known cudd (c ∷ costs2) (cofactor2 cudd x) ≡ true))
            w (more (cofactor0 cudd f) k0, more (cofactor1 cudd f) k1, more (cofactor2 cudd f) k2)
      | inr q ↦
          let r = closed g (ground arith) in
          (more (cofactor0 cudd g) r.0, more (cofactor1 cudd g) r.1, more (cofactor2 cudd g) r.2)
    ];
    known = rw (e, ==_self f) (ground arith);
    keeps = λ g h. more g (keeps g h);
  }
    where
      more : (g : ℕ) → is_known cudd costs2 g ≡ true → is_known cudd (c ∷ costs2) g ≡ true
      more g h = ground arith

  pub least_cost-node : (f n0 n1 n2 : ℕ) → (least_cost f n0 n1 n2).node ≡ f
  unfolding least_cost
  least_cost-node f n0 n1 n2 = ground arith

  pub count_cubes-Counts :
      (fuel f : ℕ) (costs : List Cost)
      → IsEnough d fuel f
      → IsClosed cudd costs
      → Returns (count_cubes cudd fuel f costs) (Counts cudd f costs)
  unfolding count_cubes
  count_cubes-Counts zero f costs enough closed = absurd (omega (arith, enough.0))
  count_cubes-Counts (suc fuel) f costs enough closed = elim (Bool-cases (f == cudd.logic_zero)) [
    | inl z ↦ rw (count_cubes, z) (at_hand (unfold is_known is_terminal in ground arith))
    | inr z ↦ elim (Bool-cases (f == cudd.one)) [
      | inl w ↦ rw (count_cubes, z, w) (at_hand (unfold is_known is_terminal in ground arith))
      | inr w ↦ elim (Option-cases (find_cost f costs)) [
        | inr (c, q) ↦
            rw (count_cubes, z, w, q)
              (at_hand (unfold is_known in ground (arith, has_cost-some f costs c q)))
        | inl q ↦
            let inner : is_terminal cudd f ≡ false = unfold is_terminal in ground arith in
            rw (count_cubes, z, w, q)
              (Returns-bind (count_cubes cudd fuel (cofactor0 cudd f) costs)
                (λ r0. count_cubes cudd fuel (cofactor1 cudd f) r0.1 >>= λ r1.
                  count_cubes cudd fuel (cofactor2 cudd f) r1.1 >>= λ r2.
                  some (entry r0.0 r1.0 r2.0, entry r0.0 r1.0 r2.0 ∷ r2.1))
                (Counts cudd (cofactor0 cudd f) costs) (Counts cudd f costs)
                (count_cubes-Counts fuel (cofactor0 cudd f) costs
                  (IsEnough-below d fuel f _ inner enough (cofactor0-IsBelow d f inner)) closed)
                λ r0 a0.
                  Returns-bind (count_cubes cudd fuel (cofactor1 cudd f) r0.1)
                    (λ r1. count_cubes cudd fuel (cofactor2 cudd f) r1.1 >>= λ r2.
                      some (entry r0.0 r1.0 r2.0, entry r0.0 r1.0 r2.0 ∷ r2.1))
                    (Counts cudd (cofactor1 cudd f) r0.1) (Counts cudd f costs)
                    (count_cubes-Counts fuel (cofactor1 cudd f) r0.1
                      (IsEnough-below d fuel f _ inner enough (cofactor1-IsBelow d f inner))
                      a0.closed)
                    λ r1 a1.
                      Returns-bind (count_cubes cudd fuel (cofactor2 cudd f) r1.1)
                        (λ r2. some (entry r0.0 r1.0 r2.0, entry r0.0 r1.0 r2.0 ∷ r2.1))
                        (Counts cudd (cofactor2 cudd f) r1.1) (Counts cudd f costs)
                        (count_cubes-Counts fuel (cofactor2 cudd f) r1.1
                          (IsEnough-below d fuel f _ inner enough (cofactor2-IsBelow d f inner))
                          a1.closed)
                        λ r2 a2.
                          store-Counts f costs r2.1 (entry r0.0 r1.0 r2.0)
                            (least_cost-node f r0.0.count r1.0.count r2.0.count)
                            (λ g h. a2.keeps g (a1.keeps g (a0.keeps g h))) a2.closed
                            (a2.keeps _ (a1.keeps _ a0.known)) (a2.keeps _ a1.known) a2.known)
      ]
    ]
  ]
    where
      at_hand : {c : Cost} → is_known cudd costs f ≡ true → Counts cudd f costs (c, costs)
      at_hand k = record { closed = closed; known = k; keeps = λ g h. h }

      entry : Cost → Cost → Cost → Cost
      entry c0 c1 c2 = least_cost f c0.count c1.count c2.count

-- ===== src/Bdd/Correct.antt =====
-- `extract_esop` and `bdd_extract`: the ESOP of each node against what the node stands for.
use losys.Base.{
  Option, none, false, ℕ, suc, ◌%◌, ◌^◌, Returns-known, Returns-some, ◌≤◌, ◌<◌, ◌≡◌, refl, ◌∙◌, ap,
  Bool, some, ◌>>=◌, Returns, Returns-bind, ltb, ltb→lt, Bool-cases, inl, inr, List, [], ◌∷◌, arith,
  length, replicate, length-replicate, get_or-replicate,
}
use losys.Kernel.Cube32.{Cube32}
use losys.Kernel.CubeSet.{HashOrder}
use losys.Kernel.CubeSet.Esop.{eval_esop}
use losys.Kernel.CubeSet.Laws.{IsCubeSet}
use losys.Kernel.TwoLvl32.{Kind}
use losys.Aig.{Extraction, exits, extracted}
use losys.Bdd.{
  Cudd, Cost, unused, Psdkro, count_cubes, generate_exact, extract_esop, extract_all, empty_psdkro,
  bdd_extract,
}
use losys.Bdd.Diagram.{IsDiagram, IsEnough}
use losys.Bdd.Costs.{has_cost, IsClosed, Counts, count_cubes-Counts}
use losys.Bdd.CostOf.{n_cubes, n_cubes-bound, no_costs-IsCounted}
use losys.Bdd.Recalls.{Recalls, count_cubes-Recalls}
use losys.Bdd.Path.{path_value}
use losys.Bdd.Generate.{IsState, Generates}
use losys.Bdd.Branch.{IsReady}
use losys.Bdd.Expand.{generate_exact-Generates}

-- Between two extractions: no variable on the path, and values for all of them.
pub record IsIdle (n : ℕ) (m : Psdkro) : Type 0 where
  pub no_vars : m.m_vars ≡ []
  pub size : length m.m_var_values ≡ n

-- A set of cubes that computes the node, of `count` cubes modulo `2 ^ 32`.
pub record Extracts (n : ℕ) (value : (ℕ → Bool) → Bool) (count : ℕ) (r : List Cube32 × Psdkro)
    : Type 0 where
  pub is_set : IsCubeSet n r.0
  pub sum : (v : ℕ → Bool) → eval_esop r.0 v ≡ value v
  pub counted : length r.0 % 2 ^ 32 ≡ count
  pub idle : IsIdle n r.1

-- The function that a node stands for, and its cubes by the plain recursion; a null node stands for
-- the constant 0.
abbrev pub node_value : (ℕ → (ℕ → Bool) → Bool) → Option ℕ → (ℕ → Bool) → Bool
node_value value none v = false
node_value value (some f) v = value f v

abbrev pub node_cubes : Cudd → ℕ → Option ℕ → ℕ
node_cubes cudd n none = 0
node_cubes cudd n (some f) = n_cubes cudd n f

no_costs : (cudd : Cudd) → IsClosed cudd []
unfolding has_cost
no_costs cudd f e = cc

module _ {n : ℕ} {cudd : Cudd} (d : IsDiagram cudd n) where
  cleared-IsState :
      (m : Psdkro) (costs : List Cost)
      → IsIdle n m
      → IsState n [] (replicate (length m.m_var_values) unused) costs (record m {
        m_exp_costs = costs;
        m_esop = [];
        m_var_values = replicate (length m.m_var_values) unused;
      })
  cleared-IsState m costs h = record {
    vars_are = h.no_vars;
    values_are = refl;
    costs_are = refl;
    is_set = record { cubes = tt; distinct = tt };
  }

  cleared-IsReady :
      (m : Psdkro) (costs : List Cost) (f : ℕ)
      → IsIdle n m
      → IsReady d f [] (replicate (length m.m_var_values) unused) (record m {
        m_exp_costs = costs;
        m_esop = [];
        m_var_values = replicate (length m.m_var_values) unused;
      })
  cleared-IsReady m costs f h = record {
    path = record {
      is_vars = tt;
      size = length-replicate (length m.m_var_values) unused ∙ h.size;
      rest = λ j off. get_or-replicate (length m.m_var_values) j unused;
    };
    fresh = tt;
    before = λ e. tt;
  }

-- With a diagram of at most 32 variables `extract_esop` returns: no assertion fails, and the set of
-- cubes that it gives computes the node; a null node stands for the constant 0. It has as many cubes, modulo 2 ^ 32, as the plain recursion
-- on the costs counts. The state is ready for the next call.
pub extract_esop-Extracts :
    (o : HashOrder) (n : ℕ) (cudd : Cudd) (d : IsDiagram cudd n) (f : Option ℕ) (m : Psdkro)
    → n ≤ 32
    → IsIdle n m
    → Returns (extract_esop o cudd f m) (Extracts n (node_value d.value f) (node_cubes cudd n f))
unfolding extract_esop path_value eval_esop
extract_esop-Extracts o n cudd d none m le h = record {
  is_set = record { cubes = tt; distinct = tt };
  sum = λ v. refl;
  counted = refl;
  idle = h;
}
extract_esop-Extracts o n cudd d (some f) m le h =
    let size = length m.m_var_values in
    let values = replicate size unused in
    let enough : IsEnough d (suc size) f = (omega arith, λ e. omega (arith, h.size)) in
    Returns-bind (count_cubes cudd (suc size) f [])
      (λ r.
        generate_exact o cudd (suc size) f
          (record m { m_exp_costs = r.1; m_esop = []; m_var_values = values })
        >>= λ m'. some (m'.m_esop, m'))
      (λ r. Counts cudd f [] r × Recalls d f r) (Extracts n (d.value f) (n_cubes cudd n f))
      (Returns-known (count_cubes cudd (suc size) f []) (Counts cudd f [])
        (λ r. Counts cudd f [] r × Recalls d f r)
        (count_cubes-Counts d (suc size) f [] enough (no_costs cudd))
        λ r e a. (
          a,
          Returns-some (count_cubes cudd (suc size) f []) (Recalls d f) r
              (count_cubes-Recalls d (suc size) f [] enough (no_costs-IsCounted cudd n)) e,
        ))
      λ r (a, counts).
        Returns-bind
          (generate_exact o cudd (suc size) f
            (record m { m_exp_costs = r.1; m_esop = []; m_var_values = values }))
          (λ m'. some (m'.m_esop, m'))
          (Generates d f [] values r.1
            (record m { m_exp_costs = r.1; m_esop = []; m_var_values = values }))
          (Extracts n (d.value f) (n_cubes cudd n f))
          (generate_exact-Generates le o d r.1 a.closed counts.counted (suc size) f [] values _
            enough a.known (cleared-IsState d m r.1 h) (cleared-IsReady d m r.1 f h))
          λ m' g. record {
            is_set = g.state.is_set;
            sum = λ v. ground (arith, g.sum v);
            counted = omega (arith, g.grows, n_cubes-bound d f);
            idle = record {
              no_vars = g.state.vars_are;
              size = ap length g.state.values_are ∙ length-replicate size unused ∙ h.size;
            };
          }

-- Each set of cubes computes the node in its place.
abbrev pub Represents : ℕ → (ℕ → (ℕ → Bool) → Bool) → List (Option ℕ) → List (List Cube32) → Type 0
Represents n value [] [] = Unit
Represents n value [] (e ∷ es) = ⊥
Represents n value (f ∷ fs) [] = ⊥
Represents n value (f ∷ fs) (e ∷ es) =
    IsCubeSet n e
    × ((v : ℕ → Bool) → eval_esop e v ≡ node_value value f v)
    × Represents n value fs es

extract_all-Represents :
    (o : HashOrder) (n : ℕ) (cudd : Cudd) (d : IsDiagram cudd n) (fs : List (Option ℕ)) (m : Psdkro)
    → n ≤ 32
    → IsIdle n m
    → Returns (extract_all o cudd fs m) (Represents n d.value fs)
unfolding extract_all
extract_all-Represents o n cudd d [] m le h = tt
extract_all-Represents o n cudd d (f ∷ fs) m le h =
    Returns-bind (extract_esop o cudd f m)
      (λ r. extract_all o cudd fs r.1 >>= λ esops. some (r.0 ∷ esops))
      (Extracts n (node_value d.value f) (node_cubes cudd n f)) (Represents n d.value (f ∷ fs))
      (extract_esop-Extracts o n cudd d f m le h)
      λ r a.
        Returns-bind (extract_all o cudd fs r.1) (λ esops. some (r.0 ∷ esops))
          (Represents n d.value fs) (Represents n d.value (f ∷ fs))
          (extract_all-Represents o n cudd d fs r.1 le a.idle) λ esops b. (a.is_set, a.sum, b)

-- What `bdd_extract` gives for the nodes `fs` of a diagram with `n` variables.
abbrev pub Collapsed : ℕ → (ℕ → (ℕ → Bool) → Bool) → List (Option ℕ) → Extraction → Type 0
Collapsed n value fs exits = 32 < n
Collapsed n value fs (extracted f) =
    (n ≤ 32) × (f.kind ≡ Kind.esop) × (f.n_inputs ≡ n) × Represents n value fs f.cubes

-- `bdd_extract` returns: it exits just above 32 variables, and otherwise gives an ESOP for each
-- node that computes what the node stands for, a null node for the constant 0, for every `HashOrder`.
pub bdd_extract-Collapsed :
    (o : HashOrder) (n : ℕ) (cudd : Cudd) (d : IsDiagram cudd n) (fs : List (Option ℕ))
    → Returns (bdd_extract o cudd n fs) (Collapsed n d.value fs)
unfolding bdd_extract
bdd_extract-Collapsed o n cudd d fs = elim (Bool-cases (ltb 32 n)) [
  | inl e ↦ rw (bdd_extract, e) (ltb→lt 32 n e)
  | inr e ↦
      let le : n ≤ 32 = ground arith in
      rw (bdd_extract, e)
        (Returns-bind (extract_all o cudd fs (empty_psdkro n))
          (λ fncts. some (extracted (record { kind = Kind.esop; n_inputs = n; cubes = fncts })))
          (Represents n d.value fs) (Collapsed n d.value fs)
          (extract_all-Represents o n cudd d fs (empty_psdkro n) le
            (record { no_vars = refl; size = length-replicate n unused }))
          λ fncts r. (le, refl, refl, r))
]

-- ===== src/Bdd/Generate.antt =====
-- `generate_exact`: the state between its calls, and what a call adds.
use losys.Base.{
  ℕ, ◌+◌, ◌%◌, ◌^◌, ◌≤◌, ◌<◌, ◌≡◌, refl, ap, Bool, true, false, not, ◌&&◌, ◌⊕◌, ◌==◌, ==_iff, List,
  [], ◌∷◌, All, arith, Bool-cases, inl, inr, bit-zero, get_or, length,
}
use losys.Kernel.Cube32.{Cube32, cube32_one, eq}
use losys.Kernel.Cube32.Meaning.{IsCube, cube32_one-IsCube, eval-cube32_one}
use losys.Kernel.CubeSet.{HashOrder, contains, insert}
use losys.Kernel.CubeSet.Esop.{eval_esop, All-perm}
use losys.Kernel.CubeSet.Laws.{
  IsCubes, IsCubeSet, eq_cubes, eval_esop-insert, length-insert, insert-IsCubeSet,
}
use losys.Bdd.{Cudd, Cost, VarValue, unused, Psdkro, path_cube}
use losys.Bdd.Diagram.{IsDiagram}
use losys.Bdd.CostOf.{n_cubes}
use losys.Bdd.Path.{path_value, agrees, on_path, IsVars, IsFree, path_cube-IsPathCube}

-- The state between the calls: the path `vars` with its `values`, the costs and the cubes so far.
pub record IsState (n : ℕ) (vars : List ℕ) (values : List VarValue) (costs : List Cost) (m : Psdkro)
    : Type 0 where
  pub vars_are : m.m_vars ≡ vars
  pub values_are : m.m_var_values ≡ values
  pub costs_are : m.m_exp_costs ≡ costs
  pub is_set : IsCubeSet n m.m_esop

-- The path is one of a diagram with `n` variables.
pub record IsPath (n : ℕ) (vars : List ℕ) (values : List VarValue) : Type 0 where
  pub is_vars : IsVars n vars
  pub size : length values ≡ n
  pub rest : (j : ℕ) → on_path j vars ≡ false → get_or values j unused ≡ unused

-- The cubes satisfy `q`.
abbrev pub AllSet : (Cube32 → Bool) → Psdkro → Type 0
AllSet q m = All (λ c. q c ≡ true) m.m_esop

pub record Generates {cudd : Cudd} {n : ℕ} (d : IsDiagram cudd n) (f : ℕ) (vars : List ℕ)
    (values : List VarValue) (costs : List Cost) (m m' : Psdkro) : Type 0 where
  pub state : IsState n vars values costs m'
  pub sum :
      (v : ℕ → Bool)
      → eval_esop m'.m_esop v ≡ ((path_value vars values v && d.value f v) ⊕ eval_esop m.m_esop v)
  pub grows : length m'.m_esop % 2 ^ 32 ≡ (length m.m_esop + n_cubes cudd n f) % 2 ^ 32
  pub within :
      (q : Cube32 → Bool)
      → AllSet q m
      → ((c : Cube32) → agrees vars values c ≡ true → q c ≡ true)
      → AllSet q m'

-- A cube that is on the path is new to a set of cubes that are not.
contains-fresh :
    {n : ℕ} (q : Cube32 → Bool) (p : Cube32) (s : List Cube32)
    → n ≤ 32
    → IsCube n p
    → IsCubes n s
    → q p ≡ false
    → All (λ c. q c ≡ true) s
    → contains p s ≡ false
unfolding contains
contains-fresh q p [] le k ks e h = refl
contains-fresh q p (c ∷ s) le k ks e h = elim (Bool-cases (eq c p)) [
  | inl w ↦ absurd (ground (arith, ap q (eq_cubes le ks.0 k w)))
  | inr w ↦ ground (arith, contains-fresh q p s le k ks.1 e h.1)
]

All-insert :
    (o : HashOrder) (q : Cube32 → Bool) (p : Cube32) (s : List Cube32)
    → q p ≡ true
    → All (λ c. q c ≡ true) s
    → All (λ c. q c ≡ true) (insert o p s)
unfolding insert
All-insert o q p s e h = elim (Bool-cases (contains p s)) [
  | inl w ↦ rw w h
  | inr w ↦ rw w (All-perm (λ c. q c ≡ true) (o.place_perm p s) (e, h))
]

IsFree-one : (vars : List ℕ) → IsFree vars cube32_one
IsFree-one [] = tt
IsFree-one (var ∷ vars) = (bit-zero var, IsFree-one vars)

pub off_path :
    (place : ℕ → ℕ) (idx : ℕ) (vars : List ℕ)
    → All (λ j. place j < place idx) vars
    → on_path idx vars ≡ false
unfolding on_path
off_path place idx [] h = refl
off_path place idx (var ∷ vars) h = elim (Bool-cases (var == idx)) [
  | inl e ↦ absurd (omega (arith, ap place ((==_iff var idx).0 e), h.0))
  | inr e ↦ ground (arith, off_path place idx vars h.1)
]

module _ {n : ℕ} (le : n ≤ 32) (o : HashOrder) {cudd : Cudd} (d : IsDiagram cudd n) (vars : List ℕ)
    (values : List VarValue) (costs : List Cost) (m : Psdkro)
    (s : IsState n vars values costs m) where
  -- At the terminal 1 the cube of the path is added.
  pub at_one :
      IsPath n vars values
      → AllSet (λ c. not (agrees vars values c)) m
      → (f : ℕ) → ((v : ℕ → Bool) → d.value f v ≡ true)
      → n_cubes cudd n f ≡ 1
      → Generates d f vars values costs m
          (record m { m_esop = insert o (path_cube m.m_vars m.m_var_values cube32_one) m.m_esop })
  at_one p fresh f holds one =
      let k =
        path_cube-IsPathCube le values vars cube32_one (cube32_one-IsCube n) p.is_vars
          (IsFree-one vars) in
      let c = path_cube vars values cube32_one in
      let new =
        contains-fresh (λ x. not (agrees vars values x)) c m.m_esop le k.cube s.is_set.cubes
          (ground (arith, k.on)) fresh in
      rw (s.vars_are, s.values_are)
        (record {
          state = record {
            vars_are = refl;
            values_are = refl;
            costs_are = s.costs_are;
            is_set = insert-IsCubeSet o c m.m_esop new k.cube s.is_set;
          };
          sum = λ v.
              ground
                (arith, eval_esop-insert o c m.m_esop new v, k.value v, eval-cube32_one v, holds v);
          grows = omega (arith, length-insert o c m.m_esop new, one);
          within = λ q all on. All-insert o q c m.m_esop (on c k.on) all;
        })

  pub at_zero :
      (f : ℕ)
      → ((v : ℕ → Bool) → d.value f v ≡ false)
      → n_cubes cudd n f ≡ 0
      → Generates d f vars values costs m m
  at_zero f fails zero = record {
    state = s;
    sum = λ v. ground (arith, fails v);
    grows = omega (arith, zero);
    within = λ q all on. all;
  }

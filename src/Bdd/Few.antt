-- ===== src/Bdd/Few.antt =====
-- The number of cubes of `generate_exact` against its fuel.
use losys.Base.{
  none, ℕ, suc, ◌+◌, ◌^◌, ◌≤◌, ◌==◌, arith, Bool-cases, inl, inr, length, List, Option, some, ◌>>=◌,
  Option-cases, zero, [], replicate,
}
use losys.Kernel.Cube32.{Cube32, cube32_one}
use losys.Kernel.CubeSet.{HashOrder, contains, insert}
use losys.Kernel.CubeSet.Esop.{length-perm}
use losys.Bdd.{
  Cudd, Cost, Psdkro, left_node, right_node, extract_esop, generate_exact, count_cubes, assign,
  push_var, pop_var, path_cube, find_cost, left_value, right_value, unused,
}
use losys.Base.{IfSome, IfSome-bind, IfSome-all}

length-insert_le :
    (o : HashOrder) (c : Cube32) (s : List Cube32) → length (insert o c s) ≤ length s + 1
unfolding insert
length-insert_le o c s = elim (Bool-cases (contains c s)) [
  | inl w ↦ rw w (omega arith)
  | inr w ↦ rw w (omega (arith, length-perm (o.place_perm c s)))
]

pub pow_pos : (k : ℕ) → 1 ≤ 2 ^ k
pow_pos zero = omega arith
pow_pos (suc k) = omega (arith, pow_pos k)

-- A path branches once for each unit of fuel but the last.
abbrev AtMost : ℕ → Psdkro → Psdkro → Type 0
AtMost k m m' = length m'.m_esop ≤ length m.m_esop + 2 ^ k

module _ (o : HashOrder) (cudd : Cudd) where
  -- Behind a node with the cost `c`.
  abbrev both : ℕ → ℕ → Psdkro → Cost → Option Psdkro
  both fuel f m c =
      generate_exact o cudd fuel (left_node cudd c.exp_type f)
        (assign (cudd.read_index f) (left_value c.exp_type) (push_var (cudd.read_index f) m))
      >>= λ m1.
          generate_exact o cudd fuel (right_node cudd c.exp_type f)
            (assign (cudd.read_index f) (right_value c.exp_type) m1)
          >>= λ m2. some (assign (cudd.read_index f) unused (pop_var m2))

  both-AtMost :
      (k : ℕ)
      → ((f : ℕ) (m : Psdkro) → IfSome (AtMost k m) (generate_exact o cudd (suc k) f m))
      → (f : ℕ) (m : Psdkro) (c : Cost) → IfSome (AtMost (suc k) m) (both (suc k) f m c)
  unfolding assign push_var pop_var
  both-AtMost k rest f m c =
      let idx = cudd.read_index f in
      let mL = assign idx (left_value c.exp_type) (push_var idx m) in
      IfSome-bind (generate_exact o cudd (suc k) (left_node cudd c.exp_type f) mL)
        (λ m1.
          generate_exact o cudd (suc k) (right_node cudd c.exp_type f)
            (assign idx (right_value c.exp_type) m1)
          >>= λ m2. some (assign idx unused (pop_var m2)))
        (AtMost k mL) (AtMost (suc k) m) (rest (left_node cudd c.exp_type f) mL)
        λ m1 h1.
          IfSome-bind
            (generate_exact o cudd (suc k) (right_node cudd c.exp_type f)
              (assign idx (right_value c.exp_type) m1))
            (λ m2. some (assign idx unused (pop_var m2)))
            (AtMost k (assign idx (right_value c.exp_type) m1)) (AtMost (suc k) m)
            (rest (right_node cudd c.exp_type f) (assign idx (right_value c.exp_type) m1))
            λ m2 h2. omega (arith, h1, h2)

  node-AtMost :
      (k f : ℕ) (m : Psdkro)
      → ((c : Cost) → IfSome (AtMost k m) (both k f m c))
      → IfSome (AtMost k m) (generate_exact o cudd (suc k) f m)
  unfolding generate_exact
  node-AtMost k f m branches = elim (Bool-cases (f == cudd.logic_zero)) [
    | inl z ↦ rw (generate_exact, z) (omega arith)
    | inr z ↦ elim (Bool-cases (f == cudd.one)) [
      | inl w ↦
          rw (generate_exact, z, w)
            (omega (
              arith,
              length-insert_le o (path_cube m.m_vars m.m_var_values cube32_one) m.m_esop,
              pow_pos k,
            ))
      | inr w ↦ elim (Option-cases (find_cost f m.m_exp_costs)) [
        | inl q ↦ rw (generate_exact, z, w, q) tt
        | inr (c, q) ↦ rw (generate_exact, z, w, q) (branches c)
      ]
    ]
  ]

  generate_exact-AtMost :
      (k f : ℕ) (m : Psdkro) → IfSome (AtMost k m) (generate_exact o cudd (suc k) f m)
  unfolding generate_exact
  generate_exact-AtMost zero f m = node-AtMost zero f m λ c. tt
  generate_exact-AtMost (suc k) f m =
      node-AtMost (suc k) f m λ c. both-AtMost k (generate_exact-AtMost k) f m c

pub extract_esop-few :
    (o : HashOrder) (cudd : Cudd) (f : Option ℕ) (m : Psdkro)
    → IfSome
        (λ (r : List Cube32 × Psdkro). length r.0 ≤ 2 ^ length m.m_var_values)
        (extract_esop o cudd f m)
unfolding extract_esop
extract_esop-few o cudd none m = omega arith
extract_esop-few o cudd (some f) m =
    let size = length m.m_var_values in
    let start = λ (costs : List Cost). record m {
      m_exp_costs = costs;
      m_esop = [];
      m_var_values = replicate size unused;
    } in
    IfSome-bind (count_cubes cudd (suc size) f [])
      (λ r. generate_exact o cudd (suc size) f (start r.1) >>= λ m'. some (m'.m_esop, m'))
      (λ r. Unit) (λ (r : List Cube32 × Psdkro). length r.0 ≤ 2 ^ size)
      (IfSome-all (count_cubes cudd (suc size) f []))
      λ r _.
        IfSome-bind (generate_exact o cudd (suc size) f (start r.1)) (λ m'. some (m'.m_esop, m'))
          (AtMost size (start r.1)) (λ (r : List Cube32 × Psdkro). length r.0 ≤ 2 ^ size)
          (generate_exact-AtMost o cudd size f (start r.1)) λ m' h. omega (arith, h)

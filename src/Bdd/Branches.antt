-- ===== src/Bdd/Branches.antt =====
-- The two branches of an expansion: their nodes, what they sum up to, and their paths.
use losys.Base.{
  ℕ, ◌<◌, ◌≡◌, refl, ap, Bool, true, false, ◌&&◌, ◌⊕◌, List, [], ◌∷◌, arith, set, length,
  get_or-set_self, get_or-set_ne,
}
use losys.Kernel.Cube32.{Cube32}
use losys.Bdd.{
  is_used, is_positive, Cudd, Cost, VarValue, positive, negative, unused, ExpType, positive_davio,
  negative_davio, shannon, left_node, right_node, left_value, right_value, cofactor0, cofactor1,
}
use losys.Bdd.Diagram.{
  is_terminal, IsBelow, IsDiagram, cofactor0-IsBelow, cofactor1-IsBelow, cofactor2-IsBelow,
  value-cofactors,
}
use losys.Bdd.Costs.{is_known, IsClosed, has_cost}
use losys.Bdd.Path.{value_lit, path_value, agrees, on_path}

module _ {cudd : Cudd} {n : ℕ} (d : IsDiagram cudd n) (f : ℕ)
    (inner : is_terminal cudd f ≡ false) where
  -- Both branches are cofactors of the node.
  pub left-IsBelow :
      (e : ExpType) → IsBelow cudd d.place (d.place (cudd.read_index f)) (left_node cudd e f)
  unfolding left_node
  left-IsBelow positive_davio = cofactor0-IsBelow d f inner
  left-IsBelow negative_davio = cofactor1-IsBelow d f inner
  left-IsBelow shannon = cofactor0-IsBelow d f inner

  pub right-IsBelow :
      (e : ExpType) → IsBelow cudd d.place (d.place (cudd.read_index f)) (right_node cudd e f)
  unfolding right_node
  right-IsBelow positive_davio = cofactor2-IsBelow d f inner
  right-IsBelow negative_davio = cofactor2-IsBelow d f inner
  right-IsBelow shannon = cofactor1-IsBelow d f inner

  -- Davio and Shannon expansion.
  pub value-branches :
      (e : ExpType) (v : ℕ → Bool)
      → d.value f v ≡ (
          (value_lit (left_value e) (v (cudd.read_index f)) && d.value (left_node cudd e f) v)
          ⊕ (value_lit (right_value e) (v (cudd.read_index f)) && d.value (right_node cudd e f) v))
  unfolding left_node right_node left_value right_value
  value-branches positive_davio v =
      ground
        (arith, value-cofactors d f inner v, d.value_xor (cofactor0 cudd f) (cofactor1 cudd f) v)
  value-branches negative_davio v =
      ground
        (arith, value-cofactors d f inner v, d.value_xor (cofactor0 cudd f) (cofactor1 cudd f) v)
  value-branches shannon v = ground (arith, value-cofactors d f inner v)

module _ (cudd : Cudd) (costs : List Cost) (closed : IsClosed cudd costs) (f : ℕ)
    (held : has_cost f costs ≡ true) where
  pub left_known : (e : ExpType) → is_known cudd costs (left_node cudd e f) ≡ true
  unfolding left_node
  left_known positive_davio = (closed f held).0
  left_known negative_davio = (closed f held).1
  left_known shannon = (closed f held).0

  pub right_known : (e : ExpType) → is_known cudd costs (right_node cudd e f) ≡ true
  unfolding right_node
  right_known positive_davio = (closed f held).2
  right_known negative_davio = (closed f held).2
  right_known shannon = (closed f held).1

-- A value given to a variable off the path does not matter to the path.
pub path_value-set :
    (vars : List ℕ) (values : List VarValue) (idx : ℕ) (x : VarValue) (v : ℕ → Bool)
    → on_path idx vars ≡ false
    → path_value vars (set values idx x) v ≡ path_value vars values v
unfolding path_value on_path
path_value-set [] values idx x v off = refl
path_value-set (var ∷ vars) values idx x v off = rw (
  get_or-set_ne values idx var x unused (ground arith),
  path_value-set vars values idx x v (ground arith),
)

pub agrees-set :
    (vars : List ℕ) (values : List VarValue) (idx : ℕ) (x : VarValue) (c : Cube32)
    → on_path idx vars ≡ false
    → agrees vars (set values idx x) c ≡ agrees vars values c
unfolding agrees on_path
agrees-set [] values idx x c off = refl
agrees-set (var ∷ vars) values idx x c off = rw (
  get_or-set_ne values idx var x unused (ground arith),
  agrees-set vars values idx x c (ground arith),
)

module _ (values : List VarValue) (idx : ℕ) (lt : idx < length values) (vars : List ℕ)
    (off : on_path idx vars ≡ false) where
  pub path_value-push :
      (x : VarValue) (v : ℕ → Bool)
      → path_value (idx ∷ vars) (set values idx x) v
        ≡ (value_lit x (v idx) && path_value vars values v)
  unfolding path_value
  path_value-push x v =
      rw (get_or-set_self values idx x unused lt, path_value-set vars values idx x v off)

  pub agrees-push :
      (x : VarValue) (c : Cube32)
      → agrees (idx ∷ vars) (set values idx x) c ≡ true
      → agrees vars values c ≡ true
  unfolding agrees
  agrees-push x c h = ground (arith, agrees-set vars values idx x c off)

  -- A cube on the path of one branch is not on the path of the other.
  pub branches_apart :
      (e : ExpType) (c : Cube32)
      → agrees (idx ∷ vars) (set values idx (left_value e)) c ≡ true
      → agrees (idx ∷ vars) (set values idx (right_value e)) c ≡ false
  unfolding agrees left_value right_value
  branches_apart positive_davio c h = ground (
    arith,
    ap is_used (get_or-set_self values idx unused unused lt),
    ap is_used (get_or-set_self values idx positive unused lt),
  )
  branches_apart negative_davio c h = ground (
    arith,
    ap is_used (get_or-set_self values idx unused unused lt),
    ap is_used (get_or-set_self values idx negative unused lt),
  )
  branches_apart shannon c h = ground (
    arith,
    ap is_positive (get_or-set_self values idx negative unused lt),
    ap is_positive (get_or-set_self values idx positive unused lt),
  )

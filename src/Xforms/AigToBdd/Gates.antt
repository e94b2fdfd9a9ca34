-- ===== src/Xforms/AigToBdd/Gates.antt =====
-- The BDDs of the inputs and of the gates against the values of their nodes.
use losys.Base.{
  ◌≤◌, ℕ, ◌+◌, ◌<◌, ◌≡◌, ap, ◌∙◌, sym, Bool, true, false, not, ◌&&◌, ◌⊕◌, ◌==◌, ==_iff, Bool-cases,
  inl, inr, Option, none, some, ◌>>=◌, Returns, Returns-bind, List, [], ◌∷◌, All, length, get_or,
  set, length-set, get_or-set_self, get_or-set_ne, arith,
}
use losys.Aig.{AndNode}
use losys.Aig.Nodes.{mark, mark_ands, IsOrdered, Obeys}
use losys.Aig.Simulate.{IsInputs, Reads, mark_inputs}
use losys.Xforms.AigToBdd.{output_bdd, BddOps, input_bdds, fanin_bdd, and_bdd, and_bdds}

-- CUDD's promises on its operations, for `n` variables: `value` is the function that a node stands
-- for.
pub record IsBddOps (ops : BddOps) (n : ℕ) (value : ℕ → (ℕ → Bool) → Bool) : Type 0 where
  pub value_var : (i : ℕ) (v : ℕ → Bool) → i < n → value (ops.bdd_var i) v ≡ v i
  pub value_not : (b : ℕ) (v : ℕ → Bool) → value (ops.negation b) v ≡ not (value b v)
  pub value_and :
      (b c : ℕ) (v : ℕ → Bool) → value (ops.conjunction b c) v ≡ (value b v && value c v)

-- A BDD that a manager has made, with the value `x` under `v`.
abbrev pub IsValue : (ℕ → (ℕ → Bool) → Bool) → (ℕ → Bool) → Option ℕ → Bool → Type 0
IsValue value v none x = ⊥
IsValue value v (some b) x = value b v ≡ x

-- Before and after each node: the nodes that are ready, less the constant, have BDDs for their
-- values, and the constant has none.
pub record HasBdds (value : ℕ → (ℕ → Bool) → Bool) (n_objs : ℕ) (ready val v : ℕ → Bool)
    (nodes : List (Option ℕ)) : Type 0 where
  pub size : length nodes ≡ n_objs
  pub bdd :
      (id : ℕ)
      → ready id ≡ true
      → (0 == id) ≡ false
      → IsValue value v (get_or nodes id none) (val id)
  pub no_constant : get_or nodes 0 none ≡ none
  pub constant_ready : ready 0 ≡ true

-- No gate reads the constant.
abbrev pub ReadsNoConstant : AndNode → Type 0
ReadsNoConstant a = ((0 == a.fanin0) ≡ false) × ((0 == a.fanin1) ≡ false)

module _ (ops : BddOps) (n : ℕ) (value : ℕ → (ℕ → Bool) → Bool)
    (promise : IsBddOps ops n value) where
  pub HasBdds-set :
      {n_objs : ℕ} {ready val v : ℕ → Bool} {nodes : List (Option ℕ)} (id b : ℕ)
      → HasBdds value n_objs ready val v nodes
      → ready id ≡ false
      → id < n_objs
      → value b v ≡ val id
      → HasBdds value n_objs (mark id ready) val v (set nodes id (some b))
  HasBdds-set {n_objs} {ready} {val} {v} {nodes} id b h new lt e =
      let inside : id < length nodes = rw h.size lt in
      let not_zero : (id == 0) ≡ false = elim (Bool-cases (id == 0)) [
        | inl q ↦ absurd (ground (arith, ap ready ((==_iff id 0).0 q), h.constant_ready))
        | inr q ↦ q
      ] in
      record {
        size = length-set nodes id (some b) ∙ h.size;
        bdd = λ j r nz. elim (Bool-cases (id == j)) [
          | inl q ↦ rw (sym ((==_iff id j).0 q), get_or-set_self nodes id (some b) none inside) e
          | inr q ↦ rw (get_or-set_ne nodes id j (some b) none q) (h.bdd j (ground arith) nz)
        ];
        no_constant = get_or-set_ne nodes id 0 (some b) none not_zero ∙ h.no_constant;
        constant_ready = ground (arith, h.constant_ready);
      }

  pub input_bdds-HasBdds :
      (n_objs i : ℕ) (ready val v : ℕ → Bool) (ids : List ℕ) (nodes : List (Option ℕ))
      → i + length ids ≤ n
      → HasBdds value n_objs ready val v nodes
      → IsInputs n_objs ready ids
      → Reads i ids v val
      → HasBdds value n_objs (mark_inputs ids ready) val v (input_bdds ops i ids nodes)
  unfolding input_bdds
  input_bdds-HasBdds n_objs i ready val v [] nodes le h ins rd = h
  input_bdds-HasBdds n_objs i ready val v (id ∷ ids) nodes le h (new, lt, ins) (r, rd) =
      input_bdds-HasBdds n_objs (i + 1) (mark id ready) val v ids _ (omega arith)
        (HasBdds-set id (ops.bdd_var i) h new lt (promise.value_var i v (omega arith) ∙ sym r)) ins
        rd

  fanin_bdd-IsValue :
      (c : Bool) (o : Option ℕ) (v : ℕ → Bool) (x : Bool)
      → IsValue value v o x
      → Returns (fanin_bdd ops c o) (λ b. value b v ≡ (c ⊕ x))
  unfolding fanin_bdd
  fanin_bdd-IsValue c none v x h = absurd h
  fanin_bdd-IsValue true (some b) v x h = ground (arith, promise.value_not b v, h)
  fanin_bdd-IsValue false (some b) v x h = ground (arith, h)

  and_bdd-HasBdds :
      (n_objs : ℕ) (ready val v : ℕ → Bool) (a : AndNode) (rest : List AndNode)
      (nodes : List (Option ℕ))
      → HasBdds value n_objs ready val v nodes
      → IsOrdered n_objs ready (a ∷ rest)
      → ReadsNoConstant a
      → Obeys val a
      → Returns (and_bdd ops a nodes) (HasBdds value n_objs (mark a.id ready) val v)
  unfolding and_bdd
  and_bdd-HasBdds n_objs ready val v a rest nodes h (r0, r1, new, lt, ord) (z0, z1) ob =
      let o1 = get_or nodes a.fanin0 none in
      let o2 = get_or nodes a.fanin1 none in
      Returns-bind (fanin_bdd ops a.compl0 o1)
        (λ b1.
          fanin_bdd ops a.compl1 o2 >>= λ b2. some (set nodes a.id (some (ops.conjunction b1 b2))))
        (λ b1. value b1 v ≡ (a.compl0 ⊕ val a.fanin0))
        (HasBdds value n_objs (mark a.id ready) val v)
        (fanin_bdd-IsValue a.compl0 o1 v (val a.fanin0) (h.bdd a.fanin0 r0 z0))
        λ b1 e1.
          Returns-bind (fanin_bdd ops a.compl1 o2)
            (λ b2. some (set nodes a.id (some (ops.conjunction b1 b2))))
            (λ b2. value b2 v ≡ (a.compl1 ⊕ val a.fanin1))
            (HasBdds value n_objs (mark a.id ready) val v)
            (fanin_bdd-IsValue a.compl1 o2 v (val a.fanin1) (h.bdd a.fanin1 r1 z1))
            λ b2 e2.
              HasBdds-set a.id (ops.conjunction b1 b2) h new lt
                (ground (arith, promise.value_and b1 b2 v, e1, e2, ob))

  pub and_bdds-HasBdds :
      (n_objs : ℕ) (ready val v : ℕ → Bool) (ands : List AndNode) (nodes : List (Option ℕ))
      → HasBdds value n_objs ready val v nodes
      → IsOrdered n_objs ready ands
      → All ReadsNoConstant ands
      → All (Obeys val) ands
      → Returns (and_bdds ops ands nodes) (HasBdds value n_objs (mark_ands ands ready) val v)
  unfolding and_bdds
  and_bdds-HasBdds n_objs ready val v [] nodes h ord zs obs = h
  and_bdds-HasBdds n_objs ready val v (a ∷ rest) nodes h ord (z, zs) (ob, obs) =
      Returns-bind (and_bdd ops a nodes) (and_bdds ops rest)
        (HasBdds value n_objs (mark a.id ready) val v)
        (HasBdds value n_objs (mark_ands rest (mark a.id ready)) val v)
        (and_bdd-HasBdds n_objs ready val v a rest nodes h ord z ob)
        λ nodes' h'. and_bdds-HasBdds n_objs (mark a.id ready) val v rest nodes' h' ord.4 zs obs

  pub output_bdd-IsValue :
      (c : Bool) (o : Option ℕ) (v : ℕ → Bool) (x : Bool)
      → IsValue value v o x
      → Returns (output_bdd ops c o) (λ o'. IsValue value v o' (c ⊕ x))
  unfolding output_bdd
  output_bdd-IsValue c none v x h = absurd h
  output_bdd-IsValue true (some b) v x h = ground (arith, promise.value_not b v, h)
  output_bdd-IsValue false (some b) v x h = ground (arith, h)

-- ===== src/Aig/Nodes.antt =====
-- `compute_and` and the loop over the AND nodes: the ESOPs of the nodes visited so far.
use losys.Base.{
  refl, arith, Returns-bind, Returns, All, ap, ◌≤◌, ◌&&◌, ◌||◌, ◌⊕◌, sym, ◌++◌, ℕ, ◌<◌, ◌≡◌, ◌∙◌,
  Bool, true, false, Bool-cases, inl, inr, List, [], ◌∷◌, length, if◌then◌else◌, ◌==◌, ==_iff,
  get_or, set, get_or-set_self, get_or-set_ne, length-set,
}
use losys.Kernel.Cube32.{Cube32}
use losys.Kernel.CubeSet.Esop.{eval_esop}
use losys.Kernel.CubeSet.Laws.{IsCubes}
use losys.Aig.Product.{Summed, multiply-Summed, prepare_input-IsCubes}
use losys.Aig.{
  multiply, compute_and, and_step, HashOrder, is_empty, and_esops, AndNode, AigExtrMngr,
}

-- Which nodes have their value by now: `id` joins them.
abbrev pub mark : ℕ → (ℕ → Bool) → ℕ → Bool
mark id ready j = if id == j then true else ready j

-- ABC lists the AND nodes in topological order: each is new, and its fanins come before it.
abbrev pub IsOrdered : ℕ → (ℕ → Bool) → List AndNode → Type 0
IsOrdered n_objs ready [] = Unit
IsOrdered n_objs ready (a ∷ rest) =
    (ready a.fanin0 ≡ true)
    × (ready a.fanin1 ≡ true)
    × (ready a.id ≡ false)
    × (a.id < n_objs)
    × IsOrdered n_objs (mark a.id ready) rest

-- The values `val` of the nodes obey the AND nodes.
abbrev pub Obeys : (ℕ → Bool) → AndNode → Type 0
Obeys val a = val a.id ≡ ((a.compl0 ⊕ val a.fanin0) && (a.compl1 ⊕ val a.fanin1))

-- Before and after each node, for the assignment `v` of the inputs: the nodes that are ready have
-- ESOPs for their values, the others none, and the scratch set is empty.
pub record Holds (n n_objs : ℕ) (ready : ℕ → Bool) (val v : ℕ → Bool) (m_esops : List (List Cube32))
    : Type 0 where
  pub size : length m_esops ≡ n_objs
  pub cubes : (id : ℕ) → IsCubes n (get_or m_esops id [])
  pub value : (id : ℕ) → ready id ≡ true → eval_esop (get_or m_esops id []) v ≡ val id
  pub fresh : (id : ℕ) → ready id ≡ false → get_or m_esops id [] ≡ []

pub record NodesHold (n n_objs : ℕ) (ready : ℕ → Bool) (val v : ℕ → Bool) (m : AigExtrMngr)
    : Type 0 where
  pub nodes : Holds n n_objs ready val v m.m_esops
  pub scratch : m.m_curr_esop ≡ []

-- Giving a new node an ESOP of its value keeps the invariant.
pub Holds-set :
    {n n_objs : ℕ} {ready val v : ℕ → Bool} {m_esops : List (List Cube32)} (id : ℕ)
    (cs : List Cube32)
    → Holds n n_objs ready val v m_esops
    → ready id ≡ false
    → id < n_objs
    → IsCubes n cs
    → eval_esop cs v ≡ val id
    → Holds n n_objs (mark id ready) val v (set m_esops id (get_or m_esops id [] ++ cs))
Holds-set {n} {n_objs} {ready} {val} {v} {m_esops} id cs h new lt ks e =
    rw (h.fresh id new) (record {
      size = length-set m_esops id cs ∙ h.size;
      cubes = λ j. elim (Bool-cases (id == j)) [
        | inl q ↦ let p : id ≡ j = (==_iff id j).0 q in rw (← p, here) ks
        | inr q ↦ rw (get_or-set_ne m_esops id j cs [] q) (h.cubes j)
      ];
      value = λ j r. elim (Bool-cases (id == j)) [
        | inl q ↦ let p : id ≡ j = (==_iff id j).0 q in rw (← p, here) e
        | inr q ↦ rw (get_or-set_ne m_esops id j cs [] q) (h.value j (ground arith))
      ];
      fresh = λ j r. elim (Bool-cases (id == j)) [
        | inl q ↦ ground arith
        | inr q ↦ get_or-set_ne m_esops id j cs [] q ∙ h.fresh j (ground arith)
      ];
    })
  where
    here : get_or (set m_esops id cs) id [] ≡ cs
    here = get_or-set_self m_esops id cs [] (rw h.size lt)

-- A new node whose value is 0 needs no cube.
Holds-skip :
    {n n_objs : ℕ} {ready val v : ℕ → Bool} {m_esops : List (List Cube32)} (id : ℕ)
    → Holds n n_objs ready val v m_esops
    → ready id ≡ false
    → val id ≡ false
    → Holds n n_objs (mark id ready) val v m_esops
unfolding eval_esop
Holds-skip {val = val} {v = v} {m_esops = m_esops} id h new e = record {
  size = h.size;
  cubes = h.cubes;
  value = λ j r. elim (Bool-cases (id == j)) [
    | inl q ↦
        let p : id ≡ j = (==_iff id j).0 q in
        ap (λ cs. eval_esop cs v) (ap (λ (t : ℕ). get_or m_esops t []) (sym p) ∙ h.fresh id new)
        ∙ sym e
        ∙ ap val p
    | inr q ↦ h.value j (ground arith)
  ];
  fresh = λ j r. elim (Bool-cases (id == j)) [
    | inl q ↦ ground arith
    | inr q ↦ h.fresh j (ground arith)
  ];
}

is_empty-eval : (cs : List Cube32) (v : ℕ → Bool) → is_empty cs ≡ true → eval_esop cs v ≡ false
unfolding is_empty eval_esop
is_empty-eval [] v e = refl
is_empty-eval (c ∷ cs) v e = cc

module _ (o : HashOrder) {n n_objs : ℕ} {ready val v : ℕ → Bool} (le : n ≤ 31) where
  compute_and-NodesHold :
      (id : ℕ) (m : AigExtrMngr)
      → NodesHold n n_objs ready val v m
      → ready id ≡ false
      → id < n_objs
      → IsCubes n m.m_esop0
      → IsCubes n m.m_esop1
      → val id ≡ (eval_esop m.m_esop0 v && eval_esop m.m_esop1 v)
      → Returns (compute_and o n id m) (NodesHold n n_objs (mark id ready) val v)
  unfolding compute_and eval_esop
  compute_and-NodesHold id m h new lt k0 k1 e =
      elim (Bool-cases (is_empty m.m_esop0 || is_empty m.m_esop1)) [
        | inl q ↦
            let z : val id ≡ false =
              ground (arith, is_empty-eval m.m_esop0 v, is_empty-eval m.m_esop1 v) in
            rw q (record { nodes = Holds-skip id h.nodes new z; scratch = h.scratch })
        | inr q ↦ rw q (
            Returns-bind (multiply o n m.m_esop0 m.m_esop1 m.m_curr_esop) _
              (Summed n (λ w. eval_esop m.m_esop0 w && eval_esop m.m_esop1 w) m.m_curr_esop) _
              (multiply-Summed o n m.m_esop0 m.m_esop1 m.m_curr_esop le k0 k1
                (rw h.scratch (record { cubes = tt; distinct = tt })))
              λ curr a. record {
                nodes =
                    Holds-set id curr h.nodes new lt a.is_set.cubes
                      (ground (arith, a.sum v, ap (λ cs. eval_esop cs v) h.scratch));
                scratch = refl;
              })
      ]

  pub and_step-NodesHold :
      (a : AndNode) (m : AigExtrMngr)
      → NodesHold n n_objs ready val v m
      → ready a.fanin0 ≡ true
      → ready a.fanin1 ≡ true
      → ready a.id ≡ false
      → a.id < n_objs
      → Obeys val a
      → Returns (and_step o n a m) (NodesHold n n_objs (mark a.id ready) val v)
  unfolding and_step
  and_step-NodesHold a m h r0 r1 new lt e =
      let (k0, e0) =
        prepare_input-IsCubes n (omega arith) a.fanin0 a.compl0 m.m_esops
          (h.nodes.cubes a.fanin0) in
      let (k1, e1) =
        prepare_input-IsCubes n (omega arith) a.fanin1 a.compl1 m.m_esops
          (h.nodes.cubes a.fanin1) in
      compute_and-NodesHold a.id _ (record { nodes = h.nodes; scratch = h.scratch }) new lt k0 k1
        (ground (arith, e0 v, e1 v, h.nodes.value a.fanin0 r0, h.nodes.value a.fanin1 r1))

-- The nodes that are ready once a list of nodes has been visited.
abbrev pub mark_ands : List AndNode → (ℕ → Bool) → ℕ → Bool
mark_ands [] ready = ready
mark_ands (a ∷ rest) ready = mark_ands rest (mark a.id ready)

pub and_esops-NodesHold :
    (o : HashOrder) (n n_objs : ℕ) (ready val v : ℕ → Bool) (ands : List AndNode) (m : AigExtrMngr)
    → n ≤ 31
    → NodesHold n n_objs ready val v m
    → IsOrdered n_objs ready ands
    → All (Obeys val) ands
    → Returns (and_esops o n ands m) (NodesHold n n_objs (mark_ands ands ready) val v)
unfolding and_esops
and_esops-NodesHold o n n_objs ready val v [] m le h ord ob = h
and_esops-NodesHold o n n_objs ready val v (a ∷ rest) m le h (r0, r1, new, lt, ord) ob =
    Returns-bind (and_step o n a m) (and_esops o n rest)
      (NodesHold n n_objs (mark a.id ready) val v) _
      (and_step-NodesHold o le a m h r0 r1 new lt ob.0)
      λ m' h'. and_esops-NodesHold o n n_objs (mark a.id ready) val v rest m' le h' ord ob.1

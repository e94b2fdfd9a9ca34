-- ===== src/Aig/Simulate.antt =====
-- What an AIG computes: the value of each node, in the order of its list. The specification that
-- the collapsed ESOPs are compared with.
use losys.Base.{
  refl, ◌∙◌, ap, ==_self, ==_iff, Bool-cases, inl, inr, true, false, ◌+◌, ◌<◌, All, ◌⊕◌, ◌==◌,
  arith, ◌&&◌, if◌then◌else◌, ℕ, ◌≡◌, Bool, List, [], ◌∷◌,
}
use losys.Aig.{AndNode, Gia}
use losys.Aig.Nodes.{mark, IsOrdered, Obeys}

abbrev pub set_value : ℕ → Bool → (ℕ → Bool) → ℕ → Bool
set_value id b val j = if id == j then b else val j

unfoldable pub sim_inputs : ℕ → List ℕ → (ℕ → Bool) → (ℕ → Bool) → ℕ → Bool
sim_inputs i [] v val = val
sim_inputs i (id ∷ ids) v val = sim_inputs (i + 1) ids v (set_value id (v i) val)

unfoldable pub sim_ands : List AndNode → (ℕ → Bool) → ℕ → Bool
sim_ands [] val = val
sim_ands (a ∷ rest) val =
    sim_ands rest (set_value a.id ((a.compl0 ⊕ val a.fanin0) && (a.compl1 ⊕ val a.fanin1)) val)

-- The value of each node under the assignment `v`; object 0 is the constant 0.
unfoldable pub simulate : Gia → (ℕ → Bool) → ℕ → Bool
unfolding sim_inputs sim_ands
simulate aig v = sim_ands aig.ands (sim_inputs 0 aig.ci_ids v (λ _. false))

-- The inputs are objects of their own.
abbrev pub IsInputs : ℕ → (ℕ → Bool) → List ℕ → Type 0
IsInputs n_objs ready [] = Unit
IsInputs n_objs ready (id ∷ ids) =
    (ready id ≡ false) × (id < n_objs) × IsInputs n_objs (mark id ready) ids

abbrev pub mark_inputs : List ℕ → (ℕ → Bool) → ℕ → Bool
mark_inputs [] ready = ready
mark_inputs (id ∷ ids) ready = mark_inputs ids (mark id ready)

-- The values `val` give the inputs, from the `i`-th on, their values under `v`.
abbrev pub Reads : ℕ → List ℕ → (ℕ → Bool) → (ℕ → Bool) → Type 0
Reads i [] v val = Unit
Reads i (id ∷ ids) v val = (val id ≡ v i) × Reads (i + 1) ids v val

sim_ands_keeps :
    (n_objs : ℕ) (ready : ℕ → Bool) (ands : List AndNode) (val : ℕ → Bool) (j : ℕ)
    → IsOrdered n_objs ready ands
    → ready j ≡ true
    → sim_ands ands val j ≡ val j
unfolding sim_ands
sim_ands_keeps n_objs ready [] val j ord r = refl
sim_ands_keeps n_objs ready (a ∷ rest) val j (r0, r1, new, lt, ord) r =
    let other : (a.id == j) ≡ false = elim (Bool-cases (a.id == j)) [
      | inl q ↦ let p : a.id ≡ j = (==_iff a.id j).0 q in ground (arith, ap ready p)
      | inr q ↦ q
    ] in
    sim_ands_keeps n_objs (mark a.id ready) rest _ j ord (ground arith) ∙ ground arith

pub sim_ands-Obeys :
    (n_objs : ℕ) (ready : ℕ → Bool) (ands : List AndNode) (val : ℕ → Bool)
    → IsOrdered n_objs ready ands
    → All (Obeys (sim_ands ands val)) ands
unfolding sim_ands
sim_ands-Obeys n_objs ready [] val ord = tt
sim_ands-Obeys n_objs ready (a ∷ rest) val (r0, r1, new, lt, ord) = (
  ground (
    arith,
    keeps a.id (ground (arith, ==_self a.id)),
    keeps a.fanin0 (ground arith),
    keeps a.fanin1 (ground arith),
    ==_self a.id,
    other a.fanin0 r0,
    other a.fanin1 r1,
  ),
  sim_ands-Obeys n_objs (mark a.id ready) rest val' ord,
)
  where
    val' : ℕ → Bool
    val' = set_value a.id ((a.compl0 ⊕ val a.fanin0) && (a.compl1 ⊕ val a.fanin1)) val

    keeps : (j : ℕ) → mark a.id ready j ≡ true → sim_ands rest val' j ≡ val' j
    keeps j r = sim_ands_keeps n_objs (mark a.id ready) rest val' j ord r

    other : (j : ℕ) → ready j ≡ true → (a.id == j) ≡ false
    other j r = elim (Bool-cases (a.id == j)) [
      | inl q ↦ let p : a.id ≡ j = (==_iff a.id j).0 q in ground (arith, ap ready p)
      | inr q ↦ q
    ]

pub mark_inputs_keeps :
    (ids : List ℕ) (ready : ℕ → Bool) (j : ℕ) → ready j ≡ true → mark_inputs ids ready j ≡ true
mark_inputs_keeps [] ready j r = r
mark_inputs_keeps (id ∷ ids) ready j r = mark_inputs_keeps ids (mark id ready) j (ground arith)

pub sim_inputs_keeps :
    (n_objs i : ℕ) (ready : ℕ → Bool) (ids : List ℕ) (v val : ℕ → Bool) (j : ℕ)
    → IsInputs n_objs ready ids
    → ready j ≡ true
    → sim_inputs i ids v val j ≡ val j
unfolding sim_inputs
sim_inputs_keeps n_objs i ready [] v val j ins r = refl
sim_inputs_keeps n_objs i ready (id ∷ ids) v val j (new, lt, ins) r =
    let other : (id == j) ≡ false = elim (Bool-cases (id == j)) [
      | inl q ↦ let p : id ≡ j = (==_iff id j).0 q in ground (arith, ap ready p)
      | inr q ↦ q
    ] in
    sim_inputs_keeps n_objs (i + 1) (mark id ready) ids v _ j ins (ground arith) ∙ ground arith

-- What later keeps the values of the inputs reads them.
pub sim_inputs-Reads :
    (n_objs i : ℕ) (ready : ℕ → Bool) (ids : List ℕ) (v val later : ℕ → Bool)
    → IsInputs n_objs ready ids
    → ((j : ℕ) → mark_inputs ids ready j ≡ true → later j ≡ sim_inputs i ids v val j)
    → Reads i ids v later
unfolding sim_inputs
sim_inputs-Reads n_objs i ready [] v val later ins h = tt
sim_inputs-Reads n_objs i ready (id ∷ ids) v val later (new, lt, ins) h =
    let here : mark id ready id ≡ true = ground (arith, ==_self id) in
    (
      h id (mark_inputs_keeps ids (mark id ready) id here)
          ∙ sim_inputs_keeps n_objs (i + 1) (mark id ready) ids v _ id ins here
          ∙ ground (arith, ==_self id),
      sim_inputs-Reads n_objs (i + 1) (mark id ready) ids v _ later ins h,
    )

module _ (aig : Gia) (v : ℕ → Bool) (inputs : IsInputs aig.n_objs (λ j. 0 == j) aig.ci_ids)
    (order : IsOrdered aig.n_objs (mark_inputs aig.ci_ids (λ j. 0 == j)) aig.ands) where
  pub simulate-zero : simulate aig v 0 ≡ false
  unfolding simulate
  simulate-zero =
      sim_ands_keeps aig.n_objs _ aig.ands _ 0 order (mark_inputs_keeps aig.ci_ids _ 0 refl)
      ∙ sim_inputs_keeps aig.n_objs 0 (λ j. 0 == j) aig.ci_ids v _ 0 inputs refl

  pub simulate-Reads : Reads 0 aig.ci_ids v (simulate aig v)
  unfolding simulate
  simulate-Reads =
      sim_inputs-Reads aig.n_objs 0 (λ j. 0 == j) aig.ci_ids v _ _ inputs
        (λ j r. sim_ands_keeps aig.n_objs _ aig.ands _ j order r)

  pub simulate-Obeys : All (Obeys (simulate aig v)) aig.ands
  unfolding simulate
  simulate-Obeys = sim_ands-Obeys aig.n_objs _ aig.ands _ order

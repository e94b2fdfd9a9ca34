-- ===== src/Aig/Correct.antt =====
-- `run` and `aig_extract`: the ESOPs of the outputs against what the AIG computes.
use losys.Base.{
  ltb, ltb→lt, ◌≢◌, refl, ◌∙◌, ap, ==_self, Bool-cases, inl, inr, true, false, ◌+◌, ◌≤◌, ◌<◌,
  Returns, Returns-all, Returns-bind, All, replicate, length-replicate, get_or-replicate, get_or,
  length, sym, ◌⊕◌, ◌==◌, arith, ℕ, ◌≡◌, Bool, List, [], ◌∷◌, lt-two-pow,
}
use losys.Kernel.Cube32.{Cube32, cube32, shl32}
use losys.Kernel.Cube32.Meaning.{eval, IsCube, bit-shl32-one}
use losys.Kernel.Cube32.Single.{eval_single}
use losys.Kernel.CubeSet.{HashOrder}
use losys.Kernel.CubeSet.Esop.{eval_esop}
use losys.Kernel.CubeSet.Laws.{IsCubes}
use losys.Kernel.TwoLvl32.{Kind, TwoLvl32}
use losys.Aig.{
  Extraction, exits, extracted, aig_extract, AigExtrMngr, run, and_esops, Output, Gia, input_esops,
  output_esops,
}
use losys.Aig.Product.{prepare_input-IsCubes}
use losys.Aig.Nodes.{NodesHold, mark_ands, and_esops-NodesHold, IsOrdered, mark, Holds, Holds-set}
use losys.Aig.Simulate.{
  simulate-Obeys, simulate-Reads, simulate-zero, simulate, Reads, IsInputs, mark_inputs,
}

-- The cube of the `i`-th input is its positive literal.
positive-IsCube : (n i : ℕ) → i < n → n ≤ 32 → IsCube n (cube32 (shl32 1 i) (shl32 1 i))
positive-IsCube n i lt le = record {
  fits = lt-two-pow n (shl32 1 i) λ j h. bit-shl32-one i j (omega arith) ∙ ground arith;
  canonical = λ j h. h;
}

eval-positive : (i : ℕ) (v : ℕ → Bool) → i < 32 → eval (cube32 (shl32 1 i) (shl32 1 i)) v ≡ v i
eval-positive i v lt = ground (
  arith,
  eval_single (cube32 (shl32 1 i) (shl32 1 i)) i v lt (λ j. bit-shl32-one i j lt),
  bit-shl32-one i i lt,
  ==_self i,
)

input_esops-Holds :
    (n n_objs i : ℕ) (ready val v : ℕ → Bool) (ids : List ℕ) (m_esops : List (List Cube32))
    → n ≤ 32
    → i + length ids ≤ n
    → Holds n n_objs ready val v m_esops
    → IsInputs n_objs ready ids
    → Reads i ids v val
    → Holds n n_objs (mark_inputs ids ready) val v (input_esops i ids m_esops)
unfolding input_esops eval_esop
input_esops-Holds n n_objs i ready val v [] m_esops le fit h ins rd = h
input_esops-Holds n n_objs i ready val v (id ∷ ids) m_esops le fit h (new, lt, ins) rd =
    input_esops-Holds n n_objs (i + 1) (mark id ready) val v ids _ le (omega arith)
      (Holds-set id (cube32 (shl32 1 i) (shl32 1 i) ∷ []) h new lt
        (positive-IsCube n i (omega arith) le, tt)
        (ground (arith, eval-positive i v (omega arith), rd.0)))
      ins rd.1

-- ABC's promises on an AIG: the inputs are distinct objects, the AND nodes come in topological
-- order, and the outputs read objects that are there.
pub record IsAig (aig : Gia) : Type 0 where
  pub inputs : IsInputs aig.n_objs (λ j. 0 == j) aig.ci_ids
  pub order : IsOrdered aig.n_objs (mark_inputs aig.ci_ids (λ j. 0 == j)) aig.ands
  pub outputs :
      All
        (λ (c : Output). mark_ands aig.ands (mark_inputs aig.ci_ids (λ j. 0 == j)) c.fanin ≡ true)
        aig.cos

-- Each list of cubes computes the output in its place, as the values `val` of the nodes give it.
abbrev pub Computes : ℕ → (ℕ → Bool) → (ℕ → Bool) → List Output → List (List Cube32) → Type 0
Computes n val v [] [] = Unit
Computes n val v [] (e ∷ es) = ⊥
Computes n val v (c ∷ cs) [] = ⊥
Computes n val v (c ∷ cs) (e ∷ es) =
    IsCubes n e × (eval_esop e v ≡ (c.compl ⊕ val c.fanin)) × Computes n val v cs es

output_esops-Computes :
    (n n_objs : ℕ) (ready val v : ℕ → Bool) (cos : List Output) (m_esops : List (List Cube32))
    → n ≤ 32
    → Holds n n_objs ready val v m_esops
    → All (λ (c : Output). ready c.fanin ≡ true) cos
    → Computes n val v cos (output_esops cos m_esops)
unfolding output_esops
output_esops-Computes n n_objs ready val v [] m_esops le h rs = tt
output_esops-Computes n n_objs ready val v (c ∷ cs) m_esops le h rs =
    let (ks, e) = prepare_input-IsCubes n le c.fanin c.compl m_esops (h.cubes c.fanin) in
    (
      ks,
      ground (arith, e v, h.value c.fanin rs.0),
      output_esops-Computes n n_objs ready val v cs m_esops le h rs.1,
    )

-- The result of `run`: an ESOP for each output, over the AIG's inputs.
pub record Collapses (aig : Gia) (f : TwoLvl32) : Type 0 where
  pub is_esop : f.kind ≡ Kind.esop
  pub same_inputs : f.n_inputs ≡ length aig.ci_ids
  pub computes : (v : ℕ → Bool) → Computes (length aig.ci_ids) (simulate aig v) v aig.cos f.cubes

blank : (n_objs id : ℕ) → get_or (replicate {A = List Cube32} n_objs []) id [] ≡ []
blank n_objs id = get_or-replicate n_objs id []

pub start-NodesHold :
    (aig : Gia) (v : ℕ → Bool)
    → length aig.ci_ids ≤ 31
    → IsAig aig
    → NodesHold
        (length aig.ci_ids)
        aig.n_objs
        (mark_inputs aig.ci_ids (λ j. 0 == j))
        (simulate aig v)
        v
        (record {
          m_esops = input_esops 0 aig.ci_ids (replicate aig.n_objs []);
          m_esop0 = [];
          m_esop1 = [];
          m_curr_esop = [];
        })
unfolding eval_esop
start-NodesHold aig v le a = record {
  nodes =
      input_esops-Holds (length aig.ci_ids) aig.n_objs 0 (λ j. 0 == j) (simulate aig v) v aig.ci_ids
        _ (omega arith) (omega arith)
        (record {
          size = length-replicate aig.n_objs [];
          cubes = λ id. rw (blank aig.n_objs id) tt;
          value = λ id r.
              let z : 0 ≡ id = ground arith in
              rw (blank aig.n_objs id)
                (sym (simulate-zero aig v a.inputs a.order) ∙ ap (simulate aig v) z);
          fresh = λ id r. blank aig.n_objs id;
        })
        a.inputs (simulate-Reads aig v a.inputs a.order);
  scratch = refl;
}

-- Collapsing an AIG of at most 31 inputs returns, for every `HashOrder`, and the
-- ESOP of each output computes that output under every assignment.
pub run-Collapses :
    (o : HashOrder) (aig : Gia)
    → length aig.ci_ids ≤ 31
    → IsAig aig
    → Returns (run o aig) (Collapses aig)
unfolding run
run-Collapses o aig le a =
    Returns-bind (and_esops o (length aig.ci_ids) aig.ands _) _
      (λ (m : AigExtrMngr).
        (v : ℕ → Bool)
        → NodesHold (length aig.ci_ids) aig.n_objs
            (mark_ands aig.ands (mark_inputs aig.ci_ids (λ j. 0 == j))) (simulate aig v) v m)
      _
      (Returns-all _ _ (λ _. false)
        (λ v.
          and_esops-NodesHold o (length aig.ci_ids) aig.n_objs _ (simulate aig v) v aig.ands _ le
            (start-NodesHold aig v le a) a.order (simulate-Obeys aig v a.inputs a.order)))
      λ m h. record {
        is_esop = refl;
        same_inputs = refl;
        computes = λ v.
            output_esops-Computes (length aig.ci_ids) aig.n_objs _ (simulate aig v) v aig.cos
              m.m_esops (omega arith) (h v).nodes a.outputs;
      }

-- What `aig_extract` gives: the program's exit on more than 32 inputs, and otherwise the collapsed
-- function.
abbrev pub Extracts : Gia → Extraction → Type 0
Extracts aig exits = 32 < length aig.ci_ids
Extracts aig (extracted f) = (length aig.ci_ids ≤ 32) × Collapses aig f

-- On an AIG that does not have 32 inputs exactly, `aig_extract` returns: it exits if there are more
-- than 32 inputs, and otherwise gives the ESOP of each output.
pub aig_extract-Extracts :
    (o : HashOrder) (aig : Gia)
    → length aig.ci_ids ≢ 32
    → IsAig aig
    → Returns (aig_extract o aig) (Extracts aig)
unfolding aig_extract
aig_extract-Extracts o aig ne a = elim (Bool-cases (ltb 32 (length aig.ci_ids))) [
  | inl e ↦ rw e (ltb→lt _ _ e)
  | inr e ↦ rw e (
      Returns-bind (run o aig) _ (Collapses aig) _ (run-Collapses o aig (ground arith) a)
        λ f c. (ground arith, c))
]

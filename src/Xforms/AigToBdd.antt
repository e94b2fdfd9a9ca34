-- ===== src/Xforms/AigToBdd.antt =====
-- source/xforms/aig_to_bdd.cpp: a BDD for each output of an AIG. CUDD's operations are the parameter
-- `BddOps`; a BDD is the number of its node, and `none` is a `BDD` object that no manager has made,
-- which has no operations: the program crashes on them. `test` is called nowhere.
pub mod Gates
pub mod Correct
pub mod Method
mod Examples
use losys.Base.{
  ℕ, zero, suc, ◌+◌, Bool, true, false, Option, none, some, ◌>>=◌, List, [], ◌∷◌, get_or, set,
  replicate,
}
use losys.Aig.{AndNode, Output, Gia}

-- `bddVar`, `!` and `&`.
pub record BddOps : Type 0 where
  pub bdd_var : ℕ → ℕ
  pub negation : ℕ → ℕ
  pub conjunction : ℕ → ℕ → ℕ

module _ (ops : BddOps) where
  -- The loop over the inputs, from the `i`-th on.
  unfoldable pub input_bdds : ℕ → List ℕ → List (Option ℕ) → List (Option ℕ)
  input_bdds i [] nodes = nodes
  input_bdds i (id ∷ ids) nodes = input_bdds (i + 1) ids (set nodes id (some (ops.bdd_var i)))

  -- `c ? !b : b` where the result is used: `none` is a crash.
  unfoldable pub fanin_bdd : Bool → Option ℕ → Option ℕ
  fanin_bdd c none = none
  fanin_bdd true (some b) = some (ops.negation b)
  fanin_bdd false (some b) = some b

  unfoldable pub and_bdd : AndNode → List (Option ℕ) → Option (List (Option ℕ))
  unfolding fanin_bdd
  and_bdd obj nodes = do
    b1 ← fanin_bdd obj.compl0 (get_or nodes obj.fanin0 none)
    b2 ← fanin_bdd obj.compl1 (get_or nodes obj.fanin1 none)
    some (set nodes obj.id (some (ops.conjunction b1 b2)))

  -- The loop over the AND nodes.
  unfoldable pub and_bdds : List AndNode → List (Option ℕ) → Option (List (Option ℕ))
  unfolding and_bdd
  and_bdds [] nodes = some nodes
  and_bdds (obj ∷ objs) nodes = do nodes' ← and_bdd obj nodes; and_bdds objs nodes'

  -- `outputs.push_back(c ? !b : b)`, which copies an object without a manager as it is.
  unfoldable pub output_bdd : Bool → Option ℕ → Option (Option ℕ)
  output_bdd false b = some b
  output_bdd true none = none
  output_bdd true (some b) = some (some (ops.negation b))

  -- The loop over the outputs.
  unfoldable pub output_bdds : List Output → List (Option ℕ) → Option (List (Option ℕ))
  unfolding output_bdd
  output_bdds [] nodes = some []
  output_bdds (obj ∷ objs) nodes = do
    b ← output_bdd obj.compl (get_or nodes obj.fanin none)
    outputs ← output_bdds objs nodes
    some (b ∷ outputs)

  unfoldable pub aig_to_bdd : Gia → Option (List (Option ℕ))
  unfolding input_bdds and_bdds output_bdds
  aig_to_bdd aig = do
    nodes ← and_bdds aig.ands (input_bdds 0 aig.ci_ids (replicate aig.n_objs none))
    output_bdds aig.cos nodes

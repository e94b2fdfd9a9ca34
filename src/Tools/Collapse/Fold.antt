-- ===== src/Tools/Collapse/Fold.antt =====
-- A function that cofactors an AIG: the reads of the input become reads of the constant.
pub mod Inputs
pub mod Keeps
use losys.Tools.Collapse.Cofactors.{IsCofactorOps}
use losys.Aig.Correct.{IsAig}
use losys.Base.{
  All, ◌∙◌, ◌+◌, zero, suc, get_or, length, ◌<◌, ==_self, ℕ, ◌≡◌, refl, ap, Bool, true, false, ◌⊕◌,
  ◌==◌, ==_iff, if◌then◌else◌, Bool-cases, inl, inr, List, [], ◌∷◌, map, arith,
}
use losys.Aig.{AndNode, Output, Gia}
use losys.Aig.Nodes.{mark, mark_ands, IsOrdered}
use losys.Aig.Simulate.{
  sim_inputs, sim_inputs-Reads, sim_inputs_keeps, mark_inputs_keeps, IsInputs, mark_inputs, Reads,
  simulate, set_value, sim_ands,
}
use losys.Aig.Unread.{input_id, IsUnreadBy, IsUnread}
use losys.Tools.Collapse.{CofactorOps}

abbrev pub fold_fanin : ℕ → ℕ → ℕ
fold_fanin cid f = if cid == f then 0 else f

abbrev fold_compl : ℕ → Bool → ℕ → Bool → Bool
fold_compl cid b f c = if cid == f then c ⊕ b else c

abbrev pub fold_and : ℕ → Bool → AndNode → AndNode
fold_and cid b a = record {
  id = a.id;
  fanin0 = fold_fanin cid a.fanin0;
  compl0 = fold_compl cid b a.fanin0 a.compl0;
  fanin1 = fold_fanin cid a.fanin1;
  compl1 = fold_compl cid b a.fanin1 a.compl1;
}

abbrev pub fold_output : ℕ → Bool → Output → Output
fold_output cid b c = record {
  fanin = fold_fanin cid c.fanin;
  compl = fold_compl cid b c.fanin c.compl;
}

abbrev pub fold : Gia → ℕ → ℕ → Gia
fold aig j b = record {
  n_objs = aig.n_objs;
  ci_ids = aig.ci_ids;
  ands = map (fold_and (input_id aig j) (b == 1)) aig.ands;
  cos = map (fold_output (input_id aig j) (b == 1)) aig.cos;
}

abbrev pub fold_ops : CofactorOps
fold_ops = record { dup = λ aig. aig; dup_cofactor_var = fold }

-- The values `val'` of the folded AIG against the values `val` of the AIG.
pub record Agrees (cid : ℕ) (b : Bool) (val val' : ℕ → Bool) : Type 0 where
  pub same : (id : ℕ) → (cid == id) ≡ false → val' id ≡ val id
  pub fixed : val cid ≡ b
  pub zero_is : val' 0 ≡ false

module _ (cid : ℕ) (b : Bool) where
  pub fold-value :
      (val val' : ℕ → Bool) (f : ℕ) (c : Bool)
      → Agrees cid b val val'
      → (fold_compl cid b f c ⊕ val' (fold_fanin cid f)) ≡ (c ⊕ val f)
  fold-value val val' f c h = elim (Bool-cases (cid == f)) [
    | inl e ↦
        let s : cid ≡ f = (==_iff cid f).0 e in rw e (ground (arith, h.zero_is, h.fixed, ap val s))
    | inr e ↦ rw e (ap (λ x. c ⊕ x) (h.same f e))
  ]

  pub fold-sim_ands :
      (n_objs : ℕ) (ready : ℕ → Bool) (ands : List AndNode) (val val' : ℕ → Bool)
      → IsOrdered n_objs ready ands
      → ready cid ≡ true
      → ready 0 ≡ true
      → Agrees cid b val val'
      → Agrees cid b (sim_ands ands val) (sim_ands (map (fold_and cid b) ands) val')
  unfolding sim_ands
  fold-sim_ands n_objs ready [] val val' ord rc rz h = h
  fold-sim_ands n_objs ready (a ∷ rest) val val' (r0, r1, new, lt, ord) rc rz h =
      let not_cid = differs cid rc in
      let not_zero = differs 0 rz in
      let v0 = fold-value val val' a.fanin0 a.compl0 h in
      let v1 = fold-value val val' a.fanin1 a.compl1 h in
      fold-sim_ands n_objs (mark a.id ready) rest _ _ ord (ground arith) (ground arith) (record {
        same = λ id ne. elim (Bool-cases (a.id == id)) [
          | inl e ↦ rw e (ground (arith, v0, v1))
          | inr e ↦ rw e (h.same id ne)
        ];
        fixed = rw not_cid h.fixed;
        zero_is = rw not_zero h.zero_is;
      })
    where
      differs : (j : ℕ) → ready j ≡ true → (a.id == j) ≡ false
      differs j r = elim (Bool-cases (a.id == j)) [
        | inl q ↦ let p : a.id ≡ j = (==_iff a.id j).0 q in absurd (ground (arith, ap ready p, new))
        | inr q ↦ q
      ]

  pub fold-IsOrdered :
      (n_objs : ℕ) (ready : ℕ → Bool) (ands : List AndNode)
      → IsOrdered n_objs ready ands
      → ready 0 ≡ true
      → IsOrdered n_objs ready (map (fold_and cid b) ands)
  fold-IsOrdered n_objs ready [] ord rz = tt
  fold-IsOrdered n_objs ready (a ∷ rest) (r0, r1, new, lt, ord) rz = (
    at a.fanin0 r0,
    at a.fanin1 r1,
    new,
    lt,
    fold-IsOrdered n_objs (mark a.id ready) rest ord (ground arith),
  )
    where
      at : (f : ℕ) → ready f ≡ true → ready (fold_fanin cid f) ≡ true
      at f r = elim (Bool-cases (cid == f)) [ inl e ↦ rw e rz | inr e ↦ rw e r ]

  pub mark_ands-fold :
      (ands : List AndNode) (ready : ℕ → Bool)
      → mark_ands (map (fold_and cid b) ands) ready ≡ mark_ands ands ready
  mark_ands-fold [] ready = refl
  mark_ands-fold (a ∷ rest) ready = mark_ands-fold rest (mark a.id ready)

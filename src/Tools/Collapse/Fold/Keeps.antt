-- ===== src/Tools/Collapse/Fold/Keeps.antt =====
-- `fold_ops` against `IsCofactorOps`.
use losys.Tools.Collapse.Cofactors.{IsCofactorOps}
use losys.Aig.Correct.{IsAig}
use losys.Base.{
  All, ◌∙◌, get_or, length, ◌<◌, ==_self, ℕ, ◌≡◌, refl, ap, Bool, true, false, ◌⊕◌, ◌==◌, ==_iff,
  Bool-cases, inl, inr, List, [], ◌∷◌, map, arith,
}
use losys.Aig.{AndNode, Output, Gia}
use losys.Aig.Nodes.{mark_ands}
use losys.Aig.Simulate.{sim_inputs, sim_inputs-Reads, sim_inputs_keeps, simulate, set_value}
use losys.Aig.Unread.{input_id, IsUnreadBy, IsUnread}
use losys.Tools.Collapse.Fold.{
  fold_fanin, fold_and, fold_output, fold, fold_ops, Agrees, fold-value, fold-sim_ands,
  fold-IsOrdered, mark_ands-fold,
}
use losys.Tools.Collapse.Fold.Inputs.{
  mark_ands_keeps, sim_inputs-same, Reads-at, inputs-nonzero, inputs-ready, ready_inputs,
  ready_zero,
}

module _ (aig : Gia) (j b : ℕ) (a : IsAig aig) (lt : j < length aig.ci_ids) where
  fold-Agrees :
      (v : ℕ → Bool)
      → Agrees
          (input_id aig j)
          (b == 1)
          (simulate aig (set_value j (b == 1) v))
          (simulate (fold aig j b) v)
  unfolding simulate
  fold-Agrees v =
      let w = set_value j (b == 1) v in
      let start : ℕ → Bool = sim_inputs 0 aig.ci_ids w (λ _. false) in
      let reads =
        sim_inputs-Reads aig.n_objs 0 (λ k. 0 == k) aig.ci_ids w (λ _. false) start a.inputs
          (λ k r. refl) in
      fold-sim_ands (input_id aig j) (b == 1) aig.n_objs (ready_inputs aig) aig.ands start
        (sim_inputs 0 aig.ci_ids v (λ _. false)) a.order
        (inputs-ready j (λ k. 0 == k) aig.ci_ids lt) (ready_zero aig)
        (record {
          same =
              sim_inputs-same (input_id aig j) j 0 aig.ci_ids v w (λ _. false) (λ _. false)
                (λ k e _. let q : k ≡ j = omega arith in ap (λ i. get_or aig.ci_ids i 0) q)
                (λ m ne. rw ne refl) (λ id ne. refl);
          fixed = Reads-at 0 j aig.ci_ids w start reads lt ∙ ground (arith, ==_self j);
          zero_is =
              sim_inputs_keeps aig.n_objs 0 (λ k. 0 == k) aig.ci_ids v (λ _. false) 0 a.inputs refl;
        })

  fold-outputs :
      (v : ℕ → Bool) (cos : List Output)
      → map
          (λ (c : Output). c.compl ⊕ simulate (fold aig j b) v c.fanin)
          (map (fold_output (input_id aig j) (b == 1)) cos)
        ≡ map (λ (c : Output). c.compl ⊕ simulate aig (set_value j (b == 1) v) c.fanin) cos
  fold-outputs v [] = refl
  fold-outputs v (c ∷ cos) = λ t.
      fold-value (input_id aig j) (b == 1) (simulate aig (set_value j (b == 1) v))
        (simulate (fold aig j b) v) c.fanin c.compl (fold-Agrees v) t
      ∷ fold-outputs v cos t

  fold-IsAig : IsAig (fold aig j b)
  fold-IsAig = record {
    inputs = a.inputs;
    order =
        fold-IsOrdered (input_id aig j) (b == 1) aig.n_objs (ready_inputs aig) aig.ands a.order
          (ready_zero aig);
    outputs =
        rw (mark_ands-fold (input_id aig j) (b == 1) aig.ands (ready_inputs aig))
          (all_ready aig.cos a.outputs);
  }
    where
      all_ready :
          (cos : List Output)
          → All (λ (c : Output). mark_ands aig.ands (ready_inputs aig) c.fanin ≡ true) cos
          → All
              (λ (c : Output). mark_ands aig.ands (ready_inputs aig) c.fanin ≡ true)
              (map (fold_output (input_id aig j) (b == 1)) cos)
      all_ready [] h = tt
      all_ready (c ∷ cos) (r, h) = (
        elim (Bool-cases (input_id aig j == c.fanin)) [
          | inl e ↦ rw e (mark_ands_keeps aig.ands (ready_inputs aig) 0 (ready_zero aig))
          | inr e ↦ rw e r
        ],
        all_ready cos h,
      )

-- An object other than the constant that is not read, or is the one that is fixed, is not read then.
unread_fanin :
    (cid k f : ℕ)
    → (k == 0) ≡ false
    → ((cid == f) ≡ false → (k == f) ≡ false)
    → (k == fold_fanin cid f) ≡ false
unread_fanin cid k f nz h = elim (Bool-cases (cid == f)) [ inl e ↦ rw e nz | inr e ↦ rw e (h e) ]

unread_other :
    (cid k f : ℕ) → (cid == f) ≡ false → ((cid == k) ≡ false → (k == f) ≡ false) → (k == f) ≡ false
unread_other cid k f e h = elim (Bool-cases (cid == k)) [
  | inl q ↦ let p : cid ≡ k = (==_iff cid k).0 q in rw (← p) e
  | inr q ↦ h q
]

unread_gates :
    (cid k : ℕ) (b : Bool) (ands : List AndNode)
    → (k == 0) ≡ false
    → ((cid == k) ≡ false → All (IsUnreadBy k) ands)
    → All (IsUnreadBy k) (map (fold_and cid b) ands)
unread_gates cid k b [] nz h = tt
unread_gates cid k b (a ∷ ands) nz h = (
  (
    unread_fanin cid k a.fanin0 nz (λ e. unread_other cid k a.fanin0 e (λ o. (h o).0.0)),
    unread_fanin cid k a.fanin1 nz (λ e. unread_other cid k a.fanin1 e (λ o. (h o).0.1)),
  ),
  unread_gates cid k b ands nz (λ o. (h o).1),
)

unread_outputs :
    (cid k : ℕ) (b : Bool) (cos : List Output)
    → (k == 0) ≡ false
    → ((cid == k) ≡ false → All (λ (c : Output). (k == c.fanin) ≡ false) cos)
    → All (λ (c : Output). (k == c.fanin) ≡ false) (map (fold_output cid b) cos)
unread_outputs cid k b [] nz h = tt
unread_outputs cid k b (c ∷ cos) nz h = (
  unread_fanin cid k c.fanin nz (λ e. unread_other cid k c.fanin e (λ o. (h o).0)),
  unread_outputs cid k b cos nz (λ o. (h o).1),
)

fold-IsUnread :
    (aig : Gia) (j b k : ℕ)
    → IsAig aig
    → k < length aig.ci_ids
    → ((input_id aig j == input_id aig k) ≡ false → IsUnread aig k)
    → IsUnread (fold aig j b) k
fold-IsUnread aig j b k a lt u =
    let nz = inputs-nonzero aig.n_objs k (λ i. 0 == i) aig.ci_ids a.inputs refl lt in
    record {
      gates =
          unread_gates (input_id aig j) (input_id aig k) (b == 1) aig.ands nz (λ ne. (u ne).gates);
      outputs =
          unread_outputs (input_id aig j) (input_id aig k) (b == 1) aig.cos nz
            (λ ne. (u ne).outputs);
    }

pub fold_ops-IsCofactorOps : IsCofactorOps fold_ops
fold_ops-IsCofactorOps = record {
  dup_same = λ aig a. record { is_aig = a; inputs = refl; outputs = λ v. refl };
  fixes = λ aig j b a lt le. record {
    is_aig = fold-IsAig aig j b a lt;
    inputs = refl;
    outputs = λ v. fold-outputs aig j b a lt v aig.cos;
  };
  fixed_unread = λ aig j b a lt le.
      fold-IsUnread aig j b j a lt λ ne. absurd (ground (arith, ne, ==_self (input_id aig j)));
  stays_unread = λ aig j b k a lt le lk u. fold-IsUnread aig j b k a lk (λ _. u);
}

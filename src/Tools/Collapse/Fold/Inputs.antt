-- ===== src/Tools/Collapse/Fold/Inputs.antt =====
-- The inputs of an AIG: the objects they are, and the values that they have.
use losys.Base.{
  ◌∙◌, ◌+◌, zero, suc, get_or, length, ◌<◌, ==_self, ℕ, ◌≡◌, refl, ap, Bool, true, false, ◌==◌,
  ==_iff, Bool-cases, inl, inr, List, [], ◌∷◌, arith,
}
use losys.Aig.{AndNode, Gia}
use losys.Aig.Nodes.{mark, mark_ands}
use losys.Aig.Simulate.{sim_inputs, mark_inputs_keeps, IsInputs, mark_inputs, Reads, set_value}

pub mark_ands_keeps :
    (ands : List AndNode) (ready : ℕ → Bool) (j : ℕ)
    → ready j ≡ true
    → mark_ands ands ready j ≡ true
mark_ands_keeps [] ready j r = r
mark_ands_keeps (a ∷ rest) ready j r = mark_ands_keeps rest (mark a.id ready) j (ground arith)

pub sim_inputs-same :
    (cid j i : ℕ) (ids : List ℕ) (v w val val' : ℕ → Bool)
    → ((k : ℕ) → i + k ≡ j → k < length ids → get_or ids k 0 ≡ cid)
    → ((m : ℕ) → (j == m) ≡ false → v m ≡ w m)
    → ((id : ℕ) → (cid == id) ≡ false → val' id ≡ val id)
    → (id : ℕ) → (cid == id) ≡ false
    → sim_inputs i ids v val' id ≡ sim_inputs i ids w val id
unfolding sim_inputs
sim_inputs-same cid j i [] v w val val' at_j off h id ne = h id ne
sim_inputs-same cid j i (x ∷ ids) v w val val' at_j off h id ne =
    sim_inputs-same cid j (i + 1) ids v w (set_value x (w i) val) (set_value x (v i) val')
      (λ k e lt. at_j (suc k) (omega arith) (omega arith)) off
      (λ y ne_y. elim (Bool-cases (x == y)) [
        | inl e ↦ rw e (off i (other y ne_y e))
        | inr e ↦ rw e (h y ne_y)
      ])
      id ne
  where
    other : (y : ℕ) → (cid == y) ≡ false → (x == y) ≡ true → (j == i) ≡ false
    other y ne_y e = elim (Bool-cases (j == i)) [
      | inl q ↦
          let first : x ≡ cid = at_j 0 (ground arith) (omega arith) in
          absurd (ground (arith, ne_y, e, ap (λ t. t == y) first))
      | inr q ↦ q
    ]

pub Reads-at :
    (i k : ℕ) (ids : List ℕ) (w val : ℕ → Bool)
    → Reads i ids w val
    → k < length ids
    → val (get_or ids k 0) ≡ w (i + k)
Reads-at i k [] w val r lt = absurd (omega arith)
Reads-at i zero (x ∷ ids) w val r lt = let e : i ≡ i + 0 = omega arith in r.0 ∙ ap w e
Reads-at i (suc k) (x ∷ ids) w val r lt =
    let e : i + 1 + k ≡ i + suc k = omega arith in
    Reads-at (i + 1) k ids w val r.1 (omega arith) ∙ ap w e

pub inputs-nonzero :
    (n_objs k : ℕ) (ready : ℕ → Bool) (ids : List ℕ)
    → IsInputs n_objs ready ids
    → ready 0 ≡ true
    → k < length ids
    → (get_or ids k 0 == 0) ≡ false
inputs-nonzero n_objs k ready [] ins rz lt = absurd (omega arith)
inputs-nonzero n_objs zero ready (x ∷ ids) (new, _, ins) rz lt = elim (Bool-cases (x == 0)) [
  | inl q ↦ let p : x ≡ 0 = (==_iff x 0).0 q in absurd (ground (arith, ap ready p, new, rz))
  | inr q ↦ q
]
inputs-nonzero n_objs (suc k) ready (x ∷ ids) (new, _, ins) rz lt =
    inputs-nonzero n_objs k (mark x ready) ids ins (ground arith) (omega arith)

pub inputs-ready :
    (k : ℕ) (ready : ℕ → Bool) (ids : List ℕ)
    → k < length ids
    → mark_inputs ids ready (get_or ids k 0) ≡ true
inputs-ready k ready [] lt = absurd (omega arith)
inputs-ready zero ready (x ∷ ids) lt =
    mark_inputs_keeps ids (mark x ready) x (ground (arith, ==_self x))
inputs-ready (suc k) ready (x ∷ ids) lt = inputs-ready k (mark x ready) ids (omega arith)

abbrev pub ready_inputs : Gia → ℕ → Bool
ready_inputs aig = mark_inputs aig.ci_ids (λ k. 0 == k)

pub ready_zero : (aig : Gia) → ready_inputs aig 0 ≡ true
ready_zero aig = mark_inputs_keeps aig.ci_ids (λ k. 0 == k) 0 refl

-- ===== src/Xforms/AigToBdd/Correct.antt =====
-- The BDD of each output against what the AIG computes.
use losys.Aig.Correct.{IsAig}
use losys.Base.{
  ◌≤◌, length, refl, Returns-map, Returns-all, Option-cases, ◌⊎◌, length-replicate,
  get_or-replicate, replicate, ℕ, ◌≡◌, ap, ◌∙◌, sym, Bool, true, false, ◌⊕◌, ◌==◌, ==_iff,
  Bool-cases, inl, inr, Option, none, some, ◌>>=◌, Returns, Returns-bind, List, [], ◌∷◌, All,
  get_or, arith,
}
use losys.Aig.{Output, Gia}
use losys.Aig.Nodes.{mark_ands}
use losys.Aig.Simulate.{simulate, simulate-Obeys, simulate-Reads, mark_inputs}
use losys.Xforms.AigToBdd.{aig_to_bdd, output_bdd, output_bdds, BddOps, input_bdds, and_bdds}
use losys.Xforms.AigToBdd.Gates.{
  IsBddOps, IsValue, HasBdds, ReadsNoConstant, input_bdds-HasBdds, and_bdds-HasBdds,
  output_bdd-IsValue,
}

-- An output that reads the constant does not complement it.
abbrev pub IsSafeOutput : Output → Type 0
IsSafeOutput c = (0 == c.fanin) ≡ true → c.compl ≡ false

-- Some output reads the complement of the constant.
abbrev pub HasUnsafe : List Output → Type 0
HasUnsafe [] = ⊥
HasUnsafe (c ∷ cs) = (((0 == c.fanin) ≡ true) × (c.compl ≡ true)) ⊎ HasUnsafe cs

abbrev pub IsBuilt : (ℕ → (ℕ → Bool) → Bool) → (ℕ → Bool) → (ℕ → Bool) → Output → Option ℕ → Type 0
IsBuilt value v val c o =
    ((0 == c.fanin) ≡ true → o ≡ none)
    × ((0 == c.fanin) ≡ false → IsValue value v o (c.compl ⊕ val c.fanin))

-- Each output has a BDD that stands for it, but an output that reads the constant has none.
abbrev pub Builds :
    (ℕ → (ℕ → Bool) → Bool) → (ℕ → Bool) → (ℕ → Bool) → List Output → List (Option ℕ) → Type 0
Builds value v val [] [] = Unit
Builds value v val [] (o ∷ os) = ⊥
Builds value v val (c ∷ cs) [] = ⊥
Builds value v val (c ∷ cs) (o ∷ os) = IsBuilt value v val c o × Builds value v val cs os

module _ (ops : BddOps) (n : ℕ) (value : ℕ → (ℕ → Bool) → Bool)
    (promise : IsBddOps ops n value) where
  output_bdd-IsBuilt :
      (n_objs : ℕ) (ready val v : ℕ → Bool) (c : Output) (nodes : List (Option ℕ))
      → HasBdds value n_objs ready val v nodes
      → ready c.fanin ≡ true
      → IsSafeOutput c
      → Returns (output_bdd ops c.compl (get_or nodes c.fanin none)) (IsBuilt value v val c)
  output_bdd-IsBuilt n_objs ready val v c nodes h r safe = elim (Bool-cases (0 == c.fanin)) [
    | inl e ↦
        let constant : get_or nodes c.fanin none ≡ none =
          ap (λ i. get_or nodes i none) (sym ((==_iff 0 c.fanin).0 e)) ∙ h.no_constant in
        unfold output_bdd in rw (safe e, constant) (λ _. refl, λ z. absurd (ground (arith, z, e)))
    | inr e ↦
        Returns-map (output_bdd ops c.compl (get_or nodes c.fanin none))
          (λ o. IsValue value v o (c.compl ⊕ val c.fanin)) (IsBuilt value v val c)
          (output_bdd-IsValue ops n value promise c.compl (get_or nodes c.fanin none) v
            (val c.fanin) (h.bdd c.fanin r e))
          λ o k. (λ z. absurd (ground (arith, z, e)), λ _. k)
  ]

  output_bdds-Builds :
      (n_objs : ℕ) (ready val v : ℕ → Bool) (cos : List Output) (nodes : List (Option ℕ))
      → HasBdds value n_objs ready val v nodes
      → All (λ (c : Output). ready c.fanin ≡ true) cos
      → All IsSafeOutput cos
      → Returns (output_bdds ops cos nodes) (Builds value v val cos)
  unfolding output_bdds
  output_bdds-Builds n_objs ready val v [] nodes h rs safe = tt
  output_bdds-Builds n_objs ready val v (c ∷ cos) nodes h (r, rs) (s, safe) =
      Returns-bind (output_bdd ops c.compl (get_or nodes c.fanin none))
        (λ b. output_bdds ops cos nodes >>= λ outputs. some (b ∷ outputs)) (IsBuilt value v val c)
        (Builds value v val (c ∷ cos)) (output_bdd-IsBuilt n_objs ready val v c nodes h r s)
        λ b k.
          Returns-bind (output_bdds ops cos nodes) (λ outputs. some (b ∷ outputs))
            (Builds value v val cos) (Builds value v val (c ∷ cos))
            (output_bdds-Builds n_objs ready val v cos nodes h rs safe) λ outputs ks. (k, ks)

  start-HasBdds :
      (aig : Gia) (v : ℕ → Bool)
      → length aig.ci_ids ≤ n
      → IsAig aig
      → HasBdds value aig.n_objs
          (mark_inputs aig.ci_ids (λ j. 0 == j))
          (simulate aig v)
          v
          (input_bdds ops 0 aig.ci_ids (replicate aig.n_objs none))
  start-HasBdds aig v le a =
      input_bdds-HasBdds ops n value promise aig.n_objs 0 (λ j. 0 == j) (simulate aig v) v
        aig.ci_ids (replicate aig.n_objs none) (omega arith)
        (record {
          size = length-replicate aig.n_objs none;
          bdd = λ id r nz. absurd (ground (arith, r, nz));
          no_constant = get_or-replicate aig.n_objs 0 none;
          constant_ready = refl;
        })
        a.inputs (simulate-Reads aig v a.inputs a.order)

  nodes-HasBdds :
      (aig : Gia)
      → length aig.ci_ids ≤ n
      → IsAig aig
      → All ReadsNoConstant aig.ands
      → Returns
          (and_bdds ops aig.ands (input_bdds ops 0 aig.ci_ids (replicate aig.n_objs none)))
          (λ nodes.
            (v : ℕ → Bool)
            → HasBdds value aig.n_objs
                (mark_ands aig.ands (mark_inputs aig.ci_ids (λ j. 0 == j)))
                (simulate aig v)
                v
                nodes)
  nodes-HasBdds aig le a zs =
      Returns-all _ _ (λ _. false)
        λ v.
          and_bdds-HasBdds ops n value promise aig.n_objs (mark_inputs aig.ci_ids (λ j. 0 == j))
            (simulate aig v) v aig.ands (input_bdds ops 0 aig.ci_ids (replicate aig.n_objs none))
            (start-HasBdds aig v le a) a.order zs (simulate-Obeys aig v a.inputs a.order)

  -- On an AIG of at most `n` inputs whose gates do not read the constant and whose outputs do not read its complement,
  -- `aig_to_bdd` returns. Each output has a BDD that stands for what the AIG computes, but an output
  -- that reads the constant has an object without a manager.
  pub aig_to_bdd-Builds :
      (aig : Gia)
      → length aig.ci_ids ≤ n
      → IsAig aig
      → All ReadsNoConstant aig.ands
      → All IsSafeOutput aig.cos
      → Returns
          (aig_to_bdd ops aig)
          (λ outputs. (v : ℕ → Bool) → Builds value v (simulate aig v) aig.cos outputs)
  unfolding aig_to_bdd
  aig_to_bdd-Builds aig le a zs safe =
      Returns-bind (and_bdds ops aig.ands (input_bdds ops 0 aig.ci_ids (replicate aig.n_objs none)))
        (output_bdds ops aig.cos) _
        (λ outputs. (v : ℕ → Bool) → Builds value v (simulate aig v) aig.cos outputs)
        (nodes-HasBdds aig le a zs)
        λ nodes h.
          Returns-all _ _ (λ _. false)
            λ v.
              output_bdds-Builds aig.n_objs _ (simulate aig v) v aig.cos nodes (h v) a.outputs safe

  output_bdds-crash :
      (cos : List Output) (nodes : List (Option ℕ))
      → get_or nodes 0 none ≡ none
      → HasUnsafe cos
      → output_bdds ops cos nodes ≡ none
  unfolding output_bdds
  output_bdds-crash [] nodes z h = absurd h
  output_bdds-crash (c ∷ cos) nodes z (inl (e, t)) =
      let constant : get_or nodes c.fanin none ≡ none =
        ap (λ i. get_or nodes i none) (sym ((==_iff 0 c.fanin).0 e)) ∙ z in
      unfold output_bdd in rw (t, constant) refl
  output_bdds-crash (c ∷ cos) nodes z (inr h) =
      elim (Option-cases (output_bdd ops c.compl (get_or nodes c.fanin none))) [
        | inl e ↦ rw e refl
        | inr (b, e) ↦ rw (e, output_bdds-crash cos nodes z h) refl
      ]

  -- On an AIG of at most `n` inputs whose gates do not read the constant, with an output that reads its
  -- complement, `aig_to_bdd` crashes.
  pub aig_to_bdd-crash :
      (aig : Gia)
      → length aig.ci_ids ≤ n
      → IsAig aig
      → All ReadsNoConstant aig.ands
      → HasUnsafe aig.cos
      → aig_to_bdd ops aig ≡ none
  unfolding aig_to_bdd
  aig_to_bdd-crash aig le a zs h =
      let m = and_bdds ops aig.ands (input_bdds ops 0 aig.ci_ids (replicate aig.n_objs none)) in
      elim (Option-cases m) [
        | inl e ↦ rw e refl
        | inr (nodes, e) ↦
            let k = rw e at (nodes-HasBdds aig le a zs) in
            rw e (output_bdds-crash aig.cos nodes (k (λ _. false)).no_constant h)
      ]

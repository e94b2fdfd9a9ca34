-- ===== src/Tools/Collapse/Slices.antt =====
-- The result of each cofactor: what the AIG computes, at the assignments that the cofactor is about.
use mathlib.Core.Path.{subst}
use losys.Base.{
  ℕ, zero, suc, ◌+◌, ◌≤◌, ◌<◌, ◌≡◌, refl, ap, ◌∙◌, Bool, false, ◌⊕◌, ltb, Bool-cases, inl, inr,
  Option, none, some, Returns, Returns-bind, Returns-known, Returns-some, List, [], ◌∷◌, All, map,
  length, arith,
}
use losys.Kernel.CubeSet.{HashOrder}
use losys.Kernel.TwoLvl32.{TwoLvl32}
use losys.Aig.{Gia, Output, Extraction, exits, extracted, run, aig_extract}
use losys.Aig.Simulate.{simulate}
use losys.Aig.Correct.{IsAig, Collapses, run-Collapses}
use losys.Aig.Support.{IsFree}
use losys.Aig.Unread.{IsUnread, run-IsFree}
use losys.Tools.Collapse.{
  add_result, cons_result, exited, results, CofactorOps, cofactors_from, add_cofactor, Results,
  collapse_all,
}
use losys.Tools.Collapse.Cofactors.{
  outputs_at, IsVersion, IsCofactorOps, fix, matches, fix-matches, cofactor_vars-IsVersion,
  cofactor_vars-IsUnread,
}
use losys.Tools.Collapse.Stitch.{Yields, only, Computes-Yields, add_cofactor-Yields}

-- What a collapsing method gives: an ESOP for each output, free of the inputs that are not read.
abbrev pub IsCollapse : Gia → Extraction → Type 0
IsCollapse a exits = ⊥
IsCollapse a (extracted f) = Collapses a f × ((j : ℕ) → IsUnread a j → All (All (IsFree j)) f.cubes)

-- A collapsing method for AIGs of `n` inputs.
pub record IsCollapser (n : ℕ) (collapse : Gia → Option Extraction) : Type 0 where
  pub collapses : (a : Gia) → IsAig a → length a.ci_ids ≡ n → Returns (collapse a) (IsCollapse a)

-- The method `aig` is one for at most 31 inputs.
pub aig_extract-IsCollapser : (o : HashOrder) (n : ℕ) → n ≤ 31 → IsCollapser n (aig_extract o)
unfolding aig_extract
aig_extract-IsCollapser o n le = record {
  collapses = λ a is_aig e.
      let few : ltb 32 (length a.ci_ids) ≡ false = ground (arith, e, le) in
      let small : length a.ci_ids ≤ 31 = omega (arith, e) in
      rw few (
        Returns-bind (run o a) (λ ret. some (extracted ret))
          (λ f. Collapses a f × ((j : ℕ) → IsUnread a j → All (All (IsFree j)) f.cubes))
          (IsCollapse a)
          (Returns-known (run o a) (Collapses a)
            (λ f. Collapses a f × ((j : ℕ) → IsUnread a j → All (All (IsFree j)) f.cubes))
            (run-Collapses o a small is_aig)
            λ f q c. (
              c,
              λ j u.
                  Returns-some (run o a) (λ f. All (All (IsFree j)) f.cubes) f
                    (run-IsFree o a j small is_aig u) q,
            ))
          λ f k. k);
}

fewer_outputs :
    (val val' : ℕ → Bool) (cos : List Output)
    → only false (map (λ (c : Output). c.compl ⊕ val c.fanin) cos)
      ≡ only false (map (λ (c : Output). c.compl ⊕ val' c.fanin) cos)
fewer_outputs val val' [] = refl
fewer_outputs val val' (c ∷ cos) = ap (λ bs. false ∷ bs) (fewer_outputs val val' cos)

-- Where an assignment matches, the outputs of the cofactor are those of the AIG.
only-fix :
    (aig : Gia) (i left : ℕ) (v : ℕ → Bool)
    → only (matches i left 0 v) (outputs_at aig (fix i left 0 v))
      ≡ only (matches i left 0 v) (outputs_at aig v)
only-fix aig i left v = elim (Bool-cases (matches i left 0 v)) [
  | inl m ↦
      let same : fix i left 0 v ≡ v = λ t k. fix-matches i left 0 v m k t in
      ap (λ w. only (matches i left 0 v) (outputs_at aig w)) same
  | inr m ↦ rw m (fewer_outputs (simulate aig (fix i left 0 v)) (simulate aig v) aig.cos)
]

module _ (n n_cofactor : ℕ) (aig : Gia) (le : n ≤ 32) (fit : n_cofactor ≤ n) where
  -- The `i`-th cofactor.
  abbrev pub IsCofactor : ℕ → Gia → Type 0
  IsCofactor i a =
      IsVersion n (λ v. outputs_at aig (fix i n_cofactor 0 v)) a
      × ((k : ℕ) → k < n_cofactor → IsUnread a k)

  abbrev pub AreCofactors : ℕ → List Gia → Type 0
  AreCofactors i [] = Unit
  AreCofactors i (a ∷ cfs) = IsCofactor i a × AreCofactors (i + 1) cfs

  -- The result of the `i`-th cofactor: the outputs where an assignment matches.
  abbrev pub IsSlice : ℕ → TwoLvl32 → Type 0
  IsSlice i f =
      (v : ℕ → Bool) → Yields n v (only (matches i n_cofactor 0 v) (outputs_at aig v)) f.cubes

  abbrev pub AreSlices : ℕ → List TwoLvl32 → Type 0
  AreSlices i [] = Unit
  AreSlices i (f ∷ fs) = IsSlice i f × AreSlices (i + 1) fs

  IsCollapse-IsSlice :
      (i : ℕ) (a : Gia) (f : TwoLvl32)
      → IsCofactor i a
      → IsCollapse a (extracted f)
      → IsSlice i (record f { cubes = add_cofactor n_cofactor i f.cubes })
  IsCollapse-IsSlice i a f (version, unread) (c, free) v =
      let inputs = version.inputs in
      let part : Yields n v (outputs_at aig (fix i n_cofactor 0 v)) f.cubes =
        subst (λ bs. Yields n v bs f.cubes) (version.outputs v)
          (subst (λ m. Yields m v (outputs_at a v) f.cubes) inputs
            (Computes-Yields (length a.ci_ids) (simulate a v) v a.cos f.cubes (c.computes v))) in
      subst (λ bs. Yields n v bs (add_cofactor n_cofactor i f.cubes)) (only-fix aig i n_cofactor v)
        (add_cofactor-Yields n i le n_cofactor v (outputs_at aig (fix i n_cofactor 0 v)) f.cubes fit
          part (λ k lt. free k (unread k lt)))

  module _ (abc : CofactorOps) (promise : IsCofactorOps abc) (is_aig : IsAig aig)
      (inputs : length aig.ci_ids ≡ n) where
    pub cofactors_from-AreCofactors :
        (left i : ℕ) → AreCofactors i (cofactors_from abc n_cofactor left i aig)
    unfolding cofactors_from
    cofactors_from-AreCofactors zero i = tt
    cofactors_from-AreCofactors (suc left) i =
        let w = promise.dup_same aig is_aig in
        let copy : IsVersion n (outputs_at aig) (abc.dup aig) = record {
          is_aig = w.is_aig;
          inputs = w.inputs ∙ inputs;
          outputs = w.outputs;
        } in
        (
          (
            cofactor_vars-IsVersion abc promise n i n_cofactor 0 (outputs_at aig) (abc.dup aig)
                (omega arith) copy,
            λ k lt.
                cofactor_vars-IsUnread abc promise n i n_cofactor 0 k (outputs_at aig) (abc.dup aig)
                  (omega arith) copy (λ h. absurd (omega arith)) (omega arith),
          ),
          cofactors_from-AreCofactors left (i + 1),
        )

  abbrev pub AreResults : ℕ → ℕ → Results → Type 0
  AreResults i size exited = ⊥
  AreResults i size (results fs) = (length fs ≡ size) × AreSlices i fs

  add_result-AreResults :
      (i size : ℕ) (a : Gia) (extraction : Extraction) (rest : Option Results)
      → IsCofactor i a
      → IsCollapse a extraction
      → Returns rest (AreResults (i + 1) size)
      → Returns (add_result n_cofactor i extraction rest) (AreResults i (suc size))
  unfolding add_result cons_result
  add_result-AreResults i size a exits rest h c k = absurd c
  add_result-AreResults i size a (extracted f) none h c k = absurd k
  add_result-AreResults i size a (extracted f) (some exited) h c k = absurd k
  add_result-AreResults i size a (extracted f) (some (results fs)) h c (e, k) =
      (ap suc e, (IsCollapse-IsSlice i a f h c, k))

  module _ (collapse : Gia → Option Extraction) (law : IsCollapser n collapse) where
    pub collapse_all-AreResults :
        (i : ℕ) (cfs : List Gia)
        → AreCofactors i cfs
        → Returns (collapse_all collapse n_cofactor i cfs) (AreResults i (length cfs))
    unfolding collapse_all
    collapse_all-AreResults i [] h = (refl, tt)
    collapse_all-AreResults i (a ∷ cfs) (h, hs) =
        let rest = collapse_all collapse n_cofactor (i + 1) cfs in
        Returns-bind (collapse a) (λ extraction. add_result n_cofactor i extraction rest)
          (IsCollapse a) (AreResults i (suc (length cfs))) (law.collapses a h.0.is_aig h.0.inputs)
          λ extraction c.
            add_result-AreResults i (length cfs) a extraction rest h c
              (collapse_all-AreResults (i + 1) cfs hs)

-- ===== src/Tools/Collapse/Correct.antt =====
-- The results of the cofactors, stitched together, against what the AIG computes.
use mathlib.Core.Path.{subst}
use losys.Base.{
  map, ℕ, zero, suc, ◌+◌, ◌/◌, ◌^◌, ◌≤◌, ◌<◌, ◌≡◌, refl, ap, ◌∙◌, sym, Bool, true, false, ◌⊕◌, ltb,
  if◌then◌else◌, Option, none, some, Returns, Returns-bind, Returns-map, List, [], ◌∷◌, All, length,
  replicate, arith,
}
use losys.Kernel.CubeSet.{HashOrder}
use losys.Kernel.CubeSet.Laws.{IsCubes}
use losys.Kernel.TwoLvl32.{TwoLvl32, set_n_inputs, set_n_outputs}
use losys.Kernel.TwoLvl32.Shape.{set_n_outputs-empty}
use losys.Aig.{Gia, Output, Extraction}
use losys.Aig.Simulate.{simulate}
use losys.Aig.Correct.{IsAig, Computes}
use losys.Exorcism.Run.{exorcise}
use losys.Exorcism.Correct.{Simplifies, Exorcises, exorcise-Exorcises}
use losys.Tools.Collapse.{
  stitch_results, exited, results, collapse_all, CofactorOps, cofactors_from, cofactors, Results,
  append_outputs, stitch, empty_result, collapse_aig,
}
use losys.Tools.Collapse.Cofactors.{
  outputs_at, IsCofactorOps, matches, code, code_below, matches-code,
}
use losys.Tools.Collapse.Stitch.{
  Yields, only, Yields-Computes, Yields-IsCubes, Yields-Simplifies, Yields-empty,
  append_outputs-Yields,
}
use losys.Tools.Collapse.Slices.{
  IsCollapser, IsSlice, AreSlices, AreResults, cofactors_from-AreCofactors, collapse_all-AreResults,
}

-- The result so far, of the cofactors below the `i`-th.
record IsPart (n n_cofactor i : ℕ) (aig : Gia) (f : TwoLvl32) : Type 0 where
  inputs : f.n_inputs ≡ n
  yields :
      (v : ℕ → Bool) → Yields n v (only (ltb (code n_cofactor 0 v) i) (outputs_at aig v)) f.cubes

-- The assignments of the cofactors below the next one.
next_part :
    (n_cofactor i : ℕ) (v : ℕ → Bool)
    → i < 2 ^ n_cofactor
    → (ltb (code n_cofactor 0 v) i ⊕ matches i n_cofactor 0 v) ≡ ltb (code n_cofactor 0 v) (i + 1)
next_part n_cofactor i v lt =
    let whole : i / 2 ^ 0 ≡ i = omega arith in
    let here = matches-code i n_cofactor 0 v (omega arith) in ground (arith, here, whole)

length-cofactors_from :
    (abc : CofactorOps) (n_cofactor left i : ℕ) (aig : Gia)
    → length (cofactors_from abc n_cofactor left i aig) ≡ left
unfolding cofactors_from
length-cofactors_from abc n_cofactor zero i aig = refl
length-cofactors_from abc n_cofactor (suc left) i aig =
    ap suc (length-cofactors_from abc n_cofactor left (i + 1) aig)

length-outputs :
    (val : ℕ → Bool) (cos : List Output)
    → length (map (λ (c : Output). c.compl ⊕ val c.fanin) cos) ≡ length cos
length-outputs val [] = refl
length-outputs val (c ∷ cos) = ap suc (length-outputs val cos)

all_outputs : (bs : List Bool) → only true bs ≡ bs
all_outputs [] = refl
all_outputs (b ∷ bs) = ap (λ cs. b ∷ cs) (all_outputs bs)

module _ (o : HashOrder) (n n_cofactor : ℕ) (aig : Gia) (le : n ≤ 32) (fit : n_cofactor ≤ n) where
  exorcise-IsPart :
      (i : ℕ) (f : TwoLvl32)
      → IsPart n n_cofactor i aig f
      → Returns (exorcise o f) (IsPart n n_cofactor i aig)
  exorcise-IsPart i f h =
      let same = h.inputs in
      let within = Yields-IsCubes n (λ _. false) _ f.cubes (h.yields (λ _. false)) in
      Returns-map (exorcise o f) (Exorcises f) (IsPart n n_cofactor i aig)
        (exorcise-Exorcises o f (omega (arith, same))
          (subst (λ m. All (IsCubes m) f.cubes) (sym same) within))
        λ f' x. record {
          inputs = x.same_inputs ∙ same;
          yields = λ v.
              Yields-Simplifies n v _ f.cubes f'.cubes (h.yields v)
                (subst (λ m. Simplifies m f.cubes f'.cubes) same x.simplifies);
        }

  step-IsPart :
      (exorcised : Bool) (i : ℕ) (f : TwoLvl32)
      → IsPart n n_cofactor i aig f
      → Returns (if exorcised then exorcise o f else some f) (IsPart n n_cofactor i aig)
  step-IsPart true i f h = exorcise-IsPart i f h
  step-IsPart false i f h = h

  joined-IsPart :
      (i : ℕ) (f ret : TwoLvl32)
      → i < 2 ^ n_cofactor
      → IsSlice n n_cofactor aig le fit i ret
      → IsPart n n_cofactor i aig f
      → IsPart n n_cofactor (i + 1) aig (record f { cubes = append_outputs f.cubes ret.cubes })
  joined-IsPart i f ret lt s h = record {
    inputs = h.inputs;
    yields = λ v.
        subst (λ m. Yields n v (only m (outputs_at aig v)) (append_outputs f.cubes ret.cubes))
          (next_part n_cofactor i v lt)
          (append_outputs-Yields n v (ltb (code n_cofactor 0 v) i) (matches i n_cofactor 0 v)
            (outputs_at aig v) f.cubes ret.cubes (h.yields v) (s v));
  }

  stitch-IsPart :
      (exorcised : Bool) (i : ℕ) (fs : List TwoLvl32) (f : TwoLvl32)
      → i + length fs ≡ 2 ^ n_cofactor
      → AreSlices n n_cofactor aig le fit i fs
      → IsPart n n_cofactor i aig f
      → Returns (stitch o exorcised fs f) (IsPart n n_cofactor (2 ^ n_cofactor) aig)
  unfolding stitch
  stitch-IsPart exorcised i [] f e s h =
      subst (λ k. IsPart n n_cofactor k aig f) (let q : i ≡ 2 ^ n_cofactor = omega arith in q) h
  stitch-IsPart exorcised i (ret ∷ fs) f e (s, ss) h =
      let joined : TwoLvl32 = record f { cubes = append_outputs f.cubes ret.cubes } in
      Returns-bind (if exorcised then exorcise o joined else some joined) (stitch o exorcised fs)
        (IsPart n n_cofactor (i + 1) aig) (IsPart n n_cofactor (2 ^ n_cofactor) aig)
        (step-IsPart exorcised (i + 1) joined (joined-IsPart i f ret (omega arith) s h))
        λ f' h'. stitch-IsPart exorcised (i + 1) fs f' (omega arith) ss h'

  empty_result-IsPart :
      (fresh : TwoLvl32)
      → fresh.cubes ≡ []
      → length aig.ci_ids ≡ n
      → IsPart n n_cofactor 0 aig (empty_result fresh aig)
  unfolding empty_result set_n_outputs set_n_inputs
  empty_result-IsPart fresh e inputs = record {
    inputs = inputs;
    yields = λ v.
        let none_below : false ≡ ltb (code n_cofactor 0 v) 0 = ground arith in
        subst (Yields n v (only (ltb (code n_cofactor 0 v) 0) (outputs_at aig v)))
          (sym (set_n_outputs-empty (length aig.cos) (set_n_inputs (length aig.ci_ids) fresh) e))
          (subst
            (λ k.
              Yields n v (only (ltb (code n_cofactor 0 v) 0) (outputs_at aig v)) (replicate k []))
            (length-outputs (simulate aig v) aig.cos)
            (subst
              (λ m.
                Yields n v (only m (outputs_at aig v)) (replicate (length (outputs_at aig v)) []))
              none_below (Yields-empty n v (outputs_at aig v))));
  }

-- The stitched object is over the inputs of the AIG, and the cubes of each output compute it.
abbrev pub IsStitched : Gia → Option TwoLvl32 → Type 0
IsStitched aig none = ⊥
IsStitched aig (some f) =
    (f.n_inputs ≡ length aig.ci_ids)
    × ((v : ℕ → Bool) → Computes (length aig.ci_ids) (simulate aig v) v aig.cos f.cubes)

IsPart-IsStitched :
    (n_cofactor : ℕ) (aig : Gia) (f : TwoLvl32)
    → IsPart (length aig.ci_ids) n_cofactor (2 ^ n_cofactor) aig f
    → IsStitched aig (some f)
IsPart-IsStitched n_cofactor aig f h = (
  h.inputs,
  λ v.
      let n = length aig.ci_ids in
      let all_below : ltb (code n_cofactor 0 v) (2 ^ n_cofactor) ≡ true =
        ground (arith, code_below n_cofactor 0 v) in
      Yields-Computes n (simulate aig v) v aig.cos f.cubes (
        subst (λ bs. Yields n v bs f.cubes) (all_outputs (outputs_at aig v))
          (subst (λ m. Yields n v (only m (outputs_at aig v)) f.cubes) all_below (h.yields v))),
)

stitch_results-IsStitched :
    (o : HashOrder) (n_cofactor : ℕ) (aig : Gia) (le : length aig.ci_ids ≤ 32)
    (fit : n_cofactor ≤ length aig.ci_ids) (exorcised : Bool) (start : TwoLvl32) (size : ℕ)
    (r : Results)
    → size ≡ 2 ^ n_cofactor
    → IsPart (length aig.ci_ids) n_cofactor 0 aig start
    → AreResults (length aig.ci_ids) n_cofactor aig le fit 0 size r
    → Returns (stitch_results o exorcised start r) (IsStitched aig)
unfolding stitch_results
stitch_results-IsStitched o n_cofactor aig le fit exorcised start size exited e h k = absurd k
stitch_results-IsStitched o n_cofactor aig le fit exorcised start size (results fs) e h (q, ss) =
    let n = length aig.ci_ids in
    Returns-bind (stitch o exorcised fs start) (λ f. some (some f))
      (IsPart n n_cofactor (2 ^ n_cofactor) aig) (IsStitched aig)
      (stitch-IsPart o n n_cofactor aig le fit exorcised 0 fs start (omega arith) ss h)
      λ f p. IsPart-IsStitched n_cofactor aig f p

-- Cofactoring an AIG on `n_cofactor` of its inputs, at most 32, collapsing the cofactors, adding the
-- literals and stitching the results together returns, with or without the exorcism behind each
-- result. The cubes of each output compute what the AIG computes at every assignment.
pub collapse_aig-IsStitched :
    (o : HashOrder) (collapse : Gia → Option Extraction) (abc : CofactorOps) (fresh : TwoLvl32)
    (n_cofactor : ℕ) (exorcised : Bool) (aig : Gia)
    → IsCollapser (length aig.ci_ids) collapse
    → IsCofactorOps abc
    → fresh.cubes ≡ []
    → length aig.ci_ids ≤ 32
    → n_cofactor ≤ length aig.ci_ids
    → IsAig aig
    → Returns (collapse_aig o collapse abc fresh n_cofactor exorcised aig) (IsStitched aig)
unfolding collapse_aig cofactors
collapse_aig-IsStitched o collapse abc fresh n_cofactor exorcised aig law promise e le fit a =
    let n = length aig.ci_ids in
    let cfs = cofactors_from abc n_cofactor (2 ^ n_cofactor) 0 aig in
    let size = length-cofactors_from abc n_cofactor (2 ^ n_cofactor) 0 aig in
    Returns-bind (collapse_all collapse n_cofactor 0 cfs)
      (stitch_results o exorcised (empty_result fresh aig))
      (AreResults n n_cofactor aig le fit 0 (length cfs)) (IsStitched aig)
      (collapse_all-AreResults n n_cofactor aig le fit collapse law 0 cfs
        (cofactors_from-AreCofactors n n_cofactor aig le fit abc promise a refl (2 ^ n_cofactor) 0))
      λ r k.
        stitch_results-IsStitched o n_cofactor aig le fit exorcised (empty_result fresh aig)
          (length cfs) r size (empty_result-IsPart o n n_cofactor aig le fit fresh e refl) k

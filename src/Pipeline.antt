-- ===== src/Pipeline.antt =====
-- `aig_extr_mngr::run` (source/base/collapse.cpp) followed by `exorcise` (source/opt/exorcism32.hpp),
-- the order in which tools/collapse/main.cpp uses them.
mod Examples
use losys.Base.{
  ℕ, ◌+◌, ◌≤◌, ◌≡◌, refl, ◌∙◌, Bool, false, ◌⊕◌, Option, ◌>>=◌, Returns, Returns-bind, Returns-map,
  List, [], ◌∷◌, All, arith, length, sym, ap,
}
use mathlib.Core.Path.{subst}
use losys.Kernel.Cube32.{Cube32}
use losys.Kernel.CubeSet.{HashOrder}
use losys.Kernel.CubeSet.Laws.{IsCubes}
use losys.Kernel.TwoLvl32.{TwoLvl32}
use losys.Aig.{Gia, Output, run}
use losys.Aig.Simulate.{simulate}
use losys.Aig.Correct.{IsAig, Computes, Collapses, run-Collapses}
use losys.Exorcism.Run.{exorcise}
use losys.Exorcism.Correct.{Simplifies, Exorcises, exorcise-Exorcises}

Computes-IsCubes :
    (n : ℕ) (val v : ℕ → Bool) (cos : List Output) (es : List (List Cube32))
    → Computes n val v cos es
    → All (IsCubes n) es
Computes-IsCubes n val v [] [] h = tt
Computes-IsCubes n val v [] (e ∷ es) h = absurd h
Computes-IsCubes n val v (c ∷ cos) [] h = absurd h
Computes-IsCubes n val v (c ∷ cos) (e ∷ es) (k, s, h) = (k, Computes-IsCubes n val v cos es h)

Computes-Simplifies :
    (n : ℕ) (val v : ℕ → Bool) (cos : List Output) (es es' : List (List Cube32))
    → Computes n val v cos es
    → Simplifies n es es'
    → Computes n val v cos es'
Computes-Simplifies n val v [] [] [] h s = tt
Computes-Simplifies n val v [] [] (e' ∷ es') h s = absurd s
Computes-Simplifies n val v [] (e ∷ es) es' h s = absurd h
Computes-Simplifies n val v (c ∷ cos) [] es' h s = absurd h
Computes-Simplifies n val v (c ∷ cos) (e ∷ es) [] h s = absurd s
Computes-Simplifies n val v (c ∷ cos) (e ∷ es) (e' ∷ es') (k, q, h) (t, s) =
    (t.cubes, t.sum v ∙ q, Computes-Simplifies n val v cos es es' h s)

-- Collapsing an AIG with at most 31 inputs and exorcising the result returns, and the cubes of each
-- output compute what the AIG computes at every assignment, for every `HashOrder`.
pub run-exorcise :
    (o : HashOrder) (aig : Gia)
    → length aig.ci_ids ≤ 31
    → IsAig aig
    → Returns (run o aig >>= exorcise o) (λ f. Collapses aig f)
run-exorcise o aig le a =
    Returns-bind (run o aig) (exorcise o) (Collapses aig) (Collapses aig) (run-Collapses o aig le a)
      λ f c.
        let within =
          Computes-IsCubes (length aig.ci_ids) (simulate aig (λ _. false)) (λ _. false) aig.cos
            f.cubes (c.computes (λ _. false)) in
        let same = c.same_inputs in
        Returns-map (exorcise o f) (Exorcises f) (Collapses aig)
          (exorcise-Exorcises o f (omega (arith, same))
            (subst (λ n. All (IsCubes n) f.cubes) (sym same) within))
          λ f' e. record {
            is_esop = e.same_kind ∙ c.is_esop;
            same_inputs = e.same_inputs ∙ same;
            computes = λ v.
                Computes-Simplifies (length aig.ci_ids) (simulate aig v) v aig.cos f.cubes f'.cubes
                  (c.computes v) (subst (λ n. Simplifies n f.cubes f'.cubes) same e.simplifies);
          }

-- ===== src/Xforms/AigToBdd/Method.antt =====
-- The collapsing method `bdd` of tools/collapse/main.cpp: `aig_to_bdd`, then `bdd_extract`.
use losys.Base.{
  refl, sym, ap, ==_iff, Bool-cases, inl, inr, ℕ, ◌≡◌, ◌∙◌, Bool, false, ◌⊕◌, ◌==◌, Option, none,
  some, ◌>>=◌, Returns, Returns-bind, Returns-map, List, [], ◌∷◌, All, length, arith,
}
use losys.Kernel.Cube32.{Cube32}
use losys.Kernel.CubeSet.{HashOrder}
use losys.Aig.{Output, Gia, Extraction, exits, extracted}
use losys.Aig.Simulate.{simulate, simulate-zero}
use losys.Aig.Correct.{IsAig, Computes, Extracts}
use losys.Bdd.{Cudd, bdd_extract}
use losys.Bdd.Diagram.{IsDiagram}
use losys.Bdd.Correct.{node_value, Represents, Collapsed, bdd_extract-Collapsed}
use losys.Xforms.AigToBdd.{BddOps, aig_to_bdd}
use losys.Xforms.AigToBdd.Gates.{IsBddOps, IsValue, ReadsNoConstant}
use losys.Xforms.AigToBdd.Correct.{IsSafeOutput, IsBuilt, Builds, aig_to_bdd-Builds}

-- `bdd_extract` starts with `getNode` of each output, which is null for an object without a manager.
unfoldable pub bdd_method : HashOrder → BddOps → Cudd → Gia → Option Extraction
bdd_method o ops cudd aig = do
  bdds ← aig_to_bdd ops aig
  bdd_extract o cudd (length aig.ci_ids) bdds

-- Each node stands for what the AIG computes at the output in its place.
abbrev StandFor :
    (ℕ → (ℕ → Bool) → Bool) → (ℕ → Bool) → (ℕ → Bool) → List Output → List (Option ℕ) → Type 0
StandFor value v val [] [] = Unit
StandFor value v val [] (f ∷ fs) = ⊥
StandFor value v val (c ∷ cs) [] = ⊥
StandFor value v val (c ∷ cs) (f ∷ fs) =
    (node_value value f v ≡ (c.compl ⊕ val c.fanin)) × StandFor value v val cs fs

value-IsBuilt :
    (value : ℕ → (ℕ → Bool) → Bool) (v val : ℕ → Bool) (c : Output) (b : Option ℕ)
    → val 0 ≡ false
    → IsSafeOutput c
    → IsBuilt value v val c b
    → node_value value b v ≡ (c.compl ⊕ val c.fanin)
value-IsBuilt value v val c b z safe h = elim (Bool-cases (0 == c.fanin)) [
  | inl e ↦
      let constant : val c.fanin ≡ false = ap val (sym ((==_iff 0 c.fanin).0 e)) ∙ z in
      rw (h.0 e, safe e, constant) refl
  | inr e ↦ value-IsValue value v b (c.compl ⊕ val c.fanin) (h.1 e)
]
  where
    value-IsValue :
        (value : ℕ → (ℕ → Bool) → Bool) (v : ℕ → Bool) (b : Option ℕ) (x : Bool)
        → IsValue value v b x
        → node_value value b v ≡ x
    value-IsValue value v none x k = absurd k
    value-IsValue value v (some f) x k = k

Builds-StandFor :
    (value : ℕ → (ℕ → Bool) → Bool) (v val : ℕ → Bool) (cos : List Output) (bdds : List (Option ℕ))
    → val 0 ≡ false
    → All IsSafeOutput cos
    → Builds value v val cos bdds
    → StandFor value v val cos bdds
Builds-StandFor value v val [] [] z safe h = tt
Builds-StandFor value v val [] (b ∷ bdds) z safe h = absurd h
Builds-StandFor value v val (c ∷ cos) [] z safe h = absurd h
Builds-StandFor value v val (c ∷ cos) (b ∷ bdds) z (s, safe) (h, hs) =
    (value-IsBuilt value v val c b z s h, Builds-StandFor value v val cos bdds z safe hs)

Represents-Computes :
    (n : ℕ) (value : ℕ → (ℕ → Bool) → Bool) (val v : ℕ → Bool) (cos : List Output)
    (fs : List (Option ℕ)) (es : List (List Cube32))
    → StandFor value v val cos fs
    → Represents n value fs es
    → Computes n val v cos es
Represents-Computes n value val v [] [] [] s r = tt
Represents-Computes n value val v [] [] (e ∷ es) s r = absurd r
Represents-Computes n value val v [] (f ∷ fs) es s r = absurd s
Represents-Computes n value val v (c ∷ cos) [] es s r = absurd s
Represents-Computes n value val v (c ∷ cos) (f ∷ fs) [] s r = absurd r
Represents-Computes n value val v (c ∷ cos) (f ∷ fs) (e ∷ es) (q, s) (is_set, sum, r) =
    (is_set.cubes, sum v ∙ q, Represents-Computes n value val v cos fs es s r)

-- Where the gates do not read the constant and the outputs do not read its complement, the method
-- `bdd` does what the method `aig` does: it returns, exits just above 32 inputs, and otherwise gives an
-- ESOP for each output that computes it, for every `HashOrder`.
pub bdd_method-Extracts :
    (o : HashOrder) (ops : BddOps) (cudd : Cudd) (aig : Gia)
    (d : IsDiagram cudd (length aig.ci_ids))
    → IsBddOps ops (length aig.ci_ids) d.value
    → IsAig aig
    → All ReadsNoConstant aig.ands
    → All IsSafeOutput aig.cos
    → Returns (bdd_method o ops cudd aig) (Extracts aig)
unfolding bdd_method
bdd_method-Extracts o ops cudd aig d promise a zs safe =
    let n = length aig.ci_ids in
    Returns-bind (aig_to_bdd ops aig) (bdd_extract o cudd n)
      (λ bdds. (v : ℕ → Bool) → Builds d.value v (simulate aig v) aig.cos bdds) (Extracts aig)
      (aig_to_bdd-Builds ops n d.value promise aig (omega arith) a zs safe)
      λ bdds built.
        Returns-map (bdd_extract o cudd n bdds) (Collapsed n d.value bdds) (Extracts aig)
          (bdd_extract-Collapsed o n cudd d bdds)
          λ x c.
            extracts bdds
              (λ v.
                Builds-StandFor d.value v (simulate aig v) aig.cos bdds
                  (simulate-zero aig v a.inputs a.order) safe (built v))
              x c
  where
    extracts :
        (fs : List (Option ℕ))
        → ((v : ℕ → Bool) → StandFor d.value v (simulate aig v) aig.cos fs)
        → (x : Extraction) → Collapsed (length aig.ci_ids) d.value fs x
        → Extracts aig x
    extracts fs stand exits c = c
    extracts fs stand (extracted f) (le, kind, inputs, r) = (
      le,
      record {
        is_esop = kind;
        same_inputs = inputs;
        computes = λ v.
            Represents-Computes (length aig.ci_ids) d.value (simulate aig v) v aig.cos fs f.cubes
              (stand v) r;
      },
    )

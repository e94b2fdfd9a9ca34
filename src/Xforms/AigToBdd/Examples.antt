-- ===== src/Xforms/AigToBdd/Examples.antt =====
-- An AIG with one input as a BDD.
use mathlib.Core.List.Permᴰ
use losys.Base.{
  ap, inr, ℕ, ◌≡◌, refl, Bool, true, false, ◌&&◌, none, some, Returns, List, [], ◌∷◌, inl, arith,
}
use losys.Kernel.CubeSet.{HashOrder}
use losys.Aig.{Gia, Output}
use losys.Aig.Simulate.{simulate}
use losys.Aig.Correct.{IsAig, Extracts}
use losys.Bdd.OneVar.{at0, at1, code, at0-code, at1-code, one_var, one_var-IsDiagram, one_var-value}
use losys.Xforms.AigToBdd.{BddOps, aig_to_bdd}
use losys.Xforms.AigToBdd.Gates.{IsBddOps}
use losys.Xforms.AigToBdd.Correct.{Builds, aig_to_bdd-Builds, aig_to_bdd-crash}
use losys.Xforms.AigToBdd.Method.{bdd_method, bdd_method-Extracts}

-- New elements come first.
abbrev front : HashOrder
front = record { place = λ c s. c ∷ s; place_perm = λ c s. Permᴰ.refl (c ∷ s) }

abbrev one_var_ops : BddOps
one_var_ops = record {
  bdd_var = λ i. 2;
  negation = one_var.negate;
  conjunction = λ f g. code (at0 f && at0 g) (at1 f && at1 g);
}

one_var-IsBddOps : IsBddOps one_var_ops 1 one_var-IsDiagram.value
one_var-IsBddOps = record {
  value_var = λ i v lt. let e : i ≡ 0 = omega arith in ground (arith, e, ap v e, one_var-value 2 v);
  value_not = λ b v. one_var-IsDiagram.value_negate b v;
  value_and = λ b c v. ground (
    arith,
    one_var-value (code (at0 b && at0 c) (at1 b && at1 c)) v,
    one_var-value b v,
    one_var-value c v,
    at1-code (at0 b && at0 c) (at1 b && at1 c),
    at0-code (at0 b && at0 c) (at1 b && at1 c),
  );
}

-- x0 as the complement of a gate over the complement of x0, with the constants 0 or 1 beside it.
abbrev same_input : List Output → Gia
same_input cos = record {
  n_objs = 5;
  ci_ids = 1 ∷ [];
  ands = record { id = 2; fanin0 = 1; compl0 = true; fanin1 = 1; compl1 = true } ∷ [];
  cos = record { fanin = 2; compl = true } ∷ cos;
}

same_input-IsAig : (b : Bool) → IsAig (same_input (record { fanin = 0; compl = b } ∷ []))
same_input-IsAig b = record {
  inputs = (refl, omega arith, tt);
  order = (refl, refl, refl, omega arith, tt);
  outputs = (refl, (refl, tt));
}

-- The constant 0 has no BDD.
bdds_built :
    aig_to_bdd one_var_ops (same_input (record { fanin = 0; compl = false } ∷ []))
    ≡ some (some 2 ∷ none ∷ [])
unfolding aig_to_bdd
bdds_built = refl

aig_to_bdd-Builds_example :
    Returns
      (aig_to_bdd one_var_ops (same_input (record { fanin = 0; compl = false } ∷ [])))
      (λ outputs.
        (v : ℕ → Bool)
        → Builds one_var-IsDiagram.value v
            (simulate (same_input (record { fanin = 0; compl = false } ∷ [])) v)
            (same_input (record { fanin = 0; compl = false } ∷ [])).cos
            outputs)
aig_to_bdd-Builds_example =
    aig_to_bdd-Builds one_var_ops 1 one_var-IsDiagram.value one_var-IsBddOps
      (same_input (record { fanin = 0; compl = false } ∷ [])) (omega arith) (same_input-IsAig false)
      ((refl, refl), tt) (λ z. absurd (ground (arith, z)), (λ z. refl, tt))

aig_to_bdd-crash_example :
    aig_to_bdd one_var_ops (same_input (record { fanin = 0; compl = true } ∷ [])) ≡ none
aig_to_bdd-crash_example =
    aig_to_bdd-crash one_var_ops 1 one_var-IsDiagram.value one_var-IsBddOps
      (same_input (record { fanin = 0; compl = true } ∷ [])) (omega arith) (same_input-IsAig true)
      ((refl, refl), tt) (inr (inl (refl, refl)))

-- An AIG with the constant 0 beside the input.
abbrev with_zero : Gia
with_zero = same_input (record { fanin = 0; compl = false } ∷ [])

bdd_method-Extracts_example :
    Returns (bdd_method front one_var_ops one_var with_zero) (Extracts with_zero)
bdd_method-Extracts_example =
    bdd_method-Extracts front one_var_ops one_var with_zero one_var-IsDiagram one_var-IsBddOps
      (same_input-IsAig false) ((refl, refl), tt) (λ z. absurd (ground (arith, z)), (λ z. refl, tt))

-- ===== src/Tools/Collapse/Examples.antt =====
-- A small AIG cofactored and collapsed.
use mathlib.Core.List.Permᴰ
use losys.Base.{some, ℕ, ◌≡◌, refl, true, false, Returns, List, [], ◌∷◌, arith}
use losys.Kernel.CubeSet.{HashOrder}
use losys.Kernel.TwoLvl32.{undef, TwoLvl32}
use losys.Aig.{Gia, aig_extract}
use losys.Aig.Correct.{IsAig}
use losys.Bdd.OneVar.{one_var}
use losys.Xforms.AigToBdd.{BddOps}
use losys.Tools.FileNames.{name_ok, is_fname_ok, extrac_fname}
use losys.Xforms.{GiaOps}
use losys.Tools.Collapse.{
  output_name, Backend, by_aig, Options, cofactors, collapse_aig, collapse_main,
}
use losys.Tools.Collapse.Fold.{fold, fold_ops}
use losys.Tools.Collapse.Fold.Keeps.{fold_ops-IsCofactorOps}
use losys.Tools.Collapse.Slices.{aig_extract-IsCollapser}
use losys.Tools.Collapse.Correct.{IsStitched, collapse_aig-IsStitched}
use losys.Tools.Collapse.Main.{Writes, collapse_main-Writes}

-- New elements come first.
abbrev front : HashOrder
front = record { place = λ c s. c ∷ s; place_perm = λ c s. Permᴰ.refl (c ∷ s) }

-- x0 and not x1.
abbrev differs : Gia
differs = record {
  n_objs = 5;
  ci_ids = 1 ∷ 2 ∷ [];
  ands = record { id = 3; fanin0 = 1; compl0 = false; fanin1 = 2; compl1 = true } ∷ [];
  cos = record { fanin = 3; compl = false } ∷ [];
}

differs-IsAig : IsAig differs
differs-IsAig = record {
  inputs = (refl, omega arith, (refl, omega arith, tt));
  order = (refl, refl, refl, omega arith, tt);
  outputs = (refl, tt);
}

-- The two cofactors on x0: the gate reads the constant.
two_cofactors : cofactors fold_ops 1 differs ≡ fold differs 0 0 ∷ fold differs 0 1 ∷ []
unfolding cofactors
two_cofactors = refl

abbrev fresh : TwoLvl32
fresh = record { kind = undef; n_inputs = 77; cubes = [] }

collapse_aig-IsStitched_example :
    Returns
      (collapse_aig front (aig_extract front) fold_ops fresh 2 true differs)
      (IsStitched differs)
collapse_aig-IsStitched_example =
    collapse_aig-IsStitched front (aig_extract front) fold_ops fresh 2 true differs
      (aig_extract-IsCollapser front 2 (omega arith)) fold_ops-IsCofactorOps refl (omega arith)
      (omega arith) differs-IsAig

-- `d/a.aig`
abbrev filepath : List ℕ
filepath = b'd' ∷ b'/' ∷ b'a' ∷ b'.' ∷ b'a' ∷ b'i' ∷ b'g' ∷ []

name_checked : is_fname_ok (extrac_fname filepath) ≡ name_ok
unfolding is_fname_ok extrac_fname
name_checked = refl

abbrev options : Options
options = record {
  extra = filepath ∷ [];
  n_cofactor = 1;
  method = by_aig;
  exorcised = false;
  check = true;
}

abbrev no_ops : BddOps
no_ops = record { bdd_var = λ i. 2; negation = one_var.negate; conjunction = λ f g. 0 }

-- A manager of ABC that keeps nothing.
abbrev empty_gia : GiaOps
empty_gia = record {
  Gia = Unit;
  start = λ k. tt;
  hash_alloc = λ s. s;
  append_ci = λ s. s;
  append_co = λ s x. s;
  hash_and = λ s x y. (s, 0);
  hash_xor = λ s x y. (s, 0);
  var_to_lit = λ k c. k;
  cleanup = λ s. s;
}

abbrev env : Backend
env = record {
  bdd_ops = no_ops;
  cudd = one_var;
  cofactor_ops = fold_ops;
  gia_ops = empty_gia;
  miter = λ a b. true;
  read = λ name. some differs;
}

collapse_main-Writes_example :
    Returns
      (collapse_main front env fresh options)
      (Writes fresh (output_name by_aig (extrac_fname filepath)) differs)
collapse_main-Writes_example =
    collapse_main-Writes front env fresh options filepath [] differs refl refl name_checked refl
      fold_ops-IsCofactorOps refl differs-IsAig (omega arith) (omega arith)

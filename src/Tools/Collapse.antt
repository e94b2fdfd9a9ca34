-- ===== src/Tools/Collapse.antt =====
-- tools/collapse/main.cpp: an AIG is cofactored, each cofactor collapsed, and the results stitched
-- together. What CLI11 reads from the command line is the argument `Options`.
pub mod Cofactors
pub mod Stitch
pub mod Slices
pub mod Main
pub mod Fold
pub mod Correct
mod Examples
use losys.Base.{
  not, ◌&&◌, ℕ, zero, suc, ◌+◌, ◌-◌, ◌*◌, ◌/◌, ◌%◌, ◌^◌, Bool, true, false, ◌==◌, if◌then◌else◌,
  Option, none, some, ◌>>=◌, List, [], ◌∷◌, ◌++◌, length, map,
}
use losys.Kernel.Cube32.{Cube32, add_lit}
use losys.Kernel.CubeSet.{HashOrder}
use losys.Kernel.TwoLvl32.{TwoLvl32, set_n_inputs, set_n_outputs}
use losys.Aig.{Gia, Extraction, exits, extracted, aig_extract}
use losys.Bdd.{Cudd}
use losys.Exorcism.Run.{exorcise}
use losys.Xforms.{GiaOps, esop_to_aig}
use losys.Xforms.AigToBdd.{BddOps}
use losys.Xforms.AigToBdd.Method.{bdd_method}
use losys.Pla.Write.{File, write_pla}
use losys.Tools.FileNames.{NameCheck, name_ok, unrecognized, unsupported, extrac_fname, is_fname_ok}

-- `Gia_ManDup` and `Gia_ManDupCofactorVar` of ABC.
pub record CofactorOps : Type 0 where
  pub dup : Gia → Gia
  pub dup_cofactor_var : Gia → ℕ → ℕ → Gia

module _ (abc : CofactorOps) where
  -- The loop over `j`, with `left` variables to go.
  unfoldable pub cofactor_vars : ℕ → ℕ → ℕ → Gia → Gia
  cofactor_vars i zero j aig = aig
  cofactor_vars i (suc left) j aig =
      cofactor_vars i left (j + 1) (abc.dup_cofactor_var aig j (i / 2 ^ j % 2))

  -- The loop over `i`, with `left` cofactors to go.
  unfoldable pub cofactors_from : ℕ → ℕ → ℕ → Gia → List Gia
  unfolding cofactor_vars
  cofactors_from n_cofactor zero i aig = []
  cofactors_from n_cofactor (suc left) i aig =
      cofactor_vars i n_cofactor 0 (abc.dup aig) ∷ cofactors_from n_cofactor left (i + 1) aig

  unfoldable pub cofactors : ℕ → Gia → List Gia
  unfolding cofactors_from
  cofactors n_cofactor aig = cofactors_from n_cofactor (2 ^ n_cofactor) 0 aig

-- The loop over `j` that adds the cofactored variables to a cube.
unfoldable pub cofactor_lits : ℕ → ℕ → ℕ → Cube32 → Cube32
cofactor_lits i zero j cube = cube
cofactor_lits i (suc left) j cube = cofactor_lits i left (j + 1) (add_lit j (i / 2 ^ j % 2) cube)

unfoldable pub add_cofactor : ℕ → ℕ → List (List Cube32) → List (List Cube32)
unfolding cofactor_lits
add_cofactor n_cofactor i cubes = map (map (cofactor_lits i n_cofactor 0)) cubes

-- The results of the collapsed AIGs, from the `i`-th on; `exits` is the exit of `aig_extract` or of
-- `bdd_extract`.
pub data Results : Type 0 where
  exited : Results
  results : List TwoLvl32 → Results

unfoldable pub cons_result : TwoLvl32 → Results → Results
cons_result f exited = exited
cons_result f (results fs) = results (f ∷ fs)

-- The result of the `i`-th AIG in front of the rest, or the exit.
unfoldable pub add_result : ℕ → ℕ → Extraction → Option Results → Option Results
unfolding add_cofactor cons_result
add_result n_cofactor i exits rest = some exited
add_result n_cofactor i (extracted f) rest = do
  fs ← rest
  some (cons_result (record f { cubes = add_cofactor n_cofactor i f.cubes }) fs)

unfoldable pub collapse_all : (Gia → Option Extraction) → ℕ → ℕ → List Gia → Option Results
unfolding add_result
collapse_all collapse n_cofactor i [] = some (results [])
collapse_all collapse n_cofactor i (a ∷ cf_aigs) = do
  extraction ← collapse a
  add_result n_cofactor i extraction (collapse_all collapse n_cofactor (i + 1) cf_aigs)

-- The loop over the outputs of `result`; a result with fewer outputs is read out of bounds.
unfoldable pub append_outputs : List (List Cube32) → List (List Cube32) → List (List Cube32)
append_outputs [] ret = []
append_outputs (cubes ∷ result) [] = cubes ∷ append_outputs result []
append_outputs (cubes ∷ result) (esop ∷ ret) = (cubes ++ esop) ∷ append_outputs result ret

-- The loop over the results, with the exorcism behind each.
unfoldable pub stitch : HashOrder → Bool → List TwoLvl32 → TwoLvl32 → Option TwoLvl32
unfolding append_outputs
stitch o exorcised [] result = some result
stitch o exorcised (ret ∷ cf_results) result = do
  let joined = record result { cubes = append_outputs result.cubes ret.cubes }
  next ← if exorcised then exorcise o joined else some joined
  stitch o exorcised cf_results next

pub data Method : Type 0 where
  by_aig by_bdd : Method

unfoldable pub collapse_by : HashOrder → BddOps → Cudd → Method → Gia → Option Extraction
collapse_by o ops cudd by_aig a = aig_extract o a
collapse_by o ops cudd by_bdd a = bdd_method o ops cudd a

pub record Options : Type 0 where
  pub extra : List (List ℕ)
  pub n_cofactor : ℕ
  pub method : Method
  pub exorcised : Bool
  pub check : Bool

-- The object that is stitched together, before the first result. `fresh` is the object before
-- anything is assigned to it.
unfoldable pub empty_result : TwoLvl32 → Gia → TwoLvl32
empty_result fresh aig = set_n_outputs (length aig.cos) (set_n_inputs (length aig.ci_ids) fresh)

-- `none` is the result of an exit.
unfoldable pub stitch_results : HashOrder → Bool → TwoLvl32 → Results → Option (Option TwoLvl32)
unfolding stitch
stitch_results o exorcised result exited = some none
stitch_results o exorcised result (results cf_results) = do
  stitched ← stitch o exorcised cf_results result
  some (some stitched)

-- From the AIG that is read to the object that is written.
unfoldable pub collapse_aig :
    HashOrder
    → (Gia → Option Extraction)
    → CofactorOps
    → TwoLvl32
    → ℕ
    → Bool
    → Gia
    → Option (Option TwoLvl32)
unfolding cofactors collapse_all stitch_results empty_result
collapse_aig o collapse abc fresh n_cofactor exorcised aig = do
  collapsed ← collapse_all collapse n_cofactor 0 (cofactors abc n_cofactor aig)
  stitch_results o exorcised (empty_result fresh aig) collapsed

-- `method + "_" + filename`.
unfoldable pub output_name : Method → List ℕ → List ℕ
output_name by_aig filename = b'a' ∷ b'i' ∷ b'g' ∷ b'_' ∷ filename
output_name by_bdd filename = b'b' ∷ b'd' ∷ b'd' ∷ b'_' ∷ filename

-- How `main` ends; `no_miter` is the failure of the check at the end.
pub data Outcome : Type 0 where
  no_input : Outcome
  bad_name : NameCheck → Outcome
  too_many_inputs : Outcome
  no_miter : TwoLvl32 → List File → Outcome
  wrote : TwoLvl32 → List File → Outcome

-- The functions of CUDD and of ABC, and the AIGs that can be read; `read` gives `none` where
-- `Gia_AigerRead` gives a null pointer, and `miter` tells whether `Gia_ManMiter` gives a miter of the
-- AIG and the one of the result.
pub record Backend : Type 1 where
  pub bdd_ops : BddOps
  pub cudd : Cudd
  pub cofactor_ops : CofactorOps
  pub gia_ops : GiaOps
  pub miter : Gia → gia_ops.Gia → Bool
  pub read : List ℕ → Option Gia

module _ (o : HashOrder) (env : Backend) (fresh : TwoLvl32) where
  -- The check on what is written. The verdict of ABC on a miter has no effect on the result.
  unfoldable pub check_result : Bool → Gia → TwoLvl32 → List File → Outcome
  check_result check aig result files =
      if check && not (env.miter aig (esop_to_aig env.gia_ops result))
      then no_miter result files
      else wrote result files

  -- What is written for the result, and the check.
  unfoldable pub write_result : Options → List ℕ → Gia → Option TwoLvl32 → Outcome
  unfolding check_result output_name
  write_result options filepath aig none = too_many_inputs
  write_result options filepath aig (some result) =
      check_result options.check aig result
        (write_pla (output_name options.method (extrac_fname filepath)) result)

  -- `none` is also the crash on an AIG that cannot be read, which is not tested.
  unfoldable pub collapse_file : Options → List ℕ → Option Outcome
  unfolding collapse_aig collapse_by write_result
  collapse_file options filepath = do
    aig ← env.read filepath
    collapsed ←
        collapse_aig o (collapse_by o env.bdd_ops env.cudd options.method) env.cofactor_ops fresh
          options.n_cofactor options.exorcised aig
    some (write_result options filepath aig collapsed)

  unfoldable pub collapse_checked : Options → List ℕ → NameCheck → Option Outcome
  unfolding collapse_file
  collapse_checked options filepath name_ok = collapse_file options filepath
  collapse_checked options filepath unrecognized = some (bad_name unrecognized)
  collapse_checked options filepath (unsupported extension) =
      some (bad_name (unsupported extension))

  unfoldable pub collapse_extra : Options → List (List ℕ) → Option Outcome
  unfolding collapse_checked
  collapse_extra options [] = some no_input
  collapse_extra options (filepath ∷ others) =
      collapse_checked options filepath (is_fname_ok (extrac_fname filepath))

  unfoldable pub collapse_main : Options → Option Outcome
  unfolding collapse_extra
  collapse_main options = collapse_extra options options.extra

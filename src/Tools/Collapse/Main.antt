-- ===== src/Tools/Collapse/Main.antt =====
-- A run of tools/collapse/main.cpp with the method `aig`.
use losys.Xforms.{esop_to_aig}
use losys.Base.{
  ltb, ◌^◌, ◌⊎◌, ◌++◌, All, Bool-cases, inl, inr, not, ◌&&◌, false, arith, ℕ, ◌+◌, ◌≤◌, ◌≡◌, refl,
  Bool, Option, none, some, Returns, Returns-bind, List, [], ◌∷◌, length,
}
use losys.Kernel.Cube32.{Cube32}
use losys.Kernel.CubeSet.{HashOrder}
use losys.Kernel.TwoLvl32.{TwoLvl32}
use losys.Aig.{Gia, Output}
use losys.Aig.Simulate.{simulate}
use losys.Aig.Correct.{IsAig, Computes}
use losys.Pla.Write.{write_pla, write_files}
use losys.Kernel.CubeSet.Laws.{IsCubes}
use losys.Pla.Write.{File}
use losys.Pla.Read.{read_pla}
use losys.Pla.Decimal.{decimal}
use losys.Pla.RoundTrip.{reading_of, read_pla-write_esop}
use losys.Tools.FileNames.{name_ok, extrac_fname, is_fname_ok}
use losys.Tools.Collapse.{
  Backend, check_result, write_result, no_miter, by_aig, Method, Options, Outcome, no_input,
  bad_name, too_many_inputs, wrote, collapse_aig, collapse_by, output_name, collapse_file,
  collapse_checked, collapse_extra, collapse_main,
}
use losys.Tools.Collapse.Cofactors.{IsCofactorOps}
use losys.Tools.Collapse.Slices.{IsCollapser, aig_extract-IsCollapser}
use losys.Tools.Collapse.Correct.{IsStitched, collapse_aig-IsStitched}

-- For each output, from the `i`-th on, the file that is named after it. From its text `read_pla` gets
-- the cubes of the output back, in their order, unless there are 2 ^ 32 of them or more.
abbrev pub AreWritten : TwoLvl32 → List ℕ → ℕ → ℕ → List (List Cube32) → List File → Type 0
AreWritten fresh fname n i [] [] = Unit
AreWritten fresh fname n i [] (file ∷ files) = ⊥
AreWritten fresh fname n i (es ∷ cubes) [] = ⊥
AreWritten fresh fname n i (es ∷ cubes) (file ∷ files) =
    (file.name ≡ fname ++ (b'_' ∷ decimal i) ++ (b'.' ∷ b'p' ∷ b'l' ∷ b'a' ∷ []))
    × ((2 ^ 32 ≤ length es) ⊎ (read_pla fresh (some file.content) ≡ some (reading_of n es)))
    × AreWritten fresh fname n (i + 1) cubes files

-- The object computes what the AIG computes, and the files hold its cubes.
abbrev pub Holds : TwoLvl32 → List ℕ → Gia → TwoLvl32 → List File → Type 0
Holds fresh fname aig result files =
    IsStitched aig (some result) × AreWritten fresh fname (length aig.ci_ids) 0 result.cubes files

-- The run has written files that hold an object that computes what the AIG computes.
abbrev pub Writes : TwoLvl32 → List ℕ → Gia → Outcome → Type 0
Writes fresh fname aig no_input = ⊥
Writes fresh fname aig (bad_name check) = ⊥
Writes fresh fname aig too_many_inputs = ⊥
Writes fresh fname aig (no_miter result files) = Holds fresh fname aig result files
Writes fresh fname aig (wrote result files) = Holds fresh fname aig result files

Computes-IsCubes :
    (n : ℕ) (val v : ℕ → Bool) (cos : List Output) (es : List (List Cube32))
    → Computes n val v cos es
    → All (IsCubes n) es
Computes-IsCubes n val v [] [] h = tt
Computes-IsCubes n val v [] (e ∷ es) h = absurd h
Computes-IsCubes n val v (c ∷ cos) [] h = tt
Computes-IsCubes n val v (c ∷ cos) (e ∷ es) (k, _, h) = (k, Computes-IsCubes n val v cos es h)

write_files-AreWritten :
    (fresh : TwoLvl32) (fname : List ℕ) (n i : ℕ) (cubes : List (List Cube32))
    → fresh.cubes ≡ []
    → n ≤ 32
    → All (IsCubes n) cubes
    → AreWritten fresh fname n i cubes (write_files fname n i cubes)
unfolding write_files
write_files-AreWritten fresh fname n i [] e le h = tt
write_files-AreWritten fresh fname n i (es ∷ cubes) e le (k, h) = (
  refl,
  elim (Bool-cases (ltb (length es) (2 ^ 32))) [
    | inl lt ↦ inr (read_pla-write_esop fresh n es e le (ground (arith, lt)) k)
    | inr ge ↦ inl (ground (arith, ge))
  ],
  write_files-AreWritten fresh fname n (i + 1) cubes e le h,
)

write_pla-AreWritten :
    (fresh : TwoLvl32) (fname : List ℕ) (aig : Gia) (f : TwoLvl32)
    → fresh.cubes ≡ []
    → length aig.ci_ids ≤ 32
    → IsStitched aig (some f)
    → AreWritten fresh fname (length aig.ci_ids) 0 f.cubes (write_pla fname f)
unfolding write_pla
write_pla-AreWritten fresh fname aig f e le h = rw (h.0) (
    write_files-AreWritten fresh fname (length aig.ci_ids) 0 f.cubes e le (
      Computes-IsCubes (length aig.ci_ids) (simulate aig (λ _. false)) (λ _. false) aig.cos f.cubes
        (h.1 (λ _. false))))

module _ (o : HashOrder) (env : Backend) (fresh : TwoLvl32) where
  write_result-Writes :
      (options : Options) (filepath : List ℕ) (aig : Gia) (collapsed : Option TwoLvl32)
      → fresh.cubes ≡ []
      → length aig.ci_ids ≤ 31
      → IsStitched aig collapsed
      → Writes fresh
          (output_name options.method (extrac_fname filepath))
          aig
          (write_result o env fresh options filepath aig collapsed)
  unfolding write_result check_result
  write_result-Writes options filepath aig none blank le h = absurd h
  write_result-Writes options filepath aig (some f) blank le h =
      let fname = output_name options.method (extrac_fname filepath) in
      let written = write_pla-AreWritten fresh fname aig f blank (omega arith) h in
      elim (Bool-cases (options.check && not (env.miter aig (esop_to_aig env.gia_ops f)))) [
        | inl e ↦ rw e (h, written)
        | inr e ↦ rw e (h, written)
      ]

  collapse_by-IsCollapser :
      (method : Method) (n : ℕ)
      → method ≡ by_aig
      → n ≤ 31
      → IsCollapser n (collapse_by o env.bdd_ops env.cudd method)
  unfolding collapse_by
  collapse_by-IsCollapser method n e le = rw e (aig_extract-IsCollapser o n le)

  collapse_file-Writes :
      (options : Options) (filepath : List ℕ) (aig : Gia)
      → options.method ≡ by_aig
      → env.read filepath ≡ some aig
      → IsCofactorOps env.cofactor_ops
      → fresh.cubes ≡ []
      → IsAig aig
      → length aig.ci_ids ≤ 31
      → options.n_cofactor ≤ length aig.ci_ids
      → Returns
          (collapse_file o env fresh options filepath)
          (Writes fresh (output_name options.method (extrac_fname filepath)) aig)
  unfolding collapse_file
  collapse_file-Writes options filepath aig method found promise e a le fit =
      let collapse = collapse_by o env.bdd_ops env.cudd options.method in
      rw found (
        Returns-bind
          (collapse_aig o collapse env.cofactor_ops fresh options.n_cofactor options.exorcised aig)
          (λ collapsed. some (write_result o env fresh options filepath aig collapsed))
          (IsStitched aig) (Writes fresh (output_name options.method (extrac_fname filepath)) aig)
          (collapse_aig-IsStitched o collapse env.cofactor_ops fresh options.n_cofactor
            options.exorcised aig
            (collapse_by-IsCollapser options.method (length aig.ci_ids) method le) promise e
            (omega arith) fit a)
          λ collapsed h. write_result-Writes options filepath aig collapsed e le h)

  collapse_extra-Returns :
      (options : Options) (filepath : List ℕ) (others extra : List (List ℕ)) (P : Outcome → Type 0)
      → extra ≡ filepath ∷ others
      → is_fname_ok (extrac_fname filepath) ≡ name_ok
      → Returns (collapse_file o env fresh options filepath) P
      → Returns (collapse_extra o env fresh options extra) P
  unfolding collapse_extra collapse_checked
  collapse_extra-Returns options filepath others extra P e ok h = rw (e, ok) h

  -- With the method `aig`, cofactors as `IsCofactorOps` asks, a file name that ends in `.aig` and an
  -- AIG of at most 31 inputs in the file, the tool ends and has written a file for each output, named after the method, the input file and
  -- the output. `read_pla` gets the cubes of each output back from its file, unless there are 2 ^ 32 of
  -- them or more. They compute what the AIG computes at every assignment, whatever number of the inputs is
  -- cofactored, with or without exorcism.
  pub collapse_main-Writes :
      (options : Options) (filepath : List ℕ) (others : List (List ℕ)) (aig : Gia)
      → options.extra ≡ filepath ∷ others
      → options.method ≡ by_aig
      → is_fname_ok (extrac_fname filepath) ≡ name_ok
      → env.read filepath ≡ some aig
      → IsCofactorOps env.cofactor_ops
      → fresh.cubes ≡ []
      → IsAig aig
      → length aig.ci_ids ≤ 31
      → options.n_cofactor ≤ length aig.ci_ids
      → Returns
          (collapse_main o env fresh options)
          (Writes fresh (output_name options.method (extrac_fname filepath)) aig)
  unfolding collapse_main
  collapse_main-Writes options filepath others aig extra method ok found promise e a le fit =
      collapse_extra-Returns options filepath others options.extra
        (Writes fresh (output_name options.method (extrac_fname filepath)) aig) extra ok
        (collapse_file-Writes options filepath aig method found promise e a le fit)

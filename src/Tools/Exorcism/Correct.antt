-- ===== src/Tools/Exorcism/Correct.antt =====
-- A run of tools/exorcism/main.cpp on a file.
use losys.Base.{
  sym, ℕ, ◌+◌, ◌≤◌, ◌<◌, Option, some, ◌>>=◌, List, [], ◌≡◌, arith, Returns, Returns-bind, All,
}
use mathlib.Core.Path.{subst}
use losys.Kernel.CubeSet.{HashOrder}
use losys.Kernel.CubeSet.Laws.{IsCubes}
use losys.Kernel.TwoLvl32.{TwoLvl32}
use losys.Exorcism.Run.{exorcise}
use losys.Exorcism.Correct.{Exorcises, exorcise-Exorcises}
use losys.Pla.Stream.{Stream, filled}
use losys.Pla.Read.{Header, read_pla, read_pla_header}
use losys.Pla.WellFormed.{IsReading, read_pla-IsReading}
use losys.Tools.Exorcism.{
  GetOpt, Flags, run_on, Outcome, exited, returned, command_line, minimize_file, run_command,
  exorcism_main,
}

-- The run has ended with the object read and its minimized form.
abbrev pub Minimizes : Header → Outcome → Type 0
Minimizes h (exited command) = ⊥
Minimizes h (returned original result) = IsReading h original × Exorcises original.two_lvl result

-- When the command line leads to a run on a file that opens, whose header declares at least one input
-- or output and at most 32 inputs, the run ends. The object read has the kind, the inputs and the
-- outputs that the header declares, and the result has for each output the exclusive sum of its cubes
-- in no more cubes, for every `HashOrder`.
pub exorcism_main-Minimizes :
    (o : HashOrder) (files : List ℕ → Option (List ℕ)) (fresh : TwoLvl32) (argv : List (List ℕ))
    (found : GetOpt) (name : List ℕ) (flags : Flags) (text : List ℕ) (h : Header) (s : Stream)
    → command_line argv found ≡ run_on name flags
    → files name ≡ some text
    → fresh.cubes ≡ []
    → read_pla_header (filled text) ≡ some (h, s)
    → h.n_inputs ≤ 32
    → 0 < h.n_inputs + h.n_outputs
    → Returns (exorcism_main o files fresh argv found) (Minimizes h)
unfolding exorcism_main run_command minimize_file
exorcism_main-Minimizes o files fresh argv found name flags text h s line opens e header le pos =
    rw (line, opens)
      (Returns-bind (read_pla fresh (some text))
        (λ original. exorcise o original.two_lvl >>= λ result. some (returned original result))
        (IsReading h) (Minimizes h) (read_pla-IsReading fresh text h s e header le pos)
        λ original k.
          let same = k.inputs in
          Returns-bind (exorcise o original.two_lvl) (λ result. some (returned original result))
            (Exorcises original.two_lvl) (Minimizes h)
            (exorcise-Exorcises o original.two_lvl (omega (arith, same))
              (subst (λ n. All (IsCubes n) original.two_lvl.cubes) (sym same) k.within))
            λ result x. (k, x))

-- ===== src/Tools/Exorcism.antt =====
-- tools/exorcism/main.cpp, and the command line of source/main.cpp. The options that `getopt` finds
-- and the files that can be read are arguments.
pub mod CommandLine
pub mod Correct
use losys.Base.{
  ℕ, zero, suc, ◌+◌, Bool, true, false, ◌&&◌, ◌||◌, ◌==◌, if◌then◌else◌, Option, none, some, ◌>>=◌,
  List, [], ◌∷◌, length, get_or,
}
use losys.Kernel.CubeSet.{HashOrder}
use losys.Kernel.TwoLvl32.{TwoLvl32}
use losys.Exorcism.Run.{exorcise}
use losys.Pla.Read.{Reading, Stop, read_pla}
use losys.Tools.FileNames.{NameCheck, name_ok, unrecognized, unsupported, fname_ok, aig_fname_ok}

-- The values that `getopt` returns before -1, and `optind` behind them.
pub record GetOpt : Type 0 where
  pub opts : List ℕ
  pub optind : ℕ

pub record Flags : Type 0 where
  pub verbose : Bool
  pub werbose : Bool

-- The switch of the loop; `none` is the exit by `usage(EXIT_SUCCESS)`.
unfoldable pub read_opts : List ℕ → Flags → Option Flags
read_opts [] flags = some flags
read_opts (opt ∷ opts) flags =
    let rest = read_opts opts (
      if opt == b'v'
      then record flags { verbose = true }
      else if opt == b'w'
      then record flags { werbose = true }
      else flags) in
    if opt == b'h' then none else rest

-- How the command line leaves `main`, or the file to read.
pub data Command : Type 0 where
  help : Command
  no_argument : Command
  bad_name : NameCheck → Command
  run_on : List ℕ → Flags → Command

-- The test of a name in front of what comes next.
unfoldable pub guard_name : NameCheck → Command → Command
guard_name name_ok next = next
guard_name unrecognized next = bad_name unrecognized
guard_name (unsupported dot) next = bad_name (unsupported dot)

-- The arguments behind the options.
unfoldable pub read_names : List (List ℕ) → ℕ → Flags → Command
unfolding guard_name
read_names argv optind flags =
    let in_fname = get_or argv optind [] in
    if optind == length argv
    then no_argument
    else guard_name (fname_ok in_fname) (
        if optind + 2 == length argv
        then guard_name (fname_ok (get_or argv (optind + 1) [])) (run_on in_fname flags)
        else run_on in_fname flags)

unfoldable pub command_line : List (List ℕ) → GetOpt → Command
unfolding read_opts read_names
command_line argv found =
    elim (read_opts found.opts (record { verbose = false; werbose = false })) [
      | none ↦ help
      | some flags ↦ read_names argv found.optind flags
    ]

-- How `main` ends: `returned` is `EXIT_SUCCESS` with the object read and the one minimized.
pub data Outcome : Type 0 where
  exited : Command → Outcome
  returned : Reading → TwoLvl32 → Outcome

-- Reading the file and minimizing it; `none` when this does not return.
unfoldable pub minimize_file :
    HashOrder → (List ℕ → Option (List ℕ)) → TwoLvl32 → List ℕ → Option Outcome
minimize_file o files fresh in_fname = do
  original ← read_pla fresh (files in_fname)
  result ← exorcise o original.two_lvl
  some (returned original result)

unfoldable pub run_command :
    HashOrder → (List ℕ → Option (List ℕ)) → TwoLvl32 → Command → Option Outcome
unfolding minimize_file
run_command o files fresh help = some (exited help)
run_command o files fresh no_argument = some (exited no_argument)
run_command o files fresh (bad_name check) = some (exited (bad_name check))
run_command o files fresh (run_on in_fname flags) = minimize_file o files fresh in_fname

unfoldable pub exorcism_main :
    HashOrder → (List ℕ → Option (List ℕ)) → TwoLvl32 → List (List ℕ) → GetOpt → Option Outcome
unfolding command_line run_command
exorcism_main o files fresh argv found = run_command o files fresh (command_line argv found)

-- The command line of source/main.cpp, with the option `h` alone.
unfoldable pub asks_help : List ℕ → Bool
asks_help [] = false
asks_help (opt ∷ opts) = opt == b'h' || asks_help opts

unfoldable pub stats_command : List (List ℕ) → GetOpt → Command
unfolding asks_help guard_name
stats_command argv found =
    let in_fname = get_or argv found.optind [] in
    if asks_help found.opts
    then help
    else if found.optind == length argv
    then no_argument
    else guard_name (aig_fname_ok in_fname)
        (run_on in_fname (record { verbose = false; werbose = false }))

-- The exit status of a command line that ends `main`.
unfoldable pub exit_status : Command → ℕ
exit_status help = 0
exit_status no_argument = 1
exit_status (bad_name check) = 1
exit_status (run_on in_fname flags) = 0

-- ===== src/Tools/Examples.antt =====
-- The tools at small command lines.
use losys.Pla.Decimal.{read_unsigned}
use mathlib.Core.List.Permᴰ
use losys.Base.{ℕ, List, [], ◌∷◌, ◌++◌, ◌≡◌, ◌↔◌, ◌⊎◌, refl, some, Returns, arith, true, false}
use losys.Kernel.CubeSet.{HashOrder}
use losys.Kernel.TwoLvl32.{undef, TwoLvl32}
use losys.Pla.Stream.{peek, char_at, getline, filled}
use losys.Pla.Chars.{at, IsFreeOf}
use losys.Pla.Read.{Header, read_pla_header}
use losys.Tools.FileNames.{name_ok, unsupported, fname_ok, aig_fname_ok, is_fname_ok, extrac_fname}
use losys.Tools.FileNames.Laws.{
  with_period, fname_ok_iff, aig_fname_ok-is_fname_ok, extrac_fname-parts,
}
use losys.Tools.Exorcism.{GetOpt, Command, help, run_on, exorcism_main, command_line, stats_command}
use losys.Tools.Exorcism.CommandLine.{has, flags_of, AreNames, command_line-AreNames}
use losys.Tools.Exorcism.Correct.{Minimizes, exorcism_main-Minimizes}

-- New elements come first.
abbrev front : HashOrder
front = record { place = λ c s. c ∷ s; place_perm = λ c s. Permᴰ.refl (c ∷ s) }

-- `a.pla`
abbrev in_name : List ℕ
in_name = b'a' ∷ b'.' ∷ b'p' ∷ b'l' ∷ b'a' ∷ []

-- `d/a.aig`
abbrev aig_path : List ℕ
aig_path = b'd' ∷ b'/' ∷ b'a' ∷ b'.' ∷ b'a' ∷ b'i' ∷ b'g' ∷ []

names_checked :
    (fname_ok in_name ≡ name_ok)
    × (aig_fname_ok in_name ≡ unsupported (b'.' ∷ b'p' ∷ b'l' ∷ b'a' ∷ []))
    × (is_fname_ok in_name ≡ unsupported (b'p' ∷ b'l' ∷ b'a' ∷ []))
    × (extrac_fname aig_path ≡ b'a' ∷ b'.' ∷ b'a' ∷ b'i' ∷ b'g' ∷ [])
unfolding fname_ok aig_fname_ok is_fname_ok extrac_fname
names_checked = (refl, refl, refl, refl)

fname_ok_iff_example :
    (fname_ok in_name ≡ name_ok)
    ↔ ((base : List ℕ) × (in_name ≡ base ++ (b'.' ∷ b'p' ∷ b'l' ∷ b'a' ∷ [])))
fname_ok_iff_example = fname_ok_iff in_name

aig_fname_ok-is_fname_ok_example : aig_fname_ok aig_path ≡ with_period (is_fname_ok aig_path)
aig_fname_ok-is_fname_ok_example = aig_fname_ok-is_fname_ok aig_path

extrac_fname-parts_example :
    IsFreeOf b'/' (extrac_fname aig_path)
    × ((aig_path ≡ extrac_fname aig_path)
        ⊎ ((folder : List ℕ) × (aig_path ≡ folder ++ (b'/' ∷ extrac_fname aig_path))))
extrac_fname-parts_example = extrac_fname-parts aig_path

-- `exorcism -v a.pla`
abbrev argv : List (List ℕ)
argv = (b'e' ∷ []) ∷ (b'-' ∷ b'v' ∷ []) ∷ in_name ∷ []

abbrev found : GetOpt
found = record { opts = b'v' ∷ []; optind = 2 }

command_line-AreNames_example : (command_line argv found ≡ run_on in_name (flags_of true false)) ↔ (
    (has b'h' found.opts ≡ false)
    × (flags_of true false ≡ flags_of (has b'v' found.opts) (has b'w' found.opts))
    × AreNames argv found.optind in_name)
command_line-AreNames_example = command_line-AreNames argv found in_name (flags_of true false)

line_read : command_line argv found ≡ run_on in_name (flags_of true false)
unfolding command_line fname_ok
line_read = refl

-- The help option wins over a bad name, and source/main.cpp wants an AIG.
other_lines :
    (command_line argv (record { opts = b'v' ∷ b'h' ∷ []; optind = 1 }) ≡ help)
    × (stats_command argv found ≡ Command.bad_name (unsupported (b'.' ∷ b'p' ∷ b'l' ∷ b'a' ∷ [])))
unfolding command_line stats_command aig_fname_ok
other_lines = (refl, refl)

-- A row of one input, one output.
abbrev text : List ℕ
text =
    b'.' ∷ b'i' ∷ b' ' ∷ b'1' ∷ b'\n' ∷ b'.' ∷ b'o' ∷ b' ' ∷ b'1' ∷ b'\n' ∷ b'1' ∷ b' ' ∷ b'1'
    ∷ b'\n' ∷ b'.' ∷ b'e' ∷ b'\n' ∷ []

abbrev header : Header
header = record { n_inputs = 1; n_outputs = 1; n_terms = 0; kind_name = [] }

header_read :
    read_pla_header (filled text)
    ≡ some (header, at (b'1' ∷ b' ' ∷ b'1' ∷ b'\n' ∷ b'.' ∷ b'e' ∷ b'\n' ∷ []))
unfolding read_pla_header filled peek char_at getline read_unsigned
header_read = refl

abbrev fresh : TwoLvl32
fresh = record { kind = undef; n_inputs = 77; cubes = [] }

exorcism_main-Minimizes_example :
    Returns (exorcism_main front (λ name. some text) fresh argv found) (Minimizes header)
exorcism_main-Minimizes_example =
    exorcism_main-Minimizes front (λ name. some text) fresh argv found in_name (flags_of true false)
      text header (at (b'1' ∷ b' ' ∷ b'1' ∷ b'\n' ∷ b'.' ∷ b'e' ∷ b'\n' ∷ [])) line_read refl refl
      header_read (omega arith) (omega arith)

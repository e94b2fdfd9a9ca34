-- ===== src/Pla/Examples.antt =====
-- Runs of the reader and the writer, and their theorems at small files.
use losys.Base.{
  false, ℕ, ◌+◌, ◌≤◌, List, [], ◌∷◌, ◌≡◌, refl, none, some, Returns, map, length, arith,
}
use losys.Kernel.Cube32.{add_lit, Cube32, cube32, str}
use losys.Kernel.Cube32.Meaning.{IsCube-by}
use losys.Kernel.TwoLvl32.{esop, undef, TwoLvl32, set_kind, set_n_inputs, set_n_outputs, add_cube}
use losys.Pla.Stream.{good, filled, peek, getline, char_at}
use losys.Pla.Decimal.{decimal, read_unsigned}
use losys.Pla.Chars.{at}
use losys.Pla.Read.{Header, Stop, read_cubes, read_pla, read_pla_header, header_lines}
use losys.Pla.Write.{write_pla, write_esop}
use losys.Pla.Rows.{Row, IsRow, rows_text, add_rows}
use losys.Pla.RoundTrip.{reading_of, read_pla-write_pla}
use losys.Pla.WellFormed.{IsReading, read_pla-IsReading}
use losys.Pla.Progress.{left}
use losys.Pla.HeaderBounds.{IsHeader, read_pla_header-IsHeader}
use losys.Pla.Header.{header_lines-comment}
use losys.Pla.Stops.{Last, read_cubes-IsStop, read_cubes-runs_on}

abbrev fresh : TwoLvl32
fresh = record { kind = undef; n_inputs = 77; cubes = [] }

-- x0 x1' + x2 and the constant 0, over three inputs.
abbrev two_cubes : List Cube32
two_cubes = cube32 3 1 ∷ cube32 4 4 ∷ []

abbrev two_outputs : TwoLvl32
two_outputs = record { kind = esop; n_inputs = 3; cubes = two_cubes ∷ [] ∷ [] }

two_cubes_text :
    write_esop 3 two_cubes
    ≡ b'.' ∷ b'i' ∷ b' ' ∷ b'3' ∷ b'\n' ∷ b'.' ∷ b'o' ∷ b' ' ∷ b'1' ∷ b'\n' ∷ b'.' ∷ b'p' ∷ b' '
      ∷ b'2' ∷ b'\n' ∷ b'1' ∷ b'0' ∷ b'-' ∷ b' ' ∷ b'1' ∷ b'\n' ∷ b'-' ∷ b'-' ∷ b'1' ∷ b' ' ∷ b'1'
      ∷ b'\n' ∷ b'.' ∷ b'e' ∷ b'\n' ∷ []
unfolding write_esop decimal str
two_cubes_text = refl

long_number :
    decimal 4294967295 ≡ b'4' ∷ b'2' ∷ b'9' ∷ b'4' ∷ b'9' ∷ b'6' ∷ b'7' ∷ b'2' ∷ b'9' ∷ b'5' ∷ []
unfolding decimal
long_number = refl

-- An overflow is a failure of the stream, and a minus sign negates.
odd_numbers :
    ((read_unsigned
        (at (b'4' ∷ b'2' ∷ b'9' ∷ b'4' ∷ b'9' ∷ b'6' ∷ b'7' ∷ b'2' ∷ b'9' ∷ b'6' ∷ b'\n' ∷ []))
        7).0
      ≡ 4294967295)
    × ((read_unsigned (at (b' ' ∷ b'-' ∷ b'1' ∷ b'\n' ∷ [])) 7).0 ≡ 4294967295)
    × ((read_unsigned (at (b'x' ∷ [])) 7).0 ≡ 0)
    × ((read_unsigned (at []) 7).0 ≡ 7)
unfolding read_unsigned good
odd_numbers = (refl, refl, refl, refl)

read_pla-write_pla_example :
    map (λ file. read_pla fresh (some file.content)) (write_pla (b'f' ∷ []) two_outputs)
    ≡ map (λ es. some (reading_of 3 es)) two_outputs.cubes
read_pla-write_pla_example = read_pla-write_pla fresh (b'f' ∷ []) two_outputs refl (omega arith) (
  (
    omega arith,
    (
      IsCube-by 3 (cube32 3 1) (omega arith) refl,
      (IsCube-by 3 (cube32 4 4) (omega arith) refl, tt),
    ),
  ),
  ((omega arith, tt), tt),
)

-- `.i 2`, `.o 2`, `.type esop` and a row.
abbrev small_file : List ℕ
small_file =
    b'.' ∷ b'i' ∷ b' ' ∷ b'2' ∷ b'\n' ∷ b'.' ∷ b'o' ∷ b' ' ∷ b'2' ∷ b'\n' ∷ b'.' ∷ b't' ∷ b' '
    ∷ b'E' ∷ b's' ∷ b'o' ∷ b'p' ∷ b'\n' ∷ b'1' ∷ b'-' ∷ b' ' ∷ b'0' ∷ b'1' ∷ b'\n' ∷ b'.' ∷ b'e'
    ∷ b'\n' ∷ []

abbrev small_header : Header
small_header = record {
  n_inputs = 2;
  n_outputs = 2;
  n_terms = 0;
  kind_name = b'e' ∷ b's' ∷ b'o' ∷ b'p' ∷ [];
}

abbrev small_rest : List ℕ
small_rest = b'1' ∷ b'-' ∷ b' ' ∷ b'0' ∷ b'1' ∷ b'\n' ∷ b'.' ∷ b'e' ∷ b'\n' ∷ []

small_header_read : read_pla_header (filled small_file) ≡ some (small_header, at small_rest)
unfolding read_pla_header filled peek char_at getline read_unsigned
small_header_read = refl

small_file_read :
    read_pla fresh (some small_file)
    ≡ some (record {
      two_lvl = record { kind = esop; n_inputs = 2; cubes = [] ∷ (cube32 1 1 ∷ []) ∷ [] };
      n_cubes = 1;
      stop = Stop.end_directive;
    })
unfolding read_pla filled peek char_at getline read_unsigned set_n_outputs set_n_inputs set_kind
    add_cube add_lit
small_file_read = refl

read_pla-IsReading_example : Returns (read_pla fresh (some small_file)) (IsReading small_header)
read_pla-IsReading_example =
    read_pla-IsReading fresh small_file small_header (at small_rest) refl small_header_read
      (omega arith) (omega arith)

read_pla_header-IsHeader_example :
    Returns
      (read_pla_header (filled small_file))
      (λ r. IsHeader r.0 × (left r.1 ≤ length small_file))
read_pla_header-IsHeader_example = read_pla_header-IsHeader small_file

-- Two rows.
abbrev rows : List Row
rows =
    record { input = b'1' ∷ b'-' ∷ []; output = b'1' ∷ [] }
    ∷ record { input = b'0' ∷ b'0' ∷ []; output = b'1' ∷ [] }
    ∷ []

rows-IsRow :
    IsRow 2 1 (record { input = b'1' ∷ b'-' ∷ []; output = b'1' ∷ [] })
    × (IsRow 2 1 (record { input = b'0' ∷ b'0' ∷ []; output = b'1' ∷ [] }) × Unit {0})
unfolding char_at
rows-IsRow = (
  record {
    no_space = (refl, (refl, tt));
    no_newline = (refl, tt);
    inputs = refl;
    outputs = refl;
    no_period = refl;
  },
  (
    record {
      no_space = (refl, (refl, tt));
      no_newline = (refl, tt);
      inputs = refl;
      outputs = refl;
      no_period = refl;
    },
    tt,
  ),
)

abbrev one_output : TwoLvl32
one_output = record { kind = undef; n_inputs = 2; cubes = [] ∷ [] }

-- `.e` with the text ending behind it.
end_stops : (char_at (b'.' ∷ b'e' ∷ []) 0 ≡ b'.') × (char_at (b'.' ∷ b'e' ∷ []) 1 ≡ b'e')
unfolding char_at
end_stops = (refl, refl)

read_cubes-IsStop_example :
    read_cubes 2 1 9 (at (rows_text rows (b'.' ∷ b'e' ∷ []))) one_output 0
    ≡ some
        (record { two_lvl = add_rows rows one_output; n_cubes = 0 + 2; stop = Stop.end_directive })
read_cubes-IsStop_example =
    read_cubes-IsStop 2 1 9 rows (Last.no_output (b'.' ∷ b'e' ∷ [])) one_output 0 Stop.end_directive
      (omega arith) rows-IsRow (refl, (refl, tt)) tt end_stops

-- An empty file.
empty_is_bad : good (filled []) ≡ false
unfolding good filled
empty_is_bad = refl

read_cubes-runs_on_example : read_cubes 0 0 9 (filled []) fresh 0 ≡ none
read_cubes-runs_on_example = read_cubes-runs_on 9 (filled []) fresh 0 empty_is_bad

-- A comment without a space takes the line `.i 3` behind it.
header_lines-comment_example :
    header_lines 3
      (at (b'#' ∷ b'a' ∷ b'\n' ∷ b'.' ∷ b'i' ∷ b' ' ∷ b'3' ∷ b'\n' ∷ b'1' ∷ []))
      small_header
    ≡ header_lines 2 (at (b'1' ∷ [])) small_header
header_lines-comment_example =
    header_lines-comment 2 (b'a' ∷ b'\n' ∷ b'.' ∷ b'i' ∷ []) (b'3' ∷ []) (b'1' ∷ []) small_header
      (refl, (refl, (refl, (refl, tt)))) (refl, tt)

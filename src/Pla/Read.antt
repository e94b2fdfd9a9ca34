-- ===== src/Pla/Read.antt =====
-- source/io/read_pla.hpp: the parser of a PLA file.
use losys.Base.{
  ℕ, zero, suc, ◌+◌, Bool, true, false, ◌&&◌, not, ◌==◌, ltb, if◌then◌else◌, Option, none, some,
  ◌>>=◌, List, [], map, length,
}
use losys.Kernel.TwoLvl32.{TwoLvl32, set_kind, set_n_inputs, set_n_outputs, add_cube}
use losys.Pla.Stream.{Stream, filled, peek, getline, char_at}
use losys.Pla.Decimal.{read_unsigned}

-- The variables of `read_pla_header`.
pub record Header : Type 0 where
  pub n_inputs : ℕ
  pub n_outputs : ℕ
  pub n_terms : ℕ
  pub kind_name : List ℕ

-- The numbers that `.i`, `.o` and `.p` declare, by the second byte of the line.
unfoldable pub read_number : ℕ → Stream → Header → Header × Stream
read_number c s h =
    if c == b'i'
    then (let (n, s') = read_unsigned s h.n_inputs in (record h { n_inputs = n }, s'))
    else if c == b'o'
    then (let (n, s') = read_unsigned s h.n_outputs in (record h { n_outputs = n }, s'))
    else if c == b'p'
    then (let (n, s') = read_unsigned s h.n_terms in (record h { n_terms = n }, s'))
    else (h, s)

-- A line that starts with a period, whose text up to the first space is `line`.
unfoldable pub read_directive : List ℕ → Stream → Header → Header × Stream
unfolding read_number
read_directive line s h =
    let (h', s') = read_number (char_at line 1) s h in
    if char_at line 1 == b't'
    then (let (kind_name, t) = getline b'\n' s' h'.kind_name in
        (record h' { kind_name = kind_name }, t))
    else (h', (getline b'\n' s' line).1)

-- The body of the loop.
unfoldable pub header_line : Stream → Header → Header × Stream
unfolding read_directive
header_line s h =
    let (line, s') = getline b' ' s [] in
    if char_at line 0 == b'#'
    then (h, (getline b'\n' s' line).1)
    else if char_at line 0 == b'.'
    then read_directive line s' h
    else (h, s')

unfoldable pub is_byte : ℕ → Option ℕ → Bool
is_byte byte none = false
is_byte byte (some c) = c == byte

-- The condition of the loop, whose second `peek` is called when the first one shows no period.
unfoldable pub header_condition : Stream → Bool × Stream
unfolding is_byte
header_condition s =
    let (next, s') = peek s in
    let (again, s'') = peek s' in
    if is_byte b'.' next then (true, s') else (is_byte b'#' again, s'')

-- The loop; `none` when the fuel runs out.
unfoldable pub header_lines : ℕ → Stream → Header → Option (Header × Stream)
unfolding header_line header_condition
header_lines zero s h = none
header_lines (suc fuel) s h =
    let (more, s') = header_condition s in
    let (h', t) = header_line s' h in
    let rest = header_lines fuel t h' in if more then rest else some (h, s')

-- `std::tolower` in the C locale.
unfoldable pub tolower : ℕ → ℕ
tolower c = if not (ltb c b'A') && not (ltb b'Z' c) then c + 32 else c

unfoldable pub read_pla_header : Stream → Option (Header × Stream)
unfolding header_lines tolower
read_pla_header s = do
  (h, s') ←
      header_lines (suc (length s.rest)) s
        (record { n_inputs = 0; n_outputs = 0; n_terms = 0; kind_name = [] })
  some (record h { kind_name = map tolower h.kind_name }, s')

-- What stops the reader.
pub data Stop : Type 0 where
  end_directive bad_input bad_output not_open : Stop

pub record Reading : Type 0 where
  pub two_lvl : TwoLvl32
  pub n_cubes : ℕ
  pub stop : Stop

-- The loop over the rows; `none` when the fuel runs out.
unfoldable pub read_cubes : ℕ → ℕ → ℕ → Stream → TwoLvl32 → ℕ → Option Reading
read_cubes n_inputs n_outputs zero s f n_cubes = none
read_cubes n_inputs n_outputs (suc fuel) s f n_cubes =
    let (input, s1) = getline b' ' s [] in
    let (output, s2) = getline b'\n' s1 [] in
    let rest = read_cubes n_inputs n_outputs fuel s2 (add_cube input output f) (n_cubes + 1) in
    if char_at input 0 == b'.' && char_at input 1 == b'e'
    then some (record { two_lvl = f; n_cubes = n_cubes; stop = end_directive })
    else if not (length input == n_inputs)
    then some (record { two_lvl = f; n_cubes = n_cubes; stop = bad_input })
    else if not (length output == n_outputs)
    then some (record { two_lvl = f; n_cubes = n_cubes; stop = bad_output })
    else rest

-- The object that `read_pla` declares, with the values of the header.
unfoldable pub declared : Header → TwoLvl32 → TwoLvl32
declared h f = set_n_outputs h.n_outputs (set_n_inputs h.n_inputs (set_kind h.kind_name f))

-- `read_pla` on the bytes of a file, or on `none` when the file does not open. `fresh` is the object
-- before anything is assigned to it.
unfoldable pub read_pla : TwoLvl32 → Option (List ℕ) → Option Reading
unfolding read_pla_header read_cubes declared
read_pla fresh none = some (record { two_lvl = fresh; n_cubes = 0; stop = not_open })
read_pla fresh (some text) = do
  (h, s) ← read_pla_header (filled text)
  read_cubes h.n_inputs h.n_outputs (suc (suc (length s.rest))) s (declared h fresh) 0

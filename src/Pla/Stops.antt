-- ===== src/Pla/Stops.antt =====
-- Where the loop over the rows stops, and when it never does.
use losys.Base.{
  ap, ℕ, zero, suc, ◌+◌, ◌<◌, true, false, ◌&&◌, ◌==◌, ==_self, none, some, List, [], ◌∷◌, ◌++◌,
  All, length, ◌≡◌, ◌≢◌, refl, ◌∙◌, arith,
}
use losys.Kernel.TwoLvl32.{TwoLvl32, add_cube}
use losys.Pla.Stream.{Stream, good, is_end, split_at, end_line, getline, char_at}
use losys.Pla.Chars.{at, IsFreeOf, getline-append}
use losys.Pla.Rows.{Row, IsRow, rows_text, add_rows, read_rows, read_cubes-more}
use losys.Pla.Read.{not_open, Stop, end_directive, bad_input, bad_output, read_cubes}

-- The text behind the rows, up to where the reader looks: it ends before a space, or behind a space
-- and before the end of the line, or there is a whole line with more text behind it.
pub data Last : Type 0 where
  no_output : List ℕ → Last
  unended : List ℕ → List ℕ → Last
  whole : List ℕ → List ℕ → List ℕ → Last

abbrev pub text_of : Last → List ℕ
text_of (no_output input) = input
text_of (unended input output) = input ++ (b' ' ∷ output)
text_of (whole input output rest) = input ++ (b' ' ∷ (output ++ (b'\n' ∷ rest)))

abbrev pub line_of : Last → Row
line_of (no_output input) = record { input = input; output = [] }
line_of (unended input output) = record { input = input; output = output }
line_of (whole input output rest) = record { input = input; output = output }

-- What the reader finds wrong with a line, first of all that it is the end.
abbrev pub IsStop : ℕ → ℕ → Row → Stop → Type 0
IsStop n m line end_directive = (char_at line.input 0 ≡ b'.') × (char_at line.input 1 ≡ b'e')
IsStop n m line bad_input =
    ((char_at line.input 0 == b'.' && char_at line.input 1 == b'e') ≡ false)
    × (length line.input ≢ n)
IsStop n m line bad_output =
    ((char_at line.input 0 == b'.' && char_at line.input 1 == b'e') ≡ false)
    × (length line.input ≡ n)
    × (length line.output ≢ m)
IsStop n m line not_open = ⊥

-- `getline` reads to the end of the text when there is no delimiter.
split_at-free : (d : ℕ) (line : List ℕ) → IsFreeOf d line → split_at d line ≡ (line, none)
unfolding split_at
split_at-free d [] h = refl
split_at-free d (c ∷ line) h = rw (h.0, split_at-free d line h.1) refl

getline-free :
    (d : ℕ) (line old : List ℕ)
    → IsFreeOf d line
    → getline d (at line) old ≡ (line, record { rest = []; eof = true; fail = is_end line })
unfolding getline good end_line
getline-free d line old h = ap end_line (split_at-free d line h)

-- What the loop reads of the text behind the rows.
input-line_of :
    (last : Last)
    → IsFreeOf b' ' (line_of last).input
    → (getline b' ' (at (text_of last)) []).0 ≡ (line_of last).input
input-line_of (no_output input) free = ap (λ r. r.0) (getline-free b' ' input [] free)
input-line_of (unended input output) free = ap (λ r. r.0) (getline-append b' ' input output [] free)
input-line_of (whole input output rest) free =
    ap (λ r. r.0) (getline-append b' ' input (output ++ (b'\n' ∷ rest)) [] free)

output-line_of :
    (last : Last)
    → IsFreeOf b' ' (line_of last).input
    → IsFreeOf b'\n' (line_of last).output
    → (getline b'\n' (getline b' ' (at (text_of last)) []).1 []).0 ≡ (line_of last).output
output-line_of (no_output input) free free' =
    rw (getline-free b' ' input [] free) (unfold getline good in refl)
output-line_of (unended input output) free free' =
    rw (getline-append b' ' input output [] free, getline-free b'\n' output [] free') refl
output-line_of (whole input output rest) free free' =
    rw
      (
        getline-append b' ' input (output ++ (b'\n' ∷ rest)) [] free,
        getline-append b'\n' output rest [] free',
      )
      refl

stop_line :
    (n m fuel : ℕ) (last : Last) (f : TwoLvl32) (k : ℕ) (stop : Stop)
    → IsFreeOf b' ' (line_of last).input
    → IsFreeOf b'\n' (line_of last).output
    → IsStop n m (line_of last) stop
    → read_cubes n m (suc fuel) (at (text_of last)) f k
      ≡ some (record { two_lvl = f; n_cubes = k; stop = stop })
unfolding read_cubes
stop_line n m fuel last f k end_directive free free' (p, q) =
    let line = line_of last in
    let t : (char_at line.input 0 == b'.' && char_at line.input 1 == b'e') ≡ true = ground arith in
    rw (input-line_of last free, t) refl
stop_line n m fuel last f k bad_input free free' (p, q) =
    let t : (length (line_of last).input == n) ≡ false = ground arith in
    rw (input-line_of last free, p, t) refl
stop_line n m fuel last f k bad_output free free' (p, q, r) =
    let t : (length (line_of last).input == n) ≡ true = ground (arith, q, ==_self n) in
    let u : (length (line_of last).output == m) ≡ false = ground arith in
    rw (input-line_of last free, output-line_of last free free', p, t, u) refl
stop_line n m fuel last f k not_open free free' h = absurd h

-- Behind rows that are written well, each with the end of its line, the loop stops at the text that
-- is next when its line is the end or has the wrong number of inputs or outputs; the text may end
-- before the space of this line or before the end of it, as it does behind a last `.e`. The loop
-- returns the cubes of the rows before it and what it has found, and reads nothing behind this line.
pub read_cubes-IsStop :
    (n m fuel : ℕ) (rows : List Row) (last : Last) (f : TwoLvl32) (k : ℕ) (stop : Stop)
    → length rows < fuel
    → All (IsRow n m) rows
    → IsFreeOf b' ' (line_of last).input
    → IsFreeOf b'\n' (line_of last).output
    → IsStop n m (line_of last) stop
    → read_cubes n m fuel (at (rows_text rows (text_of last))) f k
      ≡ some (record { two_lvl = add_rows rows f; n_cubes = k + length rows; stop = stop })
read_cubes-IsStop n m fuel rows last f k stop lt h free free' st =
    read_cubes-more n m (length rows + 1) fuel (at (rows_text rows (text_of last))) f k _
      (omega arith)
      (read_rows n m (length rows + 1) 1 rows (text_of last) f k h refl
        ∙ stop_line n m 0 last (add_rows rows f) (k + length rows) stop free free' st)

getline-bad :
    (d : ℕ) (s : Stream) → good s ≡ false → getline d s [] ≡ ([], record s { fail = true })
unfolding getline
getline-bad d s g = rw g refl

stays_bad : (s : Stream) → good (record s { fail = true }) ≡ false
unfolding good
stays_bad s = ground arith

-- At the end of the text, with no input and no output declared, the loop takes the empty text for a
-- row again and again: no number of rounds ends it.
pub read_cubes-runs_on :
    (fuel : ℕ) (s : Stream) (f : TwoLvl32) (k : ℕ)
    → good s ≡ false
    → read_cubes 0 0 fuel s f k ≡ none
unfolding read_cubes char_at
read_cubes-runs_on zero s f k g = refl
read_cubes-runs_on (suc fuel) s f k g =
    let s1 : Stream = record s { fail = true } in
    rw (getline-bad b' ' s g, getline-bad b'\n' s1 (stays_bad s))
      (read_cubes-runs_on fuel s1 (add_cube [] [] f) (k + 1) (stays_bad s))

-- ===== src/Pla/RoundTrip.antt =====
-- Reading a file that the writer has written.
use losys.Pla.Header.{read_pla_header-rows, read_pla_header-end}
use losys.Pla.Stream.{filled, good, getline, char_at}
use losys.Pla.Read.{
  Stop, Reading, read_cubes, read_pla, declared, bad_input, bad_output, end_directive,
}
use losys.Base.{
  false, ◌==◌, true, zero, ◌<◌, ◌^◌, some, length-append, ◌+◌, ℕ, suc, ◌≤◌, List, [], ◌∷◌, ◌++◌,
  All, length, map, ◌≡◌, refl, ap, ◌∙◌, sym, arith,
}
use mathlib.Core.List.{append-nil, append_assoc}
use losys.Kernel.Cube32.{Cube32, str}
use losys.Kernel.Cube32.Meaning.{IsCube}
use losys.Kernel.CubeSet.Laws.{IsCubes}
use losys.Kernel.TwoLvl32.{
  set_kind, set_n_inputs, set_n_outputs, TwoLvl32, undef, add_cube, push_marked,
}
use losys.Kernel.TwoLvl32.Text.{cube_of-str}
use losys.Pla.Chars.{at, str-IsFreeOf, str-first, length-str}
use losys.Pla.Rows.{read_rows, read_cubes-more, read_end, Row, IsRow, rows_text, add_rows}
use losys.Pla.Write.{write_files, write_pla, write_esop, write_rows}

abbrev row_of : ℕ → Cube32 → Row
row_of n c = record { input = str n c; output = b'1' ∷ [] }

row_of-IsRow : (n : ℕ) (c : Cube32) → IsRow n 1 (row_of n c)
row_of-IsRow n c = record {
  no_space = str-IsFreeOf n c;
  no_newline = (refl, tt);
  inputs = length-str n c;
  outputs = refl;
  no_period = ground (arith, str-first n c);
}

rows_of-IsRow : (n : ℕ) (es : List Cube32) → All (IsRow n 1) (map (row_of n) es)
rows_of-IsRow n [] = tt
rows_of-IsRow n (c ∷ es) = (row_of-IsRow n c, rows_of-IsRow n es)

length-rows_of : (n : ℕ) (es : List Cube32) → length (map (row_of n) es) ≡ length es
length-rows_of n [] = refl
length-rows_of n (c ∷ es) = ap suc (length-rows_of n es)

write_rows-text :
    (n : ℕ) (es : List Cube32) (rest : List ℕ)
    → write_rows n es ++ rest ≡ rows_text (map (row_of n) es) rest
unfolding write_rows
write_rows-text n [] rest = refl
write_rows-text n (c ∷ es) rest =
    append_assoc (str n c) (b' ' ∷ b'1' ∷ b'\n' ∷ write_rows n es) rest
    ∙ ap (λ t. str n c ++ (b' ' ∷ b'1' ∷ b'\n' ∷ t)) (write_rows-text n es rest)

-- The object that is read: the kind is not written.
abbrev pub single : ℕ → List Cube32 → TwoLvl32
single n es = record { kind = undef; n_inputs = n; cubes = es ∷ [] }

add_row :
    (n : ℕ) (c : Cube32) (es : List Cube32)
    → n ≤ 32
    → IsCube n c
    → add_cube (str n c) (b'1' ∷ []) (single n es) ≡ single n (es ++ (c ∷ []))
unfolding add_cube push_marked
add_row n c es le k = rw (cube_of-str n c le k) refl

add_rows-single :
    (n : ℕ) (cs es : List Cube32)
    → n ≤ 32
    → IsCubes n cs
    → add_rows (map (row_of n) cs) (single n es) ≡ single n (es ++ cs)
add_rows-single n [] es le h = ap (single n) (sym (append-nil es))
add_rows-single n (c ∷ cs) es le (k, h) =
    ap (add_rows (map (row_of n) cs)) (add_row n c es le k)
    ∙ add_rows-single n cs (es ++ (c ∷ [])) le h
    ∙ ap (single n) (append_assoc es (c ∷ []) cs)

-- What stops the reader on a written file: without a cube the header has taken the line `.e`.
abbrev pub stop_after : ℕ → List Cube32 → Stop
stop_after zero [] = bad_output
stop_after (suc n) [] = bad_input
stop_after n (c ∷ es) = end_directive

abbrev pub reading_of : ℕ → List Cube32 → Reading
reading_of n es = record { two_lvl = single n es; n_cubes = length es; stop = stop_after n es }

no_cubes :
    (n : ℕ)
    → read_cubes n 1 2 (record { rest = []; eof = true; fail = true }) (single n []) 0
      ≡ some (reading_of n [])
unfolding read_cubes getline good char_at
no_cubes zero = refl
no_cubes (suc n) = let e : (0 == suc n) ≡ false = ground arith in rw e refl

length-rows_text :
    (rows : List Row) (rest : List ℕ) → length rows + length rest ≤ length (rows_text rows rest)
length-rows_text [] rest = omega arith
length-rows_text (row ∷ rows) rest = omega (
  arith,
  length-rows_text rows rest,
  length-append row.input (b' ' ∷ (row.output ++ (b'\n' ∷ rows_text rows rest))),
  length-append row.output (b'\n' ∷ rows_text rows rest),
)

some_cubes :
    (n : ℕ) (es : List Cube32)
    → n ≤ 32
    → IsCubes n es
    → let text = rows_text (map (row_of n) es) (b'.' ∷ b'e' ∷ b'\n' ∷ []) in
      read_cubes n 1 (suc (suc (length text))) (at text) (single n []) 0
      ≡ some (record { two_lvl = single n es; n_cubes = length es; stop = end_directive })
some_cubes n es le k =
    let rows : List Row = map (row_of n) es in
    let end_line : List ℕ = b'.' ∷ b'e' ∷ b'\n' ∷ [] in
    let text : List ℕ = rows_text rows end_line in
    let count : 0 + length rows ≡ length es = omega (arith, length-rows_of n es) in
    read_cubes-more n 1 (length es + 1) (suc (suc (length text))) (at text) (single n []) 0 _
      (omega (arith, length-rows_text rows end_line, length-rows_of n es))
      (read_rows n 1 (length es + 1) 1 rows end_line (single n []) 0 (rows_of-IsRow n es)
          (omega (arith, length-rows_of n es))
        ∙ read_end n 1 0 (add_rows rows (single n [])) (0 + length rows)
        ∙ rw (add_rows-single n es [] le k, count) refl)

-- Reading what is written for the cubes of an output over at most 32 inputs returns an object with
-- these inputs and this output alone, with the same cubes in the same order.
pub read_pla-write_esop :
    (fresh : TwoLvl32) (n : ℕ) (es : List Cube32)
    → fresh.cubes ≡ []
    → n ≤ 32
    → length es < 2 ^ 32
    → IsCubes n es
    → read_pla fresh (some (write_esop n es)) ≡ some (reading_of n es)
unfolding read_pla write_esop write_rows filled declared set_n_outputs set_n_inputs set_kind
read_pla-write_esop fresh n [] e le lt k =
    rw (read_pla_header-end n 0 (omega arith) (omega arith), e) (no_cubes n)
read_pla-write_esop fresh n (c ∷ es) e le lt k =
    rw (write_rows-text n (c ∷ es) (b'.' ∷ b'e' ∷ b'\n' ∷ [])) (
      rw (read_pla_header-rows n (length (c ∷ es)) (str n c) _ (omega arith) lt (str-first n c), e)
        (some_cubes n (c ∷ es) le k))

read_files :
    (fresh : TwoLvl32) (fname : List ℕ) (n i : ℕ) (cubes : List (List Cube32))
    → fresh.cubes ≡ []
    → n ≤ 32
    → All (λ es. (length es < 2 ^ 32) × IsCubes n es) cubes
    → map (λ file. read_pla fresh (some file.content)) (write_files fname n i cubes)
      ≡ map (λ es. some (reading_of n es)) cubes
unfolding write_files
read_files fresh fname n i [] e le h = refl
read_files fresh fname n i (es ∷ cubes) e le ((lt, k), h) =
    rw (read_pla-write_esop fresh n es e le lt k, read_files fresh fname n (i + 1) cubes e le h)
      refl

-- `write_pla` writes a file for each output of an object over at most 32 inputs, and `read_pla`
-- returns for each of them an object with the same inputs and the cubes of this output, in the same
-- order; each output has fewer than 2 ^ 32 cubes.
pub read_pla-write_pla :
    (fresh : TwoLvl32) (fname : List ℕ) (pla : TwoLvl32)
    → fresh.cubes ≡ []
    → pla.n_inputs ≤ 32
    → All (λ es. (length es < 2 ^ 32) × IsCubes pla.n_inputs es) pla.cubes
    → map (λ file. read_pla fresh (some file.content)) (write_pla fname pla)
      ≡ map (λ es. some (reading_of pla.n_inputs es)) pla.cubes
unfolding write_pla
read_pla-write_pla fresh fname pla e le h = read_files fresh fname pla.n_inputs 0 pla.cubes e le h

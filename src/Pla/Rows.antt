-- ===== src/Pla/Rows.antt =====
-- What the loop over the rows does with rows that are written well, and with the line behind them.
use losys.Base.{
  ℕ, zero, suc, ◌+◌, ◌≤◌, true, false, ◌&&◌, ◌==◌, ==_self, some, List, [], ◌∷◌, ◌++◌, All, ◌≡◌,
  refl, ap, ◌∙◌, arith, Bool-cases, inl, inr, length,
}
use losys.Kernel.TwoLvl32.{TwoLvl32, add_cube}
use losys.Pla.Stream.{Stream, good, getline, split_at, end_line, char_at}
use losys.Pla.Chars.{at, IsFreeOf, getline-append}
use losys.Pla.Read.{Reading, end_directive, read_cubes}

-- A row is its text of inputs and its text of outputs.
pub record Row : Type 0 where
  pub input : List ℕ
  pub output : List ℕ

-- A row that the reader takes as one with `n` inputs and `m` outputs.
pub record IsRow (n m : ℕ) (row : Row) : Type 0 where
  pub no_space : IsFreeOf b' ' row.input
  pub no_newline : IsFreeOf b'\n' row.output
  pub inputs : length row.input ≡ n
  pub outputs : length row.output ≡ m
  pub no_period : (char_at row.input 0 == b'.') ≡ false

-- The text of the rows, with `rest` behind it.
abbrev pub rows_text : List Row → List ℕ → List ℕ
rows_text [] rest = rest
rows_text (row ∷ rows) rest = row.input ++ (b' ' ∷ (row.output ++ (b'\n' ∷ rows_text rows rest)))

abbrev pub add_rows : List Row → TwoLvl32 → TwoLvl32
add_rows [] f = f
add_rows (row ∷ rows) f = add_rows rows (add_cube row.input row.output f)

read_row :
    (n m fuel : ℕ) (row : Row) (text : List ℕ) (f : TwoLvl32) (k : ℕ)
    → IsRow n m row
    → read_cubes n m (suc fuel) (at (row.input ++ (b' ' ∷ (row.output ++ (b'\n' ∷ text))))) f k
      ≡ read_cubes n m fuel (at text) (add_cube row.input row.output f) (k + 1)
unfolding read_cubes
read_row n m fuel row text f k r =
    let p : (length row.input == n) ≡ true = ground (arith, r.inputs, ==_self n) in
    let q : (length row.output == m) ≡ true = ground (arith, r.outputs, ==_self m) in
    rw
      (
        getline-append b' ' row.input (row.output ++ (b'\n' ∷ text)) [] r.no_space,
        getline-append b'\n' row.output text [] r.no_newline,
        r.no_period,
        p,
        q,
      )
      refl

-- Rows that are written well are read one by one.
pub read_rows :
    (n m fuel left : ℕ) (rows : List Row) (rest : List ℕ) (f : TwoLvl32) (k : ℕ)
    → All (IsRow n m) rows
    → fuel ≡ length rows + left
    → read_cubes n m fuel (at (rows_text rows rest)) f k
      ≡ read_cubes n m left (at rest) (add_rows rows f) (k + length rows)
read_rows n m fuel left [] rest f k h e =
    let u : fuel ≡ left = omega arith in
    let w : k ≡ k + 0 = omega arith in
    ap (λ i. read_cubes n m i (at rest) f k) u ∙ ap (read_cubes n m left (at rest) f) w
read_rows n m zero left (row ∷ rows) rest f k h e = absurd (omega arith)
read_rows n m (suc fuel) left (row ∷ rows) rest f k (r, h) e =
    let g = add_cube row.input row.output f in
    let w : k + 1 + length rows ≡ k + length (row ∷ rows) = omega arith in
    read_row n m fuel row (rows_text rows rest) f k r
    ∙ read_rows n m fuel left rows rest g (k + 1) h (omega arith)
    ∙ ap (read_cubes n m left (at rest) (add_rows rows g)) w

-- The line `.e` ends the loop.
pub read_end :
    (n m fuel : ℕ) (f : TwoLvl32) (k : ℕ)
    → read_cubes n m (suc fuel) (at (b'.' ∷ b'e' ∷ b'\n' ∷ [])) f k
      ≡ some (record { two_lvl = f; n_cubes = k; stop = end_directive })
unfolding read_cubes getline good split_at end_line char_at
read_end n m fuel f k = refl

-- More fuel changes nothing.
pub read_cubes-more :
    (n m i fuel : ℕ) (s : Stream) (f : TwoLvl32) (k : ℕ) (r : Reading)
    → i ≤ fuel
    → read_cubes n m i s f k ≡ some r
    → read_cubes n m fuel s f k ≡ some r
unfolding read_cubes
read_cubes-more n m zero fuel s f k r le e = absurd (ground arith)
read_cubes-more n m (suc i) zero s f k r le e = absurd (omega arith)
read_cubes-more n m (suc i) (suc fuel) s f k r le e =
    let input = (getline b' ' s []).0 in
    let output = (getline b'\n' (getline b' ' s []).1 []).0 in
    let s2 = (getline b'\n' (getline b' ' s []).1 []).1 in
    elim (Bool-cases (char_at input 0 == b'.' && char_at input 1 == b'e')) [
      | inl t ↦ rw t (rw t at e)
      | inr t ↦ elim (Bool-cases (length input == n)) [
        | inr u ↦ rw (t, u) (rw (t, u) at e)
        | inl u ↦ elim (Bool-cases (length output == m)) [
          | inr w ↦ rw (t, u, w) (rw (t, u, w) at e)
          | inl w ↦
              rw (t, u, w)
                (read_cubes-more n m i fuel s2 (add_cube input output f) (k + 1) r (omega arith)
                  (rw (t, u, w) at e))
        ]
      ]
    ]

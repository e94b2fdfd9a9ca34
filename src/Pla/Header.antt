-- ===== src/Pla/Header.antt =====
-- What the parser of the header does with the lines that the writer writes.
use losys.Base.{
  length-append, length, ◌∙◌, ◌||◌, ℕ, zero, suc, ◌≤◌, ◌<◌, ◌^◌, true, false, ◌==◌, some, List, [],
  ◌∷◌, ◌++◌, ◌≡◌, refl, arith, Bool-cases, inl, inr,
}
use losys.Pla.Stream.{peek_at, Stream, good, peek, getline, split_at, end_line, char_at}
use losys.Pla.Decimal.{decimal}
use losys.Pla.Decimal.Laws.{read_unsigned-decimal, read_unsigned-one}
use losys.Pla.Chars.{IsFreeOf, getline-append, at}
use losys.Pla.Read.{
  tolower, read_pla_header, Header, header_lines, header_line, read_directive, read_number,
  header_condition, is_byte,
}

-- More fuel changes nothing.
pub header_lines-more :
    (k fuel : ℕ) (s : Stream) (h : Header) (r : Header × Stream)
    → k ≤ fuel
    → header_lines k s h ≡ some r
    → header_lines fuel s h ≡ some r
unfolding header_lines
header_lines-more zero fuel s h r le e = absurd (ground arith)
header_lines-more (suc k) zero s h r le e = absurd (omega arith)
header_lines-more (suc k) (suc fuel) s h r le e = elim (Bool-cases (header_condition s).0) [
  | inl t ↦
      let next = header_line (header_condition s).1 h in
      rw t (header_lines-more k fuel next.1 next.0 r (omega arith) (rw t at e))
  | inr t ↦ rw t (rw t at e)
]

-- The line `.i n`.
inputs_line :
    (fuel n : ℕ) (text : List ℕ) (h : Header)
    → n < 2 ^ 32
    → header_lines (suc fuel) (at (b'.' ∷ b'i' ∷ b' ' ∷ (decimal n ++ (b'\n' ∷ text)))) h
      ≡ header_lines fuel (at text) (record h { n_inputs = n })
unfolding header_lines header_line read_directive read_number header_condition is_byte peek peek_at
    getline good split_at end_line char_at
inputs_line fuel n text h lt = rw (read_unsigned-decimal n h.n_inputs text lt) refl

-- The line `.o 1`.
outputs_line :
    (fuel : ℕ) (text : List ℕ) (h : Header)
    → header_lines (suc fuel) (at (b'.' ∷ b'o' ∷ b' ' ∷ b'1' ∷ b'\n' ∷ text)) h
      ≡ header_lines fuel (at text) (record h { n_outputs = 1 })
unfolding header_lines header_line read_directive read_number header_condition is_byte peek peek_at
    getline good split_at end_line char_at
outputs_line fuel text h = rw (read_unsigned-one h.n_outputs text) refl

-- The line `.p n`.
terms_line :
    (fuel n : ℕ) (text : List ℕ) (h : Header)
    → n < 2 ^ 32
    → header_lines (suc fuel) (at (b'.' ∷ b'p' ∷ b' ' ∷ (decimal n ++ (b'\n' ∷ text)))) h
      ≡ header_lines fuel (at text) (record h { n_terms = n })
unfolding header_lines header_line read_directive read_number header_condition is_byte peek peek_at
    getline good split_at end_line char_at
terms_line fuel n text h lt = rw (read_unsigned-decimal n h.n_terms text lt) refl

-- A row ends the header.
header_end :
    (fuel : ℕ) (line text : List ℕ) (h : Header)
    → (char_at line 0 == b'.' || char_at line 0 == b'#') ≡ false
    → header_lines (suc fuel) (at (line ++ (b' ' ∷ text))) h ≡ some (h, at (line ++ (b' ' ∷ text)))
unfolding header_lines header_condition is_byte peek peek_at good char_at
header_end fuel [] text h p = refl
header_end fuel (c ∷ line) text h p =
    let q : (c == b'.') ≡ false = ground arith in
    let r : (c == b'#') ≡ false = ground arith in rw (q, r) refl

-- The line `.e` is read as a part of the header, and the text behind it with it.
end_in_header :
    (fuel : ℕ) (h : Header)
    → header_lines (suc (suc fuel)) (at (b'.' ∷ b'e' ∷ b'\n' ∷ [])) h
      ≡ some (h, record { rest = []; eof = true; fail = true })
unfolding header_lines header_line read_directive read_number header_condition is_byte peek peek_at
    getline good split_at end_line char_at
end_in_header fuel h = refl

-- The lines that the writer writes in front of the rows.
abbrev pub header_text : ℕ → ℕ → List ℕ → List ℕ
header_text n m rows =
    b'.'
    ∷ b'i'
    ∷ b' '
    ∷ (decimal n
        ++ (b'\n'
            ∷ b'.'
            ∷ b'o'
            ∷ b' '
            ∷ b'1'
            ∷ b'\n'
            ∷ b'.'
            ∷ b'p'
            ∷ b' '
            ∷ (decimal m ++ (b'\n' ∷ rows))))

abbrev pub written_header : ℕ → ℕ → Header
written_header n m = record { n_inputs = n; n_outputs = 1; n_terms = m; kind_name = [] }

-- The parser ends the header behind these lines when it stops at the text behind them.
header_text-read :
    (n m : ℕ) (rows : List ℕ) (s : Stream)
    → n < 2 ^ 32
    → m < 2 ^ 32
    → ((h : Header) → header_lines 2 (at rows) h ≡ some (h, s))
    → read_pla_header (at (header_text n m rows)) ≡ some (written_header n m, s)
unfolding read_pla_header tolower
header_text-read n m rows s ln lm stop =
    let terms = b'.' ∷ b'p' ∷ b' ' ∷ (decimal m ++ (b'\n' ∷ rows)) in
    let outputs = b'.' ∷ b'o' ∷ b' ' ∷ b'1' ∷ b'\n' ∷ terms in
    let inputs = header_text n m rows in
    let h0 : Header = record { n_inputs = 0; n_outputs = 0; n_terms = 0; kind_name = [] } in
    let run : header_lines 5 (at inputs) h0 ≡ some (written_header n m, s) =
      inputs_line 4 n outputs h0 ln
      ∙ outputs_line 3 terms (record h0 { n_inputs = n })
      ∙ terms_line 2 m rows (record h0 { n_inputs = n; n_outputs = 1 }) lm
      ∙ stop (written_header n m) in
    let long : 5 ≤ suc (length inputs) =
      omega (arith, length-append (decimal n) (b'\n' ∷ outputs)) in
    rw (header_lines-more 5 (suc (length inputs)) (at inputs) h0 (written_header n m, s) long run)
      refl

-- The header of a file with rows, up to the first row.
pub read_pla_header-rows :
    (n m : ℕ) (line text : List ℕ)
    → n < 2 ^ 32
    → m < 2 ^ 32
    → (char_at line 0 == b'.' || char_at line 0 == b'#') ≡ false
    → read_pla_header (at (header_text n m (line ++ (b' ' ∷ text))))
      ≡ some (written_header n m, at (line ++ (b' ' ∷ text)))
read_pla_header-rows n m line text ln lm first =
    header_text-read n m (line ++ (b' ' ∷ text)) (at (line ++ (b' ' ∷ text))) ln lm
      λ h. header_end 1 line text h first

-- The header of a file without a row, which takes the line `.e`.
pub read_pla_header-end :
    (n m : ℕ)
    → n < 2 ^ 32
    → m < 2 ^ 32
    → read_pla_header (at (header_text n m (b'.' ∷ b'e' ∷ b'\n' ∷ [])))
      ≡ some (written_header n m, record { rest = []; eof = true; fail = true })
read_pla_header-end n m ln lm = header_text-read n m _ _ ln lm λ h. end_in_header 0 h

-- A comment ends at the first end of a line behind its first space: `line`, the text up to that
-- space, may hold ends of lines, and what stands in it is not read.
pub header_lines-comment :
    (fuel : ℕ) (line tail text : List ℕ) (h : Header)
    → IsFreeOf b' ' line
    → IsFreeOf b'\n' tail
    → header_lines (suc fuel) (at (b'#' ∷ (line ++ (b' ' ∷ (tail ++ (b'\n' ∷ text)))))) h
      ≡ header_lines fuel (at text) h
unfolding header_lines header_line header_condition is_byte peek peek_at good char_at
header_lines-comment fuel line tail text h free free' =
    rw
      (
        getline-append b' ' (b'#' ∷ line) (tail ++ (b'\n' ∷ text)) [] (refl, free),
        getline-append b'\n' tail text (b'#' ∷ line) free',
      )
      refl

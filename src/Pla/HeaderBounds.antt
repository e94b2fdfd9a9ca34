-- ===== src/Pla/HeaderBounds.antt =====
-- The ranges of what the parser of the header returns.
use losys.Base.{
  ◌<◌, ◌^◌, map, ℕ, zero, suc, ◌≤◌, ◌==◌, some, List, [], ◌∷◌, length, ◌≡◌, refl, arith, Bool-cases,
  inl, inr, Returns, Returns-bind, Returns-map,
}
use losys.Pla.Stream.{Stream, filled, getline, char_at}
use losys.Pla.Decimal.Laws.{read_unsigned-lt}
use losys.Pla.Read.{
  tolower, Header, read_number, read_directive, header_line, header_lines, header_condition,
  read_pla_header,
}
use losys.Pla.Progress.{left, header_line-shorter, header_condition-true, header_condition-left}

-- The numbers have 32 bits.
pub record IsHeader (h : Header) : Type 0 where
  pub inputs_fit : h.n_inputs < 2 ^ 32
  pub outputs_fit : h.n_outputs < 2 ^ 32
  pub terms_fit : h.n_terms < 2 ^ 32

read_number-IsHeader :
    (c : ℕ) (s : Stream) (h : Header) → IsHeader h → IsHeader (read_number c s h).0
unfolding read_number
read_number-IsHeader c s h k = elim (Bool-cases (c == b'i')) [
  | inl e ↦ rw e (record {
    inputs_fit = read_unsigned-lt s h.n_inputs k.inputs_fit;
    outputs_fit = k.outputs_fit;
    terms_fit = k.terms_fit;
  })
  | inr e ↦ elim (Bool-cases (c == b'o')) [
    | inl u ↦
        rw (e, u)
          (record {
            inputs_fit = k.inputs_fit;
            outputs_fit = read_unsigned-lt s h.n_outputs k.outputs_fit;
            terms_fit = k.terms_fit;
          })
    | inr u ↦ elim (Bool-cases (c == b'p')) [
      | inl w ↦
          rw (e, u, w)
            (record {
              inputs_fit = k.inputs_fit;
              outputs_fit = k.outputs_fit;
              terms_fit = read_unsigned-lt s h.n_terms k.terms_fit;
            })
      | inr w ↦ rw (e, u, w) k
    ]
  ]
]

read_directive-IsHeader :
    (line : List ℕ) (s : Stream) (h : Header) → IsHeader h → IsHeader (read_directive line s h).0
unfolding read_directive
read_directive-IsHeader line s h k =
    let k' = read_number-IsHeader (char_at line 1) s h k in
    elim (Bool-cases (char_at line 1 == b't')) [
      | inl e ↦ rw e (record {
        inputs_fit = k'.inputs_fit;
        outputs_fit = k'.outputs_fit;
        terms_fit = k'.terms_fit;
      })
      | inr e ↦ rw e k'
    ]

header_line-IsHeader : (s : Stream) (h : Header) → IsHeader h → IsHeader (header_line s h).0
unfolding header_line
header_line-IsHeader s h k =
    let line = (getline b' ' s []).0 in
    elim (Bool-cases (char_at line 0 == b'#')) [
      | inl e ↦ rw e k
      | inr e ↦ elim (Bool-cases (char_at line 0 == b'.')) [
        | inl u ↦ rw (e, u) (read_directive-IsHeader line (getline b' ' s []).1 h k)
        | inr u ↦ rw (e, u) k
      ]
    ]

header_lines-returns :
    (fuel : ℕ) (s : Stream) (h : Header)
    → left s < fuel
    → IsHeader h
    → Returns (header_lines fuel s h) (λ r. IsHeader r.0 × (left r.1 ≤ left s))
unfolding header_lines
header_lines-returns zero s h lt k = absurd (omega arith)
header_lines-returns (suc fuel) s h lt k = elim (Bool-cases (header_condition s).0) [
  | inr e ↦ rw e (k, omega (arith, header_condition-left s))
  | inl e ↦
      let (g, same, some_left) = header_condition-true s e in
      let next = header_line s h in
      let step = header_line-shorter s h g in
      rw (e, same)
        (Returns-map (header_lines fuel next.1 next.0)
          (λ r. IsHeader r.0 × (left r.1 ≤ left next.1)) (λ r. IsHeader r.0 × (left r.1 ≤ left s))
          (header_lines-returns fuel next.1 next.0 (omega arith) (header_line-IsHeader s h k))
          λ r (k', le). (k', omega arith))
]

left-filled : (text : List ℕ) → left (filled text) ≡ length text
unfolding filled
left-filled [] = refl
left-filled (c ∷ text) = refl

-- The parser of the header returns on every text. The numbers of inputs, outputs and terms that it
-- returns are below 2 ^ 32, and no more text is left than there was.
pub read_pla_header-IsHeader :
    (text : List ℕ)
    → Returns (read_pla_header (filled text)) (λ r. IsHeader r.0 × (left r.1 ≤ length text))
unfolding read_pla_header
read_pla_header-IsHeader text =
    let s = filled text in
    let h0 : Header = record { n_inputs = 0; n_outputs = 0; n_terms = 0; kind_name = [] } in
    Returns-bind (header_lines (suc (left s)) s h0)
      (λ r. some (record r.0 { kind_name = map tolower r.0.kind_name }, r.1))
      (λ r. IsHeader r.0 × (left r.1 ≤ left s)) (λ r. IsHeader r.0 × (left r.1 ≤ length text))
      (header_lines-returns (suc (left s)) s h0 (omega arith)
        (record { inputs_fit = omega arith; outputs_fit = omega arith; terms_fit = omega arith }))
      λ r (k, le). (
        record { inputs_fit = k.inputs_fit; outputs_fit = k.outputs_fit; terms_fit = k.terms_fit },
        omega (arith, left-filled text),
      )

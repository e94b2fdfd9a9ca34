-- ===== src/Pla/Progress.antt =====
-- How far each step of the reader moves in the text.
use mathlib.Core.Path.{subst}
use losys.Base.{
  ◌∙◌, ◌+◌, ap, ℕ, ◌-◌, ◌≤◌, ◌<◌, true, ◌==◌, Option, none, some, List, [], ◌∷◌, length, ◌≡◌, refl,
  arith, Bool-cases, inl, inr,
}
use losys.Pla.Stream.{Stream, good, peek, peek_at, getline, split_at, end_line, char_at}
use losys.Pla.Decimal.Laws.{read_unsigned-le}
use losys.Pla.Read.{Header, read_number, read_directive, header_line, is_byte, header_condition}

abbrev pub left : Stream → ℕ
left s = length s.rest

-- The length of the text behind the line.
abbrev behind : Option (List ℕ) → ℕ
behind none = 0
behind (some text) = length text

behind-split_at : (d : ℕ) (text : List ℕ) → behind (split_at d text).1 ≤ length text - 1
unfolding split_at
behind-split_at d [] = omega arith
behind-split_at d (c ∷ text) = elim (Bool-cases (c == d)) [
  | inl e ↦ rw e (omega arith)
  | inr e ↦ rw e (omega (arith, behind-split_at d text))
]

end_line-behind : (p : List ℕ × Option (List ℕ)) → left (end_line p).1 ≡ behind p.1
unfolding end_line
end_line-behind (line, none) = refl
end_line-behind (line, some text) = refl

-- A line of a stream that is good takes at least one byte when there is one.
pub getline-shorter :
    (d : ℕ) (s : Stream) (old : List ℕ) → good s ≡ true → left (getline d s old).1 ≤ left s - 1
unfolding getline
getline-shorter d s old g =
    rw g (omega (arith, end_line-behind (split_at d s.rest), behind-split_at d s.rest))

pub getline-le : (d : ℕ) (s : Stream) (old : List ℕ) → left (getline d s old).1 ≤ left s
getline-le d s old = elim (Bool-cases (good s)) [
  | inl g ↦ omega (arith, getline-shorter d s old g)
  | inr g ↦ unfold getline in rw g (omega arith)
]

read_number-le : (c : ℕ) (s : Stream) (h : Header) → left (read_number c s h).1 ≤ left s
unfolding read_number
read_number-le c s h = elim (Bool-cases (c == b'i')) [
  | inl e ↦ rw e (read_unsigned-le s h.n_inputs)
  | inr e ↦ elim (Bool-cases (c == b'o')) [
    | inl u ↦ rw (e, u) (read_unsigned-le s h.n_outputs)
    | inr u ↦ elim (Bool-cases (c == b'p')) [
      | inl w ↦ rw (e, u, w) (read_unsigned-le s h.n_terms)
      | inr w ↦ rw (e, u, w) (omega arith)
    ]
  ]
]

read_directive-le :
    (line : List ℕ) (s : Stream) (h : Header) → left (read_directive line s h).1 ≤ left s
unfolding read_directive
read_directive-le line s h =
    let c = char_at line 1 in
    let t = (read_number c s h).1 in
    let h' = (read_number c s h).0 in
    elim (Bool-cases (c == b't')) [
      | inl e ↦ rw e (omega (arith, getline-le b'\n' t h'.kind_name, read_number-le c s h))
      | inr e ↦ rw e (omega (arith, getline-le b'\n' t line, read_number-le c s h))
    ]

pub header_line-shorter :
    (s : Stream) (h : Header) → good s ≡ true → left (header_line s h).1 ≤ left s - 1
unfolding header_line
header_line-shorter s h g =
    let line = (getline b' ' s []).0 in
    let t = (getline b' ' s []).1 in
    let first = getline-shorter b' ' s [] g in
    elim (Bool-cases (char_at line 0 == b'#')) [
      | inl e ↦ rw e (omega (arith, first, getline-le b'\n' t line))
      | inr e ↦ elim (Bool-cases (char_at line 0 == b'.')) [
        | inl u ↦ rw (e, u) (omega (arith, first, read_directive-le line t h))
        | inr u ↦ rw (e, u) first
      ]
    ]

peek_at-byte :
    (byte : ℕ) (s : Stream) (text : List ℕ)
    → is_byte byte (peek_at s text).0 ≡ true
    → ((peek_at s text).1 ≡ s) × (0 < length text)
unfolding peek_at is_byte
peek_at-byte byte s [] e = absurd (ground arith)
peek_at-byte byte s (c ∷ text) e = (refl, omega arith)

none_first : (byte : ℕ) → is_byte byte none ≡ true → ⊥
unfolding is_byte
none_first byte h = ground arith

-- A byte that `peek` shows is left in a stream that is good.
peek-byte :
    (byte : ℕ) (s : Stream)
    → is_byte byte (peek s).0 ≡ true
    → (good s ≡ true) × ((peek s).1 ≡ s) × (0 < left s)
unfolding peek
peek-byte byte s e = elim (Bool-cases (good s)) [
  | inr g ↦ absurd (none_first byte (rw g at e))
  | inl g ↦ let p = peek_at-byte byte s s.rest (rw g at e) in (g, rw g p.0, p.1)
]

peek_at-good :
    (s : Stream) (text : List ℕ) → good (peek_at s text).1 ≡ true → (peek_at s text).1 ≡ s
unfolding peek_at good
peek_at-good s [] e = absurd (ground arith)
peek_at-good s (c ∷ text) e = refl

failed : (s : Stream) → good (record s { fail = true }) ≡ true → ⊥
unfolding good
failed s e = ground arith

-- A stream that is good behind `peek` is as it was.
peek-good : (s : Stream) → good (peek s).1 ≡ true → (peek s).1 ≡ s
unfolding peek
peek-good s e = elim (Bool-cases (good s)) [
  | inr g ↦ absurd (failed s (rw g at e))
  | inl g ↦ rw g (peek_at-good s s.rest (rw g at e))
]

-- Where the loop goes on the stream is good, with a byte left, and as it was.
pub header_condition-true :
    (s : Stream)
    → (header_condition s).0 ≡ true
    → (good s ≡ true) × ((header_condition s).1 ≡ s) × (0 < left s)
unfolding header_condition
header_condition-true s e = elim (Bool-cases (is_byte b'.' (peek s).0)) [
  | inl t ↦ let (g, same, some_left) = peek-byte b'.' s t in (g, rw t same, some_left)
  | inr t ↦
      let (g, same, some_left) = peek-byte b'#' (peek s).1 (rw t at e) in
      let back = peek-good s g in
      (
        subst (λ x. good x ≡ true) back g,
        rw t (same ∙ back),
        subst (λ x. 0 < left x) back some_left,
      )
]

peek_at-left : (s : Stream) (text : List ℕ) → left (peek_at s text).1 ≡ left s
unfolding peek_at
peek_at-left s [] = refl
peek_at-left s (c ∷ text) = refl

peek-left : (s : Stream) → left (peek s).1 ≡ left s
unfolding peek
peek-left s = elim (Bool-cases (good s)) [
  | inl g ↦ rw g (peek_at-left s s.rest)
  | inr g ↦ rw g refl
]

pub header_condition-left : (s : Stream) → left (header_condition s).1 ≡ left s
unfolding header_condition
header_condition-left s = elim (Bool-cases (is_byte b'.' (peek s).0)) [
  | inl t ↦ rw t (peek-left s)
  | inr t ↦ rw t (peek-left (peek s).1 ∙ peek-left s)
]

end_line-line : (p : List ℕ × Option (List ℕ)) → (end_line p).0 ≡ p.0
unfolding end_line
end_line-line (line, none) = refl
end_line-line (line, some text) = refl

length-split_at : (d : ℕ) (text : List ℕ) → length (split_at d text).0 ≤ length text
unfolding split_at
length-split_at d [] = omega arith
length-split_at d (c ∷ text) = elim (Bool-cases (c == d)) [
  | inl e ↦ rw e (omega arith)
  | inr e ↦ rw e (omega (arith, length-split_at d text))
]

-- Where a line is not empty the stream moves on.
getline-moves :
    (d : ℕ) (s : Stream) → 0 < length (getline d s []).0 → left (getline d s []).1 < left s
unfolding getline
getline-moves d s h = elim (Bool-cases (good s)) [
  | inl g ↦ omega (
    arith,
    getline-shorter d s [] g,
    rw g at h,
    ap length (end_line-line (split_at d s.rest)),
    length-split_at d s.rest,
  )
  | inr g ↦ absurd (omega (arith, rw g at h))
]

pub two_lines-move :
    (s : Stream)
    → let s1 = (getline b' ' s []).1 in
      0 < length (getline b' ' s []).0 + length (getline b'\n' s1 []).0
      → left (getline b'\n' s1 []).1 < left s
two_lines-move s h =
    let s1 = (getline b' ' s []).1 in
    elim (Bool-cases (length (getline b' ' s []).0 == 0)) [
      | inl e ↦ ground (arith, getline-le b' ' s [], getline-moves b'\n' s1)
      | inr e ↦ ground (arith, getline-le b'\n' s1 [], getline-moves b' ' s)
    ]

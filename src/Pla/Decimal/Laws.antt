-- ===== src/Pla/Decimal/Laws.antt =====
-- `>>` behind `<<`, and the ranges of what `>>` reads.
use losys.Base.{
  length, inr, inl, ◌∙◌, Bool-cases, ◌<◌, ◌++◌, ℕ, zero, suc, ◌+◌, ◌-◌, ◌*◌, ◌/◌, ◌%◌, ◌^◌, ◌≤◌,
  Bool, true, false, ◌==◌, ltb, if◌then◌else◌, List, [], ◌∷◌, ◌≡◌, refl, arith,
}
use losys.Pla.Stream.{is_end, Stream, good}
use losys.Pla.Decimal.{
  print_digits, decimal, is_digit, is_space, skip_spaces, scan_digits, starts_with_digit, number,
  signed_number, read_unsigned,
}

-- The digits of `n` are the digits in front of the last one, and the last one.
scan-print_digits :
    (fuel n : ℕ) (out : List ℕ)
    → n ≤ fuel
    → scan_digits 0 (print_digits fuel n out) ≡ scan_digits n out
unfolding scan_digits print_digits is_digit
scan-print_digits zero n out h = ground arith
scan-print_digits (suc fuel) n out h =
    ground (arith, scan-print_digits fuel (n / 10) ((b'0' + n % 10) ∷ out) (omega arith))

print_digits-append :
    (fuel n : ℕ) (out text : List ℕ)
    → print_digits fuel n out ++ text ≡ print_digits fuel n (out ++ text)
unfolding print_digits
print_digits-append zero n out text = refl
print_digits-append (suc fuel) n out text = elim (Bool-cases (n / 10 == 0)) [
  | inl e ↦ rw e refl
  | inr e ↦ rw e (print_digits-append fuel (n / 10) ((b'0' + n % 10) ∷ out) text)
]

digit_first : (n : ℕ) (out : List ℕ) → starts_with_digit ((b'0' + n % 10) ∷ out) ≡ true
unfolding starts_with_digit is_digit
digit_first n out = ground arith

starts_with_digit-print_digits :
    (fuel n : ℕ) (out : List ℕ) → starts_with_digit (print_digits fuel n out) ≡ true
unfolding print_digits
starts_with_digit-print_digits zero n out = digit_first n out
starts_with_digit-print_digits (suc fuel) n out = elim (Bool-cases (n / 10 == 0)) [
  | inl e ↦ rw e (digit_first n out)
  | inr e ↦ rw e (starts_with_digit-print_digits fuel (n / 10) ((b'0' + n % 10) ∷ out))
]

-- A number in front of the end of its line is read as it stands.
signed_number-digit :
    (old : ℕ) (text : List ℕ)
    → starts_with_digit text ≡ true
    → signed_number old (skip_spaces text) ≡ number false text
unfolding signed_number skip_spaces starts_with_digit is_digit is_space
signed_number-digit old [] h = absurd (ground arith)
signed_number-digit old (c ∷ text) h = ground arith

number-scan :
    (n : ℕ) (text rest : List ℕ)
    → starts_with_digit text ≡ true
    → scan_digits 0 text ≡ (n, rest)
    → n < 2 ^ 32
    → is_end rest ≡ false
    → number false text ≡ (n, record { rest = rest; eof = false; fail = false })
unfolding number
number-scan n text rest d e lt o =
    let t : ltb (2 ^ 32 - 1) n ≡ false = ground arith in rw (e, d, t, o) refl

-- A number of 32 bits in front of the end of its line is read back.
pub read_unsigned-decimal :
    (n old : ℕ) (text : List ℕ)
    → n < 2 ^ 32
    → read_unsigned (record { rest = decimal n ++ (b'\n' ∷ text); eof = false; fail = false }) old
      ≡ (n, record { rest = b'\n' ∷ text; eof = false; fail = false })
unfolding read_unsigned decimal good scan_digits is_digit is_end
read_unsigned-decimal n old text lt = rw (print_digits-append n n [] (b'\n' ∷ text)) (
    signed_number-digit old (print_digits n n (b'\n' ∷ text))
      (starts_with_digit-print_digits n n (b'\n' ∷ text))
    ∙ number-scan n (print_digits n n (b'\n' ∷ text)) (b'\n' ∷ text)
        (starts_with_digit-print_digits n n (b'\n' ∷ text))
        (scan-print_digits n n (b'\n' ∷ text) (omega arith)) lt refl)

pub read_unsigned-one :
    (old : ℕ) (text : List ℕ)
    → read_unsigned (record { rest = b'1' ∷ b'\n' ∷ text; eof = false; fail = false }) old
      ≡ (1, record { rest = b'\n' ∷ text; eof = false; fail = false })
unfolding decimal print_digits
read_unsigned-one old text = read_unsigned-decimal 1 old text (omega arith)

skip_spaces-le : (text : List ℕ) → length (skip_spaces text) ≤ length text
unfolding skip_spaces
skip_spaces-le [] = omega arith
skip_spaces-le (c ∷ text) = elim (Bool-cases (is_space c)) [
  | inl e ↦ rw e (omega (arith, skip_spaces-le text))
  | inr e ↦ rw e (omega arith)
]

scan_digits-le : (n : ℕ) (text : List ℕ) → length (scan_digits n text).1 ≤ length text
unfolding scan_digits
scan_digits-le n [] = omega arith
scan_digits-le n (c ∷ text) = elim (Bool-cases (is_digit c)) [
  | inl e ↦ rw e (omega (arith, scan_digits-le (n * 10 + (c - b'0')) text))
  | inr e ↦ rw e (omega arith)
]

number-le : (negative : Bool) (text : List ℕ) → length (number negative text).1.rest ≤ length text
unfolding number
number-le negative text = elim (Bool-cases (starts_with_digit text)) [
  | inr e ↦ rw e (scan_digits-le 0 text)
  | inl e ↦ elim (Bool-cases (ltb (2 ^ 32 - 1) (scan_digits 0 text).0)) [
    | inl u ↦ rw (e, u) (scan_digits-le 0 text)
    | inr u ↦ rw (e, u) (scan_digits-le 0 text)
  ]
]

signed_number-le : (old : ℕ) (text : List ℕ) → length (signed_number old text).1.rest ≤ length text
unfolding signed_number
signed_number-le old [] = omega arith
signed_number-le old (c ∷ text) = elim (Bool-cases (c == b'-')) [
  | inl e ↦ rw e (omega (arith, number-le true text))
  | inr e ↦ elim (Bool-cases (c == b'+')) [
    | inl u ↦ rw (e, u) (omega (arith, number-le false text))
    | inr u ↦ rw (e, u) (number-le false (c ∷ text))
  ]
]

-- Reading a number does not lengthen the text.
pub read_unsigned-le : (s : Stream) (old : ℕ) → length (read_unsigned s old).1.rest ≤ length s.rest
unfolding read_unsigned
read_unsigned-le s old = elim (Bool-cases (good s)) [
  | inl e ↦ rw e (omega (arith, signed_number-le old (skip_spaces s.rest), skip_spaces-le s.rest))
  | inr e ↦ rw e (omega arith)
]

number-lt : (negative : Bool) (text : List ℕ) → (number negative text).0 < 2 ^ 32
unfolding number
number-lt negative text = elim (Bool-cases (starts_with_digit text)) [
  | inr e ↦ rw e (omega arith)
  | inl e ↦ elim (Bool-cases (ltb (2 ^ 32 - 1) (scan_digits 0 text).0)) [
    | inl u ↦ rw (e, u) (omega arith)
    | inr u ↦ rw (e, u) (in_range negative (scan_digits 0 text).0 (ground (arith, u)))
  ]
]
  where
    in_range :
        (neg : Bool) (n : ℕ) → n < 2 ^ 32 → (if neg then (2 ^ 32 - n) % 2 ^ 32 else n) < 2 ^ 32
    in_range true n lt = omega arith
    in_range false n lt = lt

signed_number-lt : (old : ℕ) (text : List ℕ) → old < 2 ^ 32 → (signed_number old text).0 < 2 ^ 32
unfolding signed_number
signed_number-lt old [] lt = lt
signed_number-lt old (c ∷ text) lt = elim (Bool-cases (c == b'-')) [
  | inl e ↦ rw e (number-lt true text)
  | inr e ↦ elim (Bool-cases (c == b'+')) [
    | inl u ↦ rw (e, u) (number-lt false text)
    | inr u ↦ rw (e, u) (number-lt false (c ∷ text))
  ]
]

-- A number read has 32 bits.
pub read_unsigned-lt : (s : Stream) (old : ℕ) → old < 2 ^ 32 → (read_unsigned s old).0 < 2 ^ 32
unfolding read_unsigned
read_unsigned-lt s old lt = elim (Bool-cases (good s)) [
  | inl e ↦ rw e (signed_number-lt old (skip_spaces s.rest) lt)
  | inr e ↦ rw e lt
]

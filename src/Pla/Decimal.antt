-- ===== src/Pla/Decimal.antt =====
-- The decimal numbers of a PLA file: `<<` and `>>` on an unsigned number.
pub mod Laws
use losys.Base.{
  length, inr, inl, ◌∙◌, Bool-cases, ◌<◌, ◌++◌, ℕ, zero, suc, ◌+◌, ◌-◌, ◌*◌, ◌/◌, ◌%◌, ◌^◌, ◌≤◌,
  Bool, true, false, not, ◌&&◌, ◌||◌, ◌==◌, ltb, if◌then◌else◌, List, [], ◌∷◌, ◌≡◌, refl, arith,
}
use losys.Pla.Stream.{is_end, Stream, good}

-- The loop that divides the number by ten until one digit is left.
print_digits : ℕ → ℕ → List ℕ → List ℕ
print_digits zero n out = (b'0' + n % 10) ∷ out
print_digits (suc fuel) n out =
    let out' = (b'0' + n % 10) ∷ out in
    let more = print_digits fuel (n / 10) out' in if n / 10 == 0 then out' else more

-- `stream << n`.
unfoldable pub decimal : ℕ → List ℕ
unfolding print_digits
decimal n = print_digits n n []

is_digit : ℕ → Bool
is_digit c = not (ltb c b'0') && not (ltb b'9' c)

is_space : ℕ → Bool
is_space c = c == b' ' || (not (ltb c 9) && not (ltb 13 c))

skip_spaces : List ℕ → List ℕ
unfolding is_space
skip_spaces [] = []
skip_spaces (c ∷ text) = let skipped = skip_spaces text in if is_space c then skipped else c ∷ text

-- The number that the digits spell behind `n`, and the text behind them.
scan_digits : ℕ → List ℕ → ℕ × List ℕ
unfolding is_digit
scan_digits n [] = (n, [])
scan_digits n (c ∷ text) =
    let scanned = scan_digits (n * 10 + (c - b'0')) text in
    if is_digit c then scanned else (n, c ∷ text)

starts_with_digit : List ℕ → Bool
unfolding is_digit
starts_with_digit [] = false
starts_with_digit (c ∷ text) = is_digit c

-- The value of the digits that `text` starts with: 0 and a failure without a digit, the largest
-- number and a failure on an overflow. A minus sign negates modulo 2 ^ 32.
number : Bool → List ℕ → ℕ × Stream
unfolding scan_digits starts_with_digit is_end
number negative text =
    let (n, rest) = scan_digits 0 text in
    if not (starts_with_digit text)
    then (0, record { rest = rest; eof = is_end rest; fail = true })
    else if ltb (2 ^ 32 - 1) n
    then (2 ^ 32 - 1, record { rest = rest; eof = is_end rest; fail = true })
    else (
      if negative then (2 ^ 32 - n) % 2 ^ 32 else n,
      record { rest = rest; eof = is_end rest; fail = false },
    )

signed_number : ℕ → List ℕ → ℕ × Stream
unfolding number
signed_number old [] = (old, record { rest = []; eof = true; fail = true })
signed_number old (c ∷ text) =
    if c == b'-'
    then number true text
    else if c == b'+'
    then number false text
    else number false (c ∷ text)

-- `stream >> old`.
unfoldable pub read_unsigned : Stream → ℕ → ℕ × Stream
unfolding skip_spaces signed_number
read_unsigned s old =
    if good s then signed_number old (skip_spaces s.rest) else (old, record s { fail = true })

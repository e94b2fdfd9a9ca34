-- ===== src/Kernel/Cube32.antt =====
-- source/kernel/cube32.hpp: a cube of up to 32 literals in two 32-bit words.
pub mod Meaning
pub mod Rotate
pub mod Merge
pub mod Single
pub mod Conjunction
mod Examples
use losys.Base.{
  ℕ, zero, suc, ◌+◌, ◌-◌, ◌*◌, ◌/◌, ◌%◌, ◌^◌, bit_and, bit_or, bit_xor, Bool, not, ◌==◌, ltb,
  if◌then◌else◌, popcount, List, [], ◌∷◌,
}

-- The union's two words; `value` is their 64-bit reading, `mask` in the upper half.
pub record Cube32 : Type 0 where
  pub polarity : ℕ
  pub mask : ℕ

unfoldable pub value : Cube32 → ℕ
value c = c.mask * 2 ^ 32 + c.polarity

-- `cube32(const ui64_t v)`.
unfoldable pub of_value : ℕ → Cube32
of_value v = record { polarity = v % 2 ^ 32; mask = v / 2 ^ 32 }

-- `cube32(const ui32_t m, const ui32_t p)`.
abbrev pub cube32 : ℕ → ℕ → Cube32
cube32 m p = record { polarity = p; mask = m }

abbrev pub cube32_zero : Cube32
cube32_zero = cube32 0xFFFFFFFF 0x00000000

abbrev pub cube32_one : Cube32
cube32_one = cube32 0 0

-- `~x` and `1 << var` on 32 bits.
abbrev pub not32 : ℕ → ℕ
not32 x = 2 ^ 32 - 1 - x

abbrev pub shl32 : ℕ → ℕ → ℕ
shl32 p var = p * 2 ^ var % 2 ^ 32

unfoldable pub eq : Cube32 → Cube32 → Bool
unfolding value
eq c d = value c == value d

unfoldable pub ne : Cube32 → Cube32 → Bool
unfolding eq
ne c d = not (eq c d)

unfoldable pub lt : Cube32 → Cube32 → Bool
unfolding value
lt c d = ltb (value c) (value d)

unfoldable pub conj : Cube32 → Cube32 → Cube32
unfolding value of_value
conj c d =
    let tmp_mask = bit_and c.mask d.mask in
    if bit_and (bit_xor c.polarity d.polarity) tmp_mask == 0
    then of_value (bit_or (value c) (value d))
    else cube32 0xFFFFFFFF 0x00000000

unfoldable pub n_lits : Cube32 → ℕ
n_lits c = popcount 32 c.mask

-- The source asserts `p <= 1`.
unfoldable pub add_lit : ℕ → ℕ → Cube32 → Cube32
add_lit var p c = record {
  polarity = bit_or c.polarity (shl32 p var);
  mask = bit_or c.mask (shl32 1 var);
}

unfoldable pub invert : Cube32 → Cube32
invert c = record c { polarity = bit_xor c.polarity c.mask }

unfoldable pub rotate : ℕ → Cube32 → Cube32
rotate var c =
    let tmp = bit_xor c.mask (bit_and (not32 c.polarity) (shl32 1 var)) in
    record {
      polarity = bit_xor c.polarity (bit_and (not32 (bit_xor c.polarity c.mask)) (shl32 1 var));
      mask = tmp;
    }

-- The characters of `str`, from the variable `i` on, with `n` to go.
unfoldable pub str_from : ℕ → ℕ → Cube32 → List ℕ
str_from zero i c = []
str_from (suc n) i c =
    (if bit_and (c.mask / 2 ^ i) 1 == 0
      then b'-'
      else if bit_and c.polarity (shl32 1 i) == 0
      then b'0'
      else b'1')
    ∷ str_from n (i + 1) c

unfoldable pub str : ℕ → Cube32 → List ℕ
unfolding str_from
str n_inputs c = str_from n_inputs 0 c

unfoldable pub difference : Cube32 → Cube32 → ℕ
difference lhs rhs = bit_or (bit_xor lhs.polarity rhs.polarity) (bit_xor lhs.mask rhs.mask)

unfoldable pub distance : Cube32 → Cube32 → ℕ
unfolding difference
distance lhs rhs = popcount 32 (difference lhs rhs)

unfoldable pub merge : Cube32 → Cube32 → Cube32
unfolding difference
merge lhs rhs =
    let diff = difference lhs rhs in
    cube32 (bit_xor lhs.mask (bit_and rhs.mask diff))
      (bit_xor lhs.polarity (bit_and (not32 rhs.polarity) diff))

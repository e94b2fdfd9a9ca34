-- ===== src/Pla/Chars.antt =====
-- The text of a row: it has a byte for each input and no space.
use losys.Base.{
  ◌||◌, ℕ, zero, suc, ◌+◌, ◌/◌, ◌^◌, bit_and, false, ◌==◌, some, List, [], ◌∷◌, ◌++◌, All, length,
  ◌≡◌, refl, ap, arith, Bool-cases, inl, inr,
}
use losys.Kernel.Cube32.{Cube32, str, str_from, shl32}
use losys.Pla.Stream.{char_at, Stream, good, split_at, end_line, getline}

-- A stream with no error, in front of the text.
abbrev pub at : List ℕ → Stream
at text = record { rest = text; eof = false; fail = false }

abbrev pub IsFreeOf : ℕ → List ℕ → Type 0
IsFreeOf d = All (λ c. (c == d) ≡ false)

split_at-append :
    (d : ℕ) (line rest : List ℕ)
    → IsFreeOf d line
    → split_at d (line ++ (d ∷ rest)) ≡ (line, some rest)
unfolding split_at
split_at-append d [] rest h = ground arith
split_at-append d (c ∷ line) rest h = rw (h.0, split_at-append d line rest h.1) refl

-- `getline` reads a line that the delimiter ends.
pub getline-append :
    (d : ℕ) (line rest old : List ℕ)
    → IsFreeOf d line
    → getline d (at (line ++ (d ∷ rest))) old ≡ (line, at rest)
unfolding getline good end_line
getline-append d line rest old h = rw (split_at-append d line rest h) refl

str_from-IsFreeOf : (n i : ℕ) (c : Cube32) → IsFreeOf b' ' (str_from n i c)
unfolding str_from
str_from-IsFreeOf zero i c = tt
str_from-IsFreeOf (suc n) i c = (
  elim (Bool-cases (bit_and (c.mask / 2 ^ i) 1 == 0)) [
    | inl e ↦ rw e refl
    | inr e ↦ elim (Bool-cases (bit_and c.polarity (shl32 1 i) == 0)) [
      | inl p ↦ rw (e, p) refl
      | inr p ↦ rw (e, p) refl
    ]
  ],
  str_from-IsFreeOf n (i + 1) c,
)

pub str-IsFreeOf : (n : ℕ) (c : Cube32) → IsFreeOf b' ' (str n c)
unfolding str
str-IsFreeOf n c = str_from-IsFreeOf n 0 c

length-str_from : (n i : ℕ) (c : Cube32) → length (str_from n i c) ≡ n
unfolding str_from
length-str_from zero i c = refl
length-str_from (suc n) i c = ap suc (length-str_from n (i + 1) c)

pub length-str : (n : ℕ) (c : Cube32) → length (str n c) ≡ n
unfolding str
length-str n c = length-str_from n 0 c

-- The first byte of a row is not one that starts a line of the header.
str_from-first :
    (n i : ℕ) (c : Cube32)
    → (char_at (str_from n i c) 0 == b'.' || char_at (str_from n i c) 0 == b'#') ≡ false
unfolding str_from char_at
str_from-first zero i c = refl
str_from-first (suc n) i c = elim (Bool-cases (bit_and (c.mask / 2 ^ i) 1 == 0)) [
  | inl e ↦ rw e refl
  | inr e ↦ elim (Bool-cases (bit_and c.polarity (shl32 1 i) == 0)) [
    | inl p ↦ rw (e, p) refl
    | inr p ↦ rw (e, p) refl
  ]
]

pub str-first :
    (n : ℕ) (c : Cube32) → (char_at (str n c) 0 == b'.' || char_at (str n c) 0 == b'#') ≡ false
unfolding str
str-first n c = str_from-first n 0 c

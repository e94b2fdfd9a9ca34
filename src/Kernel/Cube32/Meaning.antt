-- ===== src/Kernel/Cube32/Meaning.antt =====
-- What a cube means: the conjunction of its literals, and which pairs of words are cubes.
use losys.Base.{
  ap, bit_and, bit-and, prod-true, ℕ, ◌+◌, ◌*◌, ◌^◌, ◌≤◌, ◌<◌, ◌≡◌, refl, ◌∙◌, Bool, true, false,
  not, ◌⊕◌, ◌==◌, if◌then◌else◌, Bool-cases, inl, inr, arith, bit, bit-zero, bit_above, bit_ext,
  lt-two-pow, prod, ==_iff, bit-two-pow,
}
use native.Mathlib.Nat.{mod-eq_of_lt}
use losys.Kernel.Cube32.{Cube32, eq, value, shl32, cube32_one}

-- A literal with its mask and polarity bits, at the value `x` of its variable.
abbrev pub lit : Bool → Bool → Bool → Bool
lit m p x = if m then not (p ⊕ x) else true

unfoldable pub eval : Cube32 → (ℕ → Bool) → Bool
eval c v = prod 32 (λ i. lit (bit c.mask i) (bit c.polarity i) (v i))

-- Literals of the first `n` variables only, and no polarity where there is no literal.
pub record IsCube (n : ℕ) (c : Cube32) : Type 0 where
  pub fits : c.mask < 2 ^ n
  pub canonical : (i : ℕ) → bit c.polarity i ≡ true → bit c.mask i ≡ true

pub canonical_false :
    {n : ℕ} {c : Cube32} → IsCube n c → (i : ℕ) → bit c.mask i ≡ false → bit c.polarity i ≡ false
canonical_false {c = c} k i h = elim (Bool-cases (bit c.polarity i)) [
  | inl e ↦ ground (arith, k.canonical i e)
  | inr e ↦ e
]

pub mask_above : {n : ℕ} {c : Cube32} → IsCube n c → (i : ℕ) → n ≤ i → bit c.mask i ≡ false
mask_above {n} {c} k i h = bit_above n c.mask i k.fits h

pub polarity_above : {n : ℕ} {c : Cube32} → IsCube n c → (i : ℕ) → n ≤ i → bit c.polarity i ≡ false
polarity_above k i h = canonical_false k i (mask_above k i h)

pub polarity_fits : {n : ℕ} {c : Cube32} → IsCube n c → c.polarity < 2 ^ n
polarity_fits {n} {c} k = lt-two-pow n c.polarity (polarity_above k)

pub word_of_fits : (n x : ℕ) → n ≤ 32 → x < 2 ^ n → x < 2 ^ 32
word_of_fits n x h k = lt-two-pow 32 x (λ i le. bit_above n x i k (omega arith))

pub IsCube-mono : {m n : ℕ} {c : Cube32} → m ≤ n → IsCube m c → IsCube n c
IsCube-mono {m} {n} {c} h k = record {
  fits = lt-two-pow n c.mask (λ i le. mask_above k i (omega arith));
  canonical = k.canonical;
}

-- Two cubes with the same bits are the same.
pub cube_ext :
    (c d : Cube32)
    → ((i : ℕ) → bit c.mask i ≡ bit d.mask i)
    → ((i : ℕ) → bit c.polarity i ≡ bit d.polarity i)
    → c ≡ d
cube_ext c d h k =
    λ j. record { polarity = bit_ext c.polarity d.polarity k j; mask = bit_ext c.mask d.mask h j }

-- Comparing the 64-bit values is comparing the cubes.
pub eq_iff : (c d : Cube32) → c.polarity < 2 ^ 32 → d.polarity < 2 ^ 32 → eq c d ≡ true → c ≡ d
unfolding eq value
eq_iff c d h k e =
    let t : c.mask * 2 ^ 32 + c.polarity ≡ d.mask * 2 ^ 32 + d.polarity = (==_iff _ _).0 e in
    let m : c.mask ≡ d.mask = omega arith in
    let p : c.polarity ≡ d.polarity = omega arith in λ j. record { polarity = p j; mask = m j }

pub eq_self : (c : Cube32) → eq c c ≡ true
unfolding eq
eq_self c = (==_iff _ _).1 refl

two-pow-lt : (k n : ℕ) → k < n → 2 ^ k < 2 ^ n
two-pow-lt k n h = lt-two-pow n (2 ^ k) (λ i le. bit-two-pow k i ∙ ground arith)

-- The bit that `1 << var` stands for.
pub shl32-one : (var : ℕ) → var < 32 → shl32 1 var ≡ 2 ^ var
shl32-one var h =
    let fits : 2 ^ var < 2 ^ 32 = two-pow-lt var 32 h in
    let e : 1 * 2 ^ var ≡ 2 ^ var = omega arith in rw (e, mod-eq_of_lt fits)

pub bit-shl32-one : (var i : ℕ) → var < 32 → bit (shl32 1 var) i ≡ (var == i)
bit-shl32-one var i h = rw (shl32-one var h) (bit-two-pow var i)

pub cube32_one-IsCube : (n : ℕ) → IsCube n cube32_one
cube32_one-IsCube n = record {
  fits = lt-two-pow n 0 (λ i h. bit-zero i);
  canonical = λ i h. ground (arith, bit-zero i);
}

pub eval-cube32_one : (v : ℕ → Bool) → eval cube32_one v ≡ true
unfolding eval
eval-cube32_one v = prod-true 32 _ (λ i _. ground (arith, bit-zero i))

-- The cube without literals is the constant 1.
pub eval-one :
    {n : ℕ} (c : Cube32) (v : ℕ → Bool)
    → IsCube n c
    → n ≤ 32
    → eq c cube32_one ≡ true
    → eval c v ≡ true
eval-one {n} c v k le e =
    let w = eq_iff c cube32_one (word_of_fits n c.polarity le (polarity_fits k)) (omega arith) e in
    rw w (eval-cube32_one v)

-- The test for a cube that `polarity` lies within `mask`.
pub IsCube-by :
    (n : ℕ) (c : Cube32) → c.mask < 2 ^ n → bit_and c.polarity c.mask ≡ c.polarity → IsCube n c
IsCube-by n c h e = record {
  fits = h;
  canonical = λ i b. ground (arith, bit-and c.polarity c.mask i, ap (λ (t : ℕ). bit t i) e);
}

-- ===== src/Exorcism/Positions.antt =====
-- The set bits of a word, lowest first, as `exorlink` walks through them, and a product with the
-- factors at these positions taken out.
use losys.Base.{
  ℕ, zero, suc, ◌-◌, ◌^◌, ◌<◌, ◌≡◌, refl, ◌∙◌, ap, bit_and, Bool, true, false, ◌&&◌, ◌==◌,
  Bool-cases, inl, inr, List, [], ◌∷◌, All, length, arith, bit, bit-zero, bit-and, bit_above,
  lt-two-pow, popcount, zero_of_popcount, IsLowest, lowest, positive_of_popcount, prod, without,
  prod-without, prod-ext,
}

abbrev pub IsPositions : ℕ → List ℕ → Type 0
IsPositions d [] = d ≡ 0
IsPositions d (j ∷ js) = IsLowest 32 d j × IsPositions (bit_and d (d - 1)) js

pub Positions_word : (d j : ℕ) → IsLowest 32 d j → d < 2 ^ 32 → bit_and d (d - 1) < 2 ^ 32
Positions_word d j l h =
    lt-two-pow 32 (bit_and d (d - 1)) λ i le. l.clears i ∙ ground (arith, bit_above 32 d i h le)

-- A word with `k` set bits has `k` positions.
pub positions :
    (k d : ℕ) → d < 2 ^ 32 → popcount 32 d ≡ k → (js : List ℕ) × (length js ≡ k) × IsPositions d js
positions zero d h e = ([], refl, zero_of_popcount 32 d h e)
positions (suc k) d h e =
    let pos : 0 < d = positive_of_popcount 32 d (omega arith) in
    let (j, l) = lowest 32 d pos h in
    let (js, len, ps) =
      positions k (bit_and d (d - 1)) (Positions_word d j l h) (omega (arith, l.counts)) in
    (j ∷ js, ap suc len, (l, ps))

-- They are the set bits.
pub IsPositions-set : (d : ℕ) (js : List ℕ) → IsPositions d js → All (λ k. bit d k ≡ true) js
IsPositions-set d [] p = tt
IsPositions-set d (j ∷ js) (l, p) = (l.is_set, above js (IsPositions-set (bit_and d (d - 1)) js p))
  where
    above :
        (ks : List ℕ)
        → All (λ k. bit (bit_and d (d - 1)) k ≡ true) ks
        → All (λ k. bit d k ≡ true) ks
    above [] h = tt
    above (k ∷ ks) h = (ground (arith, h.0, bit-and d (d - 1) k), above ks h.1)

-- `i` is none of the positions.
abbrev pub IsOff : ℕ → List ℕ → Type 0
IsOff i js = All (λ k. (k == i) ≡ false) js

pub IsPositions-off :
    (d : ℕ) (js : List ℕ) (i : ℕ) → IsPositions d js → IsOff i js → bit d i ≡ false
IsPositions-off d [] i p o = ap (λ (t : ℕ). bit t i) p ∙ bit-zero i
IsPositions-off d (j ∷ js) i (l, p) o =
    ground (arith, l.clears i, IsPositions-off (bit_and d (d - 1)) js i p o.1, o.0)

-- The lowest is none of the others.
pub IsOff-lowest :
    (d j : ℕ) (js : List ℕ) → IsLowest 32 d j → IsPositions (bit_and d (d - 1)) js → IsOff j js
IsOff-lowest d j js l p = go js (IsPositions-set (bit_and d (d - 1)) js p)
  where
    go : (ks : List ℕ) → All (λ k. bit (bit_and d (d - 1)) k ≡ true) ks → IsOff j ks
    go [] h = tt
    go (k ∷ ks) h = (ground (arith, h.0, l.clears k), go ks h.1)

-- The factors without those at the positions.
abbrev pub withouts : List ℕ → (ℕ → Bool) → ℕ → Bool
withouts [] f = f
withouts (j ∷ js) f = withouts js (without j f)

pub withouts-off : (js : List ℕ) (f : ℕ → Bool) (i : ℕ) → IsOff i js → withouts js f i ≡ f i
withouts-off [] f i o = refl
withouts-off (j ∷ js) f i o = withouts-off js (without j f) i o.1 ∙ ground arith

-- Factors that agree off the positions have the same product there.
pub withouts-ext :
    (js : List ℕ) (f g : ℕ → Bool)
    → ((i : ℕ) → IsOff i js → f i ≡ g i)
    → (i : ℕ) → withouts js f i ≡ withouts js g i
withouts-ext [] f g h i = h i tt
withouts-ext (j ∷ js) f g h i =
    withouts-ext js (without j f) (without j g)
      (λ k o. elim (Bool-cases (j == k)) [ inl e ↦ rw e | inr e ↦ rw e (h k (e, o)) ]) i

withouts-without :
    (js : List ℕ) (j : ℕ) (f : ℕ → Bool) (i : ℕ)
    → withouts js (without j f) i ≡ without j (withouts js f) i
withouts-without [] j f i = refl
withouts-without (k ∷ js) j f i =
    withouts-ext js (without k (without j f)) (without j (without k f)) (λ m _. ground arith) i
    ∙ withouts-without js j (without k f) i

-- One more factor taken out.
pub prod-withouts :
    (js : List ℕ) (j : ℕ) (f : ℕ → Bool)
    → j < 32
    → IsOff j js
    → prod 32 (withouts js f) ≡ (f j && prod 32 (withouts js (without j f)))
prod-withouts js j f lt o = ground (
  arith,
  prod-without 32 j (withouts js f) lt,
  withouts-off js f j o,
  prod-ext 32 (withouts js (without j f)) (without j (withouts js f))
      (λ i _. withouts-without js j f i),
)

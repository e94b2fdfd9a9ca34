-- ===== src/Aig/Gap.antt =====
-- The limit of 32 inputs: with 32 variables the mark `cube32_zero` of the empty product is also the
-- cube of the all-negative minterm.
use mathlib.Core.Path.{ap₂}
use losys.Kernel.Cube32.Conjunction.{conj_union}
use losys.Base.{
  Bool-cases, inl, inr, Returns, ℕ, zero, suc, ◌+◌, ◌*◌, ◌^◌, ◌≡◌, refl, ◌∙◌, ap, true, false, ◌&&◌,
  ==_iff, some, List, [], ◌∷◌, set, get_or, arith, prod-true, bit, bit-zero, bit_or, ◌≢◌,
}
use losys.Kernel.Cube32.{value, Cube32, cube32_one, cube32_zero, eq, ne, conj}
use losys.Kernel.Cube32.Meaning.{eval, IsCube, eq_self}
use losys.Kernel.CubeSet.{HashOrder}
use losys.Kernel.CubeSet.Esop.{eval_esop}
use losys.Aig.{AigExtrMngr, add_product, add_row, multiply, compute_and}

-- A cube of negative literals, of some variable at least.
abbrev pub IsNegative : Cube32 → Type 0
IsNegative c = (c.polarity ≡ 0) × (c.mask ≢ 0)

eval-IsNegative : (c : Cube32) → c.polarity ≡ 0 → eval c (λ _. false) ≡ true
unfolding eval
eval-IsNegative c p = prod-true 32 _ (λ i _. ground (arith, ap (λ (t : ℕ). bit t i) p, bit-zero i))

ne_one : (c : Cube32) → IsNegative c → eq c cube32_one ≡ false
unfolding eq value
ne_one c h = elim (Bool-cases (eq c cube32_one)) [
  | inl e ↦
      let t : c.mask * 2 ^ 32 + c.polarity ≡ 0 * 2 ^ 32 + 0 = (==_iff _ _).0 e in
      absurd (h.1 (omega arith))
  | inr e ↦ e
]

conj_negative :
    (c d : Cube32)
    → IsCube 32 c
    → IsCube 32 d
    → c.polarity ≡ 0
    → d.polarity ≡ 0
    → bit_or c.mask d.mask ≡ 0xFFFFFFFF
    → conj c d ≡ cube32_zero
conj_negative c d kc kd p q e = elim (conj_union c d 32 kc kd (omega arith)) [
  | inl z ↦ z
  | inr u ↦
      let zeros : bit_or c.polarity d.polarity ≡ 0 = ap₂ bit_or p q in
      u ∙ (λ j. record { polarity = zeros j; mask = e j })
]

get_or-set_default : (xs : List (List Cube32)) (i : ℕ) → get_or (set xs i []) i [] ≡ []
get_or-set_default [] i = refl
get_or-set_default (x ∷ xs) zero = refl
get_or-set_default (x ∷ xs) (suc i) = get_or-set_default xs i

-- The node of two cubes of negative literals, one of which has each of the 32 variables, is left
-- without a cube, that is the constant 0; yet both cubes hold where every variable is 0.
pub compute_and_gap :
    (o : HashOrder) (n id : ℕ) (m : AigExtrMngr) (c d : Cube32)
    → m.m_esop0 ≡ c ∷ []
    → m.m_esop1 ≡ d ∷ []
    → m.m_curr_esop ≡ []
    → get_or m.m_esops id [] ≡ []
    → IsCube 32 c
    → IsCube 32 d
    → IsNegative c
    → IsNegative d
    → bit_or c.mask d.mask ≡ 0xFFFFFFFF
    → Returns (compute_and o n id m) (λ m'. get_or m'.m_esops id [] ≡ [])
      × ((eval_esop m.m_esop0 (λ _. false) && eval_esop m.m_esop1 (λ _. false)) ≡ true)
unfolding compute_and multiply add_row add_product eval_esop ne
compute_and_gap o n id m c d e0 e1 curr fresh kc kd nc nd full =
    let z = conj_negative c d kc kd nc.0 nd.0 full in
    let product : add_product o n c d [] ≡ some [] =
      ground (arith, ne_one d nd, ap (λ (t : Cube32). eq t cube32_zero) z, eq_self cube32_zero) in
    let all : multiply o n (c ∷ []) (d ∷ []) [] ≡ some [] = rw (ne_one c nc, product) in
    (
      rw (e0, e1, curr, all, fresh) (get_or-set_default m.m_esops id),
      rw (e0, e1) (ground (arith, eval-IsNegative c nc.0, eval-IsNegative d nd.0)),
    )

-- ===== src/Bdd/Diagram.antt =====
-- What CUDD promises of the nodes it gives: an ordered decision diagram.
use losys.Base.{
  suc, ◌+◌, ℕ, ◌<◌, ◌≡◌, Bool, true, false, not, ◌⊕◌, ◌||◌, ◌==◌, if◌then◌else◌, arith, Bool-cases,
  inl, inr,
}
use losys.Bdd.{Cudd, cofactor0, cofactor1, cofactor2}

unfoldable pub is_terminal : Cudd → ℕ → Bool
is_terminal cudd f = f == cudd.logic_zero || f == cudd.one

-- A node all of whose variables come after the place `k` of the variable order.
abbrev pub IsBelow : Cudd → (ℕ → ℕ) → ℕ → ℕ → Type 0
IsBelow cudd place k f = is_terminal cudd f ≡ false → k < place (cudd.read_index f)

-- The diagrams have `n` variables, `place` gives each its place in the order, and `value` is the
-- function that a node stands for.
pub record IsDiagram (cudd : Cudd) (n : ℕ) : Type 0 where
  pub place : ℕ → ℕ
  pub value : ℕ → (ℕ → Bool) → Bool
  pub place_below : (f : ℕ) → is_terminal cudd f ≡ false → cudd.read_index f < n
  pub place_fits : (f : ℕ) → is_terminal cudd f ≡ false → place (cudd.read_index f) < n
  pub e_below :
      (f : ℕ)
      → is_terminal cudd f ≡ false
      → IsBelow cudd place (place (cudd.read_index f)) (cudd.node_e f)
  pub t_below :
      (f : ℕ)
      → is_terminal cudd f ≡ false
      → IsBelow cudd place (place (cudd.read_index f)) (cudd.node_t f)
  pub negate_below : (k f : ℕ) → IsBelow cudd place k f → IsBelow cudd place k (cudd.negate f)
  pub xor_below :
      (k f g : ℕ)
      → IsBelow cudd place k f
      → IsBelow cudd place k g
      → IsBelow cudd place k (cudd.bdd_xor f g)
  pub value_zero : (v : ℕ → Bool) → value cudd.logic_zero v ≡ false
  pub value_one : (v : ℕ → Bool) → value cudd.one v ≡ true
  pub value_node :
      (f : ℕ) (v : ℕ → Bool)
      → is_terminal cudd f ≡ false
      → value f v ≡ (
          cudd.is_complement f
          ⊕ (if v (cudd.read_index f) then value (cudd.node_t f) v else value (cudd.node_e f) v))
  pub value_negate : (f : ℕ) (v : ℕ → Bool) → value (cudd.negate f) v ≡ not (value f v)
  pub value_xor : (f g : ℕ) (v : ℕ → Bool) → value (cudd.bdd_xor f g) v ≡ (value f v ⊕ value g v)

module _ {cudd : Cudd} {n : ℕ} (d : IsDiagram cudd n) (f : ℕ)
    (inner : is_terminal cudd f ≡ false) where
  pub cofactor0-IsBelow : IsBelow cudd d.place (d.place (cudd.read_index f)) (cofactor0 cudd f)
  cofactor0-IsBelow = elim (Bool-cases (cudd.is_complement f)) [
    | inl e ↦ rw e (d.negate_below _ (cudd.node_e f) (d.e_below f inner))
    | inr e ↦ rw e (d.e_below f inner)
  ]

  pub cofactor1-IsBelow : IsBelow cudd d.place (d.place (cudd.read_index f)) (cofactor1 cudd f)
  cofactor1-IsBelow = elim (Bool-cases (cudd.is_complement f)) [
    | inl e ↦ rw e (d.negate_below _ (cudd.node_t f) (d.t_below f inner))
    | inr e ↦ rw e (d.t_below f inner)
  ]

  pub cofactor2-IsBelow : IsBelow cudd d.place (d.place (cudd.read_index f)) (cofactor2 cudd f)
  cofactor2-IsBelow = d.xor_below _ _ _ cofactor0-IsBelow cofactor1-IsBelow

  -- The expansion by the node's variable.
  pub value-cofactors :
      (v : ℕ → Bool)
      → d.value f v ≡ (
          if v (cudd.read_index f)
          then d.value (cofactor1 cudd f) v
          else d.value (cofactor0 cudd f) v)
  value-cofactors v = elim (Bool-cases (cudd.is_complement f)) [
    | inl e ↦ ground (
      arith,
      d.value_node f v inner,
      d.value_negate (cudd.node_e f) v,
      d.value_negate (cudd.node_t f) v,
    )
    | inr e ↦ ground (arith, d.value_node f v inner)
  ]

-- Fuel for the longest path from a node.
abbrev pub IsEnough : {cudd : Cudd} {n : ℕ} → IsDiagram cudd n → ℕ → ℕ → Type 0
IsEnough {cudd} {n} d fuel f =
    (0 < fuel) × (is_terminal cudd f ≡ false → n < fuel + d.place (cudd.read_index f))

pub IsEnough-below :
    {cudd : Cudd} {n : ℕ} (d : IsDiagram cudd n) (fuel f g : ℕ)
    → is_terminal cudd f ≡ false
    → IsEnough d (suc fuel) f
    → IsBelow cudd d.place (d.place (cudd.read_index f)) g
    → IsEnough d fuel g
IsEnough-below d fuel f g inner enough below =
    let room = enough.1 inner in
    let fits = d.place_fits f inner in (omega arith, λ e. omega (arith, below e))

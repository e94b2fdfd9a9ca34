-- ===== src/Tools/Collapse/Cofactors.antt =====
-- The cofactors: the `i`-th is the AIG with its first variables fixed to the bits of `i`, and every
-- assignment matches the bits of exactly one `i`.
use mathlib.Core.Path.{subst}
use native.Mathlib.Nat.{two-pow-succ, div-div-eq-div-mul}
use losys.Base.{
  ℕ, zero, suc, ◌+◌, ◌*◌, ◌/◌, ◌%◌, ◌^◌, ◌≤◌, ◌<◌, ◌≡◌, refl, ap, ◌∙◌, sym, Bool, true, not, ◌&&◌,
  ◌⊕◌, ◌==◌, if◌then◌else◌, Bool-cases, inl, inr, List, map, length, arith,
}
use losys.Aig.{Gia, Output}
use losys.Aig.Simulate.{simulate, set_value}
use losys.Aig.Correct.{IsAig}
use losys.Aig.Unread.{IsUnread}
use losys.Tools.Collapse.{CofactorOps, cofactor_vars}

-- The values of the outputs under `v`.
abbrev pub outputs_at : Gia → (ℕ → Bool) → List Bool
outputs_at aig v = map (λ (c : Output). c.compl ⊕ simulate aig v c.fanin) aig.cos

-- An AIG over the same inputs, with outputs given by `outs`.
pub record IsVersion (n : ℕ) (outs : (ℕ → Bool) → List Bool) (aig : Gia) : Type 0 where
  pub is_aig : IsAig aig
  pub inputs : length aig.ci_ids ≡ n
  pub outputs : (v : ℕ → Bool) → outputs_at aig v ≡ outs v

-- ABC's promises on the duplicate and on the cofactor of an AIG: the inputs stay, no gate and no
-- output reads the variable that is fixed, and what is not read before is not read after.
pub record IsCofactorOps (abc : CofactorOps) : Type 0 where
  pub dup_same :
      (aig : Gia) → IsAig aig → IsVersion (length aig.ci_ids) (outputs_at aig) (abc.dup aig)
  pub fixes :
      (aig : Gia) (j b : ℕ)
      → IsAig aig
      → j < length aig.ci_ids
      → b ≤ 1
      → IsVersion
          (length aig.ci_ids)
          (λ v. outputs_at aig (set_value j (b == 1) v))
          (abc.dup_cofactor_var aig j b)
  pub fixed_unread :
      (aig : Gia) (j b : ℕ)
      → IsAig aig
      → j < length aig.ci_ids
      → b ≤ 1
      → IsUnread (abc.dup_cofactor_var aig j b) j
  pub stays_unread :
      (aig : Gia) (j b k : ℕ)
      → IsAig aig
      → j < length aig.ci_ids
      → b ≤ 1
      → k < length aig.ci_ids
      → IsUnread aig k
      → IsUnread (abc.dup_cofactor_var aig j b) k

-- The variables from `j` on, `left` in number, fixed to the bits of `i`.
abbrev pub fix : ℕ → ℕ → ℕ → (ℕ → Bool) → ℕ → Bool
fix i zero j v = v
fix i (suc left) j v = set_value j (i / 2 ^ j % 2 == 1) (fix i left (j + 1) v)

-- The assignment has the bits of `i` at these variables.
abbrev pub matches : ℕ → ℕ → ℕ → (ℕ → Bool) → Bool
matches i zero j v = true
matches i (suc left) j v = not ((i / 2 ^ j % 2 == 1) ⊕ v j) && matches i left (j + 1) v

pub fix-matches :
    (i left j : ℕ) (v : ℕ → Bool) → matches i left j v ≡ true → (k : ℕ) → fix i left j v k ≡ v k
fix-matches i zero j v m k = refl
fix-matches i (suc left) j v m k = elim (Bool-cases (j == k)) [
  | inl e ↦ let same : j ≡ k = ground arith in rw e (ground (arith, m, ap v same))
  | inr e ↦ rw e (fix-matches i left (j + 1) v (ground (arith, m)) k)
]

-- The number whose bits the assignment has.
abbrev pub code : ℕ → ℕ → (ℕ → Bool) → ℕ
code zero j v = 0
code (suc left) j v = (if v j then 1 else 0) + 2 * code left (j + 1) v

pub code_below : (left j : ℕ) (v : ℕ → Bool) → code left j v < 2 ^ left
code_below zero j v = omega arith
code_below (suc left) j v = elim (Bool-cases (v j)) [
  | inl e ↦ rw e (omega (arith, code_below left (j + 1) v, two-pow-succ left))
  | inr e ↦ rw e (omega (arith, code_below left (j + 1) v, two-pow-succ left))
]

half : (i j : ℕ) → i / 2 ^ (j + 1) ≡ i / 2 ^ j / 2
half i j =
    let s : j + 1 ≡ suc j = omega arith in
    let d : 2 ^ suc j ≡ 2 ^ j * 2 = omega (arith, two-pow-succ j) in
    let e : 2 ^ (j + 1) ≡ 2 ^ j * 2 = ap (λ (k : ℕ). 2 ^ k) s ∙ d in
    ap (λ (m : ℕ). i / m) e ∙ sym (div-div-eq-div-mul i (2 ^ j) 2)

pub matches-code :
    (i left j : ℕ) (v : ℕ → Bool)
    → i / 2 ^ j < 2 ^ left
    → matches i left j v ≡ (i / 2 ^ j == code left j v)
matches-code i zero j v lt = let e : i / 2 ^ j ≡ 0 = omega arith in ground (arith, e)
matches-code i (suc left) j v lt =
    let q = i / 2 ^ j in
    let h = half i j in
    let next : i / 2 ^ (j + 1) < 2 ^ left = omega (arith, h, two-pow-succ left) in
    elim (Bool-cases (v j)) [
      | inl e ↦ rw e (ground (arith, matches-code i left (j + 1) v next, h))
      | inr e ↦ rw e (ground (arith, matches-code i left (j + 1) v next, h))
    ]

module _ (abc : CofactorOps) (promise : IsCofactorOps abc) where
  -- The loop over `j` fixes the variables from `j` on.
  pub cofactor_vars-IsVersion :
      (n i left j : ℕ) (outs : (ℕ → Bool) → List Bool) (aig : Gia)
      → j + left ≤ n
      → IsVersion n outs aig
      → IsVersion n (λ v. outs (fix i left j v)) (cofactor_vars abc i left j aig)
  unfolding cofactor_vars
  cofactor_vars-IsVersion n i zero j outs aig le a = a
  cofactor_vars-IsVersion n i (suc left) j outs aig le a =
      let e = a.inputs in
      let b = i / 2 ^ j % 2 in
      let w = promise.fixes aig j b a.is_aig (omega (arith, e)) (omega arith) in
      cofactor_vars-IsVersion n i left (j + 1) (λ v. outs (set_value j (b == 1) v))
        (abc.dup_cofactor_var aig j b) (omega arith)
        (record {
          is_aig = w.is_aig;
          inputs = w.inputs ∙ e;
          outputs = λ v. w.outputs v ∙ a.outputs (set_value j (b == 1) v);
        })

  -- The variables that are fixed, and those that were not read before, are not read.
  pub cofactor_vars-IsUnread :
      (n i left j k : ℕ) (outs : (ℕ → Bool) → List Bool) (aig : Gia)
      → j + left ≤ n
      → IsVersion n outs aig
      → (k < j → IsUnread aig k)
      → k < j + left
      → IsUnread (cofactor_vars abc i left j aig) k
  unfolding cofactor_vars
  cofactor_vars-IsUnread n i zero j k outs aig le a before lt = before (omega arith)
  cofactor_vars-IsUnread n i (suc left) j k outs aig le a before lt =
      let e = a.inputs in
      let b = i / 2 ^ j % 2 in
      let inside : j < length aig.ci_ids = omega (arith, e) in
      let bound : b ≤ 1 = omega arith in
      let w = promise.fixes aig j b a.is_aig inside bound in
      cofactor_vars-IsUnread n i left (j + 1) k (λ v. outs (set_value j (b == 1) v))
        (abc.dup_cofactor_var aig j b) (omega arith)
        (record {
          is_aig = w.is_aig;
          inputs = w.inputs ∙ e;
          outputs = λ v. w.outputs v ∙ a.outputs (set_value j (b == 1) v);
        })
        (λ h. elim (Bool-cases (j == k)) [
          | inl q ↦
              let same : j ≡ k = ground arith in
              subst (IsUnread (abc.dup_cofactor_var aig j b)) same
                (promise.fixed_unread aig j b a.is_aig inside bound)
          | inr q ↦
              let earlier : k < j = ground arith in
              promise.stays_unread aig j b k a.is_aig inside bound (omega arith) (before earlier)
        ])
        (omega arith)

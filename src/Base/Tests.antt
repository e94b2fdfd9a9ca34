-- ===== src/Base/Tests.antt =====
-- Boolean tests on the native numbers, the conditional, and exclusive or.
use Prim.Native.Nat.{ℕ, ◌<◌, compare, Ordering}
use mathlib.Core.Path.{◌≡◌, refl}
use mathlib.Core.Logic.{◌↔◌, ◌⊎◌, inl, inr}
use mathlib.Core.Bool.{Bool, true, false, not, ◌&&◌}
use native.Mathlib.Omega.{arith}

abbrev pub ltb : ℕ → ℕ → Bool
ltb a b = elim (compare a b) [ Ordering.lt ↦ true | _ ↦ false ]

infix 50 ◌==◌
abbrev pub ◌==◌ : ℕ → ℕ → Bool
a == b = elim (compare a b) [ Ordering.eq ↦ true | _ ↦ false ]

infix 1 if◌then◌else◌
abbrev pub if◌then◌else◌ {ℓ} : {A : Type ℓ} → Bool → A → A → A
if true then x else y = x
if false then x else y = y

pub ltb→lt : (a b : ℕ) → ltb a b ≡ true → a < b
ltb→lt a b h = ground arith

pub ==_iff : (a b : ℕ) → ((a == b) ≡ true) ↔ (a ≡ b)
==_iff a b = ground arith

pub ==_self : (a : ℕ) → (a == a) ≡ true
==_self a = ground arith

-- To split on a computed value and keep the equation.
pub Bool-cases : (b : Bool) → (b ≡ true) ⊎ (b ≡ false)
Bool-cases true = inl refl
Bool-cases false = inr refl

infixl 32 ◌⊕◌
abbrev pub ◌⊕◌ : Bool → Bool → Bool
true ⊕ b = not b
false ⊕ b = b

pub ⊕_comm : (a b : Bool) → (a ⊕ b) ≡ (b ⊕ a)
⊕_comm a b = ground arith

pub ⊕_assoc : (a b c : Bool) → ((a ⊕ b) ⊕ c) ≡ (a ⊕ (b ⊕ c))
⊕_assoc a b c = ground arith

pub ⊕-false : (a : Bool) → (a ⊕ false) ≡ a
⊕-false a = ground arith

pub ⊕_self : (a : Bool) → (a ⊕ a) ≡ false
⊕_self a = ground arith

pub and-⊕ : (a b c : Bool) → (a && (b ⊕ c)) ≡ ((a && b) ⊕ (a && c))
and-⊕ a b c = ground arith

abbrev pub leb : ℕ → ℕ → Bool
leb a b = elim (compare a b) [ Ordering.gt ↦ false | _ ↦ true ]

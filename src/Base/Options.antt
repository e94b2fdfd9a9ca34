-- ===== src/Base/Options.antt =====
-- Computations that may run out of fuel, and what holds of their values.
use mathlib.Core.Path.{◌≡◌, refl}
use mathlib.Core.Option.{Option, none, some}
use mathlib.Core.Logic.{◌⊎◌, inl, inr}

infixl 5 ◌>>=◌
abbrev pub ◌>>=◌ {ℓ κ} : {A : Type ℓ} {B : Type κ} → Option A → (A → Option B) → Option B
none >>= f = none
some a >>= f = f a

-- The computation returns, with a value for which `P` holds.
abbrev pub Returns {ℓ} : {A : Type ℓ} → Option A → (A → Type 0) → Type 0
Returns none P = ⊥
Returns (some a) P = P a

pub Option-cases {ℓ} : {A : Type ℓ} (o : Option A) → (o ≡ none) ⊎ ((a : A) × (o ≡ some a))
Option-cases none = inl refl
Option-cases (some a) = inr (a, refl)

pub Returns-bind {ℓ κ} :
    {A : Type ℓ} {B : Type κ} (m : Option A) (f : A → Option B) (P : A → Type 0) (Q : B → Type 0)
    → Returns m P
    → ((a : A) → P a → Returns (f a) Q)
    → Returns (m >>= f) Q
Returns-bind none f P Q h k = absurd h
Returns-bind (some a) f P Q h k = k a h

pub Returns-map {ℓ} :
    {A : Type ℓ} (m : Option A) (P Q : A → Type 0)
    → Returns m P
    → ((a : A) → P a → Q a)
    → Returns m Q
Returns-map none P Q h k = h
Returns-map (some a) P Q h k = k a h

-- What holds of the value for each `i` holds of it for all of them.
pub Returns-all {ℓ} :
    {A : Type ℓ} {I : Type 0} (m : Option A) (P : I → A → Type 0)
    → I
    → ((i : I) → Returns m (P i))
    → Returns m (λ a. (i : I) → P i a)
Returns-all none P i h = h i
Returns-all (some a) P i h = h

pub Returns-some {ℓ} :
    {A : Type ℓ} (m : Option A) (P : A → Type 0) (a : A) → Returns m P → m ≡ some a → P a
Returns-some m P a h e = rw e at h

-- What holds of the value that the computation returns holds of a value returned.
pub Returns-known {ℓ} :
    {A : Type ℓ} (m : Option A) (P Q : A → Type 0)
    → Returns m P
    → ((a : A) → m ≡ some a → P a → Q a)
    → Returns m Q
Returns-known none P Q h k = h
Returns-known (some a) P Q h k = k a refl h

-- What holds of the result, where there is one.
abbrev pub IfSome : {A : Type 0} → (A → Type 0) → Option A → Type 0
IfSome p none = Unit
IfSome p (some a) = p a

pub IfSome-bind :
    {A B : Type 0} (x : Option A) (g : A → Option B) (p : A → Type 0) (q : B → Type 0)
    → IfSome p x
    → ((a : A) → p a → IfSome q (g a))
    → IfSome q (x >>= g)
IfSome-bind none g p q h k = tt
IfSome-bind (some a) g p q h k = k a h

pub IfSome-map :
    {A : Type 0} (x : Option A) (p q : A → Type 0) → IfSome p x → ((a : A) → p a → q a) → IfSome q x
IfSome-map none p q h k = h
IfSome-map (some a) p q h k = k a h

pub IfSome-self : {A : Type 0} (x : Option A) → IfSome (λ a. x ≡ some a) x
IfSome-self none = tt
IfSome-self (some a) = refl

pub IfSome-all : {A : Type 0} (x : Option A) → IfSome (λ _. Unit) x
IfSome-all none = tt
IfSome-all (some a) = tt

pub Returns-IfSome :
    {A : Type 0} (x : Option A) (p q : A → Type 0)
    → Returns x p
    → IfSome q x
    → Returns x (λ a. p a × q a)
Returns-IfSome none p q h k = absurd h
Returns-IfSome (some a) p q h k = (h, k)

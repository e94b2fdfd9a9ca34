-- ===== src/Kernel/CubeSet/Esop.antt =====
-- What a collection of cubes means as an exclusive sum of products, and when it is a set.
use mathlib.Core.List.{Permᴰ}
use mathlib.Core.Path.{subst}
use losys.Base.{
  ℕ, suc, ◌≡◌, refl, sym, ◌∙◌, ap, Bool, false, ◌⊕◌, List, [], ◌∷◌, ◌++◌, All, arith, length,
}
use losys.Kernel.Cube32.{Cube32, eq}
use losys.Kernel.Cube32.Meaning.{eval}
use losys.Kernel.CubeSet.{contains}

unfoldable pub eval_esop : List Cube32 → (ℕ → Bool) → Bool
eval_esop [] v = false
eval_esop (c ∷ cs) v = eval c v ⊕ eval_esop cs v

pub eval_esop-append :
    (xs ys : List Cube32) (v : ℕ → Bool)
    → eval_esop (xs ++ ys) v ≡ (eval_esop xs v ⊕ eval_esop ys v)
unfolding eval_esop
eval_esop-append [] ys v = refl
eval_esop-append (x ∷ xs) ys v = ground (arith, eval_esop-append xs ys v)

pub eval_esop-perm :
    {xs ys : List Cube32} → Permᴰ xs ys → (v : ℕ → Bool) → eval_esop xs v ≡ eval_esop ys v
unfolding eval_esop
eval_esop-perm Permᴰ.nil v = refl
eval_esop-perm (Permᴰ.cons {a = a} {b = b} e p) v =
    ground (arith, ap (λ (c : Cube32). eval c v) e, eval_esop-perm p v)
eval_esop-perm (Permᴰ.swap e f) v =
    ground (arith, ap (λ (c : Cube32). eval c v) e, ap (λ (c : Cube32). eval c v) f)
eval_esop-perm (Permᴰ.trans p q) v = eval_esop-perm p v ∙ eval_esop-perm q v

pub length-perm : {xs ys : List Cube32} → Permᴰ xs ys → length xs ≡ length ys
length-perm Permᴰ.nil = refl
length-perm (Permᴰ.cons e p) = ap suc (length-perm p)
length-perm (Permᴰ.swap e f) = refl
length-perm (Permᴰ.trans p q) = length-perm p ∙ length-perm q

pub contains-perm :
    {xs ys : List Cube32} → Permᴰ xs ys → (c : Cube32) → contains c xs ≡ contains c ys
unfolding contains
contains-perm Permᴰ.nil c = refl
contains-perm (Permᴰ.cons e p) c = ground (arith, ap (λ (d : Cube32). eq d c) e, contains-perm p c)
contains-perm (Permᴰ.swap e f) c =
    ground (arith, ap (λ (d : Cube32). eq d c) e, ap (λ (d : Cube32). eq d c) f)
contains-perm (Permᴰ.trans p q) c = contains-perm p c ∙ contains-perm q c

-- No element twice.
abbrev pub IsDistinct : List Cube32 → Type 0
IsDistinct [] = Unit
IsDistinct (c ∷ s) = (contains c s ≡ false) × IsDistinct s

pub All-perm {κ} : (P : Cube32 → Type κ) {xs ys : List Cube32} → Permᴰ xs ys → All P ys → All P xs
All-perm P Permᴰ.nil h = h
All-perm P (Permᴰ.cons e p) h = (subst P (sym e) h.0, All-perm P p h.1)
All-perm P (Permᴰ.swap e f) h = (subst P (sym e) h.1.0, (subst P (sym f) h.0, h.1.1))
All-perm P (Permᴰ.trans p q) h = All-perm P p (All-perm P q h)

pub eq_symm : (c d : Cube32) → eq c d ≡ eq d c
unfolding eq
eq_symm c d = ground arith

pub IsDistinct-perm : {xs ys : List Cube32} → Permᴰ xs ys → IsDistinct ys → IsDistinct xs
unfolding contains
IsDistinct-perm Permᴰ.nil h = h
IsDistinct-perm (Permᴰ.cons {a = a} {b = b} {l₁ = s} e p) h =
    (ap (λ c. contains c s) e ∙ contains-perm p b ∙ h.0, IsDistinct-perm p h.1)
IsDistinct-perm (Permᴰ.swap {a = a} {b = b} {a' = c} {b' = d} {l = s} e f) h = ground (
  arith,
  eq_symm c d,
  ap (λ (t : Cube32). eq b t) e,
  ap (λ (t : Cube32). eq t d) f,
  ap (λ (t : Cube32). contains t s) e,
  ap (λ (t : Cube32). contains t s) f,
)
IsDistinct-perm (Permᴰ.trans p q) h = IsDistinct-perm p (IsDistinct-perm q h)

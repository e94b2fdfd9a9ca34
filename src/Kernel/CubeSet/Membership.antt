-- ===== src/Kernel/CubeSet/Membership.antt =====
-- Which cubes `erase` and `insert` leave in a set.
use losys.Base.{◌≡◌, refl, true, false, List, [], ◌∷◌, arith, Bool-cases, inl, inr}
use losys.Kernel.Cube32.{Cube32, eq}
use losys.Kernel.CubeSet.{HashOrder, contains, erase, insert}
use losys.Kernel.CubeSet.Esop.{IsDistinct, contains-perm}

contains-eq : (c d : Cube32) (s : List Cube32) → eq c d ≡ true → contains c s ≡ contains d s
unfolding contains eq
contains-eq c d [] e = refl
contains-eq c d (x ∷ s) e = ground (arith, contains-eq c d s e)

eq_third : (x c d : Cube32) → eq x c ≡ true → eq x d ≡ eq c d
unfolding eq
eq_third x c d e = ground arith

pub contains-erase_self :
    (c : Cube32) (s : List Cube32) → IsDistinct s → contains c (erase c s) ≡ false
unfolding contains erase
contains-erase_self c [] h = refl
contains-erase_self c (x ∷ s) h = elim (Bool-cases (eq x c)) [
  | inl q ↦ ground (arith, contains-eq x c s q)
  | inr q ↦ ground (arith, contains-erase_self c s h.1)
]

pub contains-erase_ne :
    (c d : Cube32) (s : List Cube32) → eq c d ≡ false → contains d (erase c s) ≡ contains d s
unfolding contains erase
contains-erase_ne c d [] e = refl
contains-erase_ne c d (x ∷ s) e = elim (Bool-cases (eq x c)) [
  | inl q ↦ ground (arith, eq_third x c d q)
  | inr q ↦ ground (arith, contains-erase_ne c d s e)
]

pub contains-insert_ne :
    (o : HashOrder) (c d : Cube32) (s : List Cube32)
    → eq c d ≡ false
    → contains d (insert o c s) ≡ contains d s
unfolding contains insert
contains-insert_ne o c d s e = elim (Bool-cases (contains c s)) [
  | inl q ↦ rw q
  | inr q ↦ ground (arith, contains-perm (o.place_perm c s) d)
]

-- ===== src/Kernel/CubeSet/Laws.antt =====
-- `find`, `erase` and `insert` against the meaning of the set and its invariant.
use mathlib.Core.Path.{subst}
use losys.Base.{
  ℕ, suc, ◌≤◌, ◌≡◌, refl, ap, Bool, true, false, ◌⊕◌, List, [], ◌∷◌, All, arith, length, some,
  Bool-cases, inl, inr,
}
use losys.Kernel.Cube32.{Cube32, eq}
use losys.Kernel.Cube32.Meaning.{eval, IsCube, eq_iff, polarity_fits, word_of_fits}
use losys.Kernel.CubeSet.{HashOrder, find, contains, erase, insert}
use losys.Kernel.CubeSet.Esop.{
  eval_esop, eval_esop-perm, length-perm, All-perm, IsDistinct, IsDistinct-perm,
}

-- A set of cubes over the first `n` variables.
abbrev pub IsCubes : ℕ → List Cube32 → Type 0
IsCubes n s = All (IsCube n) s

pub record IsCubeSet (n : ℕ) (s : List Cube32) : Type 0 where
  pub cubes : IsCubes n s
  pub distinct : IsDistinct s

module _ {n : ℕ} (le : n ≤ 32) where
  pub eq_cubes : {c d : Cube32} → IsCube n c → IsCube n d → eq c d ≡ true → c ≡ d
  eq_cubes {c} {d} kc kd e =
      eq_iff c d (word_of_fits n c.polarity le (polarity_fits kc))
        (word_of_fits n d.polarity le (polarity_fits kd)) e

  pub find-some :
      (c d : Cube32) (s : List Cube32)
      → IsCube n c
      → IsCubes n s
      → find c s ≡ some d
      → (d ≡ c) × (contains c s ≡ true)
  unfolding find contains
  find-some c d [] k h e = cc
  find-some c d (x ∷ s) k h e = elim (Bool-cases (eq x c)) [
    | inl q ↦ let w = eq_cubes h.0 k q in (ground (arith, w), ground arith)
    | inr q ↦ let r = find-some c d s k h.1 (ground arith) in (r.0, ground (arith, r.1))
  ]

  -- Taking an element out of the set takes its term out of the sum.
  pub eval_esop-erase :
      (c : Cube32) (s : List Cube32) (v : ℕ → Bool)
      → IsCube n c
      → IsCubes n s
      → contains c s ≡ true
      → eval_esop s v ≡ (eval c v ⊕ eval_esop (erase c s) v)
  unfolding contains erase eval_esop
  eval_esop-erase c [] v k h e = cc
  eval_esop-erase c (x ∷ s) v k h e = elim (Bool-cases (eq x c)) [
    | inl q ↦ ground (arith, ap (λ (t : Cube32). eval t v) (eq_cubes h.0 k q))
    | inr q ↦ ground (arith, eval_esop-erase c s v k h.1 (ground arith))
  ]

pub length-erase :
    (c : Cube32) (s : List Cube32) → contains c s ≡ true → length s ≡ suc (length (erase c s))
unfolding contains erase
length-erase c [] e = cc
length-erase c (x ∷ s) e = ground (arith, length-erase c s)

contains-erase :
    (c d : Cube32) (s : List Cube32) → contains c s ≡ false → contains c (erase d s) ≡ false
unfolding contains erase
contains-erase c d [] e = refl
contains-erase c d (x ∷ s) e = ground (arith, contains-erase c d s)

pub All-erase {κ} :
    (P : Cube32 → Type κ) (c : Cube32) (s : List Cube32) → All P s → All P (erase c s)
unfolding erase
All-erase P c [] h = h
All-erase P c (x ∷ s) h = elim (Bool-cases (eq x c)) [
  | inl q ↦ rw q h.1
  | inr q ↦ rw q (h.0, All-erase P c s h.1)
]

IsDistinct-erase : (c : Cube32) (s : List Cube32) → IsDistinct s → IsDistinct (erase c s)
unfolding erase
IsDistinct-erase c [] h = h
IsDistinct-erase c (x ∷ s) h = elim (Bool-cases (eq x c)) [
  | inl q ↦ rw q h.1
  | inr q ↦ rw q (contains-erase x c s h.0, IsDistinct-erase c s h.1)
]

pub erase-IsCubeSet :
    {n : ℕ} (c : Cube32) {s : List Cube32} → IsCubeSet n s → IsCubeSet n (erase c s)
erase-IsCubeSet {n} c {s} h = record {
  cubes = All-erase (IsCube n) c s h.cubes;
  distinct = IsDistinct-erase c s h.distinct;
}

module _ (o : HashOrder) (c : Cube32) (s : List Cube32) (new : contains c s ≡ false) where
  insert_new : insert o c s ≡ o.place c s
  unfolding insert
  insert_new = rw new

  pub eval_esop-insert : (v : ℕ → Bool) → eval_esop (insert o c s) v ≡ (eval c v ⊕ eval_esop s v)
  unfolding eval_esop
  eval_esop-insert v = rw insert_new (eval_esop-perm (o.place_perm c s) v)

  pub length-insert : length (insert o c s) ≡ suc (length s)
  length-insert = rw insert_new (length-perm (o.place_perm c s))

  pub insert-IsCubeSet : {n : ℕ} → IsCube n c → IsCubeSet n s → IsCubeSet n (insert o c s)
  insert-IsCubeSet {n} k h = rw insert_new (record {
    cubes = All-perm (IsCube n) (o.place_perm c s) (k, h.cubes);
    distinct = IsDistinct-perm (o.place_perm c s) (new, h.distinct);
  })

-- What holds of the new cube and of the old ones holds of all.
pub All-insert {κ} :
    (P : Cube32 → Type κ) (o : HashOrder) (c : Cube32) (s : List Cube32)
    → P c
    → All P s
    → All P (insert o c s)
unfolding insert
All-insert P o c s k h = elim (Bool-cases (contains c s)) [
  | inl e ↦ rw e h
  | inr e ↦ rw e (All-perm P (o.place_perm c s) (k, h))
]

pub All-find {κ} :
    (P : Cube32 → Type κ) (c : Cube32) (s : List Cube32) (d : Cube32)
    → All P s
    → find c s ≡ some d
    → P d
unfolding find
All-find P c [] d h e = absurd (ground arith)
All-find P c (x ∷ s) d h e = elim (Bool-cases (eq x c)) [
  | inl q ↦ let same : x ≡ d = ground arith in subst P same h.0
  | inr q ↦ All-find P c s d h.1 (ground arith)
]

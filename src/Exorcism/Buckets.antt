-- ===== src/Exorcism/Buckets.antt =====
-- The buckets of `m_cubes`: their cubes taken together, and what a change of one bucket does.
use losys.Base.{
  ℕ, zero, suc, ◌+◌, ◌<◌, ◌≤◌, ◌≡◌, Bool, true, false, ◌⊕◌, List, [], ◌∷◌, All, arith, length,
  get_or, set,
}
use losys.Kernel.Cube32.{Cube32}
use losys.Kernel.Cube32.Meaning.{eval, IsCube}
use losys.Kernel.CubeSet.{HashOrder, contains, erase, insert}
use losys.Kernel.CubeSet.Esop.{eval_esop}
use losys.Kernel.CubeSet.Laws.{
  IsCubeSet, eval_esop-erase, length-erase, erase-IsCubeSet, eval_esop-insert, length-insert,
  insert-IsCubeSet,
}
use losys.Exorcism.Manager.{total}

unfoldable pub eval_buckets : List (List Cube32) → (ℕ → Bool) → Bool
eval_buckets [] v = false
eval_buckets (b ∷ bs) v = eval_esop b v ⊕ eval_buckets bs v

pub eval_buckets-set :
    (bs : List (List Cube32)) (i : ℕ) (b : List Cube32) (v : ℕ → Bool)
    → i < length bs
    → (eval_buckets (set bs i b) v ⊕ eval_esop (get_or bs i []) v)
      ≡ (eval_buckets bs v ⊕ eval_esop b v)
unfolding eval_buckets
eval_buckets-set [] i b v h = absurd (omega arith)
eval_buckets-set (a ∷ bs) zero b v h = ground arith
eval_buckets-set (a ∷ bs) (suc i) b v h = ground (arith, eval_buckets-set bs i b v (omega arith))

pub total-set :
    (bs : List (List Cube32)) (i : ℕ) (b : List Cube32)
    → i < length bs
    → total (set bs i b) + length (get_or bs i []) ≡ total bs + length b
unfolding total
total-set [] i b h = absurd (omega arith)
total-set (a ∷ bs) zero b h = omega arith
total-set (a ∷ bs) (suc i) b h = omega (arith, total-set bs i b (omega arith))

abbrev pub IsBuckets : ℕ → List (List Cube32) → Type 0
IsBuckets n bs = All (IsCubeSet n) bs

pub set-IsBuckets :
    {n : ℕ} (bs : List (List Cube32)) (i : ℕ) (b : List Cube32)
    → IsBuckets n bs
    → IsCubeSet n b
    → IsBuckets n (set bs i b)
set-IsBuckets [] i b h k = tt
set-IsBuckets (a ∷ bs) zero b h k = (k, h.1)
set-IsBuckets (a ∷ bs) (suc i) b h k = (h.0, set-IsBuckets bs i b h.1 k)

pub get_or-IsCubeSet :
    {n : ℕ} (bs : List (List Cube32)) (i : ℕ) → IsBuckets n bs → IsCubeSet n (get_or bs i [])
get_or-IsCubeSet [] i h = record { cubes = tt; distinct = tt }
get_or-IsCubeSet (a ∷ bs) zero h = h.0
get_or-IsCubeSet (a ∷ bs) (suc i) h = get_or-IsCubeSet bs i h.1

-- A bucket that holds a cube is one of them.
pub held_below :
    (c : Cube32) (bs : List (List Cube32)) (i : ℕ)
    → contains c (get_or bs i []) ≡ true
    → i < length bs
unfolding contains
held_below c [] i e = cc
held_below c (a ∷ bs) zero e = omega arith
held_below c (a ∷ bs) (suc i) e = omega (arith, held_below c bs i e)

pub erase-IsBuckets :
    (n : ℕ) (c : Cube32) (bs : List (List Cube32)) (i : ℕ)
    → IsBuckets n bs
    → IsBuckets n (set bs i (erase c (get_or bs i [])))
erase-IsBuckets n c bs i h = set-IsBuckets bs i _ h (erase-IsCubeSet c (get_or-IsCubeSet bs i h))

module _ {n : ℕ} (le : n ≤ 32) (c : Cube32) (bs : List (List Cube32)) (i : ℕ) (h : IsBuckets n bs)
    (held : contains c (get_or bs i []) ≡ true) where
  pub total-erase : total bs ≡ suc (total (set bs i (erase c (get_or bs i []))))
  total-erase = omega (
    arith,
    total-set bs i (erase c (get_or bs i [])) (held_below c bs i held),
    length-erase c (get_or bs i []) held,
  )

  pub eval_buckets-erase :
      (v : ℕ → Bool)
      → IsCube n c
      → eval_buckets bs v ≡ (eval c v ⊕ eval_buckets (set bs i (erase c (get_or bs i []))) v)
  eval_buckets-erase v k = ground (
    arith,
    eval_buckets-set bs i (erase c (get_or bs i [])) v (held_below c bs i held),
    eval_esop-erase le c (get_or bs i []) v k (get_or-IsCubeSet bs i h).cubes held,
  )

module _ (o : HashOrder) (c : Cube32) (bs : List (List Cube32)) (i : ℕ) (lt : i < length bs)
    (new : contains c (get_or bs i []) ≡ false) where
  pub total-insert : total (set bs i (insert o c (get_or bs i []))) ≡ suc (total bs)
  total-insert = omega (
    arith,
    total-set bs i (insert o c (get_or bs i [])) lt,
    length-insert o c (get_or bs i []) new,
  )

  pub eval_buckets-insert :
      (v : ℕ → Bool)
      → eval_buckets (set bs i (insert o c (get_or bs i []))) v ≡ (eval c v ⊕ eval_buckets bs v)
  eval_buckets-insert v = ground (
    arith,
    eval_buckets-set bs i (insert o c (get_or bs i [])) v lt,
    eval_esop-insert o c (get_or bs i []) new v,
  )

  pub insert-IsBuckets :
      {n : ℕ} → IsBuckets n bs → IsCube n c → IsBuckets n (set bs i (insert o c (get_or bs i [])))
  insert-IsBuckets h k =
      set-IsBuckets bs i _ h (insert-IsCubeSet o c (get_or bs i []) new k (get_or-IsCubeSet bs i h))

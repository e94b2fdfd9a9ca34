-- ===== src/Exorcism/Store.antt =====
-- The manager with a cube taken out of a bucket or put into one.
use losys.Base.{ℕ, suc, ◌≤◌, ◌≡◌, ◌∙◌, Bool, true, false, ◌⊕◌, [], arith, length-set, get_or}
use losys.Kernel.Cube32.{Cube32}
use losys.Kernel.Cube32.Meaning.{eval, IsCube}
use losys.Kernel.CubeSet.{HashOrder, contains}
use losys.Exorcism.Manager.{ExorcismMngr, total, erase_at, insert_at}
use losys.Exorcism.Invariant.{IsMngr}
use losys.Exorcism.Buckets.{
  eval_buckets, total-erase, eval_buckets-erase, erase-IsBuckets, total-insert, eval_buckets-insert,
  insert-IsBuckets,
}

module _ {n : ℕ} {m : ExorcismMngr} (le : n ≤ 32) (h : IsMngr n m) (i : ℕ) (c : Cube32) where
  pub erase_at-IsMngr : IsMngr n (erase_at i c m)
  unfolding erase_at
  erase_at-IsMngr = record {
    vars = h.vars;
    size = length-set m.m_cubes i _ ∙ h.size;
    buckets = erase-IsBuckets n c m.m_cubes i h.buckets;
    pairs0 = h.pairs0;
    pairs1 = h.pairs1;
    tmp0 = h.tmp0;
    tmp1 = h.tmp1;
  }

  module _ (held : contains c (get_or m.m_cubes i []) ≡ true) where
    pub total-erase_at : total m.m_cubes ≡ suc (total (erase_at i c m).m_cubes)
    unfolding erase_at
    total-erase_at = total-erase le c m.m_cubes i h.buckets held

    pub eval-erase_at :
        IsCube n c
        → (v : ℕ → Bool)
        → eval_buckets m.m_cubes v ≡ (eval c v ⊕ eval_buckets (erase_at i c m).m_cubes v)
    unfolding erase_at
    eval-erase_at k v = eval_buckets-erase le c m.m_cubes i h.buckets held v k

module _ {n : ℕ} {m : ExorcismMngr} (o : HashOrder) (h : IsMngr n m) (i : ℕ) (c : Cube32)
    (lt : i ≤ n) (new : contains c (get_or m.m_cubes i []) ≡ false) where
  pub insert_at-IsMngr : IsCube n c → IsMngr n (insert_at o i c m)
  unfolding insert_at
  insert_at-IsMngr k = record {
    vars = h.vars;
    size = length-set m.m_cubes i _ ∙ h.size;
    buckets = insert-IsBuckets o c m.m_cubes i (omega (arith, h.size)) new h.buckets k;
    pairs0 = h.pairs0;
    pairs1 = h.pairs1;
    tmp0 = h.tmp0;
    tmp1 = h.tmp1;
  }

  pub total-insert_at : total (insert_at o i c m).m_cubes ≡ suc (total m.m_cubes)
  unfolding insert_at
  total-insert_at = total-insert o c m.m_cubes i (omega (arith, h.size)) new

  pub eval-insert_at :
      (v : ℕ → Bool)
      → eval_buckets (insert_at o i c m).m_cubes v ≡ (eval c v ⊕ eval_buckets m.m_cubes v)
  unfolding insert_at
  eval-insert_at v = eval_buckets-insert o c m.m_cubes i (omega (arith, h.size)) new v

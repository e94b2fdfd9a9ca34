-- ===== src/Exorcism/Invariant.antt =====
-- The invariant of `exorcism_mngr`, and what a scan leaves as it was.
use losys.Kernel.Cube32.Merge.{bit-difference}
use losys.Base.{popcount-zero, bit-zero, bit_ext, ℕ, suc, ◌≡◌, refl, ◌∙◌, All, arith, length}
use losys.Kernel.Cube32.{difference, Cube32, distance}
use losys.Kernel.Cube32.Meaning.{IsCube}
use losys.Exorcism.Manager.{CubePair, ExorcismMngr}
use losys.Exorcism.Buckets.{IsBuckets}

-- A pair of cubes at the distance `d`.
pub record IsPair (n d : ℕ) (p : CubePair) : Type 0 where
  pub first : IsCube n p.first
  pub second : IsCube n p.second
  pub apart : distance p.first p.second ≡ d

-- The manager's invariant.
pub record IsMngr (n : ℕ) (m : ExorcismMngr) : Type 0 where
  pub vars : m.m_n_vars ≡ n
  pub size : length m.m_cubes ≡ suc n
  pub buckets : IsBuckets n m.m_cubes
  pub pairs0 : All (IsPair n 2) m.m_pairs0
  pub pairs1 : All (IsPair n 3) m.m_pairs1
  pub tmp0 : All (IsPair n 2) m.m_pairs_tmp0
  pub tmp1 : All (IsPair n 3) m.m_pairs_tmp1

-- All but the pairs of the current scan is as it was.
pub record Kept (m m' : ExorcismMngr) : Type 0 where
  pub cubes : m'.m_cubes ≡ m.m_cubes
  pub pairs0 : m'.m_pairs0 ≡ m.m_pairs0
  pub pairs1 : m'.m_pairs1 ≡ m.m_pairs1
  pub mark0 : m'.m_pairs_bookmark0 ≡ m.m_pairs_bookmark0
  pub mark1 : m'.m_pairs_bookmark1 ≡ m.m_pairs_bookmark1

pub Kept-refl : (m : ExorcismMngr) → Kept m m
Kept-refl m = record { cubes = refl; pairs0 = refl; pairs1 = refl; mark0 = refl; mark1 = refl }

pub Kept-trans : {a b c : ExorcismMngr} → Kept a b → Kept b c → Kept a c
Kept-trans p q = record {
  cubes = q.cubes ∙ p.cubes;
  pairs0 = q.pairs0 ∙ p.pairs0;
  pairs1 = q.pairs1 ∙ p.pairs1;
  mark0 = q.mark0 ∙ p.mark0;
  mark1 = q.mark1 ∙ p.mark1;
}

pub distance_self : (c : Cube32) → distance c c ≡ 0
unfolding distance
distance_self c = rw difference_self (popcount-zero 32)
  where
    difference_self : difference c c ≡ 0
    difference_self = bit_ext _ _ λ i. ground (arith, bit-difference c c i, bit-zero i)

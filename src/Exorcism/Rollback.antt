-- ===== src/Exorcism/Rollback.antt =====
-- `pairs_bookmark` and `pairs_rollback`: the pairs noted since the bookmark are forgotten.
use losys.Base.{ℕ, zero, suc, ◌≤◌, ◌≡◌, refl, ap, List, [], ◌∷◌, All, arith, length}
use losys.Exorcism.Manager.{CubePair, ExorcismMngr, resize_pairs, pairs_bookmark, pairs_rollback}
use losys.Exorcism.Invariant.{IsPair, IsMngr}

-- The invariant still holds, no pair is lost and the bookmark stays.
pub record Grows (n : ℕ) (m m' : ExorcismMngr) : Type 0 where
  pub mngr : IsMngr n m'
  pub more0 : length m.m_pairs0 ≤ length m'.m_pairs0
  pub more1 : length m.m_pairs1 ≤ length m'.m_pairs1
  pub mark0 : m'.m_pairs_bookmark0 ≡ m.m_pairs_bookmark0
  pub mark1 : m'.m_pairs_bookmark1 ≡ m.m_pairs_bookmark1

-- The bookmark is at the end of the pairs.
pub record IsMarked (m : ExorcismMngr) : Type 0 where
  pub end0 : m.m_pairs_bookmark0 ≡ length m.m_pairs0
  pub end1 : m.m_pairs_bookmark1 ≡ length m.m_pairs1

resize_lem :
    (P : CubePair → Type 0) (k : ℕ) (ps : List CubePair)
    → k ≤ length ps
    → All P ps
    → All P (resize_pairs k ps) × (length (resize_pairs k ps) ≡ k)
unfolding resize_pairs
resize_lem P zero ps le h = (tt, refl)
resize_lem P (suc k) [] le h = absurd (omega arith)
resize_lem P (suc k) (p ∷ ps) le h =
    let (all, len) = resize_lem P k ps (omega arith) h.1 in ((h.0, all), ap suc len)

pub pairs_rollback-Grows :
    {n : ℕ} (m m' : ExorcismMngr)
    → IsMarked m
    → Grows n m m'
    → Grows n m (pairs_rollback m') × IsMarked (pairs_rollback m')
unfolding pairs_rollback
pairs_rollback-Grows {n} m m' at g =
    let h = g.mngr in
    let r0 =
      resize_lem (IsPair n 2) m'.m_pairs_bookmark0 m'.m_pairs0
        (omega (arith, g.mark0, at.end0, g.more0)) h.pairs0 in
    let r1 =
      resize_lem (IsPair n 3) m'.m_pairs_bookmark1 m'.m_pairs1
        (omega (arith, g.mark1, at.end1, g.more1)) h.pairs1 in
    (
      record {
        mngr = record {
          vars = h.vars;
          size = h.size;
          buckets = h.buckets;
          pairs0 = r0.0;
          pairs1 = r1.0;
          tmp0 = h.tmp0;
          tmp1 = h.tmp1;
        };
        more0 = omega (arith, r0.1, g.mark0, at.end0);
        more1 = omega (arith, r1.1, g.mark1, at.end1);
        mark0 = g.mark0;
        mark1 = g.mark1;
      },
      record { end0 = omega (arith, r0.1); end1 = omega (arith, r1.1) },
    )

pub pairs_bookmark-IsMngr :
    {n : ℕ} (m : ExorcismMngr)
    → IsMngr n m
    → IsMngr n (pairs_bookmark m) × IsMarked (pairs_bookmark m)
unfolding pairs_bookmark
pairs_bookmark-IsMngr m h = (
  record {
    vars = h.vars;
    size = h.size;
    buckets = h.buckets;
    pairs0 = h.pairs0;
    pairs1 = h.pairs1;
    tmp0 = h.tmp0;
    tmp1 = h.tmp1;
  },
  record { end0 = refl; end1 = refl },
)

pub Grows-trans : {n : ℕ} {a b c : ExorcismMngr} → Grows n a b → Grows n b c → Grows n a c
Grows-trans p q = record {
  mngr = q.mngr;
  more0 = omega (arith, p.more0, q.more0);
  more1 = omega (arith, p.more1, q.more1);
  mark0 = omega (arith, p.mark0, q.mark0);
  mark1 = omega (arith, p.mark1, q.mark1);
}

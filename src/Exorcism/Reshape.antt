-- ===== src/Exorcism/Reshape.antt =====
-- `exorlink2` on one pair: its cubes are replaced by others, or put back.
use losys.Base.{
  Returns, Returns-map, Returns-bind, ℕ, suc, ◌+◌, ◌≤◌, ◌≡◌, ◌∙◌, ap, Bool, true, false, ◌⊕◌,
  Bool-cases, inl, inr, some, ◌>>=◌, List, [], ◌∷◌, All-append, arith, length, length-append,
}
use losys.Kernel.Cube32.{Cube32}
use losys.Kernel.Cube32.Meaning.{eval}
use losys.Kernel.CubeSet.{HashOrder}
use losys.Exorcism.{cube_groups3, exorlink, groups2_first, groups2_second}
use losys.Exorcism.Manager.{CubePair, ExorcismMngr, total, add_cube, pairs_rollback}
use losys.Exorcism.Passes.{try_made, try_group2, reshape2, give_up2, restore_pair}
use losys.Exorcism.Invariant.{IsPair, IsMngr}
use losys.Exorcism.Buckets.{eval_buckets}
use losys.Exorcism.Rollback.{Grows, IsMarked, Grows-trans, pairs_rollback-Grows}
use losys.Exorcism.Removal.{IsGone, restore_pair-Differs}
use losys.Exorcism.Attempts.{Tries}
use losys.Exorcism.TryTwo.{try_two-Tries}
use losys.Exorcism.Exorlink.{IsLink, exorlink-IsLink}
use losys.Exorcism.Table.{
  IsTable, flat, table2_first-IsTable, table2_second-IsTable, table2_first, table2_second,
}

-- The buckets without the pair have got cubes with its sum, at most as many.
pub record Replaces (n : ℕ) (p : CubePair) (m m' : ExorcismMngr) : Type 0 where
  pub mngr : IsMngr n m'
  pub more0 : length m.m_pairs0 ≤ length m'.m_pairs0
  pub more1 : length m.m_pairs1 ≤ length m'.m_pairs1
  pub room : total m'.m_cubes ≤ total m.m_cubes + 2
  pub sum :
      (v : ℕ → Bool)
      → eval_buckets m'.m_cubes v ≡ ((eval p.first v ⊕ eval p.second v) ⊕ eval_buckets m.m_cubes v)

-- An attempt on a pair replaces it, or leaves the buckets as they are.
pub record TriesPair (n : ℕ) (p : CubePair) (m : ExorcismMngr) (r : Bool × ExorcismMngr)
    : Type 0 where
  pub grows : Grows n m r.1
  pub wins : r.0 ≡ true → Replaces n p m r.1
  pub loses : r.0 ≡ false → r.1.m_cubes ≡ m.m_cubes

-- The cubes of `exorlink` are at most one more than the pair.
pub Tries-TriesPair :
    {n k : ℕ} (p : CubePair) (cs : List Cube32) (m : ExorcismMngr) (r : Bool × ExorcismMngr)
    → k ≤ 3
    → IsLink n k p.first p.second cs
    → Tries n cs m r
    → TriesPair n p m r
Tries-TriesPair p cs m r le (ks, len, sums) t = record {
  grows = t.grows;
  wins = λ w.
      let a = t.wins w in
      record {
        mngr = a.grows.mngr;
        more0 = a.grows.more0;
        more1 = a.grows.more1;
        room = omega (arith, a.count, len);
        sum = λ v. ground (arith, a.sum v, sums v);
      };
  loses = t.loses;
}

pub TriesPair-after :
    {n : ℕ} (p : CubePair) (m m1 : ExorcismMngr) (r : Bool × ExorcismMngr)
    → Grows n m m1
    → m1.m_cubes ≡ m.m_cubes
    → TriesPair n p m1 r
    → TriesPair n p m r
TriesPair-after p m m1 r g e t = record {
  grows = Grows-trans g t.grows;
  wins = λ w.
      let a = t.wins w in
      record {
        mngr = a.mngr;
        more0 = omega (arith, g.more0, a.more0);
        more1 = omega (arith, g.more1, a.more1);
        room = omega (arith, a.room, ap total e);
        sum = λ v. ground (arith, a.sum v, ap (λ bs. eval_buckets bs v) e);
      };
  loses = λ w. t.loses w ∙ e;
}

module _ {n : ℕ} (le : n ≤ 32) (o : HashOrder) (p : CubePair) where
  try_made-TriesPair :
      (cs : List Cube32) (m : ExorcismMngr)
      → IsLink n 2 p.first p.second cs
      → IsMngr n m
      → Returns (try_made o cs m) (TriesPair n p m)
  unfolding try_made
  try_made-TriesPair [] m (ks, len, sums) h = absurd (omega arith)
  try_made-TriesPair (n0 ∷ []) m (ks, len, sums) h = absurd (omega arith)
  try_made-TriesPair (n0 ∷ n1 ∷ []) m (ks, len, sums) h =
      Returns-map _ _ (TriesPair n p m) (try_two-Tries le o n0 n1 m ks.0 ks.1.0 h)
        λ r t. Tries-TriesPair p (n0 ∷ n1 ∷ []) m r (omega arith) (ks, len, sums) t
  try_made-TriesPair (n0 ∷ n1 ∷ n2 ∷ cs) m (ks, len, sums) h = absurd (omega arith)

  try_group2-TriesPair :
      (table : List (List ℕ)) (m : ExorcismMngr)
      → IsTable 2 table
      → IsPair n 2 p
      → IsMngr n m
      → Returns (try_group2 o p (flat table) m) (TriesPair n p m)
  unfolding try_group2
  try_group2-TriesPair table m t k h =
      try_made-TriesPair (exorlink p.first p.second 2 (flat table)) m
        (exorlink-IsLink n 2 p.first p.second table k.first k.second le k.apart t) h

  pub restored :
      {d : ℕ} (m m1 : ExorcismMngr)
      → IsPair n (suc d) p
      → IsGone p m.m_cubes
      → Grows n m m1
      → m1.m_cubes ≡ m.m_cubes
      → Replaces n p m (restore_pair o p m1)
  unfolding restore_pair losys.Exorcism.Manager.insert_at
  restored m m1 k gone g e =
      let d = restore_pair-Differs le p k m1 g.mngr o (rw e gone) in
      record {
        mngr = d.mngr;
        more0 = g.more0;
        more1 = g.more1;
        room = omega (arith, d.count, ap total e);
        sum = λ v. ground (arith, d.sum v, ap (λ bs. eval_buckets bs v) e);
      }

  give_up2-Replaces :
      (m m1 : ExorcismMngr)
      → IsPair n 2 p
      → IsGone p m.m_cubes
      → IsMarked m
      → Grows n m m1
      → m1.m_cubes ≡ m.m_cubes
      → Replaces n p m (give_up2 o p m1)
  unfolding give_up2 restore_pair losys.Exorcism.Manager.insert_at pairs_rollback
  give_up2-Replaces m m1 k gone at g e =
      let r = restored m m1 k gone g e in
      let back : Grows n m (restore_pair o p m1) = record {
        mngr = r.mngr;
        more0 = r.more0;
        more1 = r.more1;
        mark0 = g.mark0;
        mark1 = g.mark1;
      } in
      let b = (pairs_rollback-Grows m (restore_pair o p m1) at back).0 in
      record {
        mngr = record {
          vars = b.mngr.vars;
          size = b.mngr.size;
          buckets = b.mngr.buckets;
          pairs0 =
              All-append (IsPair n 2) (pairs_rollback (restore_pair o p m1)).m_pairs0 (p ∷ [])
                b.mngr.pairs0 (k, tt);
          pairs1 = b.mngr.pairs1;
          tmp0 = b.mngr.tmp0;
          tmp1 = b.mngr.tmp1;
        };
        more0 = omega (
          arith,
          b.more0,
          length-append (pairs_rollback (restore_pair o p m1)).m_pairs0 (p ∷ []),
        );
        more1 = b.more1;
        room = r.room;
        sum = r.sum;
      }

  pub reshape2-Replaces :
      (m : ExorcismMngr)
      → IsPair n 2 p
      → IsGone p m.m_cubes
      → IsMngr n m
      → IsMarked m
      → Returns (reshape2 o p m) (Replaces n p m)
  unfolding reshape2
  reshape2-Replaces m k gone h at =
      Returns-bind (try_group2 o p groups2_first m)
        (λ r. elim r.0 [
          | true ↦ some r.1
          | false ↦ try_group2 o p groups2_second (pairs_rollback r.1) >>= λ r'. elim r'.0 [
            | true ↦ some r'.1
            | false ↦ some (give_up2 o p r'.1)
          ]
        ])
        (TriesPair n p m) (Replaces n p m)
        (try_group2-TriesPair table2_first m table2_first-IsTable k h)
        λ r t. elim (Bool-cases r.0) [
          | inl e ↦ rw e (t.wins e)
          | inr e ↦
              let g = pairs_rollback-Grows m r.1 at t.grows in
              rw e (
                Returns-bind (try_group2 o p groups2_second (pairs_rollback r.1))
                  (λ r'. elim r'.0 [ true ↦ some r'.1 | false ↦ some (give_up2 o p r'.1) ])
                  (TriesPair n p (pairs_rollback r.1)) (Replaces n p m)
                  (try_group2-TriesPair table2_second (pairs_rollback r.1) table2_second-IsTable k
                    g.0.mngr)
                  λ r' t'.
                    let w =
                      TriesPair-after p m (pairs_rollback r.1) r' g.0
                        (unfold pairs_rollback in t.loses e) t' in
                    elim (Bool-cases r'.0) [
                      | inl f ↦ rw f (w.wins f)
                      | inr f ↦ rw f (give_up2-Replaces m r'.1 k gone at w.grows (w.loses f))
                    ])
        ]

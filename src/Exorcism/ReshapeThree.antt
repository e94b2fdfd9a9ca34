-- ===== src/Exorcism/ReshapeThree.antt =====
-- `exorlink3` on one pair: its cubes are replaced by others, or put back.
use mathlib.Core.Path.{subst}
use losys.Base.{
  Returns, Returns-map, Returns-bind, ℕ, ◌≤◌, refl, true, false, Bool-cases, inl, inr, some, List,
  [], ◌∷◌, All, arith,
}
use losys.Kernel.CubeSet.{HashOrder}
use losys.Exorcism.{cube_groups3, exorlink}
use losys.Exorcism.Manager.{CubePair, ExorcismMngr}
use losys.Exorcism.Passes.{try_each, try_groups3, reshape3, restore_pair}
use losys.Exorcism.Invariant.{IsPair, IsMngr}
use losys.Exorcism.Rollback.{IsMarked}
use losys.Exorcism.Removal.{IsGone}
use losys.Exorcism.Attempts.{Grows-refl, TriesEach, try_each-Tries}
use losys.Exorcism.Exorlink.{IsLink, exorlink-IsLink}
use losys.Exorcism.Table.{lines3, Links3, cube_groups3-IsTable}
use losys.Exorcism.Reshape.{Replaces, TriesPair, Tries-TriesPair, TriesPair-after, restored}

module _ {n : ℕ} (le : n ≤ 32) (o : HashOrder) (p : CubePair) where
  try_groups3-TriesPair :
      (groups : List (List ℕ)) (m : ExorcismMngr)
      → All Links3 groups
      → IsPair n 3 p
      → IsMngr n m
      → IsMarked m
      → Returns (try_groups3 o p groups m) (TriesPair n p m)
  unfolding try_groups3
  try_groups3-TriesPair [] m ls k h at = record {
    grows = Grows-refl h;
    wins = λ e. absurd (ground arith);
    loses = λ _. refl;
  }
  try_groups3-TriesPair (group ∷ groups) m ls k h at =
      let link =
        subst (λ g. IsLink n 3 p.first p.second (exorlink p.first p.second 3 g)) ls.0.1
          (exorlink-IsLink n 3 p.first p.second (lines3 group) k.first k.second le k.apart
            ls.0.0) in
      Returns-bind (try_each o [] (exorlink p.first p.second 3 group) m)
        (λ r. elim r.0 [ true ↦ some (true, r.1) | false ↦ try_groups3 o p groups r.1 ])
        (TriesEach le o (exorlink p.first p.second 3 group) m) (TriesPair n p m)
        (try_each-Tries le o [] (exorlink p.first p.second 3 group) m tt link.0 h at)
        λ r (t, marked).
          let w = Tries-TriesPair p (exorlink p.first p.second 3 group) m r (omega arith) link t in
          elim (Bool-cases r.0) [
            | inl e ↦ rw e (record {
              grows = w.grows;
              wins = λ _. w.wins e;
              loses = λ f. absurd (ground arith);
            })
            | inr e ↦ rw e (
                Returns-map _ _ (TriesPair n p m)
                  (try_groups3-TriesPair groups r.1 ls.1 k w.grows.mngr (marked e))
                  λ r' t'. TriesPair-after p m r.1 r' w.grows (w.loses e) t')
          ]

  pub reshape3-Replaces :
      (m : ExorcismMngr)
      → IsPair n 3 p
      → IsGone p m.m_cubes
      → IsMngr n m
      → IsMarked m
      → Returns (reshape3 o p m) (Replaces n p m)
  unfolding reshape3
  reshape3-Replaces m k gone h at =
      Returns-bind (try_groups3 o p cube_groups3 m)
        (λ r. elim r.0 [ true ↦ some r.1 | false ↦ some (restore_pair o p r.1) ]) (TriesPair n p m)
        (Replaces n p m) (try_groups3-TriesPair cube_groups3 m cube_groups3-IsTable k h at)
        λ r t. elim (Bool-cases r.0) [
          | inl e ↦ rw e (t.wins e)
          | inr e ↦ rw e (restored le o p m r.1 k gone t.grows (t.loses e))
        ]

-- ===== src/Exorcism/TryTwo.antt =====
-- `exorlink2` on one group of two cubes.
use losys.Base.{
  Returns, Returns-map, Returns-bind, ℕ, ◌≤◌, ◌≡◌, ◌∙◌, Bool, true, false, ltb, Bool-cases, inl,
  inr, some, ◌>>=◌, [], ◌∷◌, arith,
}
use losys.Kernel.Cube32.{Cube32}
use losys.Kernel.Cube32.Meaning.{IsCube}
use losys.Kernel.CubeSet.{HashOrder}
use losys.Exorcism.Manager.{ExorcismMngr, add_cube}
use losys.Exorcism.Passes.{add_all, try_two}
use losys.Exorcism.Invariant.{IsMngr}
use losys.Exorcism.AddCube.{Adds, add_cube-Adds}
use losys.Exorcism.Rollback.{Grows-trans}
use losys.Exorcism.Attempts.{
  Tries, Adds-Grows, add_all-AddsAll, gained, won, after_loss, AddsAll-front,
}

module _ {n : ℕ} (le : n ≤ 32) (o : HashOrder) where
  two_gain :
      (c d : Cube32) (m : ExorcismMngr) (r : ℕ × ExorcismMngr)
      → IsCube n d
      → Adds n c false m r
      → ltb 0 r.0 ≡ true
      → Returns (add_all o (d ∷ []) r.1 >>= λ m'. some (true, m')) (Tries n (c ∷ d ∷ []) m)
  two_gain c d m r k a e =
      Returns-bind _ (λ m'. some (true, m')) _ (Tries n (c ∷ d ∷ []) m)
        (add_all-AddsAll le o (d ∷ []) r.1 (k, tt) a.mngr)
        λ m' b. won le o (c ∷ d ∷ []) m m' (gained le o c (d ∷ []) m r a e m' b)

  Tries-swap :
      (c d : Cube32) (m : ExorcismMngr) (r : Bool × ExorcismMngr)
      → Tries n (c ∷ d ∷ []) m r
      → Tries n (d ∷ c ∷ []) m r
  Tries-swap c d m r t = record {
    grows = t.grows;
    wins = λ w. AddsAll-front le o (d ∷ []) [] c m r.1 (t.wins w);
    loses = t.loses;
  }

  pub try_two-Tries :
      (n0 n1 : Cube32) (m : ExorcismMngr)
      → IsCube n n0
      → IsCube n n1
      → IsMngr n m
      → Returns (try_two o n0 n1 m) (Tries n (n0 ∷ n1 ∷ []) m)
  unfolding try_two
  try_two-Tries n0 n1 m k0 k1 h =
      Returns-bind (add_cube o n0 false m)
        (λ r0. elim (ltb 0 r0.0) [
          | true ↦ add_all o (n1 ∷ []) r0.1 >>= λ m'. some (true, m')
          | false ↦ add_cube o n1 false r0.1 >>= λ r1. elim (ltb 0 r1.0) [
            | true ↦ add_all o (n0 ∷ []) r1.1 >>= λ m'. some (true, m')
            | false ↦ some (false, r1.1)
          ]
        ])
        (Adds n n0 false m) (Tries n (n0 ∷ n1 ∷ []) m) (add_cube-Adds o n n0 false m le k0 h)
        λ r0 a0. elim (Bool-cases (ltb 0 r0.0)) [
          | inl e ↦ rw e (two_gain n0 n1 m r0 k1 a0 e)
          | inr e ↦ rw e (
              Returns-bind (add_cube o n1 false r0.1)
                (λ r1. elim (ltb 0 r1.0) [
                  | true ↦ add_all o (n0 ∷ []) r1.1 >>= λ m'. some (true, m')
                  | false ↦ some (false, r1.1)
                ])
                (Adds n n1 false r0.1) (Tries n (n0 ∷ n1 ∷ []) m)
                (add_cube-Adds o n n1 false r0.1 le k1 a0.mngr)
                λ r1 a1. elim (Bool-cases (ltb 0 r1.0)) [
                  | inl f ↦ rw f (
                      Returns-map _ _ (Tries n (n0 ∷ n1 ∷ []) m) (two_gain n1 n0 r0.1 r1 k0 a1 f)
                        λ r t.
                          after_loss le o (n0 ∷ n1 ∷ []) m r0.1 r (Adds-Grows a0)
                            (a0.stays (ground arith)) (Tries-swap n1 n0 r0.1 r t))
                  | inr f ↦ rw f (record {
                    grows = Grows-trans (Adds-Grows a0) (Adds-Grows a1);
                    wins = λ w. absurd (ground arith);
                    loses = λ _. a1.stays (ground arith) ∙ a0.stays (ground arith);
                  })
                ])
        ]

-- ===== src/Exorcism/Attempts.antt =====
-- The attempts of the two passes to add the cubes of `exorlink` with a gain.
use mathlib.Core.List.{append_assoc}
use losys.Base.{
  ◌>>=◌, ltb→lt, Returns, Returns-map, Returns-bind, ℕ, ◌+◌, ◌≤◌, ◌≡◌, refl, sym, ◌∙◌, ap, Bool,
  true, false, ◌⊕◌, ltb, leb, Bool-cases, inl, inr, some, List, [], ◌∷◌, ◌++◌, All-append, arith,
  length, length-append,
}
use losys.Kernel.Cube32.{Cube32}
use losys.Kernel.Cube32.Meaning.{IsCube}
use losys.Kernel.CubeSet.{HashOrder}
use losys.Kernel.CubeSet.Esop.{eval_esop, eval_esop-append}
use losys.Kernel.CubeSet.Laws.{IsCubes}
use losys.Exorcism.Manager.{ExorcismMngr, total, add_cube, pairs_rollback}
use losys.Exorcism.Passes.{add_all, try_each}
use losys.Exorcism.Invariant.{IsMngr}
use losys.Exorcism.Buckets.{eval_buckets}
use losys.Exorcism.AddCube.{Adds, add_cube-Adds}
use losys.Exorcism.Rollback.{Grows, IsMarked, Grows-trans, pairs_rollback-Grows}

-- The cubes are in the buckets' sum, with `spare` more than the room they take.
pub record AddsAll (n spare : ℕ) (cs : List Cube32) (m m' : ExorcismMngr) : Type 0 where
  pub grows : Grows n m m'
  pub count : total m'.m_cubes + spare ≤ total m.m_cubes + length cs
  pub sum : (v : ℕ → Bool) → eval_buckets m'.m_cubes v ≡ (eval_esop cs v ⊕ eval_buckets m.m_cubes v)

-- An attempt adds all of the cubes and saves one, or leaves the buckets as they are.
pub record Tries (n : ℕ) (cs : List Cube32) (m : ExorcismMngr) (r : Bool × ExorcismMngr)
    : Type 0 where
  pub grows : Grows n m r.1
  pub wins : r.0 ≡ true → AddsAll n 1 cs m r.1
  pub loses : r.0 ≡ false → r.1.m_cubes ≡ m.m_cubes

pub Adds-Grows :
    {n : ℕ} {c : Cube32} {add : Bool} {m : ExorcismMngr} {r : ℕ × ExorcismMngr}
    → Adds n c add m r
    → Grows n m r.1
Adds-Grows a = record {
  mngr = a.mngr;
  more0 = a.grows0;
  more1 = a.grows1;
  mark0 = a.mark0;
  mark1 = a.mark1;
}

pub Grows-refl : {n : ℕ} {m : ExorcismMngr} → IsMngr n m → Grows n m m
Grows-refl h = record {
  mngr = h;
  more0 = omega arith;
  more1 = omega arith;
  mark0 = refl;
  mark1 = refl;
}

module _ {n : ℕ} (le : n ≤ 32) (o : HashOrder) where
  pub add_all-AddsAll :
      (cs : List Cube32) (m : ExorcismMngr)
      → IsCubes n cs
      → IsMngr n m
      → Returns (add_all o cs m) (AddsAll n 0 cs m)
  unfolding add_all eval_esop
  add_all-AddsAll [] m ks h = record { grows = Grows-refl h; count = omega arith; sum = λ v. refl }
  add_all-AddsAll (c ∷ cs) m ks h =
      Returns-bind _ (λ r. add_all o cs r.1) _ (AddsAll n 0 (c ∷ cs) m)
        (add_cube-Adds o n c true m le ks.0 h)
        λ (r : ℕ × ExorcismMngr) (a : Adds n c true m r).
          Returns-map _ _ (AddsAll n 0 (c ∷ cs) m) (add_all-AddsAll cs r.1 ks.1 a.mngr) λ m' b.
            record {
              grows = Grows-trans (Adds-Grows a) b.grows;
              count = omega (arith, b.count, a.counts refl);
              sum = λ v. ground (arith, b.sum v, a.sums refl v);
            }

  -- A cube that gains, and the others after it.
  pub gained :
      (c : Cube32) (others : List Cube32) (m : ExorcismMngr) (r : ℕ × ExorcismMngr)
      → Adds n c false m r
      → ltb 0 r.0 ≡ true
      → (m' : ExorcismMngr) → AddsAll n 0 others r.1 m'
      → AddsAll n 1 (c ∷ others) m m'
  unfolding eval_esop
  gained c others m r a e m' b = record {
    grows = Grows-trans (Adds-Grows a) b.grows;
    count = omega (arith, b.count, a.counts e, ltb→lt 0 r.0 e);
    sum = λ v. ground (arith, b.sum v, a.sums e v);
  }

  -- The order in which the cubes of an attempt are added does not matter.
  pub AddsAll-front :
      (before cs : List Cube32) (c : Cube32) (m m' : ExorcismMngr)
      → AddsAll n 1 (c ∷ before ++ cs) m m'
      → AddsAll n 1 (before ++ c ∷ cs) m m'
  unfolding eval_esop
  AddsAll-front before cs c m m' a = record {
    grows = a.grows;
    count = omega (arith, a.count, length-append before cs, length-append before (c ∷ cs));
    sum = λ v.
        ground (arith, a.sum v, eval_esop-append before cs v, eval_esop-append before (c ∷ cs) v);
  }

  pub won : (cs : List Cube32) (m m' : ExorcismMngr) → AddsAll n 1 cs m m' → Tries n cs m (true, m')
  won cs m m' a = record { grows = a.grows; wins = λ _. a; loses = λ e. absurd (ground arith) }

  -- An attempt goes on after one of its cubes without a gain.
  pub after_loss :
      (cs : List Cube32) (m m1 : ExorcismMngr) (r : Bool × ExorcismMngr)
      → Grows n m m1
      → m1.m_cubes ≡ m.m_cubes
      → Tries n cs m1 r
      → Tries n cs m r
  after_loss cs m m1 r g e t = record {
    grows = Grows-trans g t.grows;
    wins = λ w.
        let a = t.wins w in
        record {
          grows = Grows-trans g a.grows;
          count = omega (arith, a.count, ap total e);
          sum = λ v. ground (arith, a.sum v, ap (λ bs. eval_buckets bs v) e);
        };
    loses = λ w. t.loses w ∙ e;
  }

  -- The pairs noted by a lost attempt are forgotten.
  abbrev pub TriesEach : List Cube32 → ExorcismMngr → Bool × ExorcismMngr → Type 0
  TriesEach cs m r = Tries n cs m r × (r.0 ≡ false → IsMarked r.1)

  each_gains :
      (before cs : List Cube32) (c : Cube32) (m : ExorcismMngr) (r : ℕ × ExorcismMngr)
      → IsCubes n before
      → IsCubes n cs
      → Adds n c false m r
      → ltb 0 r.0 ≡ true
      → Returns
          (add_all o (before ++ cs) r.1 >>= λ m'. some (true, m'))
          (TriesEach (before ++ c ∷ cs) m)
  each_gains before cs c m r kb kc a e =
      Returns-bind _ (λ m'. some (true, m')) _ (TriesEach (before ++ c ∷ cs) m)
        (add_all-AddsAll (before ++ cs) r.1 (All-append (IsCube n) before cs kb kc) a.mngr)
        λ m' b. (
          won (before ++ c ∷ cs) m m'
              (AddsAll-front before cs c m m' (gained c (before ++ cs) m r a e m' b)),
          λ f. absurd (ground arith),
        )

  each_lost :
      (before cs : List Cube32) (c : Cube32) (m m1 : ExorcismMngr)
      → m1.m_cubes ≡ m.m_cubes
      → Grows n m (pairs_rollback m1)
      → (r : Bool × ExorcismMngr) → TriesEach (before ++ c ∷ [] ++ cs) (pairs_rollback m1) r
      → TriesEach (before ++ c ∷ cs) m r
  unfolding pairs_rollback
  each_lost before cs c m m1 e g r (t, marked) = (
    rw (sym (append_assoc before (c ∷ []) cs))
        (after_loss (before ++ c ∷ [] ++ cs) m (pairs_rollback m1) r g e t),
    marked,
  )

  pub try_each-Tries :
      (before cs : List Cube32) (m : ExorcismMngr)
      → IsCubes n before
      → IsCubes n cs
      → IsMngr n m
      → IsMarked m
      → Returns (try_each o before cs m) (TriesEach (before ++ cs) m)
  unfolding try_each
  try_each-Tries before [] m kb kc h at = (
    record { grows = Grows-refl h; wins = λ e. absurd (ground arith); loses = λ _. refl },
    λ _. at,
  )
  try_each-Tries before (c ∷ cs) m kb kc h at =
      Returns-bind (add_cube o c false m)
        (λ r. elim (leb 1 r.0) [
          | true ↦ add_all o (before ++ cs) r.1 >>= λ m'. some (true, m')
          | false ↦ try_each o (before ++ c ∷ []) cs (pairs_rollback r.1)
        ])
        (Adds n c false m) (TriesEach (before ++ c ∷ cs) m) (add_cube-Adds o n c false m le kc.0 h)
        λ r a. elim (Bool-cases (leb 1 r.0)) [
          | inl e ↦ rw e (each_gains before cs c m r kb kc.1 a (ground arith))
          | inr e ↦
              let g = pairs_rollback-Grows m r.1 at (Adds-Grows a) in
              rw e (
                Returns-map _ _ (TriesEach (before ++ c ∷ cs) m)
                  (try_each-Tries (before ++ c ∷ []) cs (pairs_rollback r.1)
                    (All-append (IsCube n) before (c ∷ []) kb (kc.0, tt)) kc.1 g.0.mngr g.1)
                  (each_lost before cs c m r.1 (a.stays (ground arith)) g.0))
        ]

-- ===== src/Exorcism/Iterate.antt =====
-- The constructor and the loop of `run`.
use losys.Base.{
  Returns, Returns-map, Returns-bind, ℕ, zero, suc, ◌+◌, ◌-◌, ◌*◌, ◌%◌, ◌^◌, ◌≤◌, ◌<◌, ◌≡◌, refl,
  ◌∙◌, Bool, true, false, Bool-cases, inl, inr, some, ◌>>=◌, List, [], arith, length, replicate,
  length-replicate, leb,
}
use losys.Kernel.Cube32.{Cube32}
use losys.Kernel.CubeSet.{HashOrder}
use losys.Kernel.CubeSet.Esop.{eval_esop}
use losys.Kernel.CubeSet.Laws.{IsCubes}
use losys.Exorcism.Manager.{ExorcismMngr, total}
use losys.Exorcism.Passes.{exorlink2, exorlink3}
use losys.Exorcism.Run.{
  empty_mngr, exorcism_mngr, both_passes, repeat_passes, iteration, is_positive, count_without,
  run_loop,
}
use losys.Exorcism.Invariant.{IsMngr}
use losys.Exorcism.Buckets.{eval_buckets, IsBuckets}
use losys.Exorcism.Attempts.{add_all-AddsAll}
use losys.Exorcism.Turns.{
  Improves, Improves-refl, Improves-trans, IsPass, exorlink2-IsPass, exorlink3-IsPass,
}

-- The constructor's manager has the sum of the cubes given, in at most as many.
pub record Builds (n : ℕ) (original : List Cube32) (m : ExorcismMngr) : Type 0 where
  pub mngr : IsMngr n m
  pub count : total m.m_cubes ≤ length original
  pub sum : (v : ℕ → Bool) → eval_buckets m.m_cubes v ≡ eval_esop original v

empty-IsBuckets :
    (n k : ℕ)
    → IsBuckets n (replicate k [])
      × (total (replicate k []) ≡ 0)
      × ((v : ℕ → Bool) → eval_buckets (replicate k []) v ≡ false)
unfolding total eval_buckets eval_esop
empty-IsBuckets n zero = (tt, refl, λ v. refl)
empty-IsBuckets n (suc k) =
    let (b, t, s) = empty-IsBuckets n k in
    ((record { cubes = tt; distinct = tt }, b), omega (arith, t), λ v. ground (arith, s v))

empty_mngr-IsMngr : (n : ℕ) → IsMngr n (empty_mngr n)
empty_mngr-IsMngr n = record {
  vars = refl;
  size = length-replicate (n + 1) [] ∙ omega arith;
  buckets = (empty-IsBuckets n (n + 1)).0;
  pairs0 = tt;
  pairs1 = tt;
  tmp0 = tt;
  tmp1 = tt;
}

pub exorcism_mngr-Builds :
    (o : HashOrder) (n : ℕ) (original : List Cube32)
    → n ≤ 32
    → IsCubes n original
    → Returns (exorcism_mngr o original n) (Builds n original)
unfolding exorcism_mngr
exorcism_mngr-Builds o n original le ks =
    let e = empty-IsBuckets n (n + 1) in
    Returns-map _ _ (Builds n original)
      (add_all-AddsAll le o original (empty_mngr n) ks (empty_mngr-IsMngr n))
      λ m a. record {
        mngr = a.grows.mngr;
        count = omega (arith, a.count, e.1);
        sum = λ v. ground (arith, a.sum v, e.2 v);
      }

module _ {n : ℕ} (le : n ≤ 32) (o : HashOrder) where
  both_passes-IsPass :
      (m0 : ExorcismMngr) (gain : ℕ) (m : ExorcismMngr)
      → IsPass n m0 (gain, m)
      → Returns (both_passes o gain m) (IsPass n m0)
  unfolding both_passes
  both_passes-IsPass m0 gain m (i, g) =
      Returns-bind (exorlink2 o m)
        (λ r. exorlink3 o r.1 >>= λ r'. some (((gain + r.0) % 2 ^ 32 + r'.0) % 2 ^ 32, r'.1))
        (IsPass n m) (IsPass n m0) (exorlink2-IsPass o n m le i.mngr)
        λ r (j, h).
          Returns-bind (exorlink3 o r.1)
            (λ r'. some (((gain + r.0) % 2 ^ 32 + r'.0) % 2 ^ 32, r'.1)) (IsPass n r.1)
            (IsPass n m0) (exorlink3-IsPass o n r.1 le j.mngr)
            λ r' (k, f). (
              Improves-trans i (Improves-trans j k),
              omega (arith, g, h, f, i.count, j.count, k.count),
            )

  repeat_passes-IsPass :
      (left : ℕ) (m0 : ExorcismMngr) (gain : ℕ) (m : ExorcismMngr)
      → IsPass n m0 (gain, m)
      → Returns (repeat_passes o left gain m) (IsPass n m0)
  unfolding repeat_passes
  repeat_passes-IsPass zero m0 gain m p = p
  repeat_passes-IsPass (suc left) m0 gain m p =
      Returns-bind (both_passes o gain m) (λ r. repeat_passes o left r.0 r.1) (IsPass n m0)
        (IsPass n m0) (both_passes-IsPass m0 gain m p) λ r q. repeat_passes-IsPass left m0 r.0 r.1 q

  iteration-IsPass : (m : ExorcismMngr) → IsMngr n m → Returns (iteration o m) (IsPass n m)
  unfolding iteration
  iteration-IsPass m h = repeat_passes-IsPass 6 m 0 m (Improves-refl h, omega arith)

  -- A counted gain leaves room for three more iterations.
  enough_left :
      (fuel without_improv gain t t' : ℕ)
      → 3 * t + 3 ≤ suc fuel + without_improv
      → without_improv ≤ 2
      → t' ≤ t
      → gain ≡ (t - t') % 2 ^ 32
      → 3 * t' + 3 ≤ fuel + count_without gain without_improv
  unfolding count_without
  enough_left fuel w gain t t' f b le e = elim (Bool-cases (is_positive gain)) [
    | inl q ↦
        let pos : 0 < gain = ground arith in let less : t' < t = omega arith in rw q (omega arith)
    | inr q ↦ rw q (omega arith)
  ]

  pub run_loop-Improves :
      (fuel without_improv : ℕ) (m : ExorcismMngr)
      → IsMngr n m
      → without_improv ≤ 2
      → 3 * total m.m_cubes + 3 ≤ fuel + without_improv
      → Returns (run_loop o fuel without_improv m) (Improves n m)
  unfolding run_loop
  run_loop-Improves zero w m h b f = absurd (omega arith)
  run_loop-Improves (suc fuel) w m h b f =
      Returns-bind (iteration o m)
        (λ r. elim (leb (count_without r.0 w) 2) [
          | true ↦ run_loop o fuel (count_without r.0 w) r.1
          | false ↦ some r.1
        ])
        (IsPass n m) (Improves n m) (iteration-IsPass m h)
        λ r (i, g). elim (Bool-cases (leb (count_without r.0 w) 2)) [
          | inl e ↦
              let room =
                enough_left fuel w r.0 (total m.m_cubes) (total r.1.m_cubes) f b i.count g in
              rw e (
                Returns-map _ _ (Improves n m)
                  (run_loop-Improves fuel (count_without r.0 w) r.1 i.mngr (ground arith) room)
                  λ m' j. Improves-trans i j)
          | inr e ↦ rw e i
        ]

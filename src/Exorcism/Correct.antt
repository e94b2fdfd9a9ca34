-- ===== src/Exorcism/Correct.antt =====
-- `run` and `exorcise`: each output against the one given.
use losys.Base.{
  Returns, Returns-IfSome, Returns-bind, ℕ, ◌+◌, ◌*◌, ◌≤◌, ◌≡◌, refl, Bool, some, ◌>>=◌, List, [],
  ◌∷◌, All, All-append, arith, length, length-append,
}
use losys.Kernel.Cube32.{Cube32}
use losys.Kernel.Cube32.Meaning.{IsCube}
use losys.Kernel.CubeSet.{HashOrder}
use losys.Kernel.CubeSet.Esop.{eval_esop, eval_esop-append}
use losys.Kernel.CubeSet.Laws.{IsCubes}
use losys.Kernel.TwoLvl32.{TwoLvl32}
use losys.Exorcism.Manager.{ExorcismMngr, total}
use losys.Exorcism.Run.{exorcism_mngr, run_loop, all_cubes, run, exorcise_each, exorcise}
use losys.Exorcism.Invariant.{IsMngr}
use losys.Exorcism.Buckets.{eval_buckets, IsBuckets}
use losys.Exorcism.Turns.{Improves}
use losys.Exorcism.Rounds.{Stops, run_loop-Stops}
use losys.Exorcism.Iterate.{Builds, exorcism_mngr-Builds, run_loop-Improves}

-- The cubes `cs` have the exclusive sum `f`, and are at most `size` in number.
pub record Sums (n size : ℕ) (f : (ℕ → Bool) → Bool) (cs : List Cube32) : Type 0 where
  pub cubes : IsCubes n cs
  pub count : length cs ≤ size
  pub sum : (v : ℕ → Bool) → eval_esop cs v ≡ f v

all_cubes-Sums :
    (n : ℕ) (bs : List (List Cube32))
    → IsBuckets n bs
    → Sums n (total bs) (eval_buckets bs) (all_cubes bs)
unfolding all_cubes total eval_buckets eval_esop
all_cubes-Sums n [] h = record { cubes = tt; count = omega arith; sum = λ v. refl }
all_cubes-Sums n (b ∷ bs) h =
    let s = all_cubes-Sums n bs h.1 in
    record {
      cubes = All-append (IsCube n) b (all_cubes bs) h.0.cubes s.cubes;
      count = omega (arith, s.count, length-append b (all_cubes bs));
      sum = λ v. ground (arith, s.sum v, eval_esop-append b (all_cubes bs) v);
    }

-- The cubes are those of the state in which the first three iterations in a row without a gain end,
-- after at most `most` iterations.
abbrev pub Ran : HashOrder → ℕ → ExorcismMngr → List Cube32 → Type 0
Ran o most m cs = (m' : ExorcismMngr) × Stops o most 0 m m' × (cs ≡ all_cubes m'.m_cubes)

-- `run` returns. It ends behind the first three iterations in a row without a gain, after at most
-- three iterations for each cube and three more. Its cubes have the sum that the buckets had, in no
-- more cubes.
pub run-Sums :
    (o : HashOrder) (n : ℕ) (m : ExorcismMngr)
    → n ≤ 32
    → IsMngr n m
    → Returns (run o m) (λ cs.
      Sums n (total m.m_cubes) (eval_buckets m.m_cubes) cs × Ran o (3 * total m.m_cubes + 3) m cs)
unfolding run
run-Sums o n m le h =
    let most = 3 * total m.m_cubes + 3 in
    Returns-bind (run_loop o most 0 m) (λ m'. some (all_cubes m'.m_cubes))
      (λ m'. Improves n m m' × Stops o most 0 m m')
      (λ cs. Sums n (total m.m_cubes) (eval_buckets m.m_cubes) cs × Ran o most m cs)
      (Returns-IfSome (run_loop o most 0 m) (Improves n m) (Stops o most 0 m)
        (run_loop-Improves le o most 0 m h (omega arith) (omega arith))
        (run_loop-Stops o most 0 m (omega arith)))
      λ m' (i, stops).
        let s = all_cubes-Sums n m'.m_cubes i.mngr.buckets in
        (
          record {
            cubes = s.cubes;
            count = omega (arith, s.count, i.count);
            sum = λ v. ground (arith, s.sum v, i.sum v);
          },
          (m', stops, refl),
        )

-- Output by output, the same function over `n` inputs in no more cubes.
abbrev pub Simplifies : ℕ → List (List Cube32) → List (List Cube32) → Type 0
Simplifies n [] [] = Unit
Simplifies n [] (e' ∷ es') = ⊥
Simplifies n (e ∷ es) [] = ⊥
Simplifies n (e ∷ es) (e' ∷ es') = Sums n (length e) (eval_esop e) e' × Simplifies n es es'

Sums-Builds :
    (n : ℕ) (e : List Cube32) (m : ExorcismMngr) (cs : List Cube32)
    → Builds n e m
    → Sums n (total m.m_cubes) (eval_buckets m.m_cubes) cs
    → Sums n (length e) (eval_esop e) cs
Sums-Builds n e m cs b s = record {
  cubes = s.cubes;
  count = omega (arith, s.count, b.count);
  sum = λ v. ground (arith, s.sum v, b.sum v);
}

exorcise_each-Simplifies :
    (o : HashOrder) (n : ℕ) (esops : List (List Cube32))
    → n ≤ 32
    → All (IsCubes n) esops
    → Returns (exorcise_each o n esops) (Simplifies n esops)
unfolding exorcise_each
exorcise_each-Simplifies o n [] le ks = tt
exorcise_each-Simplifies o n (e ∷ es) le ks =
    Returns-bind (exorcism_mngr o e n)
      (λ m. run o m >>= λ cubes. exorcise_each o n es >>= λ rest. some (cubes ∷ rest)) (Builds n e)
      (Simplifies n (e ∷ es)) (exorcism_mngr-Builds o n e le ks.0)
      λ m b.
        Returns-bind (run o m) (λ cubes. exorcise_each o n es >>= λ rest. some (cubes ∷ rest))
          (λ cs.
            Sums n (total m.m_cubes) (eval_buckets m.m_cubes) cs
            × Ran o (3 * total m.m_cubes + 3) m cs)
          (Simplifies n (e ∷ es)) (run-Sums o n m le b.mngr)
          λ cs (s, _).
            Returns-bind (exorcise_each o n es) (λ rest. some (cs ∷ rest)) (Simplifies n es)
              (Simplifies n (e ∷ es)) (exorcise_each-Simplifies o n es le ks.1)
              λ rest r. (Sums-Builds n e m cs b s, r)

-- What `exorcise` makes of a function.
pub record Exorcises (original f : TwoLvl32) : Type 0 where
  pub same_kind : f.kind ≡ original.kind
  pub same_inputs : f.n_inputs ≡ original.n_inputs
  pub simplifies : Simplifies original.n_inputs original.cubes f.cubes

-- `exorcise` returns, for a function whose cubes are over its inputs, at most 32. The kind and the
-- inputs are the same, and each output has the exclusive sum of its old cubes in no more cubes.
pub exorcise-Exorcises :
    (o : HashOrder) (original : TwoLvl32)
    → original.n_inputs ≤ 32
    → All (IsCubes original.n_inputs) original.cubes
    → Returns (exorcise o original) (Exorcises original)
unfolding exorcise
exorcise-Exorcises o original le ks =
    Returns-bind (exorcise_each o original.n_inputs original.cubes)
      (λ cubes. some (record { kind = original.kind; n_inputs = original.n_inputs; cubes = cubes }))
      (Simplifies original.n_inputs original.cubes) (Exorcises original)
      (exorcise_each-Simplifies o original.n_inputs original.cubes le ks)
      λ cubes s. record { same_kind = refl; same_inputs = refl; simplifies = s }

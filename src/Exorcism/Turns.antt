-- ===== src/Exorcism/Turns.antt =====
-- The loops of `exorlink2` and `exorlink3` over the pairs.
use losys.Base.{
  Returns, Returns-map, Returns-bind, ℕ, zero, suc, ◌-◌, ◌%◌, ◌^◌, ◌≤◌, ◌<◌, ◌≡◌, refl, ◌∙◌, Bool,
  true, Bool-cases, inl, inr, some, Option, List, [], ◌∷◌, All, arith, length,
}
use losys.Kernel.CubeSet.{HashOrder}
use losys.Exorcism.Manager.{CubePair, ExorcismMngr, total, n_cubes, pairs_bookmark}
use losys.Exorcism.Passes.{
  holds_pair, exorlink2_pair, exorlink3_pair, remove_pair, exorlink2_front, exorlink3_front,
  exorlink2_turn, exorlink3_turn, turns, exorlink2, exorlink3, sub32,
}
use losys.Exorcism.Invariant.{IsPair, IsMngr}
use losys.Exorcism.Buckets.{eval_buckets}
use losys.Exorcism.Rollback.{pairs_bookmark-IsMngr}
use losys.Exorcism.Removal.{remove_pair-Differs, remove_pair-IsGone}
use losys.Exorcism.Reshape.{Replaces, reshape2-Replaces}
use losys.Exorcism.ReshapeThree.{reshape3-Replaces}

-- The sum is the same, of no more cubes.
pub record Improves (n : ℕ) (m m' : ExorcismMngr) : Type 0 where
  pub mngr : IsMngr n m'
  pub count : total m'.m_cubes ≤ total m.m_cubes
  pub sum : (v : ℕ → Bool) → eval_buckets m'.m_cubes v ≡ eval_buckets m.m_cubes v

pub Improves-trans :
    {n : ℕ} {a b c : ExorcismMngr} → Improves n a b → Improves n b c → Improves n a c
Improves-trans p q = record {
  mngr = q.mngr;
  count = omega (arith, p.count, q.count);
  sum = λ v. q.sum v ∙ p.sum v;
}

pub Improves-refl : {n : ℕ} {m : ExorcismMngr} → IsMngr n m → Improves n m m
Improves-refl h = record { mngr = h; count = omega arith; sum = λ v. refl }

-- A turn takes at most one pair away from those that are counted.
abbrev pub TurnsOn : (ExorcismMngr → ℕ) → ℕ → ExorcismMngr → ExorcismMngr → Type 0
TurnsOn count n m m' = Improves n m m' × count m ≤ suc (count m')

module _ {n : ℕ} (turn : ExorcismMngr → Option ExorcismMngr) (count : ExorcismMngr → ℕ)
    (turn_ok : (m : ExorcismMngr)
      → IsMngr n m
      → 0 < count m
      → Returns (turn m) (TurnsOn count n m)) where
  turns-Improves :
      (left : ℕ) (m : ExorcismMngr)
      → left ≤ count m
      → IsMngr n m
      → Returns (turns turn left m) (Improves n m)
  unfolding turns
  turns-Improves zero m le h = Improves-refl h
  turns-Improves (suc left) m le h =
      Returns-bind (turn m) (turns turn left) (TurnsOn count n m) (Improves n m)
        (turn_ok m h (omega arith))
        λ m1 (i, c).
          Returns-map _ _ (Improves n m) (turns-Improves left m1 (omega arith) i.mngr)
            λ m2 j. Improves-trans i j

module _ {n : ℕ} (le : n ≤ 32) (p : CubePair) where
  -- A pair replaced after its removal.
  replaced :
      {d : ℕ} (m : ExorcismMngr)
      → IsPair n (suc d) p
      → IsMngr n m
      → holds_pair p m ≡ true
      → (m' : ExorcismMngr) → Replaces n p (pairs_bookmark (remove_pair p m)) m'
      → Improves n m m'
        × length m.m_pairs0 ≤ length m'.m_pairs0
        × length m.m_pairs1 ≤ length m'.m_pairs1
  unfolding pairs_bookmark remove_pair losys.Exorcism.Manager.erase_at
  replaced m k h e m' r =
      let d = remove_pair-Differs le p k m h e in
      (
        record {
          mngr = r.mngr;
          count = omega (arith, r.room, d.count);
          sum = λ v. ground (arith, r.sum v, d.sum v);
        },
        r.more0,
        r.more1,
      )

-- What a pass shows: its gain is what it saves.
abbrev pub IsPass : ℕ → ExorcismMngr → ℕ × ExorcismMngr → Type 0
IsPass n m r = Improves n m r.1 × (r.0 ≡ (total m.m_cubes - total r.1.m_cubes) % 2 ^ 32)

passed :
    {n : ℕ} (m m' : ExorcismMngr)
    → Improves n m m'
    → IsPass n m (sub32 (n_cubes m) (n_cubes m'), m')
unfolding n_cubes
passed m m' i = (i, omega (arith, i.count))

module _ {n : ℕ} (le : n ≤ 32) (o : HashOrder) where
  -- The result of a turn, given the manager with the pair popped.
  abbrev Turned : ExorcismMngr → ExorcismMngr → Type 0
  Turned m m' =
      Improves n m m'
      × length m.m_pairs0 ≤ length m'.m_pairs0
      × length m.m_pairs1 ≤ length m'.m_pairs1

  popped0 :
      (m : ExorcismMngr) (pairs : List CubePair)
      → IsMngr n m
      → All (IsPair n 2) pairs
      → IsMngr n (record m { m_pairs0 = pairs })
  popped0 m pairs h all = record {
    vars = h.vars;
    size = h.size;
    buckets = h.buckets;
    pairs0 = all;
    pairs1 = h.pairs1;
    tmp0 = h.tmp0;
    tmp1 = h.tmp1;
  }

  popped1 :
      (m : ExorcismMngr) (pairs : List CubePair)
      → IsMngr n m
      → All (IsPair n 3) pairs
      → IsMngr n (record m { m_pairs1 = pairs })
  popped1 m pairs h all = record {
    vars = h.vars;
    size = h.size;
    buckets = h.buckets;
    pairs0 = h.pairs0;
    pairs1 = all;
    tmp0 = h.tmp0;
    tmp1 = h.tmp1;
  }

  pair2-Turned :
      (p : CubePair) (m : ExorcismMngr)
      → IsMngr n m
      → IsPair n 2 p
      → Returns (exorlink2_pair o p m) (Turned m)
  unfolding exorlink2_pair
  pair2-Turned p m h k = elim (Bool-cases (holds_pair p m)) [
    | inl e ↦
        let d = remove_pair-Differs le p k m h e in
        let b = pairs_bookmark-IsMngr (remove_pair p m) d.mngr' in
        rw (exorlink2_pair, e)
          (Returns-map _ _ (Turned m)
            (reshape2-Replaces le o p (pairs_bookmark (remove_pair p m)) k
              (unfold pairs_bookmark in remove_pair-IsGone le p k m h) b.0 b.1)
            (replaced le p m k h e))
    | inr e ↦ rw (exorlink2_pair, e) (Improves-refl h, omega arith, omega arith)
  ]

  front2-Improves :
      (ps : List CubePair) (m : ExorcismMngr)
      → IsMngr n m
      → All (IsPair n 2) ps
      → 0 < length ps
      → Returns
          (exorlink2_front o ps m)
          (λ m'. Improves n m m' × length ps ≤ suc (length m'.m_pairs0))
  unfolding exorlink2_front
  front2-Improves [] m h all lt = absurd (omega arith)
  front2-Improves (p ∷ pairs) m h all lt =
      Returns-map _ _ (λ m'. Improves n m m' × length (p ∷ pairs) ≤ suc (length m'.m_pairs0))
        (pair2-Turned p (record m { m_pairs0 = pairs }) (popped0 m pairs h all.1) all.0)
        λ m' i.
          (record { mngr = i.0.mngr; count = i.0.count; sum = i.0.sum }, omega (arith, i.1, i.2))

  pair3-Turned :
      (p : CubePair) (m : ExorcismMngr)
      → IsMngr n m
      → IsPair n 3 p
      → Returns (exorlink3_pair o p m) (Turned m)
  unfolding exorlink3_pair
  pair3-Turned p m h k = elim (Bool-cases (holds_pair p m)) [
    | inl e ↦
        let d = remove_pair-Differs le p k m h e in
        let b = pairs_bookmark-IsMngr (remove_pair p m) d.mngr' in
        rw (exorlink3_pair, e)
          (Returns-map _ _ (Turned m)
            (reshape3-Replaces le o p (pairs_bookmark (remove_pair p m)) k
              (unfold pairs_bookmark in remove_pair-IsGone le p k m h) b.0 b.1)
            (replaced le p m k h e))
    | inr e ↦ rw (exorlink3_pair, e) (Improves-refl h, omega arith, omega arith)
  ]

  front3-Improves :
      (ps : List CubePair) (m : ExorcismMngr)
      → IsMngr n m
      → All (IsPair n 3) ps
      → 0 < length ps
      → Returns
          (exorlink3_front o ps m)
          (λ m'. Improves n m m' × length ps ≤ suc (length m'.m_pairs1))
  unfolding exorlink3_front
  front3-Improves [] m h all lt = absurd (omega arith)
  front3-Improves (p ∷ pairs) m h all lt =
      Returns-map _ _ (λ m'. Improves n m m' × length (p ∷ pairs) ≤ suc (length m'.m_pairs1))
        (pair3-Turned p (record m { m_pairs1 = pairs }) (popped1 m pairs h all.1) all.0)
        λ m' i.
          (record { mngr = i.0.mngr; count = i.0.count; sum = i.0.sum }, omega (arith, i.1, i.2))

-- `exorlink2` returns and keeps the manager's invariant. The cubes have the same sum and are no more
-- than before, and the result is how many fewer they are, on 32 bits.
pub exorlink2-IsPass :
    (o : HashOrder) (n : ℕ) (m : ExorcismMngr)
    → n ≤ 32
    → IsMngr n m
    → Returns (exorlink2 o m) (IsPass n m)
unfolding exorlink2
exorlink2-IsPass o n m le h =
    Returns-bind (turns (exorlink2_turn o) (length m.m_pairs0) m)
      (λ m'. some (sub32 (n_cubes m) (n_cubes m'), m')) (Improves n m) (IsPass n m)
      (turns-Improves {n = n} (exorlink2_turn o) (λ a. length a.m_pairs0)
        (λ a k lt. unfold exorlink2_turn in front2-Improves le o a.m_pairs0 a k k.pairs0 lt)
        (length m.m_pairs0) m (omega arith) h)
      (passed m)

-- `exorlink3` returns and keeps the manager's invariant. The cubes have the same sum and are no more
-- than before, and the result is how many fewer they are, on 32 bits.
pub exorlink3-IsPass :
    (o : HashOrder) (n : ℕ) (m : ExorcismMngr)
    → n ≤ 32
    → IsMngr n m
    → Returns (exorlink3 o m) (IsPass n m)
unfolding exorlink3
exorlink3-IsPass o n m le h =
    Returns-bind (turns (exorlink3_turn o) (length m.m_pairs1) m)
      (λ m'. some (sub32 (n_cubes m) (n_cubes m'), m')) (Improves n m) (IsPass n m)
      (turns-Improves {n = n} (exorlink3_turn o) (λ a. length a.m_pairs1)
        (λ a k lt. unfold exorlink3_turn in front3-Improves le o a.m_pairs1 a k k.pairs1 lt)
        (length m.m_pairs1) m (omega arith) h)
      (passed m)

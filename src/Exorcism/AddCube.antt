-- ===== src/Exorcism/AddCube.antt =====
-- `exorcism_mngr::add_cube`: its gain, and what it does to the sum of the buckets.
use losys.Base.{
  Returns, Returns-bind, ℕ, zero, suc, ◌+◌, ◌<◌, ◌≤◌, ◌≡◌, refl, ◌∙◌, ap, Bool, true, false, ◌||◌,
  ◌⊕◌, ltb, if◌then◌else◌, Bool-cases, inl, inr, [], All-append, arith, length, length-append,
  get_or, bit, bit-zero, zero_of_popcount,
}
use losys.Kernel.Cube32.{Cube32, n_lits, distance, difference, merge}
use losys.Kernel.Cube32.Meaning.{eval, IsCube, cube_ext}
use losys.Kernel.Cube32.Merge.{merge_lem, difference_word, bit-difference}
use losys.Kernel.CubeSet.{HashOrder, contains}
use losys.Exorcism.Manager.{
  ExorcismMngr, Found, near, same, clear, total, scan, copy_pairs, erase_at, insert_at,
  add_cube_loop, add_cube,
}
use losys.Exorcism.Invariant.{IsPair, IsMngr, Kept}
use losys.Exorcism.Scan.{Finds, n_lits_below, scan_lem}
use losys.Exorcism.Buckets.{eval_buckets}
use losys.Exorcism.Store.{
  erase_at-IsMngr, total-erase_at, eval-erase_at, insert_at-IsMngr, total-insert_at, eval-insert_at,
}

-- What adding `c` makes of the manager: with the gain counted, the buckets hold one cube more and
-- `c` in their sum, unless nothing was to be added and nothing was gained.
pub record Adds (n : ℕ) (c : Cube32) (add : Bool) (m : ExorcismMngr) (r : ℕ × ExorcismMngr)
    : Type 0 where
  pub mngr : IsMngr n r.1
  pub grows0 : length m.m_pairs0 ≤ length r.1.m_pairs0
  pub grows1 : length m.m_pairs1 ≤ length r.1.m_pairs1
  pub mark0 : r.1.m_pairs_bookmark0 ≡ m.m_pairs_bookmark0
  pub mark1 : r.1.m_pairs_bookmark1 ≡ m.m_pairs_bookmark1
  pub counts : (add || ltb 0 r.0) ≡ true → r.0 + total r.1.m_cubes ≡ suc (total m.m_cubes)
  pub sums :
      (add || ltb 0 r.0) ≡ true
      → (v : ℕ → Bool) → eval_buckets r.1.m_cubes v ≡ (eval c v ⊕ eval_buckets m.m_cubes v)
  pub stays : (add || ltb 0 r.0) ≡ false → r.1.m_cubes ≡ m.m_cubes

distance_zero : {n : ℕ} {c d : Cube32} → n ≤ 32 → IsCube n c → IsCube n d → distance c d ≡ 0 → c ≡ d
unfolding distance
distance_zero {n} {c} {d} le kc kd e =
    let z = zero_of_popcount 32 (difference c d) (difference_word kc kd le) e in
    let off : (i : ℕ) → bit (difference c d) i ≡ false =
      λ i. ap (λ (x : ℕ). bit x i) z ∙ bit-zero i in
    cube_ext c d (λ i. ground (arith, off i, bit-difference c d i))
      (λ i. ground (arith, off i, bit-difference c d i))

copy_pairs-IsMngr : {n : ℕ} {m : ExorcismMngr} → IsMngr n m → IsMngr n (copy_pairs m)
unfolding copy_pairs
copy_pairs-IsMngr {n} {m} h = record {
  vars = h.vars;
  size = h.size;
  buckets = h.buckets;
  pairs0 = All-append (IsPair n 2) m.m_pairs0 m.m_pairs_tmp0 h.pairs0 h.tmp0;
  pairs1 = All-append (IsPair n 3) m.m_pairs1 m.m_pairs_tmp1 h.pairs1 h.tmp1;
  tmp0 = h.tmp0;
  tmp1 = h.tmp1;
}

module _ {n : ℕ} {c : Cube32} (le : n ≤ 32) (k : IsCube n c) (m m1 : ExorcismMngr) (h : IsMngr n m1)
    (kept : Kept m m1) where
  settled_out : Adds n c false m (0, copy_pairs m1)
  unfolding copy_pairs
  settled_out = record {
    mngr = copy_pairs-IsMngr h;
    grows0 = omega (arith, ap length kept.pairs0, length-append m1.m_pairs0 m1.m_pairs_tmp0);
    grows1 = omega (arith, ap length kept.pairs1, length-append m1.m_pairs1 m1.m_pairs_tmp1);
    mark0 = kept.mark0;
    mark1 = kept.mark1;
    counts = λ e. absurd (ground arith);
    sums = λ e v. absurd (ground arith);
    stays = λ _. kept.cubes;
  }

  settled_in :
      (o : HashOrder)
      → contains c (get_or m1.m_cubes (n_lits c) []) ≡ false
      → Adds n c true m (0, copy_pairs (insert_at o (n_lits c) c m1))
  unfolding copy_pairs insert_at
  settled_in o new = record {
    mngr = copy_pairs-IsMngr (insert_at-IsMngr o h (n_lits c) c (n_lits_below le k) new k);
    grows0 = omega (arith, ap length kept.pairs0, length-append m1.m_pairs0 m1.m_pairs_tmp0);
    grows1 = omega (arith, ap length kept.pairs1, length-append m1.m_pairs1 m1.m_pairs_tmp1);
    mark0 = kept.mark0;
    mark1 = kept.mark1;
    counts = λ _.
        omega
          (arith, total-insert_at o h (n_lits c) c (n_lits_below le k) new, ap total kept.cubes);
    sums = λ _ v. ground (
      arith,
      eval-insert_at o h (n_lits c) c (n_lits_below le k) new v,
      ap (λ bs. eval_buckets bs v) kept.cubes,
    );
    stays = λ e. absurd (ground arith);
  }

module _ {n : ℕ} {c : Cube32} (le : n ≤ 32) (k : IsCube n c) (o : HashOrder) (add : Bool)
    (m m1 : ExorcismMngr) (h : IsMngr n m1) (kept : Kept m m1) where
  -- A cube at distance 1 is taken out and merged.
  merged :
      (it : Cube32) (i : ℕ)
      → IsCube n it
      → contains it (get_or m1.m_cubes i []) ≡ true
      → distance c it ≡ 1
      → (r : ℕ × ExorcismMngr) → Adds n (merge c it) true (erase_at i it m1) r
      → Adds n c add m (r.0 + 1, r.1)
  unfolding erase_at
  merged it i ki held d r a =
      let t = total-erase_at le h i it held in
      let t' = ap total kept.cubes in
      let same : (v : ℕ → Bool) → eval_buckets m1.m_cubes v ≡ eval_buckets m.m_cubes v =
        λ v. ap (λ bs. eval_buckets bs v) kept.cubes in
      record {
        mngr = a.mngr;
        grows0 = omega (arith, a.grows0, ap length kept.pairs0);
        grows1 = omega (arith, a.grows1, ap length kept.pairs1);
        mark0 = a.mark0 ∙ kept.mark0;
        mark1 = a.mark1 ∙ kept.mark1;
        counts = λ _. omega (arith, a.counts refl, t, t');
        sums = λ _ v. ground (
          arith,
          a.sums refl v,
          (merge_lem c it n k ki le d).1 v,
          eval-erase_at le h i it held ki v,
          same v,
        );
        stays = λ e. absurd (ground arith);
      }

  -- The cube itself is taken out.
  cancelled :
      (it : Cube32) (i : ℕ)
      → IsCube n it
      → contains it (get_or m1.m_cubes i []) ≡ true
      → distance c it ≡ 0
      → Adds n c add m (2, record (erase_at i it m1) { m_pairs_tmp0 = [] })
  unfolding erase_at
  cancelled it i ki held d =
      let e = erase_at-IsMngr le h i it in
      let t = total-erase_at le h i it held in
      let t' = ap total kept.cubes in
      let w = distance_zero le k ki d in
      record {
        mngr = record {
          vars = e.vars;
          size = e.size;
          buckets = e.buckets;
          pairs0 = e.pairs0;
          pairs1 = e.pairs1;
          tmp0 = tt;
          tmp1 = e.tmp1;
        };
        grows0 = omega (arith, ap length kept.pairs0);
        grows1 = omega (arith, ap length kept.pairs1);
        mark0 = kept.mark0;
        mark1 = kept.mark1;
        counts = λ _. omega (arith, t, t');
        sums = λ _ v. ground (
          arith,
          eval-erase_at le h i it held ki v,
          ap (λ bs. eval_buckets bs v) kept.cubes,
          ap (λ (x : Cube32). eval x v) w,
        );
        stays = λ f. absurd (ground arith);
      }

  -- Nothing is near: the cube goes into the bucket of its size, if it is to be added.
  settled :
      contains c (get_or m1.m_cubes (n_lits c) []) ≡ false
      → Adds n c add m (0, copy_pairs (if add then insert_at o (n_lits c) c m1 else m1))
  settled new = elim (Bool-cases add) [
    | inl e ↦ rw e (settled_in le k m m1 h kept o new)
    | inr e ↦ rw e (settled_out le k m m1 h kept)
  ]

module _ {n : ℕ} (le : n ≤ 32) (o : HashOrder) where
  -- A round of the loop, by what the scan found.
  round_Adds :
      (fuel : ℕ) (c : Cube32) (add : Bool) (m : ExorcismMngr) (found : Found) (m1 : ExorcismMngr)
      → (scan c m).0 ≡ found
      → (scan c m).1 ≡ m1
      → IsCube n c
      → IsMngr n m1 × Kept m m1 × Finds n c m.m_cubes (n_lits c) (suc (n_lits c)) found
      → ((it : Cube32) (i : ℕ)
          → IsCube n it
          → contains it (get_or m1.m_cubes i []) ≡ true
          → distance c it ≡ 1
          → Returns
              (add_cube_loop o fuel (merge c it) true (erase_at i it m1))
              (Adds n (merge c it) true (erase_at i it m1)))
      → Returns (add_cube_loop o (suc fuel) c add m) (Adds n c add m)
  unfolding add_cube_loop
  round_Adds fuel c add m (near it i) m1 e e' k (h, kept, (ki, held, d)) more =
      rw (add_cube_loop, e, e')
        (Returns-bind _ _ _ _ (more it i ki (rw kept.cubes held) d)
          λ r a. merged le k o add m m1 h kept it i ki (rw kept.cubes held) d r a)
  round_Adds fuel c add m (same it i) m1 e e' k (h, kept, (ki, held, d)) more =
      rw (add_cube_loop, e, e') (cancelled le k o add m m1 h kept it i ki (rw kept.cubes held) d)
  round_Adds fuel c add m clear m1 e e' k (h, kept, new) more =
      rw (add_cube_loop, e, e')
        (settled le k o add m m1 h kept
          (rw kept.cubes (new (n_lits c) (omega arith) (omega arith))))

  add_cube_loop-Adds :
      (fuel : ℕ) (c : Cube32) (add : Bool) (m : ExorcismMngr)
      → IsCube n c
      → IsMngr n m
      → total m.m_cubes < fuel
      → Returns (add_cube_loop o fuel c add m) (Adds n c add m)
  unfolding add_cube_loop
  add_cube_loop-Adds zero c add m k h f = absurd (omega arith)
  add_cube_loop-Adds (suc fuel) c add m k h f =
      let s = scan_lem le k m h in
      round_Adds fuel c add m _ _ refl refl k s λ it i ki held d.
        add_cube_loop-Adds fuel (merge c it) true (erase_at i it (scan c m).1)
          (merge_lem c it n k ki le d).0 (erase_at-IsMngr le s.0 i it)
          (omega (arith, total-erase_at le s.0 i it held, ap total s.1.cubes))

-- For a cube over at most 32 variables `add_cube` returns and keeps the manager's invariant. If the
-- cube is to be added or there is a gain, the sum of the buckets has the cube added, and the gain
-- is what their number of cubes falls short of one more; otherwise the buckets stay as they are.
pub add_cube-Adds :
    (o : HashOrder) (n : ℕ) (c : Cube32) (add : Bool) (m : ExorcismMngr)
    → n ≤ 32
    → IsCube n c
    → IsMngr n m
    → Returns (add_cube o c add m) (Adds n c add m)
unfolding add_cube
add_cube-Adds o n c add m le k h =
    add_cube_loop-Adds le o (suc (total m.m_cubes)) c add m k h (omega arith)

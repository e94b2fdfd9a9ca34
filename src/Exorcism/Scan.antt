-- ===== src/Exorcism/Scan.antt =====
-- `exorcism_mngr::add_cube`: what its loops over the buckets find.
use losys.Kernel.CubeSet.Laws.{IsCubes, eq_cubes}
use Prim.Native.Nat.{min}
use native.Mathlib.Omega.{min_cases}
use losys.Base.{
  ◌-◌, popcount_below, zero, ==_iff, sym, ◌+◌, ap, ◌∷◌, ◌<◌, false, ℕ, suc, ◌≤◌, ◌≡◌, refl, true,
  ◌==◌, Bool-cases, inl, inr, List, [], All-append, arith, get_or,
}
use losys.Kernel.Cube32.{n_lits, eq, Cube32, distance}
use losys.Kernel.Cube32.Meaning.{eq_self, IsCube}
use losys.Kernel.CubeSet.{contains}
use losys.Exorcism.Manager.{
  scan, scan_buckets, scan_bucket, ExorcismMngr, Found, near, same, clear, note_pair,
}
use losys.Exorcism.Buckets.{get_or-IsCubeSet}
use losys.Exorcism.Invariant.{IsPair, IsMngr, Kept, Kept-refl, Kept-trans, distance_self}

-- What the scan of the bucket `s`, at the index `i`, says of `c`.
abbrev FindsIn : ℕ → Cube32 → ℕ → List Cube32 → Found → Type 0
FindsIn n c i s (near it j) = (i ≡ j) × IsCube n it × (contains it s ≡ true) × (distance c it ≡ 1)
FindsIn n c i s (same it j) = (i ≡ j) × IsCube n it × (contains it s ≡ true) × (distance c it ≡ 0)
FindsIn n c i s clear = contains c s ≡ false

-- What the scan of the buckets from `i` to before `j` says of it.
abbrev pub Finds : ℕ → Cube32 → List (List Cube32) → ℕ → ℕ → Found → Type 0
Finds n c bs i j (near it x) =
    IsCube n it × (contains it (get_or bs x []) ≡ true) × (distance c it ≡ 1)
Finds n c bs i j (same it x) =
    IsCube n it × (contains it (get_or bs x []) ≡ true) × (distance c it ≡ 0)
Finds n c bs i j clear = (x : ℕ) → i ≤ x → x < j → contains c (get_or bs x []) ≡ false

abbrev cleared : ExorcismMngr → ExorcismMngr
cleared m = record m { m_pairs_tmp0 = []; m_pairs_tmp1 = [] }

cleared-Kept : (m : ExorcismMngr) → Kept m (cleared m)
cleared-Kept m = record { cubes = refl; pairs0 = refl; pairs1 = refl; mark0 = refl; mark1 = refl }

cleared-IsMngr : {n : ℕ} (m : ExorcismMngr) → IsMngr n m → IsMngr n (cleared m)
cleared-IsMngr m h = record {
  vars = h.vars;
  size = h.size;
  buckets = h.buckets;
  pairs0 = h.pairs0;
  pairs1 = h.pairs1;
  tmp0 = tt;
  tmp1 = tt;
}

module _ {n : ℕ} {c : Cube32} (le : n ≤ 32) (k : IsCube n c) where
  note_pair_lem :
      (it : Cube32) (m : ExorcismMngr)
      → IsCube n it
      → IsMngr n m
      → IsMngr n (note_pair (distance c it) c it m) × Kept m (note_pair (distance c it) c it m)
  unfolding note_pair
  note_pair_lem it m ki h = elim (Bool-cases (distance c it == 2)) [
    | inl e ↦ rw e (
      record {
        vars = h.vars;
        size = h.size;
        buckets = h.buckets;
        pairs0 = h.pairs0;
        pairs1 = h.pairs1;
        tmp0 =
            All-append (IsPair n 2) m.m_pairs_tmp0 _ h.tmp0
              (record { first = k; second = ki; apart = ground arith }, tt);
        tmp1 = h.tmp1;
      },
      record { cubes = refl; pairs0 = refl; pairs1 = refl; mark0 = refl; mark1 = refl },
    )
    | inr e ↦ elim (Bool-cases (distance c it == 3)) [
      | inl f ↦
          rw (e, f)
            (
              record {
                vars = h.vars;
                size = h.size;
                buckets = h.buckets;
                pairs0 = h.pairs0;
                pairs1 = h.pairs1;
                tmp0 = h.tmp0;
                tmp1 =
                    All-append (IsPair n 3) m.m_pairs_tmp1 _ h.tmp1
                      (record { first = k; second = ki; apart = ground arith }, tt);
              },
              record { cubes = refl; pairs0 = refl; pairs1 = refl; mark0 = refl; mark1 = refl },
            )
      | inr f ↦ rw (e, f) (h, Kept-refl m)
    ]
  ]

  FindsIn-cons :
      (i : ℕ) (it : Cube32) (s : List Cube32) (found : Found)
      → IsCube n it
      → (distance c it == 0) ≡ false
      → FindsIn n c i s found
      → FindsIn n c i (it ∷ s) found
  unfolding contains
  FindsIn-cons i it s (near x j) ki f (a, b, d, e) = (a, b, ground arith, e)
  FindsIn-cons i it s (same x j) ki f (a, b, d, e) = (a, b, ground arith, e)
  FindsIn-cons i it s clear ki f d = elim (Bool-cases (eq it c)) [
    | inl q ↦
        let w = ap (λ (t : Cube32). distance c t) (eq_cubes le ki k q) in
        absurd (ground (arith, w, distance_self c))
    | inr q ↦ ground arith
  ]

  scan_bucket_lem :
      (i : ℕ) (s : List Cube32) (m : ExorcismMngr)
      → IsCubes n s
      → IsMngr n m
      → IsMngr n (scan_bucket c i s m).1
        × Kept m (scan_bucket c i s m).1
        × FindsIn n c i s (scan_bucket c i s m).0
  unfolding scan_bucket contains
  scan_bucket_lem i [] m ks h = (h, Kept-refl m, refl)
  scan_bucket_lem i (it ∷ s) m ks h = elim (Bool-cases (distance c it == 1)) [
    | inl e ↦ rw e (h, Kept-refl m, (refl, ks.0, ground (arith, eq_self it), ground arith))
    | inr e ↦ elim (Bool-cases (distance c it == 0)) [
      | inl f ↦ rw (e, f) (h, Kept-refl m, (refl, ks.0, ground (arith, eq_self it), ground arith))
      | inr f ↦
          let (h', kept) = note_pair_lem it m ks.0 h in
          let (h'', kept', found) =
            scan_bucket_lem i s (note_pair (distance c it) c it m) ks.1 h' in
          rw (e, f) (h'', Kept-trans kept kept', FindsIn-cons i it s _ ks.0 f found)
    ]
  ]

  Finds-further :
      (i left : ℕ) (bs bs' : List (List Cube32)) (found : Found)
      → bs' ≡ bs
      → contains c (get_or bs i []) ≡ false
      → Finds n c bs' (i + 1) (i + 1 + left) found
      → Finds n c bs i (i + suc left) found
  Finds-further i left bs bs' (near it x) e new (ki, held, d) = (ki, rw (sym e) held, d)
  Finds-further i left bs bs' (same it x) e new (ki, held, d) = (ki, rw (sym e) held, d)
  Finds-further i left bs bs' clear e new f = λ x a b. elim (Bool-cases (i == x)) [
    | inl q ↦ let w = (==_iff i x).0 q in rw (sym w) new
    | inr q ↦ rw (sym e) (f x (ground arith) (omega arith))
  ]

  -- What `scan_buckets` shows.
  abbrev pub Scanned : ℕ → ℕ → ExorcismMngr → Found × ExorcismMngr → Type 0
  Scanned i j m r = IsMngr n r.1 × Kept m r.1 × Finds n c m.m_cubes i j r.0

  bucket-Scanned :
      (left i : ℕ) (m : ExorcismMngr) (found : Found) (m' : ExorcismMngr)
      → (scan_bucket c i (get_or m.m_cubes i []) m).0 ≡ found
      → (scan_bucket c i (get_or m.m_cubes i []) m).1 ≡ m'
      → IsMngr n m' × Kept m m' × FindsIn n c i (get_or m.m_cubes i []) found
      → ((m' : ExorcismMngr)
          → IsMngr n m'
          → Scanned (i + 1) (i + 1 + left) m' (scan_buckets left (i + 1) c m'))
      → Scanned i (i + suc left) m (scan_buckets (suc left) i c m)
  unfolding scan_buckets
  bucket-Scanned left i m (near it j) m' e e' (h', kept, (at, ki, held, d)) more =
      rw (scan_buckets, e, e') (h', kept, (ki, rw (sym at) held, d))
  bucket-Scanned left i m (same it j) m' e e' (h', kept, (at, ki, held, d)) more =
      rw (scan_buckets, e, e') (h', kept, (ki, rw (sym at) held, d))
  bucket-Scanned left i m clear m' e e' (h', kept, new) more =
      let (h'', kept', found) = more m' h' in
      rw (scan_buckets, e, e')
        (
          h'',
          Kept-trans kept kept',
          Finds-further i left m.m_cubes m'.m_cubes _ kept.cubes new found,
        )

  scan_buckets_lem :
      (left i : ℕ) (m : ExorcismMngr)
      → IsMngr n m
      → Scanned i (i + left) m (scan_buckets left i c m)
  unfolding scan_buckets
  scan_buckets_lem zero i m h = (h, Kept-refl m, λ x a b. absurd (omega arith))
  scan_buckets_lem (suc left) i m h =
      bucket-Scanned left i m _ _ refl refl
        (scan_bucket_lem i (get_or m.m_cubes i []) m (get_or-IsCubeSet m.m_cubes i h.buckets).cubes
          h)
        (λ m' h'. scan_buckets_lem left (i + 1) m' h')

  -- The scan as a whole takes in the bucket of `c`.
  pub n_lits_below : n_lits c ≤ n
  unfolding n_lits
  n_lits_below = popcount_below 32 n c.mask k.fits

  Finds-narrow :
      (i j x : ℕ) (bs : List (List Cube32)) (found : Found)
      → i ≤ x
      → x < j
      → Finds n c bs i j found
      → Finds n c bs x (suc x) found
  Finds-narrow i j x bs (near it y) a b f = f
  Finds-narrow i j x bs (same it y) a b f = f
  Finds-narrow i j x bs clear a b f = λ y p q. f y (omega arith) (omega arith)

  -- What `scan` shows, of the cubes of the same size at least.
  abbrev pub ScannedOwn : ExorcismMngr → Found × ExorcismMngr → Type 0
  ScannedOwn m r = Scanned (n_lits c) (suc (n_lits c)) m r

  pub scan_lem : (m : ExorcismMngr) → IsMngr n m → ScannedOwn m (scan c m)
  unfolding scan
  scan_lem m h =
      let begin = n_lits c - 3 in
      let end = min m.m_n_vars (n_lits c + 3) in
      let r = scan_buckets_lem (end + 1 - begin) begin (cleared m) (cleared-IsMngr m h) in
      (
        r.0,
        Kept-trans (cleared-Kept m) r.1,
        Finds-narrow begin (begin + (end + 1 - begin)) (n_lits c) m.m_cubes _ (omega arith)
            (min_cases m.m_n_vars (n_lits c + 3) _ (λ a e. omega (arith, n_lits_below, h.vars))
              (λ a e. omega arith))
            r.2,
      )

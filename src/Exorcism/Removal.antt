-- ===== src/Exorcism/Removal.antt =====
-- A pair of cubes taken out of its buckets by the passes, and put back.
use losys.Kernel.CubeSet.Esop.{eq_symm}
use losys.Base.{
  ℕ, suc, ◌+◌, ◌≤◌, ◌<◌, ◌≡◌, sym, ◌∙◌, ap, Bool, true, false, ◌⊕◌, ◌==◌, ==_iff, Bool-cases, inl,
  inr, List, [], arith, get_or, set, get_or-set_self, get_or-set_ne, length,
}
use losys.Kernel.Cube32.{Cube32, eq, n_lits, distance}
use losys.Kernel.Cube32.Meaning.{eval}
use losys.Kernel.CubeSet.{HashOrder, contains, erase}
use losys.Kernel.CubeSet.Laws.{eq_cubes}
use losys.Kernel.CubeSet.Membership.{contains-erase_self, contains-erase_ne, contains-insert_ne}
use losys.Exorcism.Manager.{CubePair, ExorcismMngr, erase_at, insert_at, total}
use losys.Exorcism.Passes.{holds_pair, remove_pair, restore_pair}
use losys.Exorcism.Invariant.{IsPair, IsMngr, distance_self}
use losys.Exorcism.Scan.{n_lits_below}
use losys.Exorcism.Buckets.{IsBuckets, eval_buckets, get_or-IsCubeSet}
use losys.Exorcism.Store.{
  erase_at-IsMngr, total-erase_at, eval-erase_at, insert_at-IsMngr, total-insert_at, eval-insert_at,
}

-- The pair's cubes are in none of the buckets that they belong to.
pub record IsGone (p : CubePair) (bs : List (List Cube32)) : Type 0 where
  pub gone0 : contains p.first (get_or bs (n_lits p.first) []) ≡ false
  pub gone1 : contains p.second (get_or bs (n_lits p.second) []) ≡ false

-- Writing a bucket that agrees on `d` with the old one changes nothing for `d`.
contains-set :
    (d : Cube32) (bs : List (List Cube32)) (i j : ℕ) (b : List Cube32)
    → i < length bs
    → contains d b ≡ contains d (get_or bs i [])
    → contains d (get_or (set bs i b) j []) ≡ contains d (get_or bs j [])
contains-set d bs i j b lt e = elim (Bool-cases (i == j)) [
  | inl q ↦ let w = (==_iff i j).0 q in rw (sym w, get_or-set_self bs i b [] lt) e
  | inr q ↦ rw (get_or-set_ne bs i j b [] q)
]

apart-eq : {n d : ℕ} (p : CubePair) → n ≤ 32 → IsPair n (suc d) p → eq p.first p.second ≡ false
apart-eq p le h = elim (Bool-cases (eq p.first p.second)) [
  | inl q ↦
      let w = ap (λ (t : Cube32). distance p.first t) (eq_cubes le h.first h.second q) in
      absurd (omega (arith, w, h.apart, distance_self p.first))
  | inr q ↦ q
]

-- The invariant, and the buckets' sum and size with the pair on one side.
pub record Differs (n : ℕ) (p : CubePair) (with_pair without_pair : ExorcismMngr) : Type 0 where
  pub mngr : IsMngr n with_pair
  pub mngr' : IsMngr n without_pair
  pub count : total with_pair.m_cubes ≡ total without_pair.m_cubes + 2
  pub sum :
      (v : ℕ → Bool)
      → eval_buckets with_pair.m_cubes v
        ≡ ((eval p.first v ⊕ eval p.second v) ⊕ eval_buckets without_pair.m_cubes v)

module _ {n d : ℕ} (le : n ≤ 32) (p : CubePair) (k : IsPair n (suc d) p) (m : ExorcismMngr)
    (h : IsMngr n m) where
  held_second :
      holds_pair p m ≡ true
      → contains p.second
          (get_or (erase_at (n_lits p.first) p.first m).m_cubes (n_lits p.second) [])
        ≡ true
  unfolding holds_pair erase_at
  held_second e =
      contains-set p.second m.m_cubes (n_lits p.first) (n_lits p.second) _
        (omega (arith, h.size, n_lits_below le k.first))
        (contains-erase_ne p.first p.second _ (apart-eq p le k))
      ∙ ground arith

  pub remove_pair-Differs : holds_pair p m ≡ true → Differs n p m (remove_pair p m)
  unfolding remove_pair holds_pair
  remove_pair-Differs e =
      let h1 = erase_at-IsMngr le h (n_lits p.first) p.first in
      let held0 : contains p.first (get_or m.m_cubes (n_lits p.first) []) ≡ true = ground arith in
      let held1 = held_second e in
      record {
        mngr = h;
        mngr' = erase_at-IsMngr le h1 (n_lits p.second) p.second;
        count = omega (
          arith,
          total-erase_at le h (n_lits p.first) p.first held0,
          total-erase_at le h1 (n_lits p.second) p.second held1,
        );
        sum = λ v. ground (
          arith,
          eval-erase_at le h (n_lits p.first) p.first held0 k.first v,
          eval-erase_at le h1 (n_lits p.second) p.second held1 k.second v,
        );
      }

  pub remove_pair-IsGone : IsGone p (remove_pair p m).m_cubes
  unfolding remove_pair erase_at
  remove_pair-IsGone =
      let h1 = erase_at-IsMngr le h (n_lits p.first) p.first in
      let lt0 = n_lits_below le k.first in
      let lt1 = n_lits_below le k.second in
      record {
        gone0 =
            contains-set p.first (erase_at (n_lits p.first) p.first m).m_cubes (n_lits p.second)
              (n_lits p.first) _ (omega (arith, h1.size))
              (contains-erase_ne p.second p.first _ (eq_symm p.second p.first ∙ apart-eq p le k))
            ∙ absent_after p.first (n_lits p.first) m.m_cubes (omega (arith, h.size)) h.buckets;
        gone1 =
            absent_after p.second (n_lits p.second) (erase_at (n_lits p.first) p.first m).m_cubes
              (omega (arith, h1.size)) h1.buckets;
      }
    where
      absent_after :
          (c : Cube32) (i : ℕ) (bs : List (List Cube32))
          → i < length bs
          → IsBuckets n bs
          → contains c (get_or (set bs i (erase c (get_or bs i []))) i []) ≡ false
      absent_after c i bs lt hb =
          rw (get_or-set_self bs i (erase c (get_or bs i [])) [] lt)
            (contains-erase_self c (get_or bs i []) (get_or-IsCubeSet bs i hb).distinct)

  pub restore_pair-Differs :
      (o : HashOrder) → IsGone p m.m_cubes → Differs n p (restore_pair o p m) m
  unfolding restore_pair insert_at
  restore_pair-Differs o g =
      let lt0 = n_lits_below le k.first in
      let lt1 = n_lits_below le k.second in
      let h1 = insert_at-IsMngr o h (n_lits p.first) p.first lt0 g.gone0 k.first in
      let new1 =
        contains-set p.second m.m_cubes (n_lits p.first) (n_lits p.second) _ (omega (arith, h.size))
          (contains-insert_ne o p.first p.second _ (apart-eq p le k))
        ∙ g.gone1 in
      record {
        mngr = insert_at-IsMngr o h1 (n_lits p.second) p.second lt1 new1 k.second;
        mngr' = h;
        count = omega (
          arith,
          total-insert_at o h (n_lits p.first) p.first lt0 g.gone0,
          total-insert_at o h1 (n_lits p.second) p.second lt1 new1,
        );
        sum = λ v. ground (
          arith,
          eval-insert_at o h (n_lits p.first) p.first lt0 g.gone0 v,
          eval-insert_at o h1 (n_lits p.second) p.second lt1 new1 v,
        );
      }

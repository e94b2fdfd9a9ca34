-- ===== src/Aig/AddCube.antt =====
-- `aig_extr_mngr::add_cube` against the exclusive sum that the set stands for.
use losys.Base.{
  ◌⊎◌, Returns-map, Option-cases, Returns, ℕ, zero, suc, ◌+◌, ◌≤◌, ◌<◌, ◌≡◌, Bool, true, false, ◌⊕◌,
  Bool-cases, inl, inr, some, List, length, arith,
}
use losys.Kernel.Cube32.{Cube32, cube32_one, eq, rotate, merge}
use losys.Kernel.Cube32.Meaning.{eval, IsCube}
use losys.Kernel.Cube32.Rotate.{rotate-IsCube}
use losys.Kernel.Cube32.Merge.{
  DiffersAt, merge-IsCube, eval-merge, rotate-DiffersAt, rotate_twice-DiffersAt,
}
use losys.Kernel.CubeSet.{HashOrder, find, contains, erase, insert}
use losys.Kernel.CubeSet.Esop.{eval_esop}
use losys.Kernel.CubeSet.Laws.{
  IsCubeSet, find-some, eval_esop-erase, length-erase, erase-IsCubeSet, eval_esop-insert,
  length-insert, insert-IsCubeSet,
}
use losys.Aig.{none, find_neighbour, add_cube_loop, add_cube}

-- A cube of the set that differs from `c` in one literal.
pub record IsNeighbour (n : ℕ) (c : Cube32) (s : List Cube32) (d : Cube32) : Type 0 where
  pub var : ℕ
  pub below : var < n
  pub differs : DiffersAt var c d
  pub cube : IsCube n d
  pub held : contains d s ≡ true

-- What adding `c` to `s` has to give.
pub record Added (n : ℕ) (c : Cube32) (s s' : List Cube32) : Type 0 where
  pub is_set : IsCubeSet n s'
  pub sum : (v : ℕ → Bool) → eval_esop s' v ≡ (eval c v ⊕ eval_esop s v)
  pub size : length s' ≤ suc (length s)

module _ {n : ℕ} (le : n ≤ 32) where
  IsNeighbour-find :
      (var : ℕ) (c t : Cube32) (s : List Cube32) (d : Cube32)
      → var < n
      → IsCube n t
      → DiffersAt var c t
      → IsCubeSet n s
      → find t s ≡ some d
      → IsNeighbour n c s d
  IsNeighbour-find var c t s d lt kt at h e =
      let (same, held) = find-some le t d s kt h.cubes e in
      rw same (record { var = var; below = lt; differs = at; cube = kt; held = held })

  find_neighbour-IsNeighbour :
      (left i : ℕ) (c : Cube32) (s : List Cube32) (d : Cube32)
      → i + left ≡ n
      → IsCube n c
      → IsCubeSet n s
      → find_neighbour left i c s ≡ some d
      → IsNeighbour n c s d
  unfolding find_neighbour
  find_neighbour-IsNeighbour zero i c s d e k h q = cc
  find_neighbour-IsNeighbour (suc left) i c s d e k h q =
      let lt : i < n = omega arith in
      let k1 = rotate-IsCube k le i lt in
      elim (Option-cases (find (rotate i c) s)) [
        | inr (x, f) ↦
            let r : x ≡ d = ground arith in
            IsNeighbour-find i c (rotate i c) s d lt k1 (rotate-DiffersAt c n i k le lt) h
              (ground arith)
        | inl f ↦ elim (Option-cases (find (rotate i (rotate i c)) s)) [
          | inr (x, g) ↦
              IsNeighbour-find i c (rotate i (rotate i c)) s d lt (rotate-IsCube k1 le i lt)
                (rotate_twice-DiffersAt c n i k le lt) h (ground arith)
          | inl g ↦ find_neighbour-IsNeighbour left (i + 1) c s d (omega arith) k h (ground arith)
        ]
      ]

  -- The three ways in which a round of the loop ends.
  erased :
      (c : Cube32) (s : List Cube32)
      → IsCube n c
      → IsCubeSet n s
      → contains c s ≡ true
      → Added n c s (erase c s)
  erased c s k h e = record {
    is_set = erase-IsCubeSet c h;
    sum = λ v. ground (arith, eval_esop-erase le c s v k h.cubes e);
    size = omega (arith, length-erase c s e);
  }

  inserted :
      (o : HashOrder) (c : Cube32) (s : List Cube32)
      → IsCube n c
      → IsCubeSet n s
      → contains c s ≡ false
      → Added n c s (insert o c s)
  inserted o c s k h e = record {
    is_set = insert-IsCubeSet o c s e k h;
    sum = eval_esop-insert o c s e;
    size = omega (arith, length-insert o c s e);
  }

  merged :
      (c d : Cube32) (s s' : List Cube32)
      → IsCube n c
      → IsCubeSet n s
      → IsNeighbour n c s d
      → Added n (merge c d) (erase d s) s'
      → Added n c s s'
  merged c d s s' k h nb a = record {
    is_set = a.is_set;
    sum = λ v. ground (
      arith,
      a.sum v,
      eval-merge k nb.cube le nb.var nb.below nb.differs v,
      eval_esop-erase le d s v nb.cube h.cubes nb.held,
    );
    size = omega (arith, a.size, length-erase d s nb.held);
  }

  -- A round inserts the cube, or merges it with a neighbour.
  round_cases :
      (c : Cube32) (s : List Cube32)
      → ((eq c cube32_one ≡ true) ⊎ (find_neighbour n 0 c s ≡ none))
        ⊎ ((d : Cube32) × (eq c cube32_one ≡ false) × (find_neighbour n 0 c s ≡ some d))
  round_cases c s = elim (Bool-cases (eq c cube32_one)) [
    | inl q ↦ inl (inl q)
    | inr q ↦ elim (Option-cases (find_neighbour n 0 c s)) [
      | inl g ↦ inl (inr g)
      | inr (d, g) ↦ inr (d, q, g)
    ]
  ]

  module _ (o : HashOrder) where
    add_cube_loop-Added :
        (fuel : ℕ) (c : Cube32) (s : List Cube32)
        → IsCube n c
        → IsCubeSet n s
        → length s < fuel
        → Returns (add_cube_loop o fuel n c s) (Added n c s)
    unfolding add_cube_loop
    add_cube_loop-Added zero c s k h f = absurd (omega arith)
    add_cube_loop-Added (suc fuel) c s k h f = elim (Bool-cases (contains c s)) [
      | inl e ↦
          let r : add_cube_loop o (suc fuel) n c s ≡ some (erase c s) = ground arith in
          rw r (erased c s k h e)
      | inr e ↦ elim (round_cases c s) [
        | inl done ↦
            let r : add_cube_loop o (suc fuel) n c s ≡ some (insert o c s) = ground arith in
            rw r (inserted o c s k h e)
        | inr (d, other, g) ↦
            let r : add_cube_loop o (suc fuel) n c s
                ≡ add_cube_loop o fuel n (merge c d) (erase d s) =
              ground arith in
            let nb = find_neighbour-IsNeighbour n 0 c s d (omega arith) k h g in
            rw r (
              Returns-map _ _ _
                (add_cube_loop-Added fuel (merge c d) (erase d s)
                  (merge-IsCube k nb.cube le nb.var nb.below nb.differs) (erase-IsCubeSet d h)
                  (omega (arith, length-erase d s nb.held)))
                (λ s' a. merged c d s s' k h nb a))
      ]
    ]

-- `add_cube` returns, and the set it leaves is again a set of cubes, stands for the exclusive or
-- of the cube and the old set, and is at most one cube larger.
pub add_cube-Added :
    (o : HashOrder) (n : ℕ) (c : Cube32) (s : List Cube32)
    → n ≤ 32
    → IsCube n c
    → IsCubeSet n s
    → Returns (add_cube o n c s) (Added n c s)
unfolding add_cube
add_cube-Added o n c s le k h = add_cube_loop-Added le o (suc (length s)) c s k h (omega arith)

-- ===== src/Aig/Support.antt =====
-- The variables that no cube of the operands has a literal for, in the operations of the collapse.
use losys.Base.{
  ℕ, zero, suc, ◌+◌, ◌≤◌, ◌≡◌, ap, Bool, true, false, ◌==◌, Bool-cases, inl, inr, some,
  Option-cases, List, [], ◌∷◌, All, length, get_or, arith, bit, bit-xor, bit-and, bit-or, bit-zero,
  bit_and,
}
use losys.Kernel.Cube32.{
  rotate, Cube32, cube32_zero, cube32_one, eq, ne, conj, invert, merge, difference, n_lits,
}
use losys.Kernel.Cube32.Meaning.{IsCube, eq_self}
use losys.Kernel.Cube32.Conjunction.{conj_union}
use losys.Kernel.CubeSet.{HashOrder, find, contains, erase, insert}
use losys.Kernel.CubeSet.Laws.{IsCubes, All-erase, All-insert, All-find}
use losys.Aig.{
  find_neighbour, add_cube_loop, add_cube, complement, prepare_input, add_all, add_product, add_row,
  multiply,
}

-- No literal for the variable `j`.
abbrev pub IsFree : ℕ → Cube32 → Type 0
IsFree j c = bit c.mask j ≡ false

merge-IsFree : (j : ℕ) (c d : Cube32) → IsFree j c → IsFree j d → IsFree j (merge c d)
unfolding merge
merge-IsFree j c d hc hd =
    ground
      (arith, bit-xor c.mask (bit_and d.mask (difference c d)) j, bit-and d.mask (difference c d) j)

cube32_one-IsFree : (j : ℕ) → IsFree j cube32_one
cube32_one-IsFree j = bit-zero j

conj-IsFree :
    (n j : ℕ) (c d : Cube32)
    → n ≤ 32
    → IsCube n c
    → IsCube n d
    → IsFree j c
    → IsFree j d
    → ne (conj c d) cube32_zero ≡ true
    → IsFree j (conj c d)
unfolding ne
conj-IsFree n j c d le kc kd hc hd e = elim (conj_union c d n kc kd le) [
  | inl z ↦ absurd (ground (arith, e, ap (λ t. eq t cube32_zero) z, eq_self cube32_zero))
  | inr u ↦ rw u (ground (arith, bit-or c.mask d.mask j))
]

find_neighbour-IsFree :
    (j left i : ℕ) (c : Cube32) (s : List Cube32) (d : Cube32)
    → All (IsFree j) s
    → find_neighbour left i c s ≡ some d
    → IsFree j d
unfolding find_neighbour
find_neighbour-IsFree j zero i c s d h e = absurd (ground arith)
find_neighbour-IsFree j (suc left) i c s d h e = elim (Option-cases (find (rotate i c) s)) [
  | inr (x, f) ↦
      let same : x ≡ d = ground arith in All-find (IsFree j) (rotate i c) s d h (ground arith)
  | inl f ↦ elim (Option-cases (find (rotate i (rotate i c)) s)) [
    | inr (x, g) ↦
        let same : x ≡ d = ground arith in
        All-find (IsFree j) (rotate i (rotate i c)) s d h (ground arith)
    | inl g ↦ find_neighbour-IsFree j left (i + 1) c s d h (ground arith)
  ]
]

add_cube_loop-IsFree :
    (o : HashOrder) (j fuel n : ℕ) (c : Cube32) (s s' : List Cube32)
    → IsFree j c
    → All (IsFree j) s
    → add_cube_loop o fuel n c s ≡ some s'
    → All (IsFree j) s'
unfolding add_cube_loop
add_cube_loop-IsFree o j zero n c s s' k h e = absurd (ground arith)
add_cube_loop-IsFree o j (suc fuel) n c s s' k h e =
    let inserted : insert o c s ≡ s' → All (IsFree j) s' =
      λ q. rw (← q) (All-insert (IsFree j) o c s k h) in
    elim (Bool-cases (contains c s)) [
      | inl a ↦ let q : erase c s ≡ s' = ground arith in rw (← q) (All-erase (IsFree j) c s h)
      | inr a ↦ elim (Bool-cases (eq c cube32_one)) [
        | inl b ↦ inserted (ground arith)
        | inr b ↦ elim (Option-cases (find_neighbour n 0 c s)) [
          | inl f ↦ inserted (ground arith)
          | inr (d, f) ↦
              let kd = find_neighbour-IsFree j n 0 c s d h f in
              add_cube_loop-IsFree o j fuel n (merge c d) (erase d s) s' (merge-IsFree j c d k kd)
                (All-erase (IsFree j) d s h) (ground arith)
        ]
      ]
    ]

module _ (o : HashOrder) (n j : ℕ) where
  add_cube-IsFree :
      (c : Cube32) (s s' : List Cube32)
      → IsFree j c
      → All (IsFree j) s
      → add_cube o n c s ≡ some s'
      → All (IsFree j) s'
  unfolding add_cube
  add_cube-IsFree c s s' k h e = add_cube_loop-IsFree o j (suc (length s)) n c s s' k h e

  add_all-IsFree :
      (esop1 curr curr' : List Cube32)
      → All (IsFree j) esop1
      → All (IsFree j) curr
      → add_all o n esop1 curr ≡ some curr'
      → All (IsFree j) curr'
  unfolding add_all
  add_all-IsFree [] curr curr' h1 h e = let q : curr ≡ curr' = ground arith in rw (← q) h
  add_all-IsFree (c ∷ esop1) curr curr' (k, h1) h e = elim (Option-cases (add_cube o n c curr)) [
    | inl q ↦ absurd (ground arith)
    | inr (next, q) ↦
        add_all-IsFree esop1 next curr' h1 (add_cube-IsFree c curr next k h q) (ground arith)
  ]

  module _ (le : n ≤ 32) where
    add_product-IsFree :
        (c d : Cube32) (curr curr' : List Cube32)
        → IsCube n c
        → IsCube n d
        → IsFree j c
        → IsFree j d
        → All (IsFree j) curr
        → add_product o n c d curr ≡ some curr'
        → All (IsFree j) curr'
    unfolding add_product
    add_product-IsFree c d curr curr' kc kd hc hd h e = elim (Bool-cases (eq d cube32_one)) [
      | inl q ↦ add_cube-IsFree c curr curr' hc h (ground arith)
      | inr q ↦ elim (Bool-cases (ne (conj c d) cube32_zero)) [
        | inl r ↦
            add_cube-IsFree (conj c d) curr curr' (conj-IsFree n j c d le kc kd hc hd r) h
              (ground arith)
        | inr r ↦ let w : curr ≡ curr' = ground arith in rw (← w) h
      ]
    ]

    add_row-IsFree :
        (c : Cube32) (esop1 curr curr' : List Cube32)
        → IsCube n c
        → IsCubes n esop1
        → IsFree j c
        → All (IsFree j) esop1
        → All (IsFree j) curr
        → add_row o n c esop1 curr ≡ some curr'
        → All (IsFree j) curr'
    unfolding add_row
    add_row-IsFree c [] curr curr' kc ks hc hs h e =
        let q : curr ≡ curr' = ground arith in rw (← q) h
    add_row-IsFree c (d ∷ esop1) curr curr' kc (kd, ks) hc (hd, hs) h e =
        elim (Option-cases (add_product o n c d curr)) [
          | inl q ↦ absurd (ground arith)
          | inr (next, q) ↦
              add_row-IsFree c esop1 next curr' kc ks hc hs
                (add_product-IsFree c d curr next kc kd hc hd h q) (ground arith)
        ]

    pub multiply-IsFree :
        (esop0 esop1 curr curr' : List Cube32)
        → IsCubes n esop0
        → IsCubes n esop1
        → All (IsFree j) esop0
        → All (IsFree j) esop1
        → All (IsFree j) curr
        → multiply o n esop0 esop1 curr ≡ some curr'
        → All (IsFree j) curr'
    unfolding multiply
    multiply-IsFree [] esop1 curr curr' k0 k1 h0 h1 h e =
        let q : curr ≡ curr' = ground arith in rw (← q) h
    multiply-IsFree (c ∷ esop0) esop1 curr curr' (kc, k0) k1 (hc, h0) h1 h e =
        elim (Bool-cases (eq c cube32_one)) [
          | inl u ↦ elim (Option-cases (add_all o n esop1 curr)) [
            | inl q ↦ absurd (ground arith)
            | inr (next, q) ↦
                multiply-IsFree esop0 esop1 next curr' k0 k1 h0 h1
                  (add_all-IsFree esop1 curr next h1 h q) (ground arith)
          ]
          | inr u ↦ elim (Option-cases (add_row o n c esop1 curr)) [
            | inl q ↦ absurd (ground arith)
            | inr (next, q) ↦
                multiply-IsFree esop0 esop1 next curr' k0 k1 h0 h1
                  (add_row-IsFree c esop1 curr next kc k1 hc h1 h q) (ground arith)
          ]
        ]

complement-IsFree : (j : ℕ) (cs : List Cube32) → All (IsFree j) cs → All (IsFree j) (complement cs)
unfolding complement invert
complement-IsFree j [] h = (cube32_one-IsFree j, tt)
complement-IsFree j (c ∷ cs) (k, h) = elim (Bool-cases (eq c cube32_one)) [
  | inl e ↦ rw e h
  | inr e ↦ elim (Bool-cases (n_lits c == 1)) [
    | inl u ↦ rw (e, u) (k, h)
    | inr u ↦ rw (e, u) (cube32_one-IsFree j, (k, h))
  ]
]

pub prepare_input-IsFree :
    (j idx : ℕ) (cmpl : Bool) (m_esops : List (List Cube32))
    → All (IsFree j) (get_or m_esops idx [])
    → All (IsFree j) (prepare_input idx cmpl m_esops)
unfolding prepare_input
prepare_input-IsFree j idx true m_esops h = complement-IsFree j (get_or m_esops idx []) h
prepare_input-IsFree j idx false m_esops h = h

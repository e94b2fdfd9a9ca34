-- ===== src/Exorcism/Exorlink.antt =====
-- `exorlink` as a whole, and the tables of the source.
use losys.Exorcism.Table.{IsTable, flat}
use mathlib.Core.Path.{subst}
use losys.Base.{
  popcount, sym, ℕ, ◌≤◌, ◌≡◌, ◌∙◌, ap, Bool, ◌⊕◌, ⊕_comm, Bool-cases, inl, inr, List, map, length,
  arith, ltb, bit_ext,
}
use losys.Kernel.Cube32.{Cube32, difference, distance, value}
use losys.Kernel.Cube32.Meaning.{eval, IsCube}
use losys.Kernel.Cube32.Merge.{bit-difference, difference_word}
use losys.Kernel.CubeSet.Esop.{eval_esop}
use losys.Kernel.CubeSet.Laws.{IsCubes}
use losys.Exorcism.{link_cubes, other_literals, exorlink}
use losys.Exorcism.Positions.{IsPositions, positions}
use losys.Exorcism.Link.{literal}
use losys.Exorcism.LinkCubes.{
  eval_at, length-literals, same_rest, eval-link_cubes, link_cubes-IsCubes,
}

-- `k` cubes over the first `n` variables with the exclusive or of the two.
abbrev pub IsLink : ℕ → ℕ → Cube32 → Cube32 → List Cube32 → Type 0
IsLink n k c0 c1 cs =
    IsCubes n cs × (length cs ≡ k) × ((v : ℕ → Bool) → eval_esop cs v ≡ (eval c0 v ⊕ eval c1 v))

module _ {n : ℕ} {c0 c1 : Cube32} (k0 : IsCube n c0) (k1 : IsCube n c1) (le : n ≤ 32)
    (table : List (List ℕ)) where
  table_links :
      (js : List ℕ)
      → IsPositions (difference c0 c1) js
      → IsTable (length js) table
      → IsLink n (length js) c0 c1 (
          link_cubes
            (length js)
            (length js)
            (flat table)
            (difference c0 c1)
            c0
            c1
            (other_literals c0 c1))
  table_links js ps t =
      subst
        (λ m.
          IsLink n (length js) c0 c1
            (link_cubes m (length js) (flat table) (difference c0 c1) c0 c1 (other_literals c0 c1)))
        t.lines (made.0, made.1 ∙ t.lines, sums)
    where
      made :
          IsCubes n (
            link_cubes
              (length table)
              (length js)
              (flat table)
              (difference c0 c1)
              c0
              c1
              (other_literals c0 c1))
          × (length (
                link_cubes
                  (length table)
                  (length js)
                  (flat table)
                  (difference c0 c1)
                  c0
                  c1
                  (other_literals c0 c1))
              ≡ length table)
      made = link_cubes-IsCubes k0 k1 le js ps table t.widths

      sums :
          (v : ℕ → Bool)
          → eval_esop
              (link_cubes
                (length table)
                (length js)
                (flat table)
                (difference c0 c1)
                c0
                c1
                (other_literals c0 c1))
              v
            ≡ (eval c0 v ⊕ eval c1 v)
      sums v = ground (
        arith,
        eval-link_cubes k0 k1 le js ps table v t.widths,
        t.links (map (literal c0 v) js) (map (literal c1 v) js) (length-literals js (literal c0 v))
            (length-literals js (literal c1 v)),
        eval_at (difference c0 c1) js c0 v ps,
        eval_at (difference c0 c1) js c1 v ps,
        same_rest k0 k1 le js ps v,
      )

  pub link_cubes-IsLink :
      (k : ℕ)
      → distance c0 c1 ≡ k
      → IsTable k table
      → IsLink n k c0 c1
          (link_cubes k k (flat table) (difference c0 c1) c0 c1 (other_literals c0 c1))
  unfolding distance
  link_cubes-IsLink k e t =
      let (js, len, ps) = positions k (difference c0 c1) (difference_word k0 k1 le) e in
      subst
        (λ m.
          IsTable m table
          → IsLink n m c0 c1
              (link_cubes m m (flat table) (difference c0 c1) c0 c1 (other_literals c0 c1)))
        len (table_links js ps) t

pub difference_symm : (c d : Cube32) → difference c d ≡ difference d c
difference_symm c d = bit_ext _ _ λ i. ground (arith, bit-difference c d i, bit-difference d c i)

pub exorlink-IsLink :
    (n k : ℕ) (c0 c1 : Cube32) (table : List (List ℕ))
    → IsCube n c0
    → IsCube n c1
    → n ≤ 32
    → distance c0 c1 ≡ k
    → IsTable k table
    → IsLink n k c0 c1 (exorlink c0 c1 k (flat table))
unfolding exorlink distance
exorlink-IsLink n k c0 c1 table k0 k1 le e t = elim (Bool-cases (ltb (value c1) (value c0))) [
  | inl q ↦
      let s = difference_symm c0 c1 in
      let made = link_cubes-IsLink k1 k0 le table k (ap (popcount 32) (sym s) ∙ e) t in
      rw (q, s) (made.0, made.1, λ v. made.2 v ∙ ⊕_comm (eval c1 v) (eval c0 v))
  | inr q ↦ rw q (link_cubes-IsLink k0 k1 le table k e t)
]

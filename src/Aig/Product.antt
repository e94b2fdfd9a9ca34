-- ===== src/Aig/Product.antt =====
-- The loops of `compute_and`, and `prepare_input`, against the product and the complement of ESOPs.
use losys.Base.{
  ◌==◌, ==_iff, ◌+◌, ◌≤◌, not, ◌*◌, ◌^◌, ℕ, ◌≡◌, refl, ap, Bool, true, false, ◌&&◌, ◌⊕◌, Bool-cases,
  inl, inr, some, List, [], ◌∷◌, arith, Returns, Returns-map, Returns-bind, if◌then◌else◌,
}
use losys.Kernel.Cube32.{value, Cube32, cube32_one, cube32_zero, eq, ne, conj}
use losys.Kernel.Cube32.Meaning.{
  eval-cube32_one, cube32_one-IsCube, polarity_fits, eval, IsCube, eval-one, eq_self, IsCube-mono,
}
use losys.Kernel.Cube32.Conjunction.{conj_cases}
use losys.Kernel.CubeSet.{HashOrder}
use losys.Kernel.CubeSet.Esop.{eval_esop}
use losys.Kernel.CubeSet.Laws.{IsCubes, IsCubeSet}
use losys.Kernel.Cube32.Single.{invert_lem}
use losys.Aig.{
  n_lits, get_or, prepare_input, complement, add_all, add_product, add_row, multiply, add_cube,
}
use losys.Aig.AddCube.{Added, add_cube-Added}

-- From `s` to `s'` the function `f` was added.
pub record Summed (n : ℕ) (f : (ℕ → Bool) → Bool) (s s' : List Cube32) : Type 0 where
  pub is_set : IsCubeSet n s'
  pub sum : (v : ℕ → Bool) → eval_esop s' v ≡ (f v ⊕ eval_esop s v)

ne-zero : ne cube32_zero cube32_zero ≡ false
unfolding ne
ne-zero = ap not (eq_self cube32_zero)

-- A mark of the empty product is no cube of 31 variables.
IsCube-ne-zero : (c : Cube32) → IsCube 31 c → ne c cube32_zero ≡ true
unfolding ne eq value
IsCube-ne-zero c k = elim (Bool-cases (eq c cube32_zero)) [
  | inl e ↦
      let t : c.mask * 2 ^ 32 + c.polarity ≡ 0xFFFFFFFF * 2 ^ 32 + 0 = (==_iff _ _).0 e in
      absurd (omega (arith, k.fits, polarity_fits k))
  | inr e ↦ ap not e
]

module _ (o : HashOrder) where
  add_all-Summed :
      (n : ℕ) (cs s : List Cube32)
      → n ≤ 32
      → IsCubes n cs
      → IsCubeSet n s
      → Returns (add_all o n cs s) (Summed n (eval_esop cs) s)
  unfolding add_all eval_esop
  add_all-Summed n [] s le ks h = record { is_set = h; sum = λ v. refl }
  add_all-Summed n (c ∷ cs) s le ks h =
      Returns-bind (add_cube o n c s) (add_all o n cs) (Added n c s) _
        (add_cube-Added o n c s le ks.0 h)
        λ t a.
          Returns-map (add_all o n cs t) (Summed n (eval_esop cs) t) _
            (add_all-Summed n cs t le ks.1 a.is_set)
            λ s' b. record { is_set = b.is_set; sum = λ v. ground (arith, a.sum v, b.sum v) }

  module _ (n : ℕ) (le : n ≤ 31) (c : Cube32) (k : IsCube n c) where
    add_product-Summed :
        (d : Cube32) (s : List Cube32)
        → IsCube n d
        → IsCubeSet n s
        → Returns (add_product o n c d s) (Summed n (λ v. eval c v && eval d v) s)
    unfolding add_product
    add_product-Summed d s kd h = elim (Bool-cases (eq d cube32_one)) [
      | inl e ↦
          let r : add_product o n c d s ≡ add_cube o n c s = ground arith in
          rw r (
            Returns-map (add_cube o n c s) (Added n c s) (Summed n (λ v. eval c v && eval d v) s)
              (add_cube-Added o n c s (omega arith) k h)
              λ s' a. record {
                is_set = a.is_set;
                sum = λ v. ground (arith, a.sum v, eval-one d v kd (omega arith) e);
              })
      | inr e ↦ elim (conj_cases c d n k kd (omega arith)) [
        | inl (_, z, empty) ↦
            let r : add_product o n c d s ≡ some s =
              ground
                (arith, z, eq_self cube32_zero, ap (λ (t : Cube32). ne t cube32_zero) z, ne-zero) in
            rw r (record { is_set = h; sum = λ v. ground (arith, empty v) })
        | inr (_, kp, ep) ↦
            let r : add_product o n c d s ≡ add_cube o n (conj c d) s =
              ground (arith, IsCube-ne-zero (conj c d) (IsCube-mono le kp)) in
            rw r (
              Returns-map (add_cube o n (conj c d) s) (Added n (conj c d) s)
                (Summed n (λ v. eval c v && eval d v) s)
                (add_cube-Added o n (conj c d) s (omega arith) kp h)
                λ s' a. record { is_set = a.is_set; sum = λ v. ground (arith, a.sum v, ep v) })
      ]
    ]

    add_row-Summed :
        (ds s : List Cube32)
        → IsCubes n ds
        → IsCubeSet n s
        → Returns (add_row o n c ds s) (Summed n (λ v. eval c v && eval_esop ds v) s)
    unfolding add_row eval_esop
    add_row-Summed [] s ks h = record { is_set = h; sum = λ v. ground arith }
    add_row-Summed (d ∷ ds) s ks h =
        Returns-bind (add_product o n c d s) (add_row o n c ds)
          (Summed n (λ v. eval c v && eval d v) s) _ (add_product-Summed d s ks.0 h)
          λ t a.
            Returns-map (add_row o n c ds t) (Summed n (λ v. eval c v && eval_esop ds v) t) _
              (add_row-Summed ds t ks.1 a.is_set)
              λ s' b. record { is_set = b.is_set; sum = λ v. ground (arith, a.sum v, b.sum v) }

  -- With at most 31 variables the product of the two sums is added.
  pub multiply-Summed :
      (n : ℕ) (cs ds s : List Cube32)
      → n ≤ 31
      → IsCubes n cs
      → IsCubes n ds
      → IsCubeSet n s
      → Returns (multiply o n cs ds s) (Summed n (λ v. eval_esop cs v && eval_esop ds v) s)
  unfolding multiply eval_esop
  multiply-Summed n [] ds s le ks js h = record { is_set = h; sum = λ v. refl }
  multiply-Summed n (c ∷ cs) ds s le ks js h =
      Returns-bind (if eq c cube32_one then add_all o n ds s else add_row o n c ds s)
        (multiply o n cs ds) (Summed n (λ v. eval c v && eval_esop ds v) s) _ first
        λ t a.
          Returns-map (multiply o n cs ds t) (Summed n (λ v. eval_esop cs v && eval_esop ds v) t) _
            (multiply-Summed n cs ds t le ks.1 js a.is_set)
            λ s' b. record { is_set = b.is_set; sum = λ v. ground (arith, a.sum v, b.sum v) }
    where
      first :
          Returns
            (if eq c cube32_one then add_all o n ds s else add_row o n c ds s)
            (Summed n (λ v. eval c v && eval_esop ds v) s)
      first = elim (Bool-cases (eq c cube32_one)) [
        | inl e ↦ rw e (
            Returns-map (add_all o n ds s) (Summed n (eval_esop ds) s)
              (Summed n (λ v. eval c v && eval_esop ds v) s)
              (add_all-Summed n ds s (omega arith) js h)
              λ s' a. record {
                is_set = a.is_set;
                sum = λ v. ground (arith, a.sum v, eval-one c v ks.0 (omega arith) e);
              })
        | inr e ↦ rw e (add_row-Summed n le c ks.0 ds s js h)
      ]

module _ (n : ℕ) (le : n ≤ 32) where
  complement-IsCubes :
      (cs : List Cube32)
      → IsCubes n cs
      → IsCubes n (complement cs)
        × ((v : ℕ → Bool) → eval_esop (complement cs) v ≡ not (eval_esop cs v))
  unfolding complement eval_esop
  complement-IsCubes [] ks = ((cube32_one-IsCube n, tt), λ v. ground (arith, eval-cube32_one v))
  complement-IsCubes (c ∷ cs) ks = elim (Bool-cases (eq c cube32_one)) [
    | inl e ↦ rw e (ks.1, λ v. ground (arith, eval-one c v ks.0 le e))
    | inr e ↦ rw e (elim (Bool-cases (n_lits c == 1)) [
      | inl q ↦
          let (k, inverse) = invert_lem c n ks.0 le ((==_iff _ _).0 q) in
          rw q ((k, ks.1), λ v. ground (arith, inverse v))
      | inr q ↦ rw q ((cube32_one-IsCube n, ks), λ v. ground (arith, eval-cube32_one v))
    ])
  ]

  -- `prepare_input` reads a node's ESOP, complemented if the edge is.
  pub prepare_input-IsCubes :
      (idx : ℕ) (cmpl : Bool) (m_esops : List (List Cube32))
      → IsCubes n (get_or m_esops idx [])
      → IsCubes n (prepare_input idx cmpl m_esops)
        × ((v : ℕ → Bool)
            → eval_esop (prepare_input idx cmpl m_esops) v
              ≡ (cmpl ⊕ eval_esop (get_or m_esops idx []) v))
  unfolding prepare_input
  prepare_input-IsCubes idx true m_esops ks = complement-IsCubes (get_or m_esops idx []) ks
  prepare_input-IsCubes idx false m_esops ks = (ks, λ v. refl)

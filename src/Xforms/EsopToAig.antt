-- ===== src/Xforms/EsopToAig.antt =====
-- `esop_to_aig`: the outputs of the AIG against the exclusive sums of their cubes.
use mathlib.Core.List.{append_assoc, append-nil}
use losys.Kernel.TwoLvl32.Text.{zero_test, one_bit, shifted_bit}
use losys.Kernel.TwoLvl32.{TwoLvl32}
use losys.Kernel.CubeSet.Laws.{IsCubes}
use losys.Kernel.CubeSet.Esop.{eval_esop}
use losys.Xforms.{
  GiaOps, and_literals, cube_to_aig, xor_cubes, output_to_aig, outputs_to_aig, esop_to_aig,
  append_cis,
}
use losys.Xforms.Builder.{
  IsBuilder, IsAbc, Grows, HasInputs, Grows-trans, Grows-refl, HasInputs-Grows,
}
use native.Mathlib.Nat.{add-zero}
use losys.Base.{
  inr, inl, Bool-cases, not, ap, sym, ◌∙◌, ◌==◌, ◌⊕◌, ◌++◌, map, All, ◌/◌, ◌^◌, bit_and, List, [],
  ◌∷◌, ℕ, zero, suc, ◌+◌, ◌-◌, ◌≤◌, ◌≡◌, refl, Bool, true, ◌&&◌, arith, bit, prod,
}
use losys.Kernel.Cube32.{cube32_one, eq, ne, shl32, Cube32}
use losys.Kernel.Cube32.Meaning.{bit-shl32-one, eval-one, lit, eval, IsCube, mask_above}

-- The factors from `k` on, in the order in which the code takes them.
abbrev prod_from : ℕ → ℕ → (ℕ → Bool) → Bool
prod_from zero k f = true
prod_from (suc left) k f = f k && prod_from left (k + 1) f

prod-split : (left k : ℕ) (f : ℕ → Bool) → prod (k + left) f ≡ (prod_from left k f && prod k f)
unfolding prod
prod-split zero k f = rw (add-zero k) refl
prod-split (suc left) k f =
    let e : k + suc left ≡ (k + 1) + left = omega arith in
    let s : k + 1 ≡ suc k = omega arith in
    ap (λ (x : ℕ). prod x f) e
    ∙ prod-split left (k + 1) f
    ∙ (ground (arith, ap (λ (x : ℕ). prod x f) s))

abbrev literal_at : Cube32 → (ℕ → Bool) → ℕ → Bool
literal_at c v i = lit (bit c.mask i) (bit c.polarity i) (v i)

eval-prod_from :
    (n : ℕ) (c : Cube32) (v : ℕ → Bool)
    → IsCube n c
    → n ≤ 32
    → eval c v ≡ prod_from n 0 (literal_at c v)
unfolding eval
eval-prod_from n c v k le =
    let f = literal_at c v in
    let e : 32 ≡ n + (32 - n) = omega arith in
    let above : prod_from (32 - n) n f ≡ true = rest_true (32 - n) n (omega arith) in
    ap (λ (x : ℕ). prod x f) e
    ∙ ground (arith, prod-split (32 - n) n f, above, prod-split n 0 f, zero_prod)
  where
    rest_true : (left i : ℕ) → n ≤ i → prod_from left i (literal_at c v) ≡ true
    rest_true zero i h = refl
    rest_true (suc left) i h =
        ground (arith, mask_above k i h, rest_true left (i + 1) (omega arith))

    zero_prod : prod 0 (literal_at c v) ≡ true
    zero_prod = unfold prod in refl

-- The manager has grown to compute `f`, with the same outputs.
record Built {abc : GiaOps} (b : IsBuilder abc) (aig : abc.Gia) (f : (ℕ → Bool) → Bool)
    (r : abc.Gia × ℕ) : Type 0 where
  grows : Grows b aig r.0
  is_lit : b.IsLit r.0 r.1
  value : (v : ℕ → Bool) → b.value r.0 r.1 v ≡ f v
  outputs : (v : ℕ → Bool) → b.outputs r.0 v ≡ b.outputs aig v

module _ {abc : GiaOps} (b : IsBuilder abc) (laws : IsAbc b) {n : ℕ} (le : n ≤ 32) where
  -- A step to a manager that has grown.
  Built-after :
      (aig mid : abc.Gia) (f g : (ℕ → Bool) → Bool) (r : abc.Gia × ℕ)
      → Grows b aig mid
      → ((v : ℕ → Bool) → b.outputs mid v ≡ b.outputs aig v)
      → ((v : ℕ → Bool) → f v ≡ g v)
      → Built b mid f r
      → Built b aig g r
  Built-after aig mid f g r h same e t = record {
    grows = Grows-trans h t.grows;
    is_lit = t.is_lit;
    value = λ v. t.value v ∙ e v;
    outputs = λ v. t.outputs v ∙ same v;
  }

  and_literals-Built :
      (left k : ℕ) (c : Cube32) (aig : abc.Gia) (and_idx : ℕ)
      → k + left ≡ n
      → HasInputs b n aig
      → b.IsLit aig and_idx
      → Built b aig
          (λ v. b.value aig and_idx v && prod_from left k (literal_at c v))
          (and_literals abc left k c aig and_idx)
  unfolding and_literals
  and_literals-Built zero k c aig x e h l = record {
    grows = Grows-refl aig;
    is_lit = l;
    value = λ v. ground arith;
    outputs = λ v. refl;
  }
  and_literals-Built (suc left) k c aig x e h l =
      let mask = zero_test c.mask (shl32 1 k) k (λ j. bit-shl32-one k j (omega arith)) in
      let neg = zero_test (c.polarity / 2 ^ k) 1 0 one_bit ∙ ap not (shifted_bit c.polarity k) in
      elim (Bool-cases (bit_and c.mask (shl32 1 k) == 0)) [
        | inl q ↦ rw q (
            Built-after aig aig _ _ _ (Grows-refl aig) (λ v. refl) (λ v. ground (arith, mask))
              (and_literals-Built left (k + 1) c aig x (omega arith) h l))
        | inr q ↦
            let s = bit_and (c.polarity / 2 ^ k) 1 == 0 in
            let y = abc.var_to_lit k s + 2 in
            let ly = h.ci_lit k s (omega arith) in
            let g = laws.and_grows aig x y l ly in
            rw q (
              Built-after aig (abc.hash_and aig x y).0 _ _ _ g (laws.and_outputs aig x y)
                (λ v.
                  ground (
                    arith,
                    mask,
                    neg,
                    laws.and_value aig x y v l ly,
                    h.ci_value k s v (omega arith),
                  ))
                (and_literals-Built left (k + 1) c (abc.hash_and aig x y).0 (abc.hash_and aig x y).1
                  (omega arith) (HasInputs-Grows g h) (laws.and_lit aig x y l ly)))
      ]

  cube_to_aig-Built :
      (c : Cube32) (aig : abc.Gia)
      → IsCube n c
      → HasInputs b n aig
      → Built b aig (eval c) (cube_to_aig abc n c aig)
  unfolding cube_to_aig ne
  cube_to_aig-Built c aig k h = elim (Bool-cases (eq c cube32_one)) [
    | inl q ↦ rw q (record {
      grows = Grows-refl aig;
      is_lit = h.one_lit;
      value = λ v. h.one_value v ∙ sym (eval-one c v k le q);
      outputs = λ v. refl;
    })
    | inr q ↦ rw q (
        Built-after aig aig _ _ _ (Grows-refl aig) (λ v. refl)
          (λ v. ground (arith, h.one_value v, eval-prod_from n c v k le))
          (and_literals-Built n 0 c aig 1 (omega arith) h h.one_lit))
  ]

  xor_cubes-Built :
      (cs : List Cube32) (aig : abc.Gia) (root : ℕ)
      → IsCubes n cs
      → HasInputs b n aig
      → b.IsLit aig root
      → Built b aig (λ v. b.value aig root v ⊕ eval_esop cs v) (xor_cubes abc n cs aig root)
  unfolding xor_cubes eval_esop
  xor_cubes-Built [] aig root ks h l = record {
    grows = Grows-refl aig;
    is_lit = l;
    value = λ v. ground arith;
    outputs = λ v. refl;
  }
  xor_cubes-Built (c ∷ cs) aig root ks h l =
      let r = cube_to_aig abc n c aig in
      let t = cube_to_aig-Built c aig ks.0 h in
      let lr = t.grows.lits root l in
      let g = laws.xor_grows r.0 root r.1 lr t.is_lit in
      Built-after aig (abc.hash_xor r.0 root r.1).0 _ _ _ (Grows-trans t.grows g)
        (λ v. laws.xor_outputs r.0 root r.1 v ∙ t.outputs v)
        (λ v.
          ground
            (arith, laws.xor_value r.0 root r.1 v lr t.is_lit, t.value v, t.grows.values root v l))
        (xor_cubes-Built cs (abc.hash_xor r.0 root r.1).0 (abc.hash_xor r.0 root r.1).1 ks.1
          (HasInputs-Grows (Grows-trans t.grows g) h) (laws.xor_lit r.0 root r.1 lr t.is_lit))

  output_to_aig-Appends :
      (cs : List Cube32) (aig : abc.Gia)
      → IsCubes n cs
      → HasInputs b n aig
      → Grows b aig (output_to_aig abc n cs aig)
        × ((v : ℕ → Bool)
            → b.outputs (output_to_aig abc n cs aig) v ≡ b.outputs aig v ++ eval_esop cs v ∷ [])
  unfolding output_to_aig
  output_to_aig-Appends [] aig ks h = (
    laws.co_grows aig 0,
    λ v.
        unfold eval_esop in
        (laws.co_outputs aig 0 v ∙ ap (λ x. b.outputs aig v ++ x ∷ []) (h.zero_value v)),
  )
  output_to_aig-Appends (c ∷ cs) aig ks h =
      let r = xor_cubes abc n (c ∷ cs) aig 0 in
      let t = xor_cubes-Built (c ∷ cs) aig 0 ks h h.zero_lit in
      (
        Grows-trans t.grows (laws.co_grows r.0 r.1),
        λ v.
            let e : b.value r.0 r.1 v ≡ eval_esop (c ∷ cs) v =
              ground (arith, t.value v, h.zero_value v) in
            laws.co_outputs r.0 r.1 v
            ∙ ap (λ x. b.outputs r.0 v ++ x ∷ []) e
            ∙ ap (λ xs. xs ++ eval_esop (c ∷ cs) v ∷ []) (t.outputs v),
      )

  outputs_to_aig-Appends :
      (es : List (List Cube32)) (aig : abc.Gia) (v : ℕ → Bool)
      → All (IsCubes n) es
      → HasInputs b n aig
      → b.outputs (outputs_to_aig abc n es aig) v ≡ b.outputs aig v ++ map (λ e. eval_esop e v) es
  unfolding outputs_to_aig
  outputs_to_aig-Appends [] aig v ks h = sym (append-nil (b.outputs aig v))
  outputs_to_aig-Appends (e ∷ es) aig v ks h =
      let s = output_to_aig-Appends e aig ks.0 h in
      outputs_to_aig-Appends es (output_to_aig abc n e aig) v ks.1 (HasInputs-Grows s.0 h)
      ∙ ap (λ xs. xs ++ map (λ e'. eval_esop e' v) es) (s.1 v)
      ∙ append_assoc (b.outputs aig v) (eval_esop e v ∷ []) (map (λ e'. eval_esop e' v) es)

-- With ABC's promises kept, the outputs of `esop_to_aig` compute the exclusive sums of a function
-- whose cubes are over its inputs, at most 32.
pub esop_to_aig-outputs :
    (abc : GiaOps) (b : IsBuilder abc) (f : TwoLvl32) (v : ℕ → Bool)
    → IsAbc b
    → f.n_inputs ≤ 32
    → All (IsCubes f.n_inputs) f.cubes
    → b.outputs (esop_to_aig abc f) v ≡ map (λ e. eval_esop e v) f.cubes
unfolding esop_to_aig
esop_to_aig-outputs abc b f v laws le ks =
    let n = f.n_inputs in
    let aig = append_cis abc n (abc.hash_alloc (abc.start 128)) in
    laws.cleanup_outputs (outputs_to_aig abc n f.cubes aig) v
    ∙ outputs_to_aig-Appends b laws le f.cubes aig v ks (laws.inputs n)
    ∙ ap (λ xs. xs ++ map (λ e. eval_esop e v) f.cubes) (laws.no_outputs n v)

-- ===== src/Xforms/Examples.antt =====
-- A manager that keeps what its nodes compute, and the theorem about `esop_to_aig` at it.
use mathlib.Core.Path.{subst}
use native.Mathlib.Nat.{zero-add}
use losys.Base.{
  zero, suc, Bool-cases, inl, inr, length-append, ==_iff, ap, sym, ◌∙◌, ◌<◌, map, if◌then◌else◌,
  ◌&&◌, ℕ, ◌+◌, ◌/◌, ◌%◌, ◌≡◌, refl, Bool, true, false, ◌⊕◌, ◌==◌, List, [], ◌∷◌, ◌++◌, arith,
  length, get_or,
}
use losys.Kernel.Cube32.{cube32}
use losys.Kernel.Cube32.Meaning.{IsCube-by}
use losys.Kernel.CubeSet.Esop.{eval_esop}
use losys.Kernel.TwoLvl32.{Kind, TwoLvl32}
use losys.Xforms.{GiaOps, append_cis, esop_to_aig}
use losys.Xforms.Builder.{HasInputs, IsAbc, Grows, IsBuilder}
use losys.Xforms.EsopToAig.{esop_to_aig-outputs}

record Nodes : Type 0 where
  cis : ℕ
  nodes : List ((ℕ → Bool) → Bool)
  outs : List ((ℕ → Bool) → Bool)

abbrev constant : (ℕ → Bool) → Bool
constant v = false

abbrev lit_value : Nodes → ℕ → (ℕ → Bool) → Bool
lit_value s x v = (x % 2 == 1) ⊕ get_or s.nodes (x / 2) constant v

abbrev add_node : Nodes → ((ℕ → Bool) → Bool) → Nodes
add_node s f = record s { nodes = s.nodes ++ f ∷ [] }

abbrev node_ops : GiaOps
node_ops = record {
  Gia = Nodes;
  start = λ k. record { cis = 0; nodes = constant ∷ []; outs = [] };
  hash_alloc = λ s. s;
  append_ci = λ s. record s { cis = suc s.cis; nodes = s.nodes ++ (λ v. v s.cis) ∷ [] };
  append_co = λ s x. record s { outs = s.outs ++ lit_value s x ∷ [] };
  hash_and = λ s x y.
      (add_node s (λ v. lit_value s x v && lit_value s y v), length s.nodes + length s.nodes);
  hash_xor = λ s x y.
      (add_node s (λ v. lit_value s x v ⊕ lit_value s y v), length s.nodes + length s.nodes);
  var_to_lit = λ k c. k + k + (if c then 1 else 0);
  cleanup = λ s. s;
}

abbrev node_builder : IsBuilder node_ops
node_builder = record {
  IsLit = λ s x. x / 2 < length s.nodes;
  value = lit_value;
  outputs = λ s v. map (λ f. f v) s.outs;
}

get_or-front :
    {A : Type 0} (xs ys : List A) (i : ℕ) (d : A)
    → i < length xs
    → get_or (xs ++ ys) i d ≡ get_or xs i d
get_or-front [] ys i d h = absurd (omega arith)
get_or-front (x ∷ xs) ys zero d h = refl
get_or-front (x ∷ xs) ys (suc i) d h = get_or-front xs ys i d (omega arith)

get_or-last :
    {A : Type 0} (xs : List A) (y d : A) (i : ℕ) → i ≡ length xs → get_or (xs ++ y ∷ []) i d ≡ y
get_or-last [] y d zero h = refl
get_or-last [] y d (suc i) h = absurd (omega arith)
get_or-last (x ∷ xs) y d zero h = absurd (omega arith)
get_or-last (x ∷ xs) y d (suc i) h = get_or-last xs y d i (omega arith)

add_node-Grows : (s : Nodes) (f : (ℕ → Bool) → Bool) → Grows node_builder s (add_node s f)
add_node-Grows s f = record {
  lits = λ x l. omega (arith, length-append s.nodes (f ∷ []));
  values = λ x v l.
      ap (λ (g : (ℕ → Bool) → Bool). (x % 2 == 1) ⊕ g v)
        (get_or-front s.nodes (f ∷ []) (x / 2) constant l);
}

add_node-value :
    (s : Nodes) (f : (ℕ → Bool) → Bool) (v : ℕ → Bool)
    → lit_value (add_node s f) (length s.nodes + length s.nodes) v ≡ f v
add_node-value s f v =
    let half : (length s.nodes + length s.nodes) / 2 ≡ length s.nodes = omega arith in
    let even : ((length s.nodes + length s.nodes) % 2 == 1) ≡ false = ground arith in
    let last = get_or-last s.nodes f constant _ half in rw (even, last) refl

new_lit :
    (s : Nodes) (f : (ℕ → Bool) → Bool)
    → (length s.nodes + length s.nodes) / 2 < length (s.nodes ++ f ∷ [])
new_lit s f = omega (arith, length-append s.nodes (f ∷ []))

map_append :
    {A : Type 0} (g : A → Bool) (xs : List A) (y : A) → map g (xs ++ y ∷ []) ≡ map g xs ++ g y ∷ []
map_append g [] y = refl
map_append g (x ∷ xs) y = ap (λ ys. g x ∷ ys) (map_append g xs y)

-- The inputs `0` to `k - 1` and nothing else.
record IsInputs (k : ℕ) (s : Nodes) : Type 0 where
  count : s.cis ≡ k
  size : length s.nodes ≡ suc k
  first : get_or s.nodes 0 constant ≡ constant
  rest : (j : ℕ) → j < k → get_or s.nodes (suc j) constant ≡ (λ v. v j)
  no_outs : s.outs ≡ []

abbrev input : ℕ → (ℕ → Bool) → Bool
input i v = v i

append_ci-IsInputs : (k : ℕ) (s : Nodes) → IsInputs k s → IsInputs (suc k) (node_ops.append_ci s)
append_ci-IsInputs k s h = record {
  count = ap suc h.count;
  size = omega (arith, length-append s.nodes ((λ v. v s.cis) ∷ []), h.size);
  first = get_or-front s.nodes _ 0 constant (omega (arith, h.size)) ∙ h.first;
  rest = λ j lt. elim (Bool-cases (j == k)) [
    | inl e ↦
        let w = (==_iff j k).0 e in
        get_or-last s.nodes _ constant (suc j) (omega (arith, h.size)) ∙ ap input (h.count ∙ sym w)
    | inr e ↦
        get_or-front s.nodes _ (suc j) constant (omega (arith, h.size, below j lt e))
        ∙ h.rest j (below j lt e)
  ];
  no_outs = h.no_outs;
}
  where
    below : (j : ℕ) → j < suc k → (j == k) ≡ false → j < k
    below j lt e = ground arith

append_cis-IsInputs :
    (n k : ℕ) (s : Nodes) → IsInputs k s → IsInputs (n + k) (append_cis node_ops n s)
unfolding append_cis
append_cis-IsInputs zero k s h = rw (zero-add k) h
append_cis-IsInputs (suc n) k s h =
    let e : suc n + k ≡ n + suc k = omega arith in
    rw e (append_cis-IsInputs n (suc k) (node_ops.append_ci s) (append_ci-IsInputs k s h))

abbrev filled : ℕ → Nodes
filled n = append_cis node_ops n (node_ops.hash_alloc (node_ops.start 128))

filled-IsInputs : (n : ℕ) → IsInputs n (filled n)
filled-IsInputs n =
    let e : n + 0 ≡ n = omega arith in
    subst (λ k. IsInputs k (filled n)) e
      (append_cis-IsInputs n 0 (node_ops.start 128) (record {
        count = refl;
        size = refl;
        first = refl;
        rest = λ j lt. absurd (omega arith);
        no_outs = refl;
      }))

ci_half : (k : ℕ) (c : Bool) → (k + k + (if c then 1 else 0) + 2) / 2 ≡ suc k
ci_half k true = omega arith
ci_half k false = omega arith

ci_odd : (k : ℕ) (c : Bool) → ((k + k + (if c then 1 else 0) + 2) % 2 == 1) ≡ c
ci_odd k true = ground arith
ci_odd k false = ground arith

filled-HasInputs : (n : ℕ) → HasInputs node_builder n (filled n)
filled-HasInputs n =
    let h = filled-IsInputs n in
    record {
      zero_lit = omega (arith, h.size);
      zero_value = λ v. ap (λ (f : (ℕ → Bool) → Bool). f v) h.first;
      one_lit = omega (arith, h.size);
      one_value = λ v. ap (λ (f : (ℕ → Bool) → Bool). true ⊕ f v) h.first;
      ci_lit = λ k c lt. omega (arith, h.size, ci_half k c);
      ci_value = λ k c v lt. rw (ci_odd k c, ci_half k c, h.rest k lt) refl;
    }

node_builder-IsAbc : IsAbc node_builder
node_builder-IsAbc = record {
  inputs = filled-HasInputs;
  no_outputs =
      λ n v. ap (λ (fs : List ((ℕ → Bool) → Bool)). map (λ f. f v) fs) (filled-IsInputs n).no_outs;
  and_grows = λ s x y a b. add_node-Grows s _;
  and_lit = λ s x y a b. new_lit s _;
  and_value = λ s x y v a b. add_node-value s _ v;
  and_outputs = λ s x y v. refl;
  xor_grows = λ s x y a b. add_node-Grows s _;
  xor_lit = λ s x y a b. new_lit s _;
  xor_value = λ s x y v a b. add_node-value s _ v;
  xor_outputs = λ s x y v. refl;
  co_grows = λ s x. record { lits = λ y l. l; values = λ y v l. refl };
  co_outputs = λ s x v. map_append (λ f. f v) s.outs (lit_value s x);
  cleanup_outputs = λ s v. refl;
}

-- x0 x1' and the constant 1 over two inputs, and an output without cubes.
abbrev two_cubes : TwoLvl32
two_cubes = record {
  kind = Kind.esop;
  n_inputs = 2;
  cubes = (cube32 3 1 ∷ cube32 0 0 ∷ []) ∷ [] ∷ [];
}

esop_to_aig-outputs_example :
    node_builder.outputs (esop_to_aig node_ops two_cubes) (λ i. i == 0)
    ≡ map (λ e. eval_esop e (λ i. i == 0)) two_cubes.cubes
esop_to_aig-outputs_example =
    esop_to_aig-outputs node_ops node_builder two_cubes (λ i. i == 0) node_builder-IsAbc
      (omega arith)
      (
        (
          IsCube-by 2 (cube32 3 1) (omega arith) refl,
          (IsCube-by 2 (cube32 0 0) (omega arith) refl, tt),
        ),
        (tt, tt),
      )

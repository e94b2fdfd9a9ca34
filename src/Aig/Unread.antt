-- ===== src/Aig/Unread.antt =====
-- The inputs that no gate and no output of the AIG reads, in the collapse.
use mathlib.Core.Path.{subst}
use losys.Base.{
  get_or-set_ne, ℕ, suc, ◌+◌, ◌≤◌, ◌<◌, ◌≡◌, ap, ◌∙◌, Bool, false, ◌||◌, ◌==◌, ==_iff, ==_self,
  Bool-cases, inl, inr, some, Option-cases, Returns, Returns-bind, Returns-known, List, [], ◌∷◌,
  ◌++◌, All, All-append, length, get_or, set, replicate, get_or-replicate, get_or-set_either, arith,
}
use losys.Kernel.Cube32.{Cube32, cube32, shl32}
use losys.Kernel.Cube32.Meaning.{bit-shl32-one}
use losys.Kernel.CubeSet.{HashOrder}
use losys.Kernel.CubeSet.Laws.{IsCubes}
use losys.Aig.{
  AndNode, Output, Gia, AigExtrMngr, is_empty, multiply, compute_and, and_step, and_esops,
  input_esops, output_esops, run,
}
use losys.Aig.Product.{prepare_input-IsCubes}
use losys.Aig.Nodes.{NodesHold, IsOrdered, Obeys, mark, and_step-NodesHold}
use losys.Aig.Simulate.{simulate, simulate-Obeys}
use losys.Aig.Correct.{IsAig, start-NodesHold}
use losys.Aig.Support.{IsFree, multiply-IsFree, prepare_input-IsFree}

-- The object of the `j`-th input.
abbrev pub input_id : Gia → ℕ → ℕ
input_id aig j = get_or aig.ci_ids j 0

abbrev pub IsUnreadBy : ℕ → AndNode → Type 0
IsUnreadBy cid a = ((cid == a.fanin0) ≡ false) × ((cid == a.fanin1) ≡ false)

-- No gate and no output reads the `j`-th input.
pub record IsUnread (aig : Gia) (j : ℕ) : Type 0 where
  pub gates : All (IsUnreadBy (input_id aig j)) aig.ands
  pub outputs : All (λ (c : Output). (input_id aig j == c.fanin) ≡ false) aig.cos

-- The cubes of all nodes but the object `cid` are free of the variable `j`.
record Frees (cid j : ℕ) (m : AigExtrMngr) : Type 0 where
  nodes : (id : ℕ) → (cid == id) ≡ false → All (IsFree j) (get_or m.m_esops id [])
  scratch : All (IsFree j) m.m_curr_esop

module _ (o : HashOrder) (n cid j : ℕ) (le : n ≤ 31) where
  compute_and-Frees :
      (index : ℕ) (m m' : AigExtrMngr)
      → IsCubes n m.m_esop0
      → IsCubes n m.m_esop1
      → All (IsFree j) m.m_esop0
      → All (IsFree j) m.m_esop1
      → Frees cid j m
      → compute_and o n index m ≡ some m'
      → Frees cid j m'
  unfolding compute_and
  compute_and-Frees index m m' k0 k1 h0 h1 h e =
      elim (Bool-cases (is_empty m.m_esop0 || is_empty m.m_esop1)) [
        | inl q ↦ let w : m ≡ m' = ground arith in subst (Frees cid j) w h
        | inr q ↦ elim (Option-cases (multiply o n m.m_esop0 m.m_esop1 m.m_curr_esop)) [
          | inl r ↦ absurd (ground arith)
          | inr (curr, r) ↦
              let ks =
                multiply-IsFree o n j (omega arith) m.m_esop0 m.m_esop1 m.m_curr_esop curr k0 k1 h0
                  h1 h.scratch r in
              let next : AigExtrMngr = record m {
                m_esops = set m.m_esops index (get_or m.m_esops index [] ++ curr);
                m_curr_esop = [];
              } in
              let w : next ≡ m' = ground arith in
              subst (Frees cid j) w (record {
                nodes = λ id ne. elim (Bool-cases (index == id)) [
                  | inl s ↦
                      let same : index ≡ id = (==_iff index id).0 s in
                      let old = h.nodes index (ground (arith, ne, ap (λ i. cid == i) same)) in
                      get_or-set_either (All (IsFree j)) m.m_esops index id
                        (get_or m.m_esops index [] ++ curr) [] (h.nodes id ne)
                        (All-append (IsFree j) (get_or m.m_esops index []) curr old ks)
                  | inr s ↦
                      rw (get_or-set_ne m.m_esops index id (get_or m.m_esops index [] ++ curr) [] s)
                        (h.nodes id ne)
                ];
                scratch = tt;
              })
        ]
      ]

  and_step-Frees :
      (n_objs : ℕ) (ready val v : ℕ → Bool) (a : AndNode) (m m' : AigExtrMngr)
      → NodesHold n n_objs ready val v m
      → Frees cid j m
      → IsUnreadBy cid a
      → and_step o n a m ≡ some m'
      → Frees cid j m'
  unfolding and_step
  and_step-Frees n_objs ready val v a m m' hold h (u0, u1) e =
      let k0 =
        prepare_input-IsCubes n (omega arith) a.fanin0 a.compl0 m.m_esops
          (hold.nodes.cubes a.fanin0) in
      let k1 =
        prepare_input-IsCubes n (omega arith) a.fanin1 a.compl1 m.m_esops
          (hold.nodes.cubes a.fanin1) in
      compute_and-Frees a.id _ m' k0.0 k1.0
        (prepare_input-IsFree j a.fanin0 a.compl0 m.m_esops (h.nodes a.fanin0 u0))
        (prepare_input-IsFree j a.fanin1 a.compl1 m.m_esops (h.nodes a.fanin1 u1))
        (record { nodes = h.nodes; scratch = h.scratch }) e

  and_esops-Frees :
      (n_objs : ℕ) (ready val v : ℕ → Bool) (ands : List AndNode) (m : AigExtrMngr)
      → NodesHold n n_objs ready val v m
      → IsOrdered n_objs ready ands
      → All (Obeys val) ands
      → Frees cid j m
      → All (IsUnreadBy cid) ands
      → Returns (and_esops o n ands m) (Frees cid j)
  unfolding and_esops
  and_esops-Frees n_objs ready val v [] m hold ord ob h us = h
  and_esops-Frees n_objs ready val v (a ∷ rest) m hold (r0, r1, new, lt, ord) ob h us =
      let next = mark a.id ready in
      let both : AigExtrMngr → Type 0 = λ m'. NodesHold n n_objs next val v m' × Frees cid j m' in
      Returns-bind (and_step o n a m) (and_esops o n rest) both (Frees cid j)
        (Returns-known (and_step o n a m) (NodesHold n n_objs next val v) both
          (and_step-NodesHold o le a m hold r0 r1 new lt ob.0)
          λ m' e hold'. (hold', and_step-Frees n_objs ready val v a m m' hold h us.0 e))
        λ m' (hold', h'). and_esops-Frees n_objs next val v rest m' hold' ord ob.1 h' us.1

-- The cube of an input is free of the variables of the others.
positive-IsFree : (i j : ℕ) → i < 32 → (i == j) ≡ false → IsFree j (cube32 (shl32 1 i) (shl32 1 i))
positive-IsFree i j lt ne = bit-shl32-one i j lt ∙ ne

input_esops-IsFree :
    (cid j i : ℕ) (ids : List ℕ) (m_esops : List (List Cube32))
    → i + length ids ≤ 32
    → ((k : ℕ) → i + k ≡ j → k < length ids → get_or ids k 0 ≡ cid)
    → ((id : ℕ) → (cid == id) ≡ false → All (IsFree j) (get_or m_esops id []))
    → (id : ℕ) → (cid == id) ≡ false
    → All (IsFree j) (get_or (input_esops i ids m_esops) id [])
unfolding input_esops
input_esops-IsFree cid j i [] m_esops le at_j h id ne = h id ne
input_esops-IsFree cid j i (x ∷ ids) m_esops le at_j h id0 ne0 =
    let new = get_or m_esops x [] ++ cube32 (shl32 1 i) (shl32 1 i) ∷ [] in
    input_esops-IsFree cid j (i + 1) ids (set m_esops x new) (omega arith)
      (λ k e lt. at_j (suc k) (omega arith) (omega arith))
      (λ id ne. elim (Bool-cases (x == id)) [
        | inl s ↦
            let same : x ≡ id = (==_iff x id).0 s in
            let ne_x : (cid == x) ≡ false = ground (arith, ne, ap (λ y. cid == y) same) in
            get_or-set_either (All (IsFree j)) m_esops x id new [] (h id ne) (
              All-append (IsFree j) (get_or m_esops x []) (cube32 (shl32 1 i) (shl32 1 i) ∷ [])
                (h x ne_x) (positive-IsFree i j (omega arith) (other ne_x), tt))
        | inr s ↦ rw (get_or-set_ne m_esops x id new [] s) (h id ne)
      ])
      id0 ne0
  where
    other : (cid == x) ≡ false → (i == j) ≡ false
    other ne_x = elim (Bool-cases (i == j)) [
      | inl q ↦
          let e : x ≡ cid = at_j 0 (ground arith) (omega arith) in
          absurd (ground (arith, ne_x, e, ==_self cid))
      | inr q ↦ q
    ]

output_esops-IsFree :
    (cid j : ℕ) (cos : List Output) (m_esops : List (List Cube32))
    → ((id : ℕ) → (cid == id) ≡ false → All (IsFree j) (get_or m_esops id []))
    → All (λ (c : Output). (cid == c.fanin) ≡ false) cos
    → All (All (IsFree j)) (output_esops cos m_esops)
unfolding output_esops
output_esops-IsFree cid j [] m_esops h us = tt
output_esops-IsFree cid j (c ∷ cos) m_esops h (u, us) = (
  prepare_input-IsFree j c.fanin c.compl m_esops (h c.fanin u),
  output_esops-IsFree cid j cos m_esops h us,
)

-- The cubes that `run` makes of an AIG of at most 31 inputs have no literal for an input that no gate
-- and no output reads.
pub run-IsFree :
    (o : HashOrder) (aig : Gia) (j : ℕ)
    → length aig.ci_ids ≤ 31
    → IsAig aig
    → IsUnread aig j
    → Returns (run o aig) (λ f. All (All (IsFree j)) f.cubes)
unfolding run
run-IsFree o aig j le a u =
    let n = length aig.ci_ids in
    let cid = input_id aig j in
    let v : ℕ → Bool = λ _. false in
    Returns-bind (and_esops o n aig.ands _) _ (Frees cid j) (λ f. All (All (IsFree j)) f.cubes)
      (and_esops-Frees o n cid j le aig.n_objs _ (simulate aig v) v aig.ands _
        (start-NodesHold aig v le a) a.order (simulate-Obeys aig v a.inputs a.order)
        (record {
          nodes =
              input_esops-IsFree cid j 0 aig.ci_ids (replicate aig.n_objs []) (omega arith)
                (λ k e lt. let q : k ≡ j = omega arith in ap (λ i. get_or aig.ci_ids i 0) q)
                λ id ne. rw (get_or-replicate {A = List Cube32} aig.n_objs id []) tt;
          scratch = tt;
        })
        u.gates)
      λ m h. output_esops-IsFree cid j aig.cos m.m_esops h.nodes u.outputs

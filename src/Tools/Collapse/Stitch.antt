-- ===== src/Tools/Collapse/Stitch.antt =====
-- Lists of cubes for the outputs: a cofactor with its literals added, and results appended.
use losys.Base.{
  ℕ, zero, suc, ◌+◌, ◌/◌, ◌%◌, ◌^◌, ◌≤◌, ◌<◌, ◌≡◌, refl, ◌∙◌, Bool, false, ◌&&◌, ◌⊕◌, ◌==◌, List,
  [], ◌∷◌, All, All-append, map, length, replicate, arith, bit-or,
}
use losys.Kernel.Cube32.{Cube32, add_lit, shl32}
use losys.Kernel.Cube32.Meaning.{eval, IsCube, bit-shl32-one}
use losys.Kernel.Cube32.Single.{add_lit_lem}
use losys.Kernel.CubeSet.Esop.{eval_esop, eval_esop-append}
use losys.Kernel.CubeSet.Laws.{IsCubes}
use losys.Aig.{Output}
use losys.Aig.Correct.{Computes}
use losys.Aig.Support.{IsFree}
use losys.Exorcism.Correct.{Simplifies}
use losys.Tools.Collapse.{cofactor_lits, add_cofactor, append_outputs}
use losys.Tools.Collapse.Cofactors.{matches}

-- Under `v` the lists of cubes, over `n` inputs, have the values `bs`.
abbrev pub Yields : ℕ → (ℕ → Bool) → List Bool → List (List Cube32) → Type 0
Yields n v [] [] = Unit
Yields n v [] (e ∷ es) = ⊥
Yields n v (b ∷ bs) [] = ⊥
Yields n v (b ∷ bs) (e ∷ es) = IsCubes n e × (eval_esop e v ≡ b) × Yields n v bs es

-- The values where the condition `m` holds, and 0 elsewhere.
abbrev pub only : Bool → List Bool → List Bool
only m = map (λ b. m && b)

pub Computes-Yields :
    (n : ℕ) (val v : ℕ → Bool) (cos : List Output) (es : List (List Cube32))
    → Computes n val v cos es
    → Yields n v (map (λ (c : Output). c.compl ⊕ val c.fanin) cos) es
Computes-Yields n val v [] [] h = tt
Computes-Yields n val v [] (e ∷ es) h = absurd h
Computes-Yields n val v (c ∷ cos) [] h = absurd h
Computes-Yields n val v (c ∷ cos) (e ∷ es) (k, q, h) = (k, q, Computes-Yields n val v cos es h)

pub Yields-Computes :
    (n : ℕ) (val v : ℕ → Bool) (cos : List Output) (es : List (List Cube32))
    → Yields n v (map (λ (c : Output). c.compl ⊕ val c.fanin) cos) es
    → Computes n val v cos es
Yields-Computes n val v [] [] h = tt
Yields-Computes n val v [] (e ∷ es) h = absurd h
Yields-Computes n val v (c ∷ cos) [] h = absurd h
Yields-Computes n val v (c ∷ cos) (e ∷ es) (k, q, h) = (k, q, Yields-Computes n val v cos es h)

pub Yields-IsCubes :
    (n : ℕ) (v : ℕ → Bool) (bs : List Bool) (es : List (List Cube32))
    → Yields n v bs es
    → All (IsCubes n) es
Yields-IsCubes n v [] [] h = tt
Yields-IsCubes n v [] (e ∷ es) h = absurd h
Yields-IsCubes n v (b ∷ bs) [] h = absurd h
Yields-IsCubes n v (b ∷ bs) (e ∷ es) (k, q, h) = (k, Yields-IsCubes n v bs es h)

pub Yields-Simplifies :
    (n : ℕ) (v : ℕ → Bool) (bs : List Bool) (es es' : List (List Cube32))
    → Yields n v bs es
    → Simplifies n es es'
    → Yields n v bs es'
Yields-Simplifies n v [] [] [] h s = tt
Yields-Simplifies n v [] [] (e' ∷ es') h s = absurd s
Yields-Simplifies n v [] (e ∷ es) es' h s = absurd h
Yields-Simplifies n v (b ∷ bs) [] es' h s = absurd h
Yields-Simplifies n v (b ∷ bs) (e ∷ es) [] h s = absurd s
Yields-Simplifies n v (b ∷ bs) (e ∷ es) (e' ∷ es') (k, q, h) (t, s) =
    (t.cubes, t.sum v ∙ q, Yields-Simplifies n v bs es es' h s)

-- No cube yet.
pub Yields-empty :
    (n : ℕ) (v : ℕ → Bool) (bs : List Bool) → Yields n v (only false bs) (replicate (length bs) [])
unfolding eval_esop
Yields-empty n v [] = tt
Yields-empty n v (b ∷ bs) = (tt, refl, Yields-empty n v bs)

-- Results for conditions that exclude each other.
pub append_outputs-Yields :
    (n : ℕ) (v : ℕ → Bool) (s m : Bool) (bs : List Bool) (es fs : List (List Cube32))
    → Yields n v (only s bs) es
    → Yields n v (only m bs) fs
    → Yields n v (only (s ⊕ m) bs) (append_outputs es fs)
unfolding append_outputs
append_outputs-Yields n v s m [] [] fs h k = tt
append_outputs-Yields n v s m [] (e ∷ es) fs h k = absurd h
append_outputs-Yields n v s m (b ∷ bs) [] fs h k = absurd h
append_outputs-Yields n v s m (b ∷ bs) (e ∷ es) [] h k = absurd k
append_outputs-Yields n v s m (b ∷ bs) (e ∷ es) (f ∷ fs) (h, p, hs) (k, q, ks) = (
  All-append (IsCube n) e f h k,
  ground (arith, eval_esop-append e f v, p, q),
  append_outputs-Yields n v s m bs es fs hs ks,
)

-- The variables from `j` on, `left` in number, are free.
abbrev pub IsFreeFrom : ℕ → ℕ → Cube32 → Type 0
IsFreeFrom j left c = (k : ℕ) → j ≤ k → k < j + left → IsFree k c

add_lit-IsFree :
    (j p k : ℕ) (c : Cube32) → j < 32 → (j == k) ≡ false → IsFree k c → IsFree k (add_lit j p c)
unfolding add_lit
add_lit-IsFree j p k c lt ne free =
    ground (arith, bit-or c.mask (shl32 1 j) k, bit-shl32-one j k lt)

module _ (n i : ℕ) (le : n ≤ 32) where
  -- The literals of the cofactored variables restrict the cube to the assignments that match.
  cofactor_lits-IsCube :
      (left j : ℕ) (c : Cube32)
      → j + left ≤ n
      → IsCube n c
      → IsFreeFrom j left c
      → IsCube n (cofactor_lits i left j c)
        × ((v : ℕ → Bool) → eval (cofactor_lits i left j c) v ≡ (matches i left j v && eval c v))
  unfolding cofactor_lits
  cofactor_lits-IsCube zero j c fit k free = (k, λ v. refl)
  cofactor_lits-IsCube (suc left) j c fit k free =
      let p = i / 2 ^ j % 2 in
      let (k', e') =
        add_lit_lem c n j p k le (omega arith) (omega arith) (free j (omega arith) (omega arith)) in
      let (k2, e2) = cofactor_lits-IsCube left (j + 1) (add_lit j p c) (omega arith) k' (λ h l u.
        add_lit-IsFree j p h c (omega arith) (ground arith) (free h (omega arith) (omega arith))) in
      (k2, λ v. ground (arith, e2 v, e' v))

  -- The lists of cubes are free of the first `left` variables.
  lits-IsCubes :
      (left : ℕ) (e : List Cube32)
      → left ≤ n
      → IsCubes n e
      → ((k : ℕ) → k < left → All (IsFree k) e)
      → IsCubes n (map (cofactor_lits i left 0) e)
        × ((v : ℕ → Bool)
            → eval_esop (map (cofactor_lits i left 0) e) v ≡ (matches i left 0 v && eval_esop e v))
  unfolding eval_esop
  lits-IsCubes left [] fit ks free = (tt, λ v. ground arith)
  lits-IsCubes left (c ∷ e) fit (k, ks) free =
      let (kc, ec) =
        cofactor_lits-IsCube left 0 c (omega arith) k (λ h _ lt. (free h (omega arith)).0) in
      let (kr, er) = lits-IsCubes left e fit ks (λ h lt. (free h lt).1) in
      ((kc, kr), λ v. ground (arith, ec v, er v))

  -- The results of a cofactor, restricted to the assignments that it is about.
  pub add_cofactor-Yields :
      (left : ℕ) (v : ℕ → Bool) (bs : List Bool) (es : List (List Cube32))
      → left ≤ n
      → Yields n v bs es
      → ((k : ℕ) → k < left → All (All (IsFree k)) es)
      → Yields n v (only (matches i left 0 v) bs) (add_cofactor left i es)
  unfolding add_cofactor
  add_cofactor-Yields left v [] [] fit h free = tt
  add_cofactor-Yields left v [] (e ∷ es) fit h free = absurd h
  add_cofactor-Yields left v (b ∷ bs) [] fit h free = absurd h
  add_cofactor-Yields left v (b ∷ bs) (e ∷ es) fit (ks, q, h) free =
      let (kl, el) = lits-IsCubes left e fit ks (λ k lt. (free k lt).0) in
      (kl, ground (arith, el v, q), add_cofactor-Yields left v bs es fit h (λ k lt. (free k lt).1))

-- ===== src/Bdd/Path.antt =====
-- The cube of a path to a terminal: its literals are the values of the variables on the path.
use losys.Base.{
  ℕ, ◌≤◌, ◌<◌, ◌≡◌, refl, ap, Bool, true, false, not, ◌&&◌, ◌||◌, ◌⊕◌, ◌==◌, ==_self, List, [], ◌∷◌,
  arith, bit, bit-or, bit-zero, get_or,
}
use losys.Kernel.Cube32.{Cube32, cube32, add_lit, shl32}
use losys.Kernel.Cube32.Meaning.{eval, IsCube, canonical_false, bit-shl32-one, cube_ext}
use losys.Kernel.Cube32.Single.{add_lit_lem}
use losys.Bdd.{VarValue, positive, negative, unused, is_used, is_positive, or_bit, path_cube}

-- The literal of a variable with the value `b`.
abbrev pub value_lit : VarValue → Bool → Bool
value_lit positive b = b
value_lit negative b = not b
value_lit unused b = true

unfoldable pub path_value : List ℕ → List VarValue → (ℕ → Bool) → Bool
path_value [] values v = true
path_value (var ∷ vars) values v =
    value_lit (get_or values var unused) (v var) && path_value vars values v

-- The cube has just the literals of the path among those of the path's variables.
unfoldable pub agrees : List ℕ → List VarValue → Cube32 → Bool
agrees [] values c = true
agrees (var ∷ vars) values c =
    (not (bit c.mask var ⊕ is_used (get_or values var unused))
      && not (bit c.polarity var ⊕ is_positive (get_or values var unused)))
    && agrees vars values c

unfoldable pub on_path : ℕ → List ℕ → Bool
on_path j [] = false
on_path j (var ∷ vars) = var == j || on_path j vars

-- Variables below `n`, none of them twice.
abbrev pub IsVars : ℕ → List ℕ → Type 0
IsVars n [] = Unit
IsVars n (var ∷ vars) = (var < n) × (on_path var vars ≡ false) × IsVars n vars

abbrev with_var : ℕ → VarValue → Cube32 → Cube32
with_var var value c =
    cube32 (or_bit c.mask (is_used value) var) (or_bit c.polarity (is_positive value) var)

bit-or_bit :
    (word : ℕ) (b : Bool) (var i : ℕ)
    → var < 32
    → bit (or_bit word b var) i ≡ (bit word i || (b && var == i))
bit-or_bit word true var i lt = ground (arith, bit-or word (shl32 1 var) i, bit-shl32-one var i lt)
bit-or_bit word false var i lt =
    let z : shl32 0 var ≡ 0 = omega arith in
    ground (arith, bit-or word (shl32 0 var) i, ap (λ (x : ℕ). bit x i) z, bit-zero i)

module _ {n : ℕ} {c : Cube32} (k : IsCube n c) (le : n ≤ 32) (var : ℕ) (lt : var < n)
    (free : bit c.mask var ≡ false) where
  with_var_lem :
      (value : VarValue)
      → IsCube n (with_var var value c)
        × ((v : ℕ → Bool) → eval (with_var var value c) v ≡ (value_lit value (v var) && eval c v))
  unfolding add_lit
  with_var_lem positive =
      let r = add_lit_lem c n var 1 k le lt (omega arith) free in (r.0, λ v. ground (arith, r.1 v))
  with_var_lem negative =
      let r = add_lit_lem c n var 0 k le lt (omega arith) free in (r.0, λ v. ground (arith, r.1 v))
  with_var_lem unused =
      let e : with_var var unused c ≡ c =
        cube_ext _ c (λ i. ground (arith, bit-or_bit c.mask false var i (omega arith)))
          (λ i. ground (arith, bit-or_bit c.polarity false var i (omega arith))) in
      rw e (k, λ v. refl)

-- The cube `p` of the path over `vars` that starts from `c`.
pub record IsPathCube (n : ℕ) (vars : List ℕ) (values : List VarValue) (c p : Cube32) : Type 0 where
  pub cube : IsCube n p
  pub value : (v : ℕ → Bool) → eval p v ≡ (path_value vars values v && eval c v)
  pub on : agrees vars values p ≡ true
  pub off_mask : (j : ℕ) → on_path j vars ≡ false → bit p.mask j ≡ bit c.mask j
  pub off_polarity : (j : ℕ) → on_path j vars ≡ false → bit p.polarity j ≡ bit c.polarity j

-- No variable of the path is in the cube yet.
abbrev pub IsFree : List ℕ → Cube32 → Type 0
IsFree [] c = Unit
IsFree (var ∷ vars) c = (bit c.mask var ≡ false) × IsFree vars c

module _ {n : ℕ} (le : n ≤ 32) (values : List VarValue) where
  with_var-IsFree :
      (var : ℕ) (value : VarValue) (c : Cube32) (vars : List ℕ)
      → var < n
      → on_path var vars ≡ false
      → IsFree vars c
      → IsFree vars (with_var var value c)
  unfolding on_path
  with_var-IsFree var value c [] lt off f = tt
  with_var-IsFree var value c (j ∷ vars) lt off f = (
    ground (arith, bit-or_bit c.mask (is_used value) var j (omega arith), f.0),
    with_var-IsFree var value c vars lt (ground arith) f.1,
  )

  pub path_cube-IsPathCube :
      (vars : List ℕ) (c : Cube32)
      → IsCube n c
      → IsVars n vars
      → IsFree vars c
      → IsPathCube n vars values c (path_cube vars values c)
  unfolding path_cube path_value agrees on_path
  path_cube-IsPathCube [] c k vs f = record {
    cube = k;
    value = λ v. refl;
    on = refl;
    off_mask = λ j o. refl;
    off_polarity = λ j o. refl;
  }
  path_cube-IsPathCube (var ∷ vars) c k (lt, off, vs) (free, f) =
      let value = get_or values var unused in
      let w = with_var_lem k le var lt free value in
      let r =
        path_cube-IsPathCube vars (with_var var value c) w.0 vs
          (with_var-IsFree var value c vars lt off f) in
      let mask : (j : ℕ)
          → bit (with_var var value c).mask j ≡ (bit c.mask j || (is_used value && var == j)) =
        λ j. bit-or_bit c.mask (is_used value) var j (omega arith) in
      let polarity : (j : ℕ)
          → bit (with_var var value c).polarity j
            ≡ (bit c.polarity j || (is_positive value && var == j)) =
        λ j. bit-or_bit c.polarity (is_positive value) var j (omega arith) in
      record {
        cube = r.cube;
        value = λ v. ground (arith, r.value v, w.1 v);
        on = ground (
          arith,
          r.on,
          r.off_mask var off,
          r.off_polarity var off,
          mask var,
          polarity var,
          canonical_false k var free,
          ==_self var,
        );
        off_mask = λ j o. ground (arith, r.off_mask j, mask j);
        off_polarity = λ j o. ground (arith, r.off_polarity j, polarity j);
      }

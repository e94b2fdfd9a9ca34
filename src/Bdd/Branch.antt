-- ===== src/Bdd/Branch.antt =====
-- One expansion in `generate_exact`: the state and the path of each branch, and both together.
use losys.Base.{
  ◌+◌, ◌%◌, ◌^◌, zero, suc, ◌∙◌, ℕ, ◌<◌, ◌≡◌, refl, sym, ap, true, false, not, List, [], ◌∷◌, All,
  arith, Bool-cases, inl, inr, get_or, set, length, length-set, get_or-set_ne,
}
use losys.Kernel.Cube32.{Cube32}
use losys.Bdd.{
  ExpType, Cost, Psdkro, VarValue, unused, left_node, right_node, left_value, right_value, push_var,
  pop_var, assign, but_back, Cudd,
}
use losys.Bdd.Diagram.{is_terminal, IsBelow, IsDiagram}
use losys.Bdd.CostOf.{n_cubes}
use losys.Bdd.Path.{agrees, on_path}
use losys.Bdd.Branches.{right-IsBelow, value-branches, path_value-push, branches_apart, agrees-push}
use losys.Bdd.Generate.{IsState, Generates, off_path, IsPath, AllSet}

set_twice : {A : Type 0} (xs : List A) (i : ℕ) (a b : A) → set (set xs i a) i b ≡ set xs i b
set_twice [] i a b = refl
set_twice (x ∷ xs) zero a b = refl
set_twice (x ∷ xs) (suc i) a b = ap (λ ys. x ∷ ys) (set_twice xs i a b)

set_back : {A : Type 0} (xs : List A) (i : ℕ) (a : A) → get_or xs i a ≡ a → set xs i a ≡ xs
set_back [] i a e = refl
set_back (x ∷ xs) zero a e = ap (λ y. y ∷ xs) (sym e)
set_back (x ∷ xs) (suc i) a e = ap (λ ys. x ∷ ys) (set_back xs i a e)

-- What the path to a node has to be.
pub record IsReady {cudd : Cudd} {n : ℕ} (d : IsDiagram cudd n) (f : ℕ) (vars : List ℕ)
    (values : List VarValue) (m : Psdkro) : Type 0 where
  pub path : IsPath n vars values
  pub fresh : AllSet (λ c. not (agrees vars values c)) m
  pub before : is_terminal cudd f ≡ false → All (λ j. d.place j < d.place (cudd.read_index f)) vars

All-mono :
    (place : ℕ → ℕ) (a b : ℕ) (vars : List ℕ)
    → a < b
    → All (λ j. place j < a) vars
    → All (λ j. place j < b) vars
All-mono place a b [] lt h = tt
All-mono place a b (j ∷ vars) lt h = (omega (arith, h.0), All-mono place a b vars lt h.1)

AllSet-push :
    (values : List VarValue) (idx : ℕ) (vars : List ℕ) (x : VarValue) (s : List Cube32)
    → idx < length values
    → on_path idx vars ≡ false
    → All (λ c. not (agrees vars values c) ≡ true) s
    → All (λ c. not (agrees (idx ∷ vars) (set values idx x) c) ≡ true) s
AllSet-push values idx vars x [] lt off h = tt
AllSet-push values idx vars x (c ∷ s) lt off h = (
  elim (Bool-cases (agrees (idx ∷ vars) (set values idx x) c)) [
    | inl e ↦ absurd (ground (arith, agrees-push values idx lt vars off x c e, h.0))
    | inr e ↦ ground arith
  ],
  AllSet-push values idx vars x s lt off h.1,
)

module _ {cudd : Cudd} {n : ℕ} (d : IsDiagram cudd n) (f : ℕ) (vars : List ℕ)
    (values : List VarValue) (inner : is_terminal cudd f ≡ false) (p : IsPath n vars values)
    (before : All (λ j. d.place j < d.place (cudd.read_index f)) vars) where
  idx_off : on_path (cudd.read_index f) vars ≡ false
  idx_off = off_path d.place (cudd.read_index f) vars before

  pushed-IsPath :
      (x : VarValue) → IsPath n (cudd.read_index f ∷ vars) (set values (cudd.read_index f) x)
  unfolding on_path
  pushed-IsPath x = record {
    is_vars = (d.place_below f inner, idx_off, p.is_vars);
    size = length-set values (cudd.read_index f) x ∙ p.size;
    rest = λ j off.
        get_or-set_ne values (cudd.read_index f) j x unused (ground arith)
        ∙ p.rest j (ground arith);
  }

  pushed_before :
      (g : ℕ)
      → IsBelow cudd d.place (d.place (cudd.read_index f)) g
      → is_terminal cudd g ≡ false
      → All (λ j. d.place j < d.place (cudd.read_index g)) (cudd.read_index f ∷ vars)
  pushed_before g below e = (below e, All-mono d.place _ _ vars (below e) before)

  fits : cudd.read_index f < length values
  fits = omega (arith, d.place_below f inner, p.size)

  -- The results of the two branches taken together.
  pub joined :
      (costs : List Cost) (e : ExpType) (m m1 m2 : Psdkro)
      → n_cubes cudd n f
        ≡ (n_cubes cudd n (left_node cudd e f) + n_cubes cudd n (right_node cudd e f)) % 2 ^ 32
      → Generates d
          (left_node cudd e f)
          (cudd.read_index f ∷ vars)
          (set values (cudd.read_index f) (left_value e))
          costs
          (assign (cudd.read_index f) (left_value e) (push_var (cudd.read_index f) m))
          m1
      → Generates d
          (right_node cudd e f)
          (cudd.read_index f ∷ vars)
          (set values (cudd.read_index f) (right_value e))
          costs
          (assign (cudd.read_index f) (right_value e) m1)
          m2
      → Generates d f vars values costs m (assign (cudd.read_index f) unused (pop_var m2))
  unfolding assign push_var pop_var
  joined costs e m m1 m2 split a b =
      let idx = cudd.read_index f in
      record {
        state = record {
          vars_are = ap but_back b.state.vars_are;
          values_are =
              ap (λ vs. set vs idx unused) b.state.values_are
              ∙ set_twice values idx (right_value e) unused
              ∙ set_back values idx unused (p.rest idx idx_off);
          costs_are = b.state.costs_are;
          is_set = b.state.is_set;
        };
        sum = λ v. ground (
          arith,
          b.sum v,
          a.sum v,
          path_value-push values idx fits vars idx_off (left_value e) v,
          path_value-push values idx fits vars idx_off (right_value e) v,
          value-branches d f inner e v,
        );
        grows = omega (arith, a.grows, b.grows, split);
        within = λ q all on.
            b.within q (a.within q all λ c g. on c (agrees-push values idx fits vars idx_off _ c g))
              λ c g. on c (agrees-push values idx fits vars idx_off _ c g);
      }

  pub left-IsState :
      (costs : List Cost) (x : VarValue) (m : Psdkro)
      → IsState n vars values costs m
      → IsState n
          (cudd.read_index f ∷ vars)
          (set values (cudd.read_index f) x)
          costs
          (assign (cudd.read_index f) x (push_var (cudd.read_index f) m))
  unfolding assign push_var
  left-IsState costs x m s = record {
    vars_are = ap (λ vs. cudd.read_index f ∷ vs) s.vars_are;
    values_are = ap (λ vs. set vs (cudd.read_index f) x) s.values_are;
    costs_are = s.costs_are;
    is_set = s.is_set;
  }

  pub left-IsReady :
      (g : ℕ) (x : VarValue) (m : Psdkro)
      → IsBelow cudd d.place (d.place (cudd.read_index f)) g
      → AllSet (λ c. not (agrees vars values c)) m
      → IsReady d g
          (cudd.read_index f ∷ vars)
          (set values (cudd.read_index f) x)
          (assign (cudd.read_index f) x (push_var (cudd.read_index f) m))
  unfolding assign push_var
  left-IsReady g x m below fresh = record {
    path = pushed-IsPath x;
    fresh = AllSet-push values (cudd.read_index f) vars x m.m_esop fits idx_off fresh;
    before = pushed_before g below;
  }

  pub right-IsState :
      (costs : List Cost) (x y : VarValue) (m1 : Psdkro)
      → IsState n (cudd.read_index f ∷ vars) (set values (cudd.read_index f) x) costs m1
      → IsState n
          (cudd.read_index f ∷ vars)
          (set values (cudd.read_index f) y)
          costs
          (assign (cudd.read_index f) y m1)
  unfolding assign
  right-IsState costs x y m1 s = record {
    vars_are = s.vars_are;
    values_are =
        ap (λ vs. set vs (cudd.read_index f) y) s.values_are
        ∙ set_twice values (cudd.read_index f) x y;
    costs_are = s.costs_are;
    is_set = s.is_set;
  }

  pub right-IsReady :
      (costs : List Cost) (e : ExpType) (m m1 : Psdkro)
      → AllSet (λ c. not (agrees vars values c)) m
      → Generates d
          (left_node cudd e f)
          (cudd.read_index f ∷ vars)
          (set values (cudd.read_index f) (left_value e))
          costs
          (assign (cudd.read_index f) (left_value e) (push_var (cudd.read_index f) m))
          m1
      → IsReady d
          (right_node cudd e f)
          (cudd.read_index f ∷ vars)
          (set values (cudd.read_index f) (right_value e))
          (assign (cudd.read_index f) (right_value e) m1)
  unfolding assign push_var
  right-IsReady costs e m m1 fresh a = record {
    path = pushed-IsPath (right_value e);
    fresh =
        a.within
          (λ c.
            not (
              agrees (cudd.read_index f ∷ vars) (set values (cudd.read_index f) (right_value e)) c))
          (AllSet-push values (cudd.read_index f) vars (right_value e) m.m_esop fits idx_off fresh)
          λ c g. ground (arith, branches_apart values (cudd.read_index f) fits vars idx_off e c g);
    before = pushed_before (right_node cudd e f) (right-IsBelow d f inner e);
  }

-- ===== src/Bdd/OneVar.antt =====
-- The diagrams over one variable, at which the theorems about BDDs have their examples.
use losys.Base.{
  ℕ, ◌≡◌, refl, Bool, true, false, not, ◌||◌, ◌⊕◌, ◌==◌, if◌then◌else◌, arith, Bool-cases, inl, inr,
}
use losys.Bdd.{Cudd}
use losys.Bdd.Diagram.{is_terminal, IsDiagram}

-- The nodes 0, 1, 2 and 3: their values where the variable is 0, and where it is 1.
abbrev pub at0 : ℕ → Bool
at0 f = f == 1 || f == 3

abbrev pub at1 : ℕ → Bool
at1 f = f == 2 || f == 3

abbrev pub code : Bool → Bool → ℕ
code false false = 0
code true false = 1
code false true = 2
code true true = 3

pub at0-code : (a b : Bool) → at0 (code a b) ≡ a
at0-code false false = refl
at0-code true false = refl
at0-code false true = refl
at0-code true true = refl

pub at1-code : (a b : Bool) → at1 (code a b) ≡ b
at1-code false false = refl
at1-code true false = refl
at1-code false true = refl
at1-code true true = refl

abbrev pub one_var : Cudd
one_var = record {
  logic_zero = 0;
  one = 3;
  node_e = λ f. code (at0 f) (at0 f);
  node_t = λ f. code (at1 f) (at1 f);
  is_complement = λ f. false;
  negate = λ f. code (not (at0 f)) (not (at1 f));
  read_index = λ f. 0;
  bdd_xor = λ f g. code (at0 f ⊕ at0 g) (at1 f ⊕ at1 g);
}

-- A node is terminal just where its two values agree.
flat_node : (a b : Bool) → a ≡ b → is_terminal one_var (code a b) ≡ true
unfolding is_terminal
flat_node false false e = refl
flat_node true false e = absurd (ground arith)
flat_node false true e = absurd (ground arith)
flat_node true true e = refl

at_terminal : (f : ℕ) → is_terminal one_var f ≡ true → at0 f ≡ at1 f
unfolding is_terminal
at_terminal f e = ground arith

pub one_var-IsDiagram : IsDiagram one_var 1
one_var-IsDiagram = record {
  place = λ j. 0;
  value = λ f v. if v 0 then at1 f else at0 f;
  place_below = λ f e. omega arith;
  place_fits = λ f e. omega arith;
  e_below = λ f e h. absurd (ground (arith, flat_node (at0 f) (at0 f) refl));
  t_below = λ f e h. absurd (ground (arith, flat_node (at1 f) (at1 f) refl));
  negate_below = λ k f b h. elim (Bool-cases (is_terminal one_var f)) [
    | inl t ↦
        absurd
          (ground (arith, flat_node (not (at0 f)) (not (at1 f)) (ground (arith, at_terminal f t))))
    | inr t ↦ b t
  ];
  xor_below = λ k f g b c h. elim (Bool-cases (is_terminal one_var f)) [
    | inl t ↦ elim (Bool-cases (is_terminal one_var g)) [
      | inl u ↦ absurd (
          ground (
            arith,
            flat_node (at0 f ⊕ at0 g) (at1 f ⊕ at1 g)
                (ground (arith, at_terminal f t, at_terminal g u)),
          ))
      | inr u ↦ c u
    ]
    | inr t ↦ b t
  ];
  value_zero = λ v. ground arith;
  value_one = λ v. ground arith;
  value_node = λ f v e. ground (arith, at1-code (at1 f) (at1 f), at0-code (at0 f) (at0 f));
  value_negate = λ f v.
      ground (arith, at1-code (not (at0 f)) (not (at1 f)), at0-code (not (at0 f)) (not (at1 f)));
  value_xor = λ f g v.
      ground
        (arith, at1-code (at0 f ⊕ at0 g) (at1 f ⊕ at1 g), at0-code (at0 f ⊕ at0 g) (at1 f ⊕ at1 g));
}

pub one_var-value :
    (f : ℕ) (v : ℕ → Bool) → one_var-IsDiagram.value f v ≡ (if v 0 then at1 f else at0 f)
unfolding one_var-IsDiagram
one_var-value f v = refl

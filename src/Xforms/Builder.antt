-- ===== src/Xforms/Builder.antt =====
-- What ABC promises of the manager that `esop_to_aig` fills.
use losys.Base.{◌∙◌, refl, ℕ, ◌+◌, ◌<◌, ◌≡◌, Bool, true, false, ◌&&◌, ◌⊕◌, List, [], ◌∷◌, ◌++◌}
use losys.Xforms.{GiaOps, append_cis}

-- `IsLit` says which literals the manager has, `value` what they compute at an assignment of the
-- inputs, and `outputs` what the outputs compute, in order.
pub record IsBuilder (abc : GiaOps) : Type 1 where
  pub IsLit : abc.Gia → ℕ → Type 0
  pub value : abc.Gia → ℕ → (ℕ → Bool) → Bool
  pub outputs : abc.Gia → (ℕ → Bool) → List Bool

-- The manager has got nodes: what it had is as it was.
pub record Grows {abc : GiaOps} (b : IsBuilder abc) (aig aig' : abc.Gia) : Type 0 where
  pub lits : (x : ℕ) → b.IsLit aig x → b.IsLit aig' x
  pub values : (x : ℕ) (v : ℕ → Bool) → b.IsLit aig x → b.value aig' x v ≡ b.value aig x v

-- A manager with the first `n` inputs at the nodes from 1 on.
pub record HasInputs {abc : GiaOps} (b : IsBuilder abc) (n : ℕ) (aig : abc.Gia) : Type 0 where
  pub zero_lit : b.IsLit aig 0
  pub zero_value : (v : ℕ → Bool) → b.value aig 0 v ≡ false
  pub one_lit : b.IsLit aig 1
  pub one_value : (v : ℕ → Bool) → b.value aig 1 v ≡ true
  pub ci_lit : (k : ℕ) (c : Bool) → k < n → b.IsLit aig (abc.var_to_lit k c + 2)
  pub ci_value :
      (k : ℕ) (c : Bool) (v : ℕ → Bool) → k < n → b.value aig (abc.var_to_lit k c + 2) v ≡ (c ⊕ v k)

-- ABC's promises. The inputs, appended first, are the nodes from 1 on.
pub record IsAbc {abc : GiaOps} (b : IsBuilder abc) : Type 0 where
  pub inputs : (n : ℕ) → HasInputs b n (append_cis abc n (abc.hash_alloc (abc.start 128)))
  pub no_outputs :
      (n : ℕ) (v : ℕ → Bool) → b.outputs (append_cis abc n (abc.hash_alloc (abc.start 128))) v ≡ []
  pub and_grows :
      (aig : abc.Gia) (x y : ℕ)
      → b.IsLit aig x
      → b.IsLit aig y
      → Grows b aig (abc.hash_and aig x y).0
  pub and_lit :
      (aig : abc.Gia) (x y : ℕ)
      → b.IsLit aig x
      → b.IsLit aig y
      → b.IsLit (abc.hash_and aig x y).0 (abc.hash_and aig x y).1
  pub and_value :
      (aig : abc.Gia) (x y : ℕ) (v : ℕ → Bool)
      → b.IsLit aig x
      → b.IsLit aig y
      → b.value (abc.hash_and aig x y).0 (abc.hash_and aig x y).1 v
        ≡ (b.value aig x v && b.value aig y v)
  pub and_outputs :
      (aig : abc.Gia) (x y : ℕ) (v : ℕ → Bool)
      → b.outputs (abc.hash_and aig x y).0 v ≡ b.outputs aig v
  pub xor_grows :
      (aig : abc.Gia) (x y : ℕ)
      → b.IsLit aig x
      → b.IsLit aig y
      → Grows b aig (abc.hash_xor aig x y).0
  pub xor_lit :
      (aig : abc.Gia) (x y : ℕ)
      → b.IsLit aig x
      → b.IsLit aig y
      → b.IsLit (abc.hash_xor aig x y).0 (abc.hash_xor aig x y).1
  pub xor_value :
      (aig : abc.Gia) (x y : ℕ) (v : ℕ → Bool)
      → b.IsLit aig x
      → b.IsLit aig y
      → b.value (abc.hash_xor aig x y).0 (abc.hash_xor aig x y).1 v
        ≡ (b.value aig x v ⊕ b.value aig y v)
  pub xor_outputs :
      (aig : abc.Gia) (x y : ℕ) (v : ℕ → Bool)
      → b.outputs (abc.hash_xor aig x y).0 v ≡ b.outputs aig v
  pub co_grows : (aig : abc.Gia) (x : ℕ) → Grows b aig (abc.append_co aig x)
  pub co_outputs :
      (aig : abc.Gia) (x : ℕ) (v : ℕ → Bool)
      → b.outputs (abc.append_co aig x) v ≡ b.outputs aig v ++ b.value aig x v ∷ []
  pub cleanup_outputs :
      (aig : abc.Gia) (v : ℕ → Bool) → b.outputs (abc.cleanup aig) v ≡ b.outputs aig v

module _ {abc : GiaOps} {b : IsBuilder abc} where
  pub Grows-trans : {p q r : abc.Gia} → Grows b p q → Grows b q r → Grows b p r
  Grows-trans g h = record {
    lits = λ x l. h.lits x (g.lits x l);
    values = λ x v l. h.values x v (g.lits x l) ∙ g.values x v l;
  }

  pub Grows-refl : (p : abc.Gia) → Grows b p p
  Grows-refl p = record { lits = λ x l. l; values = λ x v l. refl }

  pub HasInputs-Grows : {n : ℕ} {p q : abc.Gia} → Grows b p q → HasInputs b n p → HasInputs b n q
  HasInputs-Grows g h = record {
    zero_lit = g.lits 0 h.zero_lit;
    zero_value = λ v. g.values 0 v h.zero_lit ∙ h.zero_value v;
    one_lit = g.lits 1 h.one_lit;
    one_value = λ v. g.values 1 v h.one_lit ∙ h.one_value v;
    ci_lit = λ k c lt. g.lits _ (h.ci_lit k c lt);
    ci_value = λ k c v lt. g.values _ v (h.ci_lit k c lt) ∙ h.ci_value k c v lt;
  }

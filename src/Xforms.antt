-- ===== src/Xforms.antt =====
-- source/xforms/esop_to_aig.cpp: an AIG for each output of an ESOP. ABC's manager is the parameter
-- `GiaOps`; a literal of it is a number.
pub mod Builder
pub mod EsopToAig
pub mod AigToBdd
mod Examples
use losys.Base.{
  ℕ, zero, suc, ◌+◌, bit_and, Bool, true, false, not, ◌==◌, if◌then◌else◌, List, [], ◌∷◌, ◌/◌, ◌^◌,
}
use losys.Kernel.Cube32.{Cube32, cube32_one, ne, shl32}
use losys.Kernel.TwoLvl32.{TwoLvl32}

-- The functions of ABC that the code calls. `Gia_ManStop` only frees memory.
pub record GiaOps : Type 1 where
  pub Gia : Type 0
  pub start : ℕ → Gia
  pub hash_alloc : Gia → Gia
  pub append_ci : Gia → Gia
  pub append_co : Gia → ℕ → Gia
  pub hash_and : Gia → ℕ → ℕ → Gia × ℕ
  pub hash_xor : Gia → ℕ → ℕ → Gia × ℕ
  pub var_to_lit : ℕ → Bool → ℕ
  pub cleanup : Gia → Gia

module _ (abc : GiaOps) where
  unfoldable pub append_cis : ℕ → abc.Gia → abc.Gia
  append_cis zero aig = aig
  append_cis (suc n) aig = append_cis n (abc.append_ci aig)

  -- The loop over `k`, with `left` inputs to go.
  unfoldable pub and_literals : ℕ → ℕ → Cube32 → abc.Gia → ℕ → abc.Gia × ℕ
  and_literals zero k c aig and_idx = (aig, and_idx)
  and_literals (suc left) k c aig and_idx =
      if bit_and c.mask (shl32 1 k) == 0
      then and_literals left (k + 1) c aig and_idx
      else let (aig', lit) =
          abc.hash_and aig and_idx (abc.var_to_lit k (bit_and (c.polarity / 2 ^ k) 1 == 0) + 2) in
        and_literals left (k + 1) c aig' lit

  unfoldable pub cube_to_aig : ℕ → Cube32 → abc.Gia → abc.Gia × ℕ
  cube_to_aig n_inputs c aig = if ne c cube32_one then and_literals n_inputs 0 c aig 1 else (aig, 1)

  unfoldable pub xor_cubes : ℕ → List Cube32 → abc.Gia → ℕ → abc.Gia × ℕ
  xor_cubes n_inputs [] aig root_idx = (aig, root_idx)
  xor_cubes n_inputs (c ∷ cubes) aig root_idx =
      let (aig1, and_idx) = cube_to_aig n_inputs c aig in
      let (aig2, root) = abc.hash_xor aig1 root_idx and_idx in xor_cubes n_inputs cubes aig2 root

  -- Without a cube the code appends the literal 0 at once, which is the root it starts from.
  unfoldable pub output_to_aig : ℕ → List Cube32 → abc.Gia → abc.Gia
  output_to_aig n_inputs [] aig = abc.append_co aig 0
  output_to_aig n_inputs (c ∷ cubes) aig =
      let (aig', root_idx) = xor_cubes n_inputs (c ∷ cubes) aig 0 in abc.append_co aig' root_idx

  unfoldable pub outputs_to_aig : ℕ → List (List Cube32) → abc.Gia → abc.Gia
  outputs_to_aig n_inputs [] aig = aig
  outputs_to_aig n_inputs (cubes ∷ esops) aig =
      outputs_to_aig n_inputs esops (output_to_aig n_inputs cubes aig)

  unfoldable pub esop_to_aig : TwoLvl32 → abc.Gia
  esop_to_aig esop = abc.cleanup (
      outputs_to_aig esop.n_inputs esop.cubes
        (append_cis esop.n_inputs (abc.hash_alloc (abc.start 128))))

-- ===== src/Bdd.antt =====
-- source/bdd/collapse.hpp and source/bdd/collapse.cpp: the pseudo-Kronecker expression of a BDD
-- (`psdkro`) and `bdd_extract`. CUDD is the parameter `Cudd`; a `DdNode *` is a number, and the null
-- node of a BDD that no manager has made is `none`. Reference counting is left out, and so are the
-- null nodes that CUDD gives when it is out of memory.
pub mod Diagram
pub mod Costs
pub mod CostOf
pub mod Recalls
pub mod Path
pub mod Branches
pub mod Generate
pub mod Branch
pub mod Expand
pub mod Correct
pub mod Few
pub mod Least
pub mod OneVar
mod Examples
use losys.Base.{
  ℕ, zero, suc, ◌+◌, ◌%◌, ◌^◌, bit_or, Bool, true, false, not, ◌==◌, ltb, if◌then◌else◌, Option,
  none, some, ◌>>=◌, List, [], ◌∷◌, get_or, set, length, replicate,
}
use losys.Kernel.Cube32.{Cube32, cube32, eq, cube32_one, rotate, merge, shl32}
use losys.Kernel.CubeSet.{HashOrder, find, contains, erase, insert}
use losys.Kernel.TwoLvl32.{Kind, TwoLvl32}
use losys.Aig
use losys.Aig.{Extraction, exits, extracted}
use Prim.Native.Nat.{max}

-- The functions of CUDD that the code calls.
pub record Cudd : Type 0 where
  pub logic_zero : ℕ
  pub one : ℕ
  pub node_e : ℕ → ℕ
  pub node_t : ℕ → ℕ
  pub is_complement : ℕ → Bool
  pub negate : ℕ → ℕ
  pub read_index : ℕ → ℕ
  pub bdd_xor : ℕ → ℕ → ℕ

pub data VarValue : Type 0 where
  positive negative unused : VarValue

pub data ExpType : Type 0 where
  positive_davio negative_davio shannon : ExpType

pub record Cost : Type 0 where
  pub node : ℕ
  pub exp_type : ExpType
  pub count : ℕ

-- `m_vars` has its back first; `m_exp_costs` is the list of its entries.
pub record Psdkro : Type 0 where
  pub m_vars : List ℕ
  pub m_var_values : List VarValue
  pub m_exp_costs : List Cost
  pub m_esop : List Cube32

unfoldable pub find_cost : ℕ → List Cost → Option Cost
find_cost f [] = none
find_cost f (c ∷ costs) = if c.node == f then some c else find_cost f costs

-- The expansion that leaves out the costliest cofactor.
unfoldable pub least_cost : ℕ → ℕ → ℕ → ℕ → Cost
least_cost f n0 n1 n2 =
    if max (max n0 n1) n2 == n0
    then record { node = f; exp_type = negative_davio; count = (n1 + n2) % 2 ^ 32 }
    else if max (max n0 n1) n2 == n1
    then record { node = f; exp_type = positive_davio; count = (n0 + n2) % 2 ^ 32 }
    else record { node = f; exp_type = shannon; count = (n0 + n1) % 2 ^ 32 }

module _ (cudd : Cudd) where
  abbrev pub not_cond : ℕ → Bool → ℕ
  not_cond f c = if c then cudd.negate f else f

  -- The cofactors, and their exclusive or.
  abbrev pub cofactor0 : ℕ → ℕ
  cofactor0 f = not_cond (cudd.node_e f) (cudd.is_complement f)

  abbrev pub cofactor1 : ℕ → ℕ
  cofactor1 f = not_cond (cudd.node_t f) (cudd.is_complement f)

  abbrev pub cofactor2 : ℕ → ℕ
  cofactor2 f = cudd.bdd_xor (cofactor0 f) (cofactor1 f)

  -- With the fuel of one more than the variables; `none` stands for too little of it.
  unfoldable pub count_cubes : ℕ → ℕ → List Cost → Option (Cost × List Cost)
  count_cubes zero f costs = none
  count_cubes (suc fuel) f costs = elim (f == cudd.logic_zero) [
    | true ↦ some (record { node = f; exp_type = positive_davio; count = 0 }, costs)
    | false ↦ elim (f == cudd.one) [
      | true ↦ some (record { node = f; exp_type = positive_davio; count = 1 }, costs)
      | false ↦ elim (find_cost f costs) [
        | some c ↦ some (c, costs)
        | none ↦ do
          (c0, costs0) ← count_cubes fuel (cofactor0 f) costs
          (c1, costs1) ← count_cubes fuel (cofactor1 f) costs0
          (c2, costs2) ← count_cubes fuel (cofactor2 f) costs1
          some (
            least_cost f c0.count c1.count c2.count,
            least_cost f c0.count c1.count c2.count ∷ costs2,
          )
      ]
    ]
  ]

abbrev pub is_used : VarValue → Bool
is_used positive = true
is_used negative = true
is_used unused = false

abbrev pub is_positive : VarValue → Bool
is_positive positive = true
is_positive negative = false
is_positive unused = false

-- `|= (bit << var)`.
abbrev pub or_bit : ℕ → Bool → ℕ → ℕ
or_bit word b var = bit_or word (shl32 (if b then 1 else 0) var)

-- The cube of the variables on the way to a terminal, as far as `m_var_values` uses them.
unfoldable pub path_cube : List ℕ → List VarValue → Cube32 → Cube32
path_cube [] values cube = cube
path_cube (var ∷ vars) values cube = path_cube vars values (
    cube32 (or_bit cube.mask (is_used (get_or values var unused)) var)
      (or_bit cube.polarity (is_positive (get_or values var unused)) var))

-- The two branches of each expansion: the node, and the value of the variable.
unfoldable pub left_node : Cudd → ExpType → ℕ → ℕ
left_node cudd positive_davio f = cofactor0 cudd f
left_node cudd negative_davio f = cofactor1 cudd f
left_node cudd shannon f = cofactor0 cudd f

unfoldable pub left_value : ExpType → VarValue
left_value positive_davio = unused
left_value negative_davio = unused
left_value shannon = negative

unfoldable pub right_node : Cudd → ExpType → ℕ → ℕ
right_node cudd positive_davio f = cofactor2 cudd f
right_node cudd negative_davio f = cofactor2 cudd f
right_node cudd shannon f = cofactor1 cudd f

unfoldable pub right_value : ExpType → VarValue
right_value positive_davio = positive
right_value negative_davio = negative
right_value shannon = positive

unfoldable pub push_var : ℕ → Psdkro → Psdkro
push_var idx m = record m { m_vars = idx ∷ m.m_vars }

unfoldable pub assign : ℕ → VarValue → Psdkro → Psdkro
assign idx value m = record m { m_var_values = set m.m_var_values idx value }

abbrev pub but_back : List ℕ → List ℕ
but_back [] = []
but_back (idx ∷ vars) = vars

unfoldable pub pop_var : Psdkro → Psdkro
pop_var m = record m { m_vars = but_back m.m_vars }

-- `none` also stands for the failed assertion that the node has a cost.
unfoldable pub generate_exact : HashOrder → Cudd → ℕ → ℕ → Psdkro → Option Psdkro
unfolding path_cube
generate_exact o cudd zero f m = none
generate_exact o cudd (suc fuel) f m = elim (f == cudd.logic_zero) [
  | true ↦ some m
  | false ↦ elim (f == cudd.one) [
    | true ↦
        some
          (record m { m_esop = insert o (path_cube m.m_vars m.m_var_values cube32_one) m.m_esop })
    | false ↦ elim (find_cost f m.m_exp_costs) [
      | none ↦ none
      | some c ↦ do
        m1 ←
            generate_exact o cudd fuel (left_node cudd c.exp_type f)
              (assign (cudd.read_index f) (left_value c.exp_type) (push_var (cudd.read_index f) m))
        m2 ←
            generate_exact o cudd fuel (right_node cudd c.exp_type f)
              (assign (cudd.read_index f) (right_value c.exp_type) m1)
        some (assign (cudd.read_index f) unused (pop_var m2))
    ]
  ]
]

-- No other method calls it. It is the `add_cube` of `aig_extr_mngr` on `m_esop`.
unfoldable pub add_cube : HashOrder → Cube32 → Psdkro → Option Psdkro
add_cube o c m = do
  esop ← Aig.add_cube o (length m.m_var_values) c m.m_esop
  some (record m { m_esop = esop })

unfoldable pub extract_esop : HashOrder → Cudd → Option ℕ → Psdkro → Option (List Cube32 × Psdkro)
extract_esop o cudd none m = some ([], m)
extract_esop o cudd (some f) m = do
  (c, costs) ← count_cubes cudd (suc (length m.m_var_values)) f []
  m' ← generate_exact o cudd (suc (length m.m_var_values)) f (record m {
    m_exp_costs = costs;
    m_esop = [];
    m_var_values = replicate (length m.m_var_values) unused;
  })
  some (m'.m_esop, m')

unfoldable pub extract_all :
    HashOrder → Cudd → List (Option ℕ) → Psdkro → Option (List (List Cube32))
extract_all o cudd [] m = some []
extract_all o cudd (f ∷ fs) m = do
  (esop, m') ← extract_esop o cudd f m
  esops ← extract_all o cudd fs m'
  some (esop ∷ esops)

abbrev pub empty_psdkro : ℕ → Psdkro
empty_psdkro size = record {
  m_vars = [];
  m_var_values = replicate size unused;
  m_exp_costs = [];
  m_esop = [];
}

-- Prints a message and exits on more than 32 variables.
unfoldable pub bdd_extract : HashOrder → Cudd → ℕ → List (Option ℕ) → Option Extraction
bdd_extract o cudd read_size bdd = if ltb 32 read_size then some exits else do
  fncts ← extract_all o cudd bdd (empty_psdkro read_size)
  some (extracted (record { kind = Kind.esop; n_inputs = read_size; cubes = fncts }))

-- ===== src/Aig.antt =====
-- source/base/collapse.hpp and source/base/collapse.cpp: the ESOPs of an AIG's nodes, in
-- topological order, by multiplying out (`aig_extr_mngr`).
pub mod AddCube
pub mod Product
pub mod Nodes
pub mod Simulate
pub mod Correct
pub mod Support
pub mod Unread
pub mod Gap
mod Examples
use losys.Base.{
  ◌||◌, ◌++◌, ◌==◌, ltb, ◌>>=◌, get_or, set, replicate, ℕ, zero, suc, ◌+◌, ◌<◌, Bool, true, false,
  if◌then◌else◌, Option, none, some, List, [], ◌∷◌, length,
}
use losys.Kernel.TwoLvl32.{Kind, TwoLvl32}
use losys.Kernel.Cube32.{
  cube32, cube32_zero, conj, n_lits, invert, ne, shl32, Cube32, cube32_one, eq, rotate, merge,
}
use losys.Kernel.CubeSet.{HashOrder, find, contains, erase, insert}

-- The `for` loop of `add_cube`: the first cube of the set that one or two rotations of a literal
-- reach, from the variable `i` on, with `left` to go.
unfoldable pub find_neighbour : ℕ → ℕ → Cube32 → List Cube32 → Option Cube32
find_neighbour zero i cube0 s = none
find_neighbour (suc left) i cube0 s =
    let cube1 = rotate i cube0 in
    elim (find cube1 s) [
      | some c_tmp ↦ some c_tmp
      | none ↦ elim (find (rotate i cube1) s) [
        | some c_tmp ↦ some c_tmp
        | none ↦ find_neighbour left (i + 1) cube0 s
      ]
    ]

-- The `do` loop of `add_cube`; `none` means that the fuel ran out.
unfoldable pub add_cube_loop : HashOrder → ℕ → ℕ → Cube32 → List Cube32 → Option (List Cube32)
add_cube_loop o zero n cube0 s = none
add_cube_loop o (suc fuel) n cube0 s = elim (contains cube0 s) [
  | true ↦ some (erase cube0 s)
  | false ↦ elim (eq cube0 cube32_one) [
    | true ↦ some (insert o cube0 s)
    | false ↦ elim (find_neighbour n 0 cube0 s) [
      | none ↦ some (insert o cube0 s)
      | some c_tmp ↦ add_cube_loop o fuel n (merge cube0 c_tmp) (erase c_tmp s)
    ]
  ]
]

-- Each round takes a cube out of the set, so one round more than the set has cubes is enough.
unfoldable pub add_cube : HashOrder → ℕ → Cube32 → List Cube32 → Option (List Cube32)
unfolding add_cube_loop
add_cube o n cube0 m_curr_esop = add_cube_loop o (suc (length m_curr_esop)) n cube0 m_curr_esop

-- What the code reads of ABC's `Gia_Man_t`, in the order in which its iterators give it.
pub record AndNode : Type 0 where
  pub id : ℕ
  pub fanin0 : ℕ
  pub compl0 : Bool
  pub fanin1 : ℕ
  pub compl1 : Bool

pub record Output : Type 0 where
  pub fanin : ℕ
  pub compl : Bool

pub record Gia : Type 0 where
  pub n_objs : ℕ
  pub ci_ids : List ℕ
  pub ands : List AndNode
  pub cos : List Output

-- The state of `aig_extr_mngr`, less the loggers and the AIG.
pub record AigExtrMngr : Type 0 where
  pub m_esops : List (List Cube32)
  pub m_esop0 : List Cube32
  pub m_esop1 : List Cube32
  pub m_curr_esop : List Cube32

-- `prepare_input` leaves this in `out`.
complement : List Cube32 → List Cube32
complement [] = cube32_one ∷ []
complement (first ∷ rest) =
    if eq first cube32_one
    then rest
    else if n_lits first == 1
    then invert first ∷ rest
    else cube32_one ∷ first ∷ rest

unfoldable pub prepare_input : ℕ → Bool → List (List Cube32) → List Cube32
unfolding complement
prepare_input idx cmpl m_esops =
    if cmpl then complement (get_or m_esops idx []) else get_or m_esops idx []

-- The inner loops of `compute_and`.
unfoldable pub add_all : HashOrder → ℕ → List Cube32 → List Cube32 → Option (List Cube32)
add_all o n [] curr = some curr
add_all o n (cube1 ∷ esop1) curr = do curr' ← add_cube o n cube1 curr; add_all o n esop1 curr'

unfoldable pub add_product : HashOrder → ℕ → Cube32 → Cube32 → List Cube32 → Option (List Cube32)
add_product o n cube0 cube1 curr =
    if eq cube1 cube32_one
    then add_cube o n cube0 curr
    else if ne (conj cube0 cube1) cube32_zero
    then add_cube o n (conj cube0 cube1) curr
    else some curr

unfoldable pub add_row : HashOrder → ℕ → Cube32 → List Cube32 → List Cube32 → Option (List Cube32)
add_row o n cube0 [] curr = some curr
add_row o n cube0 (cube1 ∷ esop1) curr = do
  curr' ← add_product o n cube0 cube1 curr
  add_row o n cube0 esop1 curr'

unfoldable pub multiply :
    HashOrder → ℕ → List Cube32 → List Cube32 → List Cube32 → Option (List Cube32)
multiply o n [] esop1 curr = some curr
multiply o n (cube0 ∷ esop0) esop1 curr = do
  curr' ← if eq cube0 cube32_one then add_all o n esop1 curr else add_row o n cube0 esop1 curr
  multiply o n esop0 esop1 curr'

is_empty : List Cube32 → Bool
is_empty [] = true
is_empty (c ∷ cs) = false

unfoldable pub compute_and : HashOrder → ℕ → ℕ → AigExtrMngr → Option AigExtrMngr
unfolding is_empty
compute_and o n index m = if is_empty m.m_esop0 || is_empty m.m_esop1 then some m else do
  curr ← multiply o n m.m_esop0 m.m_esop1 m.m_curr_esop
  some (record m {
    m_esops = set m.m_esops index (get_or m.m_esops index [] ++ curr);
    m_curr_esop = [];
  })

-- The three loops of `run`. The one over the inputs gives the `i`-th the cube of its literal.
unfoldable pub input_esops : ℕ → List ℕ → List (List Cube32) → List (List Cube32)
input_esops i [] m_esops = m_esops
input_esops i (id ∷ ids) m_esops =
    input_esops (i + 1) ids
      (set m_esops id (get_or m_esops id [] ++ cube32 (shl32 1 i) (shl32 1 i) ∷ []))

unfoldable pub and_step : HashOrder → ℕ → AndNode → AigExtrMngr → Option AigExtrMngr
and_step o n obj m = compute_and o n obj.id (record m {
  m_esop0 = prepare_input obj.fanin0 obj.compl0 m.m_esops;
  m_esop1 = prepare_input obj.fanin1 obj.compl1 m.m_esops;
})

unfoldable pub and_esops : HashOrder → ℕ → List AndNode → AigExtrMngr → Option AigExtrMngr
and_esops o n [] m = some m
and_esops o n (obj ∷ objs) m = do m' ← and_step o n obj m; and_esops o n objs m'

unfoldable pub output_esops : List Output → List (List Cube32) → List (List Cube32)
output_esops [] m_esops = []
output_esops (obj ∷ objs) m_esops =
    prepare_input obj.fanin obj.compl m_esops ∷ output_esops objs m_esops

unfoldable pub run : HashOrder → Gia → Option TwoLvl32
run o m_aig = do
  let n = length m_aig.ci_ids
  m ← and_esops o n m_aig.ands (record {
    m_esops = input_esops 0 m_aig.ci_ids (replicate m_aig.n_objs []);
    m_esop0 = [];
    m_esop1 = [];
    m_curr_esop = [];
  })
  some (record { kind = Kind.esop; n_inputs = n; cubes = output_esops m_aig.cos m.m_esops })

-- `aig_extract` prints a message and exits on more than 32 inputs.
pub data Extraction : Type 0 where
  exits : Extraction
  extracted : TwoLvl32 → Extraction

unfoldable pub aig_extract : HashOrder → Gia → Option Extraction
aig_extract o aig =
    if ltb 32 (length aig.ci_ids) then some exits else do ret ← run o aig; some (extracted ret)

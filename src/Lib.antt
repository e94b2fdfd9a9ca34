-- ===== src/Lib.antt =====
-- losys, tools for ESOPs (exclusive sums of products): the cube arithmetic, the collapse of an AIG
-- or of a BDD into one ESOP for each output, the exorcism of an ESOP into fewer cubes, the PLA files,
-- and the command line tools.
--
-- The program's parts. A cube (source/kernel/cube32.hpp) is a conjunction of literals in two 32-bit
-- words. A two-level function (source/kernel/two_lvl32.hpp) has a list of cubes for each output.
-- `aig_extract` (source/base/collapse.cpp) walks an AIG of ABC in topological order and keeps an
-- ESOP for each node; `bdd_extract` (source/bdd/collapse.cpp) expands each node of a BDD of CUDD by
-- the cheapest of three expansions. The result of either goes to `exorcise`
-- (source/opt/exorcism32.cpp), which reshapes pairs of cubes until no cube is saved any more. All
-- keep their cubes in hash sets. `esop_to_aig` turns the result into an AIG again, to compare it.
-- `aig_to_bdd` makes the BDDs that `bdd_extract` takes. The tool `exorcism` reads a PLA file
-- (source/io/read_pla.hpp) and minimizes it; the tool `collapse` cofactors an AIG on its first
-- inputs, collapses each cofactor by one of the two methods, adds the cofactored variables to the
-- cubes, stitches the results together, exorcising in between if asked to, and writes a PLA file for
-- each output (source/io/write_pla.hpp).
--
-- The files.
--   Base, Base/*: Booleans, lists and options; bits of words, `popcount`, and products of Booleans.
--   Kernel/Cube32: `cube32`, its methods and operators, `difference`, `distance`, `merge`. In
--     Kernel/Cube32/*: what a cube means (Meaning: `eval` at an assignment of the variables, and
--     `IsCube n`, whose literals are of the first `n` variables), and the operations against it.
--   Kernel/TwoLvl32: `two_lvl32` and its methods; Kernel/TwoLvl32/Text is about the rows of a
--     PLA, Kernel/TwoLvl32/Shape about the variables of the cubes that a row adds.
--   Kernel/CubeSet: `std::unordered_set<cube32, cube32_hash>` as the list of its elements in the
--     order of iteration. Where an insertion puts an element, and how it moves the others, is the
--     parameter `HashOrder`: the result is a permutation of the new element and the old ones, and a
--     function of both; a number of buckets that depends on the elements erased before is left out.
--     Kernel/CubeSet/*: `eval_esop`, the exclusive sum of a list of cubes, and the set invariant.
--   Aig: `aig_extr_mngr` and `aig_extract` of source/base/collapse.hpp and collapse.cpp, over the
--     part of ABC's `Gia_Man_t` that the code iterates over (`Gia`). Aig/AddCube is about
--     `add_cube`, Aig/Product about `compute_and` and `prepare_input`, Aig/Nodes and Aig/Simulate
--     about the walk over the AND nodes, Aig/Correct about the whole; Aig/Gap is about 32 inputs.
--     Aig/Support and Aig/Unread are about the inputs that nothing reads.
--   Bdd: `psdkro` and `bdd_extract` of source/bdd/collapse.hpp and collapse.cpp, over the functions
--     of CUDD that they call (`Cudd`). Bdd/Costs, Bdd/CostOf and Bdd/Recalls are about
--     `count_cubes`, with the plain recursion `cost_of` beside it; Bdd/Path, Bdd/Branches,
--     Bdd/Generate, Bdd/Branch and Bdd/Expand are about `generate_exact`, Bdd/Correct about the whole,
--     Bdd/Few and Bdd/Least about the number of cubes.
--     Bdd/OneVar is a diagram over one variable.
--   Exorcism: `exorlink` and the group tables. Exorcism/Manager: the state of `exorcism_mngr` and
--     `add_cube`; Exorcism/Passes: `exorlink2` and `exorlink3`; Exorcism/Run: the constructor, `run`
--     and `exorcise`. Of the others Positions, Link, Table, LinkCubes and Exorlink are about
--     `exorlink`; Invariant, Scan, Buckets, Store and AddCube about `add_cube`; Rollback, Removal, Attempts,
--     TryTwo, Reshape, ReshapeThree and Turns about the passes; Iterate, Rounds and Correct about `run`
--     and `exorcise`.
--   Xforms: `esop_to_aig` of source/xforms/esop_to_aig.cpp, over the functions of ABC that it calls
--     (`GiaOps`). Xforms/Builder has what ABC promises of them, Xforms/EsopToAig the theorem.
--   Xforms/AigToBdd: `aig_to_bdd` of source/xforms/aig_to_bdd.cpp, over `BddOps`. Xforms/AigToBdd/Gates
--     is about the loops, Correct about the outputs, Method about `bdd_extract` behind it.
--   Pla: source/io. Pla/Stream is the stream of a PLA text and the reading of its lines, Pla/Decimal
--     and its child `<<` and `>>` on an unsigned number, Pla/Read `read_pla` and its header parser, Pla/Write
--     `write_pla`. Of the others Progress, HeaderBounds and Header are about the header, Chars, Rows
--     and Stops about the loop over the rows, WellFormed and RoundTrip about the whole.
--   Tools/FileNames: the tests of the file names, and in its child their laws. Tools/Exorcism: `main`
--     of tools/exorcism/main.cpp and the command line of source/main.cpp. Tools/Collapse: `main` of
--     tools/collapse/main.cpp. Tools/Collapse/Cofactors, Stitch and Slices are about the cofactors,
--     the appended cubes and the result of each cofactor, Correct about an AIG, Main about a run;
--     Tools/Collapse/Fold has a function that cofactors an AIG.
--   Pipeline: the collapse of an AIG followed by `exorcise`.
--   */Examples: the theorems at concrete inputs, and small runs.
--
-- The correspondence. Fields, methods and local names are the source's; a method that changes its
-- object takes the state and gives the new one. A 32-bit word is a native number, with `~`, `<<`,
-- unary minus and unsigned subtraction written out on 32 bits. A method that does not always return
-- is in `Option`, whose `none` is a loop out of fuel, the front of an empty vector or a read past
-- the cubes of `exorlink`, or a failed assertion; that it does not occur is part of the theorems.
-- The recursion of `psdkro` has one unit of fuel for each variable and one more, since the variables
-- on a path of a diagram are in order. The recursion of either `add_cube` of the hash sets has one
-- unit of fuel for each cube of the sets and one more, since each call takes a cube out first. `run`
-- has three iterations for each cube and three more, since an iteration either saves a cube or
-- counts towards the three after which it stops. The loops of `read_pla` have one round for each byte
-- that is left and one more (the header) or two more (the rows), since a round that goes on takes a
-- byte.
--
-- A text is a list of bytes, and a stream what is left of it with the bits `eofbit` and `failbit`;
-- `peek`, `getline` and `>>` have the behaviour of the standard library on each. The first byte of an
-- empty string is 0. What `getopt` and CLI11 find on the command line, the files that can be read
-- and the AIGs that ABC reads are arguments. So is the object before anything is assigned to it
-- (`fresh`), whose kind and number of inputs are not initialised in the source. In `aig_to_bdd`,
-- `none` is a `BDD` that no manager has made, and an operation on it is a crash; its node is null, and
-- `extract_esop` tests for that. In `collapse`, an AIG that cannot be read is a crash.
--
-- Assumed of ABC (`Aig.Correct.IsAig`): the inputs are distinct objects, an AND node comes after its
-- fanins, and an output reads an object that is there. Assumed of CUDD (`Bdd.Diagram.IsDiagram`):
-- the nodes are decision diagrams over `n` variables in some order, with the meaning of negation and
-- exclusive or that its manual gives; it does not run out of memory. Assumed of the manager that ABC
-- fills (`Xforms.Builder.IsAbc`): nodes and outputs are added, and what was there stays. Assumed of
-- the operations of CUDD (`Xforms.AigToBdd.Gates.IsBddOps`): a variable, a complement and a
-- conjunction stand for what they are named after. Assumed of the cofactors that ABC makes
-- (`Tools.Collapse.Cofactors.IsCofactorOps`): a cofactor is an AIG over the same inputs that computes
-- what the AIG computes with the variable fixed, and reads neither that variable nor one that the
-- AIG does not read.
--
-- Not modelled: logging, timing, `print_stats` and what is only printed; the handler of SIGINT; the
-- reordering of the BDDs, which changes their order of variables and not what they stand for; the
-- function `test` of source/xforms/aig_to_bdd.cpp, which is called nowhere; the
-- repository's tests, and the libraries in third-party. The
-- verdict of ABC on the miter at the end of `collapse` has no effect on the run.
pub mod Base
pub mod Kernel
pub mod Pla
pub mod Aig
pub mod Bdd
pub mod Exorcism
pub mod Xforms
pub mod Pipeline
pub mod Tools

-- ===== src/Kernel.antt =====
-- source/kernel: the cubes and the two-level functions made of them.
pub mod Cube32
pub mod CubeSet
pub mod TwoLvl32

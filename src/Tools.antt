-- ===== src/Tools.antt =====
-- The command line tools: source/main.cpp, tools/exorcism/main.cpp and tools/collapse/main.cpp.
pub mod FileNames
pub mod Exorcism
pub mod Collapse
mod Examples

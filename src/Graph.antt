-- ===== src/Graph.antt =====
-- The dependency graph of a workflow, and the functions of the console that walk it.
pub mod Walks
pub mod Cycle
pub mod Compare
pub mod Below
pub mod Topo

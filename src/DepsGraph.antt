-- ===== src/DepsGraph.antt =====
-- src/tools/deps_graph: where the imports of a file lead.
pub mod Imports
pub mod Query
pub mod Depth
pub mod Queue
pub mod Within
pub mod Relative
pub mod Sound
pub mod Reference

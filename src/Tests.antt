-- ===== src/Tests.antt =====
-- Runs of the definitions on small inputs, and the theorems applied there.
pub mod Fixtures
pub mod Refreshes
pub mod Texts
pub mod Projects
pub mod Calls
pub mod Sessions
pub mod Frames
pub mod Lines
pub mod Imports
pub mod Trees
pub mod Configs
pub mod Linters
pub mod Audited
pub mod Indexed
pub mod Audits
pub mod Graphs

-- ===== src/Tests.antt =====
-- Tests and examples: the theorems at concrete inputs.
pub mod Values
pub mod Runs
pub mod Limits
pub mod Commands
pub mod Processes
pub mod Texts
pub mod Index

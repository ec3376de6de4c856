-- ===== src/Cogs/Jobs.antt =====
-- cogs/jobs.py: the commands `/status` and `/cancel`.
pub mod Found
pub mod Access
pub mod Status
pub mod Cancel
pub mod Rights
pub mod Effects
pub mod Privacy

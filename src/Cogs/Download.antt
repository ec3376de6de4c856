-- ===== src/Cogs/Download.antt =====
-- cogs/download.py: the command `/download`.
pub mod Command
pub mod Refusals
pub mod Tokens
pub mod Unpaid

-- ===== src/Bot.antt =====
-- bot.py and presence.py: the process that holds the gateway.
pub mod Errors
pub mod Presence
pub mod Lifecycle

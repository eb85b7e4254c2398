-- ===== src/Playback.antt =====
-- Which play owns the player, and which items are the same: parts of player.py and
-- playback_service.py.
pub mod Intents
pub mod Same
pub mod Preserve
mod Tests

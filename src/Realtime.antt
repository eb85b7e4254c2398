-- ===== src/Realtime.antt =====
-- The realtime channel of app/relaytv_app/realtime.py.
pub mod Inbox
pub mod Hub
pub mod Metrics
pub mod Origin
mod Tests

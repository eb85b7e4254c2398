-- ===== src/SeerrSessions.antt =====
-- The caller sessions of Seerr's Quick Connect, app/relaytv_app/integrations/seerr_sessions.py.
pub mod Tables
pub mod Upstream
pub mod Connect
mod Tests

-- ===== src/Queue.antt =====
-- The playback queue: instance ids and revisions (state.py), the commands of playback_service.py and
-- the handlers of routes/queue.py, under app/relaytv_app/.
pub mod Item
pub mod Ids
pub mod Store
pub mod Service
pub mod Routes
pub mod Dedupe
pub mod Play
mod Tests

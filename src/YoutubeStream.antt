-- ===== src/YoutubeStream.antt =====
-- app/relaytv_app/youtube_stream.py: bounded-range transport for resolved YouTube media.
pub mod Range
pub mod Sources
pub mod Fetch
mod Tests

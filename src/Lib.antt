-- ===== src/Lib.antt =====
-- RelayTV: a television that plays what it is sent. A FastAPI process keeps a playback queue, drives a
-- player, and talks to browsers, peers and media services. Modelled here, under app/relaytv_app/:
--
-- Prelude        Python's own: dicts in insertion order, text as code points, JSON values, HTTP answers.
-- Queue          The playback queue. Queue.Item, Queue.Ids and Queue.Store are the instance ids, the
--                revision and the mutation scopes of state.py (`queue_item_id`, `_RevisionedQueue`,
--                `ensure_queue_item_ids`, `queue_mutation_scope`); Queue.Service the commands of
--                playback_service.py (`queue_item`, `queue_items`, `queue_item_next`, `clear_queue`,
--                `remove_queue_items_by_id`, `queue_import`, `queue_commit`); Queue.Routes,
--                Queue.Play and Queue.Dedupe the handlers `queue_remove`, `queue_move`, `queue_play`
--                and `queue_dedupe` of routes/queue.py. The handlers use the store, and the store the
--                ids; the revision and the scopes tell `queue_play` whether it may put an entry back.
-- Publisher      `_Publisher` of state.py, which writes a store's snapshots to its file.
-- YoutubeStream  youtube_stream.py: the registry of proxied sources (YoutubeStream.Sources), byte ranges
--                (YoutubeStream.Range) and the bounded fetches (YoutubeStream.Fetch).
-- SeerrSessions  integrations/seerr_sessions.py: the tables of flows and sessions with each critical
--                section (SeerrSessions.Tables), the checks of replies and settings
--                (SeerrSessions.Upstream), and the calls composed of them (SeerrSessions.Connect).
-- FormatPolicy   ytdlp_format_policy.py, with `env_bool` of config.py: the caps (FormatPolicy), and the
--                selectors composed with them (FormatPolicy.Formats).
-- UrlBoundary    url_boundary.py: `parse_url`, `ParsedUrl.netloc`, `host_matches`.
-- PublicMedia    public_media.py, which uses UrlBoundary: the copies of items that are shown.
-- History        `_history_add`, `_history_update` and `_history_contains` of state.py.
-- ApiAuth        api_auth.py: the token guard and the check for cross-site requests.
-- DeviceIdentity device_identity.py: `device_id` and `device_name`.
-- Realtime       realtime.py: the bounded inbox of one subscriber (Realtime.Inbox), and the hub that
--                numbers the events of a channel, keeps its snapshots and hands both to the event
--                loops of the subscribers (Realtime.Hub), its metrics (Realtime.Metrics), and the
--                check of a WebSocket's origin (Realtime.Origin).
-- Playback       Which play owns the player (Playback.Intents, of player.py), and of playback_service.py
--                which items are the same (Playback.Same) and the claims on the entry that an
--                interrupted playback leaves at the front of the queue (Playback.Preserve).
-- UploadStore    upload_store.py: the ids and directories (UploadStore), file names and URLs
--                (UploadStore.Names), stored metadata and items (UploadStore.Files), the cleanup
--                (UploadStore.Cleanup), and the play sessions with the loop of `ingest_media_play` of
--                routes/uploads.py that drives them (UploadStore.Session).
--
-- State is a record that an operation takes and returns; a critical section under a lock is one step,
-- and what other threads do between two sections is a list of steps. Errors are values: Option for a
-- ValueError, `Http` for a handler's answer, `Result` for a `SeerrError`.
--
-- Bounds and fuel. A clock reading is a number of nanoseconds. `stream_from` runs on fuel, one unit for
-- each byte that is still to come, and each round fetches a byte at least, so that it never runs out;
-- `show` takes n + 1 units for n, and each round divides by 10. `lower` and `upper` are those of ASCII
-- text. A process draws at most 2^64 ids.
--
-- Parameters stand for what is not in the repository: `urlsplit`, `parse_qs`, `parse_qsl`, `urlencode`
-- and `urlunsplit`, `token_urlsafe`, the environment, `int(float(s))`,
-- `uuid4().hex`, `SimpleCookie.load`, `int()` of a JSON value, the clock, the media server, Seerr's
-- replies, the disk, `isdecimal` and `int` of a URL's length, `urlparse`, `unquote`, `commonpath`, `rmtree`, `mimetypes`, and the arithmetic on
-- floats of an upload's throughput. The resolver's URL functions
-- are parameters of Playback.Same. `queue_play` takes the play of an item, which is the player's, and
-- what other threads do meanwhile as parameters, and `queue_dedupe` takes `canonical_url_key` of integrations/jellyfin_service.py.
--
-- Not modelled: the player beyond its intents and its screens (player.py, qt_shell_app.py,
-- overlay_app.py), the resolver, the services of Jellyfin, Plex, IPTV and Seerr beyond its sessions,
-- settings, thumbnails, peers and discovery; of the uploads the JSON files on the disk, with failures to
-- write them but the one that an early start catches, and the other two handlers; and of the queue's
-- list the methods that nothing calls. What follows a change of the queue in its handler, the write of the file, the player's caches and the events of the user interface, does not change
-- the queue and is left out.
pub mod Prelude
pub mod YoutubeStream
pub mod Queue
pub mod Publisher
pub mod SeerrSessions
pub mod Realtime
pub mod FormatPolicy
pub mod UrlBoundary
pub mod UploadStore
pub mod Playback
pub mod PublicMedia
pub mod ApiAuth
pub mod DeviceIdentity
pub mod History

-- ===== src/UploadStore/Session.antt =====
-- The play session of an upload in upload_store.py, and the loop of `ingest_media_play` in
-- routes/uploads.py that drives it. The arithmetic on floats is a parameter; the times at which a
-- session was made and last changed are left out, and of the writes to the disk all but the one after
-- an early start, whose failure the handler takes for a failed start.
pub mod Once
use relaytv.UploadStore.Files.{first_of}
use relaytv.Prelude.{contains}
use relaytv.Prelude.{max}
use relaytv.UploadStore.{before_semicolon}
use relaytv.Prelude.{
  codes_eq, ◌≟◌, ◌&&◌, ◌||◌, ◌+◌, ◌-◌, Bool, true, false, Option, none, some, List, [], ◌∷◌, ◌++◌,
  codes, Text, ℕ, not, is_empty, if◌then◌else◌, strip, lower, ltb, leb, ◌==◌, suc,
}
use relaytv.Prelude.Http.{Http, reply, failed, ◌>>=◌}

pub data Status : Type 0 where
  uploading : Status
  fallback_full_upload : Status
  started_progressive : Status
  completed : Status
  uploaded : Status
  playing : Status

pub record PlaySession : Type 0 where
  pub status : Status
  pub mime_type : Text
  pub last_chunk : ℕ
  pub bytes_received : ℕ
  pub chunk_count : ℕ
  pub throughput : ℕ
  pub ready_threshold : ℕ
  pub progressive_started : Bool
  pub fallback_to_full_upload : Bool
  pub fallback_reason : Text
  pub upload_complete : Bool
  pub playback_started : Bool
  pub playback_mode : Text

-- What the environment sets.
pub record Progressive : Type 0 where
  pub mp4_ready : ℕ
  pub webm_ready : ℕ
  pub max_stall : ℕ
  pub min_throughput : ℕ

unfoldable pub progressive_ready_threshold : Progressive → Text → ℕ
unfolding before_semicolon strip lower
progressive_ready_threshold p content_type =
    let mime = lower (strip (before_semicolon content_type)) in
    if mime ≟ codes "video/mp4"
    then p.mp4_ready
    else if mime ≟ codes "video/webm"
    then p.webm_ready
    else 0

unfoldable pub new_play_session : Progressive → Text → PlaySession
unfolding progressive_ready_threshold strip lower
new_play_session p content_type =
    let mime = lower (strip content_type) in
    record {
      status = uploading;
      mime_type = mime;
      last_chunk = 0;
      bytes_received = 0;
      chunk_count = 0;
      throughput = 0;
      ready_threshold = progressive_ready_threshold p mime;
      progressive_started = false;
      fallback_to_full_upload = false;
      fallback_reason = [];
      upload_complete = false;
      playback_started = false;
      playback_mode = [];
    }

unfoldable pub mark_session_fallback : Text → PlaySession → PlaySession
unfolding strip
mark_session_fallback reason s = record s {
  status = fallback_full_upload;
  fallback_to_full_upload = true;
  fallback_reason = strip reason;
}

unfoldable pub mark_session_progressive_started : PlaySession → PlaySession
mark_session_progressive_started s = record s {
  status = started_progressive;
  progressive_started = true;
  playback_started = true;
  playback_mode = codes "progressive";
}

unfoldable pub mark_session_complete : PlaySession → PlaySession
mark_session_complete s = record s {
  upload_complete = true;
  status =
      if s.playback_started
      then completed
      else if s.fallback_to_full_upload
      then fallback_full_upload
      else uploaded;
}

unfoldable pub mark_session_completed_playback : Text → PlaySession → PlaySession
unfolding strip
mark_session_completed_playback mode s = record s {
  status = playing;
  playback_started = true;
  playback_mode = first_of (strip mode) (codes "full_upload");
}

-- One read of at most 1 MiB, and what the world is like after it: the file's presence, whether its
-- head looks playable, whether a playback that is tried now begins, and whether the session is then
-- written.
pub record Chunk : Type 0 where
  pub size : ℕ
  pub started : ℕ
  pub finished : ℕ
  pub now : ℕ
  pub exists_file : Bool
  pub probe : Bool
  pub plays : Bool
  pub saves : Bool

-- `rate bytes duration` is bytes a second, and `blend prior current` the moving average.
module _ (rate blend : ℕ → ℕ → ℕ) where
  unfoldable pub mark_session_progress : ℕ → Chunk → PlaySession → PlaySession
  mark_session_progress bytes_received ch s =
      let delta = bytes_received - s.bytes_received in
      let moved = if delta == 0 then ch.size else delta in
      let current = rate moved (max (1000000) (ch.finished - ch.started)) in
      record s {
        bytes_received = bytes_received;
        chunk_count = s.chunk_count + (if ltb 0 ch.size then 1 else 0);
        last_chunk = ch.finished;
        throughput = if s.throughput == 0 then current else blend s.throughput current;
      }

unfoldable pub progressive_upload_health : Progressive → ℕ → PlaySession → Bool × Text
progressive_upload_health p now s =
    if s.last_chunk == 0
    then (false, codes "waiting_for_upload")
    else if ltb p.max_stall (now - s.last_chunk)
    then (false, codes "upload_stalled")
    else if ltb 0 s.throughput && ltb s.throughput p.min_throughput
    then (false, codes "upload_slow")
    else if ltb s.chunk_count 2
    then (false, codes "warming_up")
    else (true, [])

abbrev pub unless : Bool × Text → Bool × Text → Bool × Text
unless (true, reason) next = next
unless (false, reason) next = (false, reason)

unfoldable pub progressive_start_ready : Progressive → Chunk → PlaySession → Bool × Text
unfolding progressive_upload_health
progressive_start_ready p ch s =
    if s.progressive_started
    then (false, codes "already_started")
    else if s.fallback_to_full_upload
    then (false, first_of s.fallback_reason (codes "fallback_full_upload"))
    else if s.ready_threshold == 0
    then (false, codes "mime_not_supported")
    else if ltb s.bytes_received s.ready_threshold
    then (false, codes "buffering")
    else unless (progressive_upload_health p ch.now s) (
        if not ch.exists_file
        then (false, codes "file_missing")
        else if not ch.probe
        then (false, codes "probe_failed")
        else (true, []))

-- The variables of `ingest_media_play`; `plays` counts the playbacks that began.
pub record Ingest : Type 0 where
  pub session : PlaySession
  pub size_bytes : ℕ
  pub progressive_started : Bool
  pub fallback_reason : Text
  pub toast_sent : Bool
  pub plays : ℕ

unfoldable pub still_waiting : Text → Bool
unfolding contains
still_waiting reason =
    contains (codes "buffering" ∷ codes "warming_up" ∷ codes "waiting_for_upload" ∷ []) reason

abbrev pub start_failed : Ingest → Ingest
start_failed i = record i {
  session = mark_session_fallback (codes "start_failed") i.session;
  fallback_reason = codes "start_failed";
}

abbrev pub early_start : Ingest → Ingest
early_start i = record i {
  session = mark_session_progressive_started i.session;
  progressive_started = true;
  plays = suc i.plays;
}

-- Whether the playback begins, and whether the session is written after it began: the handler that
-- catches the failure of either is the same.
abbrev pub try_start : Bool → Bool → Ingest → Ingest
try_start true true i = early_start i
try_start true false i = start_failed (early_start i)
try_start false saves i = start_failed i

abbrev pub fall_back : Text → Ingest → Ingest
fall_back reason i =
    let said = first_of (strip reason) (codes "fallback_full_upload") in
    record i {
      session = mark_session_fallback said i.session;
      fallback_reason = said;
      toast_sent = true;
    }

abbrev pub decided : Bool → Bool → Bool × Text → Ingest → Ingest
decided plays saves (true, reason) i = try_start plays saves i
decided plays saves (false, reason) i = if still_waiting reason then i else fall_back reason i

abbrev pub too_large : Http Ingest
too_large = failed 413 (codes "Uploaded media exceeds configured storage size limit")

module _ (rate blend : ℕ → ℕ → ℕ) (p : Progressive) (max_bytes : ℕ) where
  unfoldable pub take_chunk : Chunk → Ingest → Http Ingest
  unfolding mark_session_progress progressive_start_ready still_waiting mark_session_fallback
      mark_session_progressive_started strip
  take_chunk ch i =
      let size = i.size_bytes + ch.size in
      let moved = record i {
        size_bytes = size;
        session = mark_session_progress rate blend size ch i.session;
      } in
      let next = decided ch.plays ch.saves (progressive_start_ready p ch moved.session) moved in
      if ltb max_bytes size
      then too_large
      else if i.progressive_started || moved.session.fallback_to_full_upload
      then reply moved
      else reply next

  -- The loop ends at the first empty read.
  unfoldable pub take_chunks : List Chunk → Ingest → Http Ingest
  unfolding take_chunk
  take_chunks [] i = reply i
  take_chunks (ch ∷ chs) i =
      let rest = take_chunk ch i >>= λ next. take_chunks chs next in
      if ch.size == 0 then reply i else rest

-- The end of the upload: `played` is what trying to play the full file ends with, where an error
-- that is no `HTTPException` stands as the 500 that the handler makes of it.
unfoldable pub finish_upload : Http (Unit {0}) → Ingest → Http Ingest
unfolding mark_session_complete mark_session_completed_playback
finish_upload played i =
    let session = mark_session_complete i.session in
    let full = played >>= λ begun. reply (record i {
      session = mark_session_completed_playback (codes "full_upload") session;
      toast_sent = i.toast_sent || session.fallback_to_full_upload;
      plays = suc i.plays;
    }) in
    if i.size_bytes == 0
    then failed 400 (codes "Uploaded media is empty")
    else if i.progressive_started
    then reply (record i { session = session })
    else full

abbrev pub new_ingest : Progressive → Text → Ingest
new_ingest p content_type = record {
  session = new_play_session p content_type;
  size_bytes = 0;
  progressive_started = false;
  fallback_reason = [];
  toast_sent = false;
  plays = 0;
}

unfoldable pub ingest_media_play :
    (ℕ → ℕ → ℕ) → (ℕ → ℕ → ℕ) → Progressive → ℕ → Text → List Chunk → Http (Unit {0}) → Http Ingest
unfolding take_chunks finish_upload new_play_session
ingest_media_play rate blend p max_bytes content_type chunks played =
    take_chunks rate blend p max_bytes chunks (new_ingest p content_type) >>= λ i.
    finish_upload played i

-- ===== src/UploadStore/Session/Once.antt =====
-- An upload that is played while it is received is played once.
use relaytv.Prelude.{codes}
use relaytv.UploadStore.Session.{Ingest}
use relaytv.Prelude.{true, ◌≡◌, ◌≤◌, ◌<◌, ℕ, if◌then◌else◌}
use relaytv.Prelude.Http.{Http, reply, failed}

-- What holds of the variables while chunks come in.
record IsGoing (max_bytes : ℕ) (i : Ingest) : Type 0 where
  counted : i.plays ≡ (if i.progressive_started then 1 else 0)
  begun : i.session.playback_started ≡ i.progressive_started
  mode :
      (if i.progressive_started then i.session.playback_mode else codes "progressive")
      ≡ codes "progressive"
  received : i.session.bytes_received ≡ i.size_bytes
  bounded : i.size_bytes ≤ max_bytes

abbrev Going : ℕ → Http Ingest → Type 0
Going max_bytes (reply i) = IsGoing max_bytes i
Going max_bytes (failed status detail) = Unit {0}

-- What the handler answers with when it succeeds.
pub record IsPlayed (max_bytes : ℕ) (i : Ingest) : Type 0 where
  pub once : i.plays ≡ 1
  pub begun : i.session.playback_started ≡ true
  pub complete : i.session.upload_complete ≡ true
  pub mode :
      i.session.playback_mode
      ≡ (if i.progressive_started then codes "progressive" else codes "full_upload")
  pub received : i.session.bytes_received ≡ i.size_bytes
  pub some_bytes : 0 < i.size_bytes
  pub bounded : i.size_bytes ≤ max_bytes

abbrev Played : ℕ → Http Ingest → Type 0
Played max_bytes (reply i) = IsPlayed max_bytes i
Played max_bytes (failed status detail) = Unit {0}

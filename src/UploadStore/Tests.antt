-- ===== src/UploadStore/Tests.antt =====
-- The upload theorems at concrete uploads.
use relaytv.UploadStore.Names.Stored.{sanitize_upload_filename-allowed}
use relaytv.UploadStore.Files.Answers.{item_from_url-media_exists}
use relaytv.UploadStore.Files.{build_item}
use relaytv.UploadStore.Names.{is_safe_code}
use relaytv.UploadStore.Files.{load_metadata}
use relaytv.UploadStore.{all_of}
use relaytv.Prelude.{contains}
use relaytv.UploadStore.Cleanup.Oldest.{evict-IsShortest}
use relaytv.UploadStore.Files.{gone}
use relaytv.UploadStore.Names.Safe.{upload_ref_from_url-upload_dir}
use relaytv.UploadStore.Cleanup.{evict}
use relaytv.Prelude.{◌/◌}
use relaytv.Prelude.{◌≢◌}
use relaytv.UploadStore.Files.{media_exists}
use relaytv.UploadStore.{has_slash}
use relaytv.UploadStore.Cleanup.Oldest.{victims}
use relaytv.UploadStore.Files.{item_from_url}
use relaytv.Prelude.{◌+◌}
use relaytv.Prelude.{◌++◌}
use relaytv.UploadStore.Cleanup.Active.{cleanup_files-active}
use relaytv.UploadStore.Session.{completed}
use relaytv.Prelude.{◌*◌}
use relaytv.UploadStore.Files.{Directory}
use relaytv.UploadStore.Session.{Ingest}
use relaytv.UploadStore.Cleanup.Oldest.{IsShortest}
use relaytv.UploadStore.Session.{ingest_media_play}
use relaytv.UploadStore.Names.{sanitize_upload_filename}
use relaytv.UploadStore.Cleanup.{Cleaning}
use relaytv.UploadStore.Files.{Disk}
use relaytv.UploadStore.Session.{Chunk}
use relaytv.UploadStore.Cleanup.{Listed}
use relaytv.UploadStore.Names.Safe.{IsComponent}
use relaytv.UploadStore.Session.{Progressive}
use relaytv.UploadStore.Files.{Meta}
use relaytv.UploadStore.Names.{upload_ref_from_url}
use relaytv.UploadStore.Cleanup.{cleanup_files}
use relaytv.Prelude.{
  codes_eq, refl, true, false, ◌≡◌, ◌⊎◌, none, some, List, [], ◌∷◌, ℕ, codes, Text, Bool, Option,
}
use relaytv.Prelude.Dict
use relaytv.Prelude.Http.{Http, reply, failed}

abbrev id_a : Text
id_a = codes "u_0123456789abcdef0123"

abbrev id_b : Text
id_b = codes "u_fedcba98765432100123"

abbrev meta_of : Text → ℕ → ℕ → Meta
meta_of id size created = record {
  id = id;
  filename = codes "clip.mp4";
  public_name = codes "clip.mp4";
  stored_name = codes "clip.mp4";
  title = codes "Clip";
  mime_type = codes "video/mp4";
  size_bytes = size;
  created = created;
}

abbrev directory : Text → ℕ → ℕ → Directory
directory id size created = record {
  details = some (meta_of id size created);
  files = (codes "clip.mp4", some size) ∷ [];
}

abbrev two_uploads : Disk
two_uploads = (id_a, directory id_a 40 100) ∷ (id_b, directory id_b 50 200) ∷ []

abbrev yes : Text → Bool
yes name = true

abbrev all_removed : Text → Directory → Option Directory
all_removed name directory = none

abbrev same_path : Text → Option Text
same_path url = some url

abbrev plain : Text → Text
plain s = s

-- The older upload makes room.
older_goes :
    (cleanup_files yes all_removed [] [] 60 0 two_uploads).disk ≡ (id_b, directory id_b 50 200) ∷ []
unfolding cleanup_files relaytv.Prelude.codes_beq Dict.pop
older_goes = refl

-- Where the older one is in progress, the newer one goes although it alone would fit.
newer_goes :
    (cleanup_files yes all_removed (id_a ∷ []) (id_a ∷ []) 60 0 two_uploads).disk
    ≡ (id_a, directory id_a 40 100) ∷ []
unfolding cleanup_files relaytv.Prelude.codes_beq Dict.pop
newer_goes = refl

cleanup_files-active_example :
    Dict.get (cleanup_files yes all_removed (id_a ∷ []) (id_a ∷ []) 60 0 two_uploads).disk id_a
    ≡ Dict.get two_uploads id_a
unfolding contains relaytv.Prelude.codes_beq
cleanup_files-active_example =
    cleanup_files-active yes all_removed (id_a ∷ []) (id_a ∷ []) 60 0 two_uploads id_a refl refl

abbrev listed : Text → ℕ → ℕ → Listed
listed id size created = record { id = id; size_bytes = size; created = created; available = true }

abbrev before_pass : Cleaning
before_pass = record { disk = two_uploads; deleted = 0; total = 90; valid = [] }

abbrev both : List Listed
both = listed id_a 40 100 ∷ listed id_b 50 200 ∷ []

evict-IsShortest_example :
    (k : ℕ) × IsShortest yes all_removed 60
      (victims [] both)
      before_pass
      (evict yes all_removed [] 60 both before_pass)
      k
evict-IsShortest_example = evict-IsShortest yes all_removed [] 60 both before_pass

abbrev clip_url : Text
clip_url = codes "/media/uploads/u_0123456789abcdef0123/clip.mp4"

upload_ref_from_url-upload_dir_example : IsComponent id_a × (has_slash (codes "clip.mp4") ≡ false)
unfolding upload_ref_from_url relaytv.UploadStore.upload_dir
upload_ref_from_url-upload_dir_example =
    upload_ref_from_url-upload_dir same_path plain yes clip_url id_a (codes "clip.mp4") id_a refl
      refl

-- A separator that `unquote` lets out of a part makes no reference.
abbrev decode_up : Text → Text
decode_up part = codes "../../data"

escape_refused :
    upload_ref_from_url same_path decode_up (codes "/media/uploads/..%2F..%2Fdata/meta.json") ≡ none
unfolding upload_ref_from_url
escape_refused = refl

item_from_url-media_exists_example :
    ((upload_ref_from_url same_path plain clip_url ≡ none)
      × (item_from_url yes same_path plain clip_url two_uploads
          ≡ failed 400 (codes "invalid upload url")))
    ⊎ ((ref : Text × Text) × (upload_ref_from_url same_path plain clip_url ≡ some ref)
        × (((media_exists yes ref.0 two_uploads ≡ false)
              × (item_from_url yes same_path plain clip_url two_uploads ≡ gone))
            ⊎ ((meta : Meta) × (media_exists yes ref.0 two_uploads ≡ true)
                × (load_metadata yes ref.0 two_uploads ≡ some meta)
                × (item_from_url yes same_path plain clip_url two_uploads
                    ≡ reply (build_item yes meta (some clip_url) two_uploads)))))
item_from_url-media_exists_example =
    item_from_url-media_exists yes same_path plain clip_url two_uploads

sanitize_upload_filename-allowed_example :
    (stem : Text) × (ext : Text) × (sanitize_upload_filename plain
        (codes "../My clip (1).MP4")
        (codes "video/mp4")
      ≡ stem ++ ext)
    × (stem ≢ [])
    × (contains (codes ".mp4" ∷ codes ".m4v" ∷ []) ext ≡ true)
    × (all_of is_safe_code (stem ++ ext) ≡ true)
unfolding Dict.get relaytv.Prelude.codes_beq relaytv.Prelude.lower relaytv.Prelude.strip
sanitize_upload_filename-allowed_example =
    sanitize_upload_filename-allowed plain (codes "../My clip (1).MP4") (codes "video/mp4")
      (codes ".mp4" ∷ codes ".m4v" ∷ []) refl

cleaned :
    sanitize_upload_filename plain (codes "../My clip (1).MP4") (codes "video/mp4")
    ≡ codes "My-clip-1.mp4"
unfolding sanitize_upload_filename relaytv.Prelude.codes_beq
cleaned = refl

abbrev settings : Progressive
settings = record { mp4_ready = 100; webm_ready = 50; max_stall = 2000000000; min_throughput = 10 }

abbrev chunk : ℕ → ℕ → Chunk
chunk size time = record {
  size = size;
  started = time;
  finished = time + 5;
  now = time + 6;
  exists_file = true;
  probe = true;
  plays = true;
  saves = true;
}

abbrev rate : ℕ → ℕ → ℕ
rate bytes duration = bytes * 1000

abbrev blend : ℕ → ℕ → ℕ
blend prior current = (prior * 6 + current * 4) / 10

abbrev played_early : Ingest
played_early = record {
  session = record {
    status = completed;
    mime_type = codes "video/mp4";
    last_chunk = 25;
    bytes_received = 120;
    chunk_count = 2;
    throughput = 60000;
    ready_threshold = 100;
    progressive_started = true;
    fallback_to_full_upload = false;
    fallback_reason = [];
    upload_complete = true;
    playback_started = true;
    playback_mode = codes "progressive";
  };
  size_bytes = 120;
  progressive_started = true;
  fallback_reason = [];
  toast_sent = false;
  plays = 1;
}

-- Where the session is not written after an early start, the upload plays early and is a fallback.
abbrev first_plays : Chunk
first_plays = record (chunk 60 20) { saves = false }

abbrev modes : Http Ingest → Option (Bool × Bool)
modes (reply i) = some (i.progressive_started, i.session.fallback_to_full_upload)
modes (failed status detail) = none

begun_and_fallen_back :
    modes (
      ingest_media_play rate blend settings 500
        (codes "video/mp4")
        (chunk 60 10 ∷ first_plays ∷ [])
        (reply tt))
    ≡ some (true, true)
unfolding ingest_media_play relaytv.Prelude.codes_beq
begun_and_fallen_back = refl

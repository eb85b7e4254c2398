-- ===== src/UploadStore/Names.antt =====
-- The file names and URLs of upload_store.py.
pub mod Safe
pub mod Stored
use relaytv.UploadStore.{is_valid_upload_id}
use relaytv.UploadStore.{basename}
use relaytv.UploadStore.{before_semicolon}
use relaytv.UploadStore.{strip_of}
use relaytv.Prelude.{
  ℕ, suc, Bool, true, false, not, ◌&&◌, ◌||◌, Option, none, some, List, [], ◌∷◌, ◌++◌, leb, ◌==◌,
  ◌≟◌, if◌then◌else◌, length, codes_eq, Text, codes, is_digit, strip, lower, is_empty, take,
  contains,
}
use relaytv.Prelude.Dict.{Dict, get}
use relaytv.Prelude.{drop}
use relaytv.PublicMedia.{starts_with}
use relaytv.UrlBoundary.{ends_with}
use mathlib.Core.List.{reverse}

abbrev pub upload_url_prefix : Text
upload_url_prefix = codes "/media/uploads/"

abbrev pub allowed_mime_types : Dict Text (List Text)
allowed_mime_types =
    (
      codes "application/octet-stream",
      codes ".mp3"
          ∷ codes ".m4a"
          ∷ codes ".aac"
          ∷ codes ".wav"
          ∷ codes ".flac"
          ∷ codes ".ogg"
          ∷ codes ".opus"
          ∷ codes ".mp4"
          ∷ codes ".m4v"
          ∷ codes ".webm"
          ∷ [],
    )
    ∷ (codes "application/ogg", codes ".ogg" ∷ codes ".opus" ∷ [])
    ∷ (codes "audio/aac", codes ".aac" ∷ [])
    ∷ (codes "audio/flac", codes ".flac" ∷ [])
    ∷ (codes "audio/m4a", codes ".m4a" ∷ [])
    ∷ (codes "audio/mpeg", codes ".mp3" ∷ [])
    ∷ (codes "audio/mp4", codes ".m4a" ∷ codes ".mp4" ∷ [])
    ∷ (codes "audio/ogg", codes ".ogg" ∷ codes ".opus" ∷ [])
    ∷ (codes "audio/opus", codes ".opus" ∷ [])
    ∷ (codes "audio/wav", codes ".wav" ∷ [])
    ∷ (codes "audio/wave", codes ".wav" ∷ [])
    ∷ (codes "audio/x-aac", codes ".aac" ∷ [])
    ∷ (codes "audio/x-flac", codes ".flac" ∷ [])
    ∷ (codes "audio/x-m4a", codes ".m4a" ∷ [])
    ∷ (codes "audio/x-wav", codes ".wav" ∷ [])
    ∷ (codes "video/mp4", codes ".mp4" ∷ codes ".m4v" ∷ [])
    ∷ (codes "video/webm", codes ".webm" ∷ [])
    ∷ []

-- Every extension that a type allows.
abbrev pub allowed_upload_extensions : List Text
allowed_upload_extensions =
    codes ".aac"
    ∷ codes ".flac"
    ∷ codes ".m4a"
    ∷ codes ".m4v"
    ∷ codes ".mp3"
    ∷ codes ".mp4"
    ∷ codes ".ogg"
    ∷ codes ".opus"
    ∷ codes ".wav"
    ∷ codes ".webm"
    ∷ []

unfoldable pub ends_with_any : Text → List Text → Bool
unfolding ends_with
ends_with_any name [] = false
ends_with_any name (ext ∷ exts) = ends_with name ext || ends_with_any name exts

unfoldable pub is_allowed_upload : Text → Text → Bool
unfolding before_semicolon strip lower get ends_with_any
is_allowed_upload content_type filename =
    let mime = lower (strip (before_semicolon content_type)) in
    let name = lower (strip filename) in
    elim (get allowed_mime_types mime) [
      | some exts ↦ if is_empty name then true else ends_with_any name exts
      | none ↦ if is_empty name then false else ends_with_any name allowed_upload_extensions
    ]

-- `[A-Za-z0-9._-]`
unfoldable pub is_safe_code : ℕ → Bool
is_safe_code c =
    (leb b'A' c && leb c b'Z')
    || (leb b'a' c && leb c b'z')
    || is_digit c
    || c == b'.'
    || c == b'_'
    || c == b'-'

abbrev pub is_edge : ℕ → Bool
is_edge c = c == b'.' || c == b'_' || c == b'-'

abbrev pub starts_unsafe : Text → Bool
starts_unsafe [] = false
starts_unsafe (c ∷ s) = not (is_safe_code c)

-- `re.sub(r"[^A-Za-z0-9._-]+", "-", stem)`: the last code of a run becomes its dash.
unfoldable pub dashed : Text → Text
unfolding is_safe_code
dashed [] = []
dashed (c ∷ s) =
    let rest = dashed s in
    if is_safe_code c then c ∷ rest else if starts_unsafe s then rest else b'-' ∷ rest

unfoldable pub has_dot : Text → Bool
has_dot [] = false
has_dot (c ∷ s) = c == b'.' || has_dot s

-- `os.path.splitext` on a base name: the last dot that a code other than a dot stands before.
unfoldable pub split_at_dot : Bool → Text → Text × Text
unfolding has_dot
split_at_dot named [] = ([], [])
split_at_dot named (c ∷ s) =
    let (stem, ext) = split_at_dot (named || not (c == b'.')) s in
    if named && c == b'.' && not (has_dot s) then ([], c ∷ s) else (c ∷ stem, ext)

abbrev pub or_upload : Text → Text
or_upload [] = codes "upload"
or_upload (c ∷ s) = c ∷ s

unfoldable pub safe_stem : Text → Text
unfolding dashed strip_of
safe_stem stem = take 96 (or_upload (strip_of is_edge (dashed stem)))

abbrev pub with_dot : Text → Text
with_dot [] = []
with_dot (c ∷ s) = if c == b'.' then c ∷ s else b'.' ∷ c ∷ s

-- What becomes of the extension; `guess` is `mimetypes.guess_extension`, with "" for None.
unfoldable pub allowed_extension : (Text → Text) → Text → Text → Option (List Text) → Text
unfolding contains lower
allowed_extension guess mime ext (some (first ∷ more)) =
    if contains (first ∷ more) ext then ext else first
allowed_extension guess mime [] _ = lower (guess mime)
allowed_extension guess mime ext _ = ext

unfoldable pub sanitize_upload_filename : (Text → Text) → Text → Text → Text
unfolding basename strip lower split_at_dot safe_stem allowed_extension get
sanitize_upload_filename guess filename content_type =
    let original = or_upload (basename (strip filename)) in
    let (stem, ext) = split_at_dot false original in
    let mime = lower (strip content_type) in
    safe_stem stem
    ++ with_dot (allowed_extension guess mime (lower (strip ext)) (get allowed_mime_types mime))

-- Nonempty pieces between slashes: the one that is being read, and whether it has begun.
unfoldable pub pieces : Text → Text → List Text
pieces [] [] = []
pieces (c ∷ piece) [] = reverse (c ∷ piece) ∷ []
pieces piece (c ∷ s) =
    let next = pieces [] s in
    let more = pieces (c ∷ piece) s in
    if c == b'/' then if is_empty piece then next else reverse piece ∷ next else more

-- `unquote` is urllib's.
unfoldable pub ref_of : (Text → Text) → List Text → Option (Text × Text)
unfolding is_valid_upload_id basename
ref_of unquote (upload ∷ file ∷ []) =
    let upload_id = unquote upload in
    let filename = unquote file in
    if is_empty filename || not (is_valid_upload_id upload_id)
    then none
    else some (upload_id, basename filename)
ref_of unquote _ = none

abbrev pub is_slash : ℕ → Bool
is_slash c = c == b'/'

-- `url_path` is `urlparse(url).path`, with `none` where it raises.
module _ (url_path : Text → Option Text) where
  unfoldable pub is_upload_url : Text → Bool
  unfolding starts_with
  is_upload_url url = elim (url_path url) [
    | none ↦ false
    | some path ↦ starts_with upload_url_prefix path
  ]

  unfoldable pub upload_ref_from_url : (Text → Text) → Text → Option (Text × Text)
  unfolding is_upload_url ref_of pieces strip_of
  upload_ref_from_url unquote url = elim (url_path url) [
    | none ↦ none
    | some path ↦
        let rel = strip_of is_slash (drop (length upload_url_prefix) path) in
        let ref = ref_of unquote (pieces [] rel) in if is_upload_url url then ref else none
  ]

-- ===== src/UploadStore/Files.antt =====
-- The directories of upload_store.py under the uploads root, what is read from them, and the items
-- that are built from them.
pub mod Answers
use relaytv.UploadStore.Names.{is_upload_url}
use relaytv.UploadStore.{upload_dir}
use relaytv.UploadStore.{basename}
use relaytv.UploadStore.Names.{upload_url_prefix}
use relaytv.UploadStore.Names.{upload_ref_from_url}
use relaytv.Prelude.Http.{Http, reply, failed}
use relaytv.Prelude.{
  codes_eq, ◌&&◌, Bool, true, false, Option, none, some, List, [], ◌∷◌, ◌++◌, codes, Text, ℕ, not,
  ◌||◌, is_empty, if◌then◌else◌, strip,
}
use relaytv.Prelude.Dict
use relaytv.Prelude.Value.{Value, text, number, flag, Fields, truth, or_empty}

-- What `meta.json` holds, as the routes write it.
pub record Meta : Type 0 where
  pub id : Text
  pub filename : Text
  pub public_name : Text
  pub stored_name : Text
  pub title : Text
  pub mime_type : Text
  pub size_bytes : ℕ
  pub created : ℕ

-- `details` is none where `meta.json` is missing or no dict. A file's size is none where `getsize`
-- raises.
pub record Directory : Type 0 where
  pub details : Option Meta
  pub files : Dict.Dict Text (Option ℕ)

abbrev pub Disk : Type 0
Disk = Dict.Dict Text Directory

abbrev pub details_in : Option Directory → Option Meta
details_in none = none
details_in (some d) = d.details

abbrev pub file_in : Text → Option Directory → Option (Option ℕ)
file_in name none = none
file_in name (some d) = Dict.get d.files name

abbrev pub first_of : Text → Text → Text
first_of [] other = other
first_of (c ∷ s) other = c ∷ s

abbrev pub is_there : Option (Option ℕ) → Bool
is_there none = false
is_there (some size) = true

unfoldable pub upload_public_path : Text → Text → Text
upload_public_path upload_id filename = upload_url_prefix ++ (upload_id ++ (b'/' ∷ filename))

abbrev pub public_file_name : Meta → Text
public_file_name meta = basename (strip (first_of meta.public_name meta.filename))

abbrev pub gone : Http Fields
gone = failed 410 (codes "Uploaded media expired or removed")

-- The own keys of an item after those that were built.
unfoldable pub add_missing : Fields → Fields → Fields
unfolding Dict.has_key
add_missing [] out = out
add_missing ((key, value) ∷ item) out =
    add_missing item (if Dict.has_key out key then out else out ++ ((key, value) ∷ []))

abbrev pub is_true : Option Value → Bool
is_true none = false
is_true (some value) = truth value

abbrev pub if_some_text : Text → Option Text
if_some_text [] = none
if_some_text (c ∷ s) = some (c ∷ s)

abbrev pub unavailable : Fields → Fields
unavailable item =
    Dict.put (Dict.put item (codes "provider") (text (codes "upload"))) (codes "available")
      (flag false)

module _ (contained : Text → Bool) where
  unfoldable pub load_metadata : Text → Disk → Option Meta
  unfolding upload_dir Dict.get
  load_metadata upload_id disk = elim (upload_dir contained upload_id) [
    | none ↦ none
    | some name ↦ details_in (Dict.get disk name)
  ]

  -- `stored_file_path`: the directory and the name of the file.
  unfoldable pub stored_file_path : Meta → Option (Text × Text)
  unfolding upload_dir strip basename
  stored_file_path meta =
      let stored = basename (strip meta.stored_name) in
      elim (upload_dir contained (strip meta.id)) [
        | none ↦ none
        | some name ↦
            if is_empty (strip meta.id) || is_empty stored then none else some (name, stored)
      ]

  -- The file at that path.
  unfoldable pub stored_file : Meta → Disk → Option (Option ℕ)
  unfolding stored_file_path Dict.get
  stored_file meta disk = elim (stored_file_path meta) [
    | none ↦ none
    | some (name, stored) ↦ file_in stored (Dict.get disk name)
  ]

  abbrev pub is_available : Meta → Disk → Bool
  is_available meta disk = is_there (stored_file meta disk)

  unfoldable pub media_exists : Text → Disk → Bool
  unfolding load_metadata stored_file
  media_exists upload_id disk = elim (load_metadata upload_id disk) [
    | none ↦ false
    | some meta ↦ is_available meta disk
  ]

  unfoldable pub build_item : Meta → Option Text → Disk → Fields
  unfolding upload_public_path stored_file strip basename
  build_item meta absolute_url disk =
      let upload_id = strip meta.id in
      let public_name = public_file_name meta in
      let own_url = upload_public_path upload_id public_name in
      let url = elim absolute_url as (λ x. Text) [ none ↦ own_url | some u ↦ first_of u own_url ] in
      (codes "url", text url)
      ∷ (codes "provider", text (codes "upload"))
      ∷ (
        codes "title",
        text (
            first_of
              (strip (first_of meta.title (first_of meta.filename (first_of public_name url))))
              url),
      )
      ∷ (codes "upload_id", text upload_id)
      ∷ (codes "upload_filename", text (strip (first_of meta.filename public_name)))
      ∷ (codes "mime_type", text (strip meta.mime_type))
      ∷ (codes "size_bytes", number meta.size_bytes)
      ∷ (codes "available", flag (is_available meta disk))
      ∷ []

  module _ (url_path : Text → Option Text) (unquote : Text → Text) where
    unfoldable pub item_from_url : Text → Disk → Http Fields
    unfolding upload_ref_from_url load_metadata build_item stored_file
    item_from_url url disk = elim (upload_ref_from_url url_path unquote url) [
      | none ↦ failed 400 (codes "invalid upload url")
      | some (upload_id, file) ↦ elim (load_metadata upload_id disk) [
        | none ↦ gone
        | some meta ↦
            let item = build_item meta (some url) disk in
            if is_available meta disk then reply item else gone
      ]
    ]

    unfoldable pub metadata_of_url : Text → Disk → Option Meta
    unfolding upload_ref_from_url load_metadata
    metadata_of_url url disk = elim (upload_ref_from_url url_path unquote url) [
      | none ↦ none
      | some (upload_id, file) ↦ load_metadata upload_id disk
    ]

    unfoldable pub annotate_item : Fields → Disk → Fields
    unfolding is_upload_url load_metadata metadata_of_url build_item add_missing Dict.get Dict.put
        strip or_empty truth
    annotate_item item disk =
        let url = strip (or_empty (Dict.get item (codes "url"))) in
        let upload_id = strip (or_empty (Dict.get item (codes "upload_id"))) in
        let found =
          if is_empty upload_id then metadata_of_url url disk else load_metadata upload_id disk in
        let annotated = elim found as (λ x. Fields) [
          | none ↦ unavailable item
          | some meta ↦ add_missing item (build_item meta (if_some_text url) disk)
        ] in
        if is_true (Dict.get item (codes "peer_hosted"))
        then item
        else if is_empty upload_id && not (is_upload_url url_path url)
        then item
        else annotated

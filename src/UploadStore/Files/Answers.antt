-- ===== src/UploadStore/Files/Answers.antt =====
-- What a request for an upload URL is answered with.
use relaytv.UploadStore.Files.{is_available}
use relaytv.UploadStore.Files.{build_item}
use relaytv.UploadStore.Files.{load_metadata}
use relaytv.UploadStore.Files.{Meta}
use relaytv.UploadStore.Files.{gone}
use relaytv.UploadStore.Files.{upload_ref_from_url}
use relaytv.UploadStore.Files.{Disk}
use relaytv.Prelude.{Option}
use relaytv.Prelude.{Bool}
use relaytv.Prelude.{Text}
use relaytv.UploadStore.Files.{media_exists}
use relaytv.UploadStore.Files.{item_from_url}
use relaytv.Prelude.{
  Option-cases, Bool-cases, inl, inr, refl, none, some, true, false, ◌≡◌, ◌⊎◌, codes, if_true,
  if_false,
}
use relaytv.Prelude.Http.{reply, failed}

-- An upload URL is answered with 400 where it is no reference to an upload, with 410 where the
-- store has not the media that it refers to, and with the item that is built from the stored
-- metadata where it has.
pub item_from_url-media_exists :
    (contained : Text → Bool) (url_path : Text → Option Text) (unquote : Text → Text) (url : Text)
    (disk : Disk)
    → ((upload_ref_from_url url_path unquote url ≡ none)
        × (item_from_url contained url_path unquote url disk
            ≡ failed 400 (codes "invalid upload url")))
      ⊎ ((ref : Text × Text) × (upload_ref_from_url url_path unquote url ≡ some ref)
          × (((media_exists contained ref.0 disk ≡ false)
                × (item_from_url contained url_path unquote url disk ≡ gone))
              ⊎ ((meta : Meta) × (media_exists contained ref.0 disk ≡ true)
                  × (load_metadata contained ref.0 disk ≡ some meta)
                  × (item_from_url contained url_path unquote url disk
                      ≡ reply (build_item contained meta (some url) disk)))))
unfolding item_from_url media_exists
item_from_url-media_exists contained url_path unquote url disk =
    elim (Option-cases (upload_ref_from_url url_path unquote url)) [
      | inl h ↦ inl (h, rw (h, item_from_url) refl)
      | inr (ref, h) ↦ inr (
        ref,
        h,
        elim (Option-cases (load_metadata contained ref.0 disk)) [
          | inl g ↦ inl (rw (g, media_exists) refl, rw (h, item_from_url) (rw g refl))
          | inr (meta, g) ↦ elim (Bool-cases (is_available contained meta disk)) [
            | inl there ↦ inr (
              meta,
              rw (g, media_exists) there,
              g,
              rw (h, item_from_url) (rw g (if_true _ _ _ there)),
            )
            | inr lost ↦
                inl (rw (g, media_exists) lost, rw (h, item_from_url) (rw g (if_false _ _ _ lost)))
          ]
        ],
      )
    ]

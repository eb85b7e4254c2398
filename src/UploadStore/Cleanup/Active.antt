-- ===== src/UploadStore/Cleanup/Active.antt =====
-- An upload in progress survives every cleanup.
use relaytv.Prelude.{Option}
use relaytv.UploadStore.Cleanup.{available_bytes}
use relaytv.UploadStore.Cleanup.{list_upload_metadata}
use relaytv.Prelude.{if_false, sym, ◌∙◌, ◌∙◌}
use relaytv.UploadStore.Cleanup.{is_expired}
use relaytv.Prelude.{arith}
use relaytv.Prelude.{◌||◌}
use relaytv.UploadStore.Cleanup.{is_kept}
use relaytv.Prelude.{not}
use relaytv.Prelude.{leb}
use relaytv.Prelude.{strip}
use relaytv.UploadStore.{is_valid_upload_id}
use relaytv.UploadStore.Cleanup.{Listed}
use relaytv.Prelude.{contains}
use relaytv.Prelude.{ℕ}
use relaytv.UploadStore.Cleanup.{upload_dir}
use relaytv.UploadStore.Cleanup.{Cleaning}
use relaytv.UploadStore.Cleanup.{Disk}
use relaytv.UploadStore.Cleanup.{upload_is_active}
use relaytv.Prelude.{Bool}
use relaytv.UploadStore.Cleanup.{evict}
use relaytv.UploadStore.Cleanup.{expire_pass}
use relaytv.UploadStore.Cleanup.{evict_one}
use relaytv.UploadStore.Cleanup.{delete_upload, Rmtree, with_rest, after_rmtree}
use relaytv.UploadStore.Files.{Directory}
use relaytv.UploadStore.Cleanup.{expire_one}
use relaytv.Prelude.{Text}
use relaytv.UploadStore.Cleanup.{cleanup_files}
use relaytv.Prelude.{
  codes_eq, ≟_iff, ◌≟◌, Bool-cases, Option-cases, inl, inr, if_either, ◌≡◌, true, false, refl, none,
  some, List, [], ◌∷◌,
}
use relaytv.Prelude.Dict

upload_dir_name :
    (contained : Text → Bool) (id dir : Text) → upload_dir contained id ≡ some dir → dir ≡ strip id
unfolding upload_dir
upload_dir_name contained id dir h = elim (Bool-cases (is_valid_upload_id (strip id))) [
  | inr bad ↦ let no = rw bad at h in absurd cc
  | inl good ↦ elim (Bool-cases (contained (strip id))) [
    | inr out ↦ let no = rw (good, out) at h in absurd cc
    | inl within ↦ let found = rw (good, within) at h in cc
  ]
]

other_name :
    (active : List Text) (a b name : Text)
    → contains active name ≡ true
    → contains active a ≡ false
    → a ≡ b
    → (b ≟ name) ≡ false
other_name active a b name h g e = elim (Bool-cases (b ≟ name)) [
  | inl same ↦ let is : a ≡ name = e ∙ (≟_iff b name).0 same in let no = rw is at g in absurd cc
  | inr other ↦ other
]

with_rest-other :
    (dir name : Text) (disk : Disk) (rest : Option Directory)
    → (dir ≟ name) ≡ false
    → Dict.get (with_rest dir disk rest) name ≡ Dict.get disk name
with_rest-other dir name disk none h =
    Dict.get-pop disk dir name ∙ if_false (dir ≟ name) none (Dict.get disk name) h
with_rest-other dir name disk (some rest) h =
    Dict.get-put disk dir name rest ∙ if_false (dir ≟ name) (some rest) (Dict.get disk name) h

after_rmtree-other :
    (rmtree : Rmtree) (dir name : Text) (disk : Disk) (directory : Option Directory)
    → (dir ≟ name) ≡ false
    → Dict.get (after_rmtree rmtree dir disk directory) name ≡ Dict.get disk name
after_rmtree-other rmtree dir name disk none h = refl
after_rmtree-other rmtree dir name disk (some directory) h =
    with_rest-other dir name disk (rmtree dir directory) h

delete_upload_other :
    (contained : Text → Bool) (rmtree : Rmtree) (active : List Text) (id name : Text) (disk : Disk)
    → contains active name ≡ true
    → upload_is_active active id ≡ false
    → Dict.get (delete_upload contained rmtree id disk) name ≡ Dict.get disk name
unfolding delete_upload upload_is_active
delete_upload_other contained rmtree active id name disk h g =
    elim (Option-cases (upload_dir contained id)) [
      | inl none_there ↦ rw (none_there, delete_upload) refl
      | inr (dir, there) ↦
          rw (there, delete_upload)
            (after_rmtree-other rmtree dir name disk (Dict.get disk dir) (
              other_name active (strip id) dir name h g
                (sym (upload_dir_name contained id dir there))))
    ]

-- What a pass leaves of the directory of an active upload.
abbrev Untouched : Text → Disk → Cleaning → Type 0
Untouched name disk c = Dict.get c.disk name ≡ Dict.get disk name

expire_one-Untouched :
    (contained : Text → Bool) (rmtree : Rmtree) (active : List Text) (before : ℕ) (name : Text)
    (disk : Disk) (m : Listed) (c : Cleaning)
    → contains active name ≡ true
    → Untouched name disk c
    → Untouched name disk (expire_one contained rmtree active before m c)
unfolding expire_one
expire_one-Untouched contained rmtree active before name disk m c h u =
    if_either (Untouched name disk) (upload_is_active active (strip m.id)) _ _ (λ on. u)
      (λ off.
        if_either (Untouched name disk) (not m.available || is_expired before m) _ _
          (λ out. delete_upload_other contained rmtree active (strip m.id) name c.disk h off ∙ u)
          (λ stays. u))

expire_pass-Untouched :
    (contained : Text → Bool) (rmtree : Rmtree) (active : List Text) (before : ℕ) (name : Text)
    (disk : Disk) (ms : List Listed) (c : Cleaning)
    → contains active name ≡ true
    → Untouched name disk c
    → Untouched name disk (expire_pass contained rmtree active before ms c)
unfolding expire_pass
expire_pass-Untouched contained rmtree active before name disk [] c h u = u
expire_pass-Untouched contained rmtree active before name disk (m ∷ ms) c h u =
    expire_pass-Untouched contained rmtree active before name disk ms _ h
      (expire_one-Untouched contained rmtree active before name disk m c h u)

evict_one-Untouched :
    (contained : Text → Bool) (rmtree : Rmtree) (active : List Text) (max_bytes : ℕ) (name : Text)
    (disk : Disk) (m : Listed) (c : Cleaning)
    → contains active name ≡ true
    → Untouched name disk c
    → Untouched name disk (evict_one contained rmtree active max_bytes m c)
unfolding evict_one
evict_one-Untouched contained rmtree active max_bytes name disk m c h u =
    if_either (Untouched name disk) (leb c.total max_bytes) _ _ (λ small. u)
      (λ large.
        if_either (Untouched name disk) (is_kept active m) _ _ (λ kept. u)
          (λ out.
            delete_upload_other contained rmtree active (strip m.id) name c.disk h
              (ground (arith, out))
            ∙ u))

evict-Untouched :
    (contained : Text → Bool) (rmtree : Rmtree) (active : List Text) (max_bytes : ℕ) (name : Text)
    (disk : Disk) (ms : List Listed) (c : Cleaning)
    → contains active name ≡ true
    → Untouched name disk c
    → Untouched name disk (evict contained rmtree active max_bytes ms c)
unfolding evict
evict-Untouched contained rmtree active max_bytes name disk [] c h u = u
evict-Untouched contained rmtree active max_bytes name disk (m ∷ ms) c h u =
    evict-Untouched contained rmtree active max_bytes name disk ms _ h
      (evict_one-Untouched contained rmtree active max_bytes name disk m c h u)

-- An upload that is registered as active during both passes: whatever its age, the sizes, and what
-- `meta.json` of any upload says, the cleanup leaves its directory as it was.
pub cleanup_files-active :
    (contained : Text → Bool) (rmtree : Rmtree) (active active_then : List Text)
    (max_bytes before : ℕ) (disk : Disk) (name : Text)
    → contains active name ≡ true
    → contains active_then name ≡ true
    → Dict.get (cleanup_files contained rmtree active active_then max_bytes before disk).disk name
      ≡ Dict.get disk name
unfolding cleanup_files
cleanup_files-active contained rmtree active active_then max_bytes before disk name h g =
    let metas = list_upload_metadata contained disk in
    let start : Cleaning = record {
      disk = disk;
      deleted = 0;
      total = available_bytes metas;
      valid = [];
    } in
    let c = expire_pass contained rmtree active before metas start in
    evict-Untouched contained rmtree active_then max_bytes name disk c.valid c g
      (expire_pass-Untouched contained rmtree active before name disk metas start h refl)

-- ===== src/UploadStore/Cleanup.antt =====
-- `list_upload_metadata`, `delete_upload` and `cleanup_uploads` of upload_store.py.
pub mod Active
pub mod Oldest
use relaytv.UploadStore.Files.{is_available}
use relaytv.UploadStore.Files.{Directory}
use relaytv.UploadStore.Files.{stored_file}
use relaytv.UploadStore.Files.{load_metadata}
use relaytv.UploadStore.{upload_dir}
use relaytv.UploadStore.Files.{Disk}
use relaytv.UploadStore.Files.{annotate_item}
use relaytv.UploadStore.Files.{Meta}
use relaytv.Prelude.{
  codes_eq, ◌&&◌, ◌||◌, ◌+◌, ◌-◌, Bool, true, false, Option, none, some, List, [], ◌∷◌, ◌++◌, codes,
  Text, ℕ, not, is_empty, if◌then◌else◌, strip, ltb, leb, suc, contains,
}
use relaytv.Prelude.Dict
use relaytv.Queue.Item.{Entry, dict, raw}
use relaytv.Prelude.{◌≟◌}
use relaytv.Prelude.Value.{Value, text, number, flag, Fields}

-- What the listing says of an upload; its size is the file's where that could be read.
pub record Listed : Type 0 where
  pub id : Text
  pub size_bytes : ℕ
  pub created : ℕ
  pub available : Bool

abbrev pub size_of : ℕ → Option (Option ℕ) → ℕ
size_of said none = said
size_of said (some none) = said
size_of said (some (some size)) = size

-- A stable sort by the time of creation.
unfoldable pub insert_listed : Listed → List Listed → List Listed
insert_listed m [] = m ∷ []
insert_listed m (x ∷ xs) =
    let rest = insert_listed m xs in if leb m.created x.created then m ∷ x ∷ xs else x ∷ rest

unfoldable pub by_created : List Listed → List Listed
unfolding insert_listed
by_created [] = []
by_created (m ∷ ms) = insert_listed m (by_created ms)

abbrev pub Rmtree : Type 0
Rmtree = Text → Directory → Option Directory

abbrev pub with_rest : Text → Disk → Option Directory → Disk
with_rest name disk none = Dict.pop disk name
with_rest name disk (some rest) = Dict.put disk name rest

abbrev pub after_rmtree : Rmtree → Text → Disk → Option Directory → Disk
after_rmtree rmtree name disk none = disk
after_rmtree rmtree name disk (some directory) = with_rest name disk (rmtree name directory)

module _ (contained : Text → Bool) where
  abbrev pub listed_of : Meta → Disk → Listed
  listed_of meta disk = record {
    id = meta.id;
    size_bytes = size_of meta.size_bytes (stored_file contained meta disk);
    created = meta.created;
    available = is_available contained meta disk;
  }

  -- The directories in the order of `iterdir`.
  unfoldable pub list_each : Dict.Dict Text Directory → Disk → List Listed
  unfolding load_metadata stored_file
  list_each [] disk = []
  list_each ((name, d) ∷ children) disk =
      let rest = list_each children disk in
      elim (load_metadata contained name disk) [
        | none ↦ rest
        | some meta ↦ listed_of meta disk ∷ rest
      ]

  unfoldable pub list_upload_metadata : Disk → List Listed
  unfolding list_each by_created
  list_upload_metadata disk = by_created (list_each disk disk)

  -- `rmtree` is what the library's leaves of a directory: `none` where it removes all, and the rest
  -- where it raises on the way. A directory that is not there is a `FileNotFoundError`.
  unfoldable pub delete_upload : Rmtree → Text → Disk → Disk
  unfolding upload_dir Dict.get
  delete_upload rmtree upload_id disk = elim (upload_dir contained upload_id) [
    | none ↦ disk
    | some name ↦ after_rmtree rmtree name disk (Dict.get disk name)
  ]

unfoldable pub upload_is_active : List Text → Text → Bool
unfolding contains strip
upload_is_active active upload_id = contains active (strip upload_id)

unfoldable pub available_bytes : List Listed → ℕ
available_bytes [] = 0
available_bytes (m ∷ ms) =
    let rest = available_bytes ms in if m.available then m.size_bytes + rest else rest

abbrev pub is_expired : ℕ → Listed → Bool
is_expired expire_before m = ltb 0 m.created && ltb m.created expire_before

abbrev pub is_kept : List Text → Listed → Bool
is_kept active m = is_empty (strip m.id) || upload_is_active active (strip m.id)

pub record Cleaning : Type 0 where
  pub disk : Disk
  pub deleted : ℕ
  pub total : ℕ
  pub valid : List Listed

-- The set of active uploads is read anew for each upload; `active` is what it is during the first
-- pass and `active_then` during the second.
module _ (contained : Text → Bool) (rmtree : Rmtree) where
  unfoldable pub expire_one : List Text → ℕ → Listed → Cleaning → Cleaning
  unfolding upload_is_active delete_upload strip
  expire_one active expire_before m c =
      let kept = record c { valid = c.valid ++ (m ∷ []) } in
      let gone = record c {
        disk = delete_upload contained rmtree (strip m.id) c.disk;
        deleted = suc c.deleted;
        total = if m.available then c.total - m.size_bytes else c.total;
      } in
      if upload_is_active active (strip m.id)
      then kept
      else if not m.available || is_expired expire_before m
      then gone
      else kept

  unfoldable pub expire_pass : List Text → ℕ → List Listed → Cleaning → Cleaning
  unfolding expire_one
  expire_pass active expire_before [] c = c
  expire_pass active expire_before (m ∷ ms) c =
      expire_pass active expire_before ms (expire_one active expire_before m c)

  -- Once the total is small enough the pass ends: no later step changes anything. A total below 0
  -- is as good as 0, since the maximum is not negative.
  unfoldable pub evict_one : List Text → ℕ → Listed → Cleaning → Cleaning
  unfolding upload_is_active delete_upload strip
  evict_one active_then max_bytes m c =
      let gone = record c {
        disk = delete_upload contained rmtree (strip m.id) c.disk;
        deleted = suc c.deleted;
        total = c.total - m.size_bytes;
      } in
      if leb c.total max_bytes then c else if is_kept active_then m then c else gone

  unfoldable pub evict : List Text → ℕ → List Listed → Cleaning → Cleaning
  unfolding evict_one
  evict active_then max_bytes [] c = c
  evict active_then max_bytes (m ∷ ms) c =
      evict active_then max_bytes ms (evict_one active_then max_bytes m c)

  unfoldable pub cleanup_files : List Text → List Text → ℕ → ℕ → Disk → Cleaning
  unfolding list_upload_metadata available_bytes expire_pass evict
  cleanup_files active active_then max_bytes expire_before disk =
      let metas = list_upload_metadata contained disk in
      let c =
        expire_pass active expire_before metas
          (record { disk = disk; deleted = 0; total = available_bytes metas; valid = [] }) in
      evict active_then max_bytes c.valid c

-- `_prune_missing_upload_refs`: the entries of the queue that stay, and how many were removed.
abbrev pub is_missing : Option Value → Option Value → Bool
is_missing (some (text provider)) (some (flag false)) = provider ≟ codes "upload"
is_missing _ _ = false

module _ (contained : Text → Bool) (url_path : Text → Option Text) (unquote : Text → Text) where
  unfoldable pub is_stale : Disk → Entry → Bool
  unfolding annotate_item Dict.get
  is_stale disk (raw value) = false
  is_stale disk (dict item) =
      let annotated = annotate_item contained url_path unquote item disk in
      is_missing (Dict.get annotated (codes "provider")) (Dict.get annotated (codes "available"))

  unfoldable pub prune_refs : Disk → List Entry → List Entry × ℕ
  unfolding is_stale
  prune_refs disk [] = ([], 0)
  prune_refs disk (entry ∷ queue) =
      let (updated, removed) = prune_refs disk queue in
      if is_stale disk entry then (updated, suc removed) else (entry ∷ updated, removed)

  -- `cleanup_uploads`: what is left on the disk and in the queue, and the two counts.
  unfoldable pub cleanup_uploads :
      Rmtree → List Text → List Text → ℕ → ℕ → Disk → List Entry → Cleaning × (List Entry × ℕ)
  unfolding cleanup_files prune_refs
  cleanup_uploads rmtree active active_then max_bytes expire_before disk queue =
      let c = cleanup_files contained rmtree active active_then max_bytes expire_before disk in
      (c, prune_refs c.disk queue)

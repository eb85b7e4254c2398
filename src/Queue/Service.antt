-- ===== src/Queue/Service.antt =====
-- The queue commands of app/relaytv_app/playback_service.py. What follows a commit there, the write
-- to disk (`Publisher`) and the warming of the player's caches, does not read or change the queue.
pub mod Generation
pub mod Removal
use relaytv.Prelude.{
  ℕ, zero, suc, ◌+◌, ◌-◌, Bool, true, false, not, Option, none, some, List, [], ◌∷◌, ◌++◌, ltb,
  ◌==◌, if◌then◌else◌, contains, codes_eq, Text, codes, length, is_empty,
}
use relaytv.Prelude.Http.{Http, reply, failed}
use relaytv.Queue.Item.{Entry, id_of}
use relaytv.Queue.Store.{Store, replace_all, insert_front, extend, append, insert, clear, advance}

-- `getattr(_QUEUE_IMPORT_LOCAL, "generation", None)`: the generation a batch of this thread is bound to.
abbrev pub Binding : Type 0
Binding = Option ℕ

-- On entry of `queue_import()`.
unfoldable pub bind_import : Store → Binding
bind_import s = some s.generation

-- `queue_commit()` raises where the batch was bound before a Clear.
abbrev pub is_retired : Binding → Store → Bool
is_retired none s = false
is_retired (some generation) s = not (generation == s.generation)

abbrev pub cancelled : Text
cancelled = codes "Series import cancelled by queue Clear"

-- The length and the snapshot that a command returns.
abbrev pub Listed : Type 0
Listed = ℕ × List Entry

abbrev pub listed : Store → Listed
listed s = (length s.queue, s.queue)

abbrev pub commit : Binding → Store → Store → Http Listed × Store
commit binding s s' =
    if is_retired binding s then (failed 409 cancelled, s) else (reply (listed s'), s')

module _ (uuid : ℕ → Text) (mine : Bool) where
  unfoldable pub queue_item : Binding → Entry → Store → Http Listed × Store
  queue_item binding item s = commit binding s (append uuid mine item s)

  unfoldable pub queue_items : Binding → List Entry → Store → Http Listed × Store
  queue_items binding [] s = (reply (listed s), s)
  queue_items binding (item ∷ items) s = commit binding s (extend uuid mine (item ∷ items) s)

  unfoldable pub queue_item_next : Binding → Entry → Store → Http Listed × Store
  queue_item_next binding item s = commit binding s (insert uuid mine 0 item s)

-- `_QUEUE_IMPORT_GENERATION += 1; state.QUEUE.clear()`
unfoldable pub clear_queue : Bool → Store → Store
clear_queue mine s = clear mine (record s { generation = suc s.generation })

-- `state.queue_item_id(item) in queue_ids`; the empty id is written as the empty text.
unfoldable pub is_chosen : List Text → Entry → Bool
is_chosen ids e = elim (id_of e) [ none ↦ contains ids [] | some id ↦ contains ids id ]

unfoldable pub kept : List Text → List Entry → List Entry
unfolding is_chosen
kept ids [] = []
kept ids (e ∷ q) = let rest = kept ids q in if is_chosen ids e then rest else e ∷ rest

unfoldable pub remove_queue_items_by_id :
    (ℕ → Text) → Bool → List Text → Store → (ℕ × List Entry) × Store
unfolding kept
remove_queue_items_by_id uuid mine ids s =
    let rest = kept ids s.queue in
    let removed = length s.queue - length rest in
    let s' = replace_all uuid mine rest s in
    if removed == 0 then ((0, s.queue), s) else ((removed, s'.queue), s')

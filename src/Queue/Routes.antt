-- ===== src/Queue/Routes.antt =====
-- The handlers of app/relaytv_app/routes/queue.py that change the queue: `_queue_index_locked`,
-- `queue_remove` and `queue_move`; `queue_play` and `queue_dedupe` are in Play and Dedupe. A handler returns its answer and the
-- store. The writes to disk, the player's caches and the UI events that follow each of them do not
-- read or change the queue.
pub mod Selection
pub mod Moving
use relaytv.Prelude.{
  ℕ, zero, suc, ◌+◌, ◌-◌, min, Bool, true, false, not, ◌&&◌, Option, none, some, List, [], ◌∷◌,
  ◌++◌, leb, ltb, ◌==◌, ◌≟◌, if◌then◌else◌, contains, Eq, codes_eq, Text, codes, length, strip,
  lower, is_empty,
}
use relaytv.Prelude.Http.{Http, reply, failed, ◌>>=◌}
use relaytv.Prelude.Int.{ℤ, pos, negsuc}
use relaytv.Prelude.Dict
use relaytv.Prelude.Value.{Value, text, Fields, or_empty}
use relaytv.Queue.Item.{Entry, dict, raw, id_of, id_key}
use relaytv.Queue.Store.{
  Store, advance, insert, replace_all, pop_at, settle, enter_scope, exit_scope, scope_mutations,
}

-- What `QueueRemoveReq` and `QueueMoveReq` name an entry by.
pub record Selector : Type 0 where
  pub index : Option ℤ
  pub queue_id : Option Text

abbrev pub has_id : Text → Option Text → Bool
has_id wanted none = false
has_id wanted (some id) = id ≟ wanted

-- The position of the first entry with an id.
unfoldable pub position_of : Text → List Entry → Option ℕ
position_of wanted [] = none
position_of wanted (e ∷ q) = elim (has_id wanted (id_of e)) [
  | true ↦ some 0
  | false ↦ elim (position_of wanted q) [ none ↦ none | some i ↦ some (suc i) ]
]

abbrev pub queue_changed : Text
queue_changed = codes "queue changed; refresh and retry"

abbrev pub by_id : Option ℕ → Http ℕ
by_id none = failed 409 queue_changed
by_id (some position) = reply position

unfoldable pub by_index : Option ℤ → Text → ℕ → Http ℕ
by_index none label n = failed 400 (label ++ codes " or queue_id is required")
by_index (some (negsuc i)) label n = failed 400 (label ++ codes " out of range")
by_index (some (pos i)) label n =
    if leb n i then failed 400 (label ++ codes " out of range") else reply i

abbrev pub wanted_id : Option Text → Text
wanted_id none = []
wanted_id (some id) = lower (strip id)

unfoldable pub queue_index : Selector → Text → List Entry → Http ℕ
queue_index req label q =
    let wanted = wanted_id req.queue_id in
    if is_empty wanted then by_index req.index label (length q) else by_id (position_of wanted q)

-- What `pop` of an index in range, under the lock, hands over.
pub record Popped : Type 0 where
  pub index : ℕ
  pub item : Entry
  pub after : Store

abbrev pub popped : Store → ℕ → Option (Entry × List Entry) → Http Popped
popped s i none = failed 500 (codes "pop index out of range")
popped s i (some (e, rest)) =
    reply (record { index = i; item = e; after = advance true (record s { queue = rest }) })

-- The index of the request, and `QUEUE.pop` at it.
unfoldable pub pop_selected : Selector → Text → Store → Http Popped
pop_selected req label s = do i ← queue_index req label s.queue; popped s i (pop_at i s.queue)

-- The entry that was removed, and the queue that is left.
abbrev pub removal : Store → Http Popped → Http (Entry × List Entry) × Store
removal s (failed status detail) = (failed status detail, s)
removal s (reply p) = (reply (p.item, p.after.queue), p.after)

unfoldable pub queue_remove : (ℕ → Text) → Selector → Store → Http (Entry × List Entry) × Store
queue_remove uuid req s = let s' = settle uuid s in removal s' (pop_selected req (codes "index") s')

-- `QUEUE.insert(to, item)` for a move, with `to` found in the queue as it was before the pop.
abbrev pub moved : (ℕ → Text) → ℕ → Http Popped → Store → Http (List Entry) × Store
moved uuid to (failed status detail) s = (failed status detail, s)
moved uuid to (reply p) s = let s' = insert uuid true to p.item p.after in (reply s'.queue, s')

abbrev pub move_within : (ℕ → Text) → Http ℕ → Http ℕ → Store → Http (List Entry) × Store
move_within uuid (failed status detail) to s = (failed status detail, s)
move_within uuid (reply frm) (failed status detail) s = (failed status detail, s)
move_within uuid (reply frm) (reply to) s = moved uuid to (popped s frm (pop_at frm s.queue)) s

unfoldable pub queue_move : (ℕ → Text) → Selector → Selector → Store → Http (List Entry) × Store
queue_move uuid from_req to_req s =
    let s' = settle uuid s in
    if is_empty s'.queue
    then (failed 400 (codes "queue is empty"), s')
    else move_within uuid (queue_index from_req (codes "from_index") s'.queue)
        (queue_index to_req (codes "to_index") s'.queue) s'

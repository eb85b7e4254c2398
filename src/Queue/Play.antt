-- ===== src/Queue/Play.antt =====
-- `queue_play` of app/relaytv_app/routes/queue.py: an entry leaves the queue only for a play that the
-- server accepts. What runs between the pop and the end of the play, `_play_now_item` in this thread
-- and whatever other threads do to the queue, is the parameter `play`: from the item without its id
-- and the store it leads to an outcome and a store. `meanwhile` is what other threads do to the queue
-- before an entry that cannot be played is put back.
pub mod Rollback
use relaytv.Prelude.{
  ℕ, ◌+◌, Bool, true, false, Option, none, some, List, [], ◌∷◌, ◌++◌, ◌==◌, if◌then◌else◌, min,
  codes_eq, Text, codes, length, strip, is_empty,
}
use relaytv.Prelude.Http.{Http, reply, failed}
use relaytv.Prelude.Dict
use relaytv.Prelude.Value.{Value, text, Fields}
use relaytv.Queue.Item.{Entry, dict, raw, id_key}
use relaytv.Queue.Store.{Store, insert, settle, enter_scope, exit_scope, scope_mutations}
use relaytv.Queue.Routes.{Selector, Popped, pop_selected}

-- How `_play_now_queue_item` ends: its result, `PlaybackSupersededError`, or another exception.
pub data Outcome : Type 0 where
  played : Outcome
  superseded : Outcome
  raised : ℕ → Text → Outcome

abbrev pub Play : Type 0
Play = Fields → Store → Outcome × Store

-- `_restore(owned_mutations=...)`
unfoldable pub restore : (ℕ → Text) → ℕ → Popped → Store → Store
restore uuid owned p s =
    let back = insert uuid true (min p.index (length s.queue)) p.item s in
    if s.revision == p.after.revision + owned then back else s

abbrev pub has_text : Option Value → Bool
has_text (some (text url)) = if is_empty (strip url) then false else true
has_text _ = false

abbrev pub playable : Entry → Option Text
playable (raw value) = some (codes "queue item is not playable")
playable (dict fields) =
    if has_text (Dict.get fields (codes "url")) then none else some (codes "queue item missing url")

abbrev pub fields_of : Entry → Fields
fields_of (raw value) = []
fields_of (dict fields) = fields

module _ (uuid : ℕ → Text) where
  -- The end of the play, in the scope that its own mutations are counted in.
  unfoldable pub finish_play : Popped → Outcome × Store → Http (List Entry) × Store
  unfolding restore exit_scope
  finish_play p (played, s) = (reply s.queue, exit_scope s)
  finish_play p (superseded, s) = (
    failed 409 (codes "playback superseded by a newer action"),
    restore uuid (scope_mutations s.scopes) p (exit_scope s),
  )
  finish_play p (raised status detail, s) =
      (failed status detail, restore uuid (scope_mutations s.scopes) p (exit_scope s))

module _ (uuid : ℕ → Text) (meanwhile : Store → Store) (play : Play) where
  unfoldable pub play_popped : Popped → Http (List Entry) × Store
  play_popped p = elim (playable p.item) [
    | some problem ↦ (failed 400 problem, restore uuid 0 p (meanwhile p.after))
    | none ↦ finish_play uuid p (play (Dict.pop (fields_of p.item) id_key) (enter_scope p.after))
  ]

  unfoldable pub queue_play : Selector → Store → Http (List Entry) × Store
  queue_play req s =
      let s' = settle uuid s in
      elim (pop_selected req (codes "index") s') [
        | failed status detail ↦ (failed status detail, s')
        | reply p ↦ play_popped p
      ]

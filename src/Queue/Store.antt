-- ===== src/Queue/Store.antt =====
-- `_RevisionedQueue`, its revision and `queue_mutation_scope` of app/relaytv_app/state.py, with the
-- Clear generation of app/relaytv_app/playback_service.py. A store is what one thread sees while it
-- holds `QUEUE_LOCK`: `scopes` are the open mutation scopes of that thread, the innermost first, and
-- `mine` says of a mutation whether it is that thread's. Of the mutating methods those are here that
-- the program calls; it has no call of `__delitem__`, `__imul__`, `remove`, `reverse` or `sort`.
pub mod Invariant
pub mod History
pub mod Revision
use relaytv.Prelude.{
  ℕ, zero, suc, ◌+◌, Bool, true, false, Option, none, some, List, [], ◌∷◌, ◌++◌, Text, take, drop,
  length,
}
use relaytv.Queue.Item.{Entry}
use relaytv.Queue.Ids.{Prepared, prepare, ensure}

pub record Store : Type 0 where
  pub queue : List Entry
  pub revision : ℕ
  pub drawn : ℕ
  pub generation : ℕ
  pub scopes : List ℕ

-- `owner.mutations += 1`, if the thread has a scope.
abbrev pub count_mutation : Bool → List ℕ → List ℕ
count_mutation false scopes = scopes
count_mutation true [] = []
count_mutation true (mutations ∷ outer) = suc mutations ∷ outer

unfoldable pub advance : Bool → Store → Store
advance mine s = record s { revision = suc s.revision; scopes = count_mutation mine s.scopes }

-- `__enter__` and `__exit__` of a new scope.
unfoldable pub enter_scope : Store → Store
enter_scope s = record s { scopes = 0 ∷ s.scopes }

abbrev pub outer_scopes : List ℕ → List ℕ
outer_scopes [] = []
outer_scopes (mutations ∷ outer) = outer

abbrev pub scope_mutations : List ℕ → ℕ
scope_mutations [] = 0
scope_mutations (mutations ∷ outer) = mutations

unfoldable pub exit_scope : Store → Store
exit_scope s = record s { scopes = outer_scopes s.scopes }

-- `list.insert(i, e)` for `0 ≤ i`: behind the last entry where `i` is too large.
abbrev pub insert_at : ℕ → Entry → List Entry → List Entry
insert_at i e q = take i q ++ (e ∷ drop i q)

-- The prepared form of a value, which is one entry, at a place.
abbrev pub splice : ℕ → List Entry → List Entry → List Entry
splice i items q = take i q ++ (items ++ drop i q)

-- `list.pop(i)`; `none` is the IndexError.
unfoldable pub pop_at : ℕ → List Entry → Option (Entry × List Entry)
pop_at i [] = none
pop_at zero (e ∷ q) = some (e, q)
pop_at (suc i) (e ∷ q) = elim (pop_at i q) [ none ↦ none | some (x, rest) ↦ some (x, e ∷ rest) ]

module _ (uuid : ℕ → Text) (mine : Bool) where
  -- `self[:] = values`
  unfoldable pub replace_all : List Entry → Store → Store
  unfolding advance
  replace_all values s =
      let p = prepare uuid s.drawn values [] in
      advance mine (record s { queue = p.items; drawn = p.drawn })

  -- `self[0:0] = values`
  unfoldable pub insert_front : List Entry → Store → Store
  unfolding advance
  insert_front values s =
      let p = prepare uuid s.drawn values s.queue in
      advance mine (record s { queue = p.items ++ s.queue; drawn = p.drawn })

  unfoldable pub extend : List Entry → Store → Store
  unfolding advance
  extend values s =
      let p = prepare uuid s.drawn values s.queue in
      advance mine (record s { queue = s.queue ++ p.items; drawn = p.drawn })

  unfoldable pub append : Entry → Store → Store
  unfolding extend
  append value s = extend (value ∷ []) s

  unfoldable pub insert : ℕ → Entry → Store → Store
  unfolding advance
  insert i value s =
      let p = prepare uuid s.drawn (value ∷ []) s.queue in
      advance mine (record s { queue = splice i p.items s.queue; drawn = p.drawn })

  -- `self[i] = value`: the value is prepared next to the other entries and takes the place of entry
  -- `i`; `none` is the IndexError.
  unfoldable pub set_item : ℕ → Entry → Store → Option Store
  unfolding advance pop_at
  set_item i value s = elim (pop_at i s.queue) [
    | none ↦ none
    | some (e, remaining) ↦
        let p = prepare uuid s.drawn (value ∷ []) remaining in
        some (advance mine (record s { queue = splice i p.items remaining; drawn = p.drawn }))
  ]

module _ (mine : Bool) where
  unfoldable pub clear : Store → Store
  unfolding advance
  clear s = advance mine (record s { queue = [] })

  unfoldable pub pop : ℕ → Store → Option (Entry × Store)
  unfolding advance
  pop i s = elim (pop_at i s.queue) [
    | none ↦ none
    | some (e, rest) ↦ some (e, advance mine (record s { queue = rest }))
  ]

-- `ensure_queue_item_ids(QUEUE)`. The assignment to an entry of the queue, which would count as a
-- mutation, is for one dict that stands twice, and `_prepare` lets none in.
unfoldable pub settle : (ℕ → Text) → Store → Store
settle uuid s = let p = ensure uuid s.drawn s.queue in record s { queue = p.items; drawn = p.drawn }

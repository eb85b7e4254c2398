-- ===== src/Queue/Store/History.antt =====
-- A queue that starts empty stays well formed through any history of mutations.
use relaytv.Queue.Store.{pop}
use relaytv.Queue.Store.{append}
use relaytv.Prelude.{◌≤◌, ℕ, Bool, List, [], ◌∷◌, Text, inl, inr, Option-cases}
use relaytv.Queue.Item.{Entry}
use relaytv.Queue.Ids.Unique.{IsUuid, Unused, max_draws}
use relaytv.Queue.Store.{Store, pop_at, set_item}
use relaytv.Queue.Store.Invariant.{
  IsValid, extend-IsValid, insert_front-IsValid, insert-IsValid, replace_all-IsValid, clear-IsValid,
  pop-IsValid, set_item-IsValid,
}
use relaytv.Queue.Store.Revision.{
  Change, change, run, appending, extending, replacing, fronting, inserting, assigning, popping,
  clearing,
}

-- The entries that a mutation brings in.
abbrev pub brought : Change → List Entry
brought (appending e) = e ∷ []
brought (extending es) = es
brought (replacing es) = es
brought (fronting es) = es
brought (inserting i e) = e ∷ []
brought (assigning i e) = e ∷ []
brought (popping i) = []
brought clearing = []

-- No entry that comes in has an id which is still to be drawn, and the process does not run out of
-- ids.
unfoldable pub Foreseen : (ℕ → Text) → List (Bool × Change) → Store → Type 0
Foreseen uuid [] s = Unit {0}
Foreseen uuid ((mine, c) ∷ cs) s =
    Unused uuid s.drawn (brought c)
    × ((change uuid mine c s).drawn ≤ max_draws)
    × Foreseen uuid cs (change uuid mine c s)

module _ {uuid : ℕ → Text} (u : IsUuid uuid) where
  change-IsValid :
      (mine : Bool) (c : Change) (s : Store)
      → Unused uuid s.drawn (brought c)
      → (change uuid mine c s).drawn ≤ max_draws
      → IsValid uuid s
      → IsValid uuid (change uuid mine c s)
  unfolding change append pop set_item
  change-IsValid mine (appending e) s f m v = extend-IsValid u mine (e ∷ []) s f v m
  change-IsValid mine (extending es) s f m v = extend-IsValid u mine es s f v m
  change-IsValid mine (replacing es) s f m v = replace_all-IsValid u mine es s f m
  change-IsValid mine (fronting es) s f m v = insert_front-IsValid u mine es s f v m
  change-IsValid mine (inserting i e) s f m v = insert-IsValid u mine i e s f v m
  change-IsValid mine (assigning i e) s f m v = elim (Option-cases (set_item uuid mine i e s)) [
    | inl h ↦ rw (h, change) v
    | inr (s', h) ↦
        rw (h, change)
          (set_item-IsValid u mine i e s f v h (let bound = rw (h, change) at m in bound))
  ]
  change-IsValid mine (popping i) s f m v = elim (Option-cases (pop_at i s.queue)) [
    | inl h ↦ rw (h, change, pop) v
    | inr ((e, rest), h) ↦ rw (h, change, pop) (pop-IsValid u mine i s h v)
  ]
  change-IsValid mine clearing s f m v = clear-IsValid u mine s

  -- From a queue with well-formed ids, where the drawn ids are hexadecimal and do not repeat, the
  -- process does not run out of them, and no entry comes in with an id that is drawn later, any
  -- mutations of the kinds that the program makes, in any order and by any threads, keep the ids well formed: every dict has one and no id
  -- stands twice.
  pub run-IsValid :
      (cs : List (Bool × Change)) (s : Store)
      → Foreseen uuid cs s
      → IsValid uuid s
      → IsValid uuid (run uuid cs s)
  unfolding run Foreseen
  run-IsValid [] s f v = v
  run-IsValid ((mine, c) ∷ cs) s f v =
      run-IsValid cs (change uuid mine c s) f.2 (change-IsValid mine c s f.0 f.1 v)

-- ===== src/Queue/Store/Revision.antt =====
-- The revision counts every mutation, and the open scope counts those of its own thread.
use relaytv.Prelude.{ℕ, ◌+◌, ◌≡◌, Bool, true, false, Option, none, some, List, [], ◌∷◌, arith, Text}
use relaytv.Queue.Item.{Entry}
use relaytv.Queue.Store.{
  Store, advance, replace_all, insert_front, extend, append, insert, clear, pop, pop_at, set_item,
}

-- A mutation of the queue, of those that the program makes.
pub data Change : Type 0 where
  appending : Entry → Change
  extending replacing fronting : List Entry → Change
  inserting assigning : ℕ → Entry → Change
  popping : ℕ → Change
  clearing : Change

abbrev pub after_pop : Store → Option (Entry × Store) → Store
after_pop s none = s
after_pop s (some (e, s')) = s'

abbrev pub after_set : Store → Option Store → Store
after_set s none = s
after_set s (some s') = s'

-- One mutation by this thread (`true`) or another.
unfoldable pub change : (ℕ → Text) → Bool → Change → Store → Store
change uuid mine (appending e) s = append uuid mine e s
change uuid mine (extending es) s = extend uuid mine es s
change uuid mine (replacing es) s = replace_all uuid mine es s
change uuid mine (fronting es) s = insert_front uuid mine es s
change uuid mine (inserting i e) s = insert uuid mine i e s
change uuid mine (assigning i e) s = after_set s (set_item uuid mine i e s)
change uuid mine (popping i) s = after_pop s (pop mine i s)
change uuid mine clearing s = clear mine s

-- Mutations in the order in which their threads hold the lock.
unfoldable pub run : (ℕ → Text) → List (Bool × Change) → Store → Store
run uuid [] s = s
run uuid ((mine, c) ∷ cs) s = run uuid cs (change uuid mine c s)

-- 1 for a mutation that is made: popping an index out of range raises, and so does assigning to it.
abbrev pub pop_made : Option (Entry × List Entry) → ℕ
pop_made none = 0
pop_made (some x) = 1

abbrev pub made : Change → Store → ℕ
made (appending e) s = 1
made (extending es) s = 1
made (replacing es) s = 1
made (fronting es) s = 1
made (inserting i e) s = 1
made (assigning i e) s = pop_made (pop_at i s.queue)
made (popping i) s = pop_made (pop_at i s.queue)
made clearing s = 1

abbrev pub if_mine : Bool → ℕ → ℕ
if_mine true n = n
if_mine false n = 0

abbrev pub if_other : Bool → ℕ → ℕ
if_other true n = 0
if_other false n = n

-- How many mutations of this thread, and of other threads, a run makes.
unfoldable pub own : (ℕ → Text) → List (Bool × Change) → Store → ℕ
own uuid [] s = 0
own uuid ((mine, c) ∷ cs) s = if_mine mine (made c s) + own uuid cs (change uuid mine c s)

unfoldable pub others : (ℕ → Text) → List (Bool × Change) → Store → ℕ
others uuid [] s = 0
others uuid ((mine, c) ∷ cs) s = if_other mine (made c s) + others uuid cs (change uuid mine c s)

change-counts :
    (uuid : ℕ → Text) (mine : Bool) (c : Change) (s : Store) (n : ℕ) (outer : List ℕ)
    → s.scopes ≡ n ∷ outer
    → (s.revision + made c s ≡ (change uuid mine c s).revision)
      × ((change uuid mine c s).scopes ≡ (n + if_mine mine (made c s)) ∷ outer)
unfolding change append extend replace_all insert_front insert set_item pop clear advance
change-counts uuid mine (assigning i e) s n outer o = ground arith
change-counts uuid mine (popping i) s n outer o = ground arith
change-counts uuid mine c s n outer o = ground arith

-- A run of mutations, of the kinds that the program makes and by any threads, from an open scope adds
-- every mutation that is made to the revision, its own thread's to the scope, and
-- leaves the outer scopes alone.
pub run-counts :
    (uuid : ℕ → Text) (cs : List (Bool × Change)) (s : Store) (n : ℕ) (outer : List ℕ)
    → s.scopes ≡ n ∷ outer
    → ((run uuid cs s).revision ≡ s.revision + own uuid cs s + others uuid cs s)
      × ((run uuid cs s).scopes ≡ (n + own uuid cs s) ∷ outer)
unfolding run own others
run-counts uuid [] s n outer o = (omega arith, ground arith)
run-counts uuid ((mine, c) ∷ cs) s n outer o =
    let one = change-counts uuid mine c s n outer o in
    let rest =
      run-counts uuid cs (change uuid mine c s) (n + if_mine mine (made c s)) outer one.1 in
    (ground (arith, one.0, rest.0), ground (arith, rest.1))

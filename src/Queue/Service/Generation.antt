-- ===== src/Queue/Service/Generation.antt =====
-- What a batch that was bound before a Clear adds is refused.
use relaytv.Queue.Service.{kept}
use relaytv.Prelude.{arith}
use relaytv.Prelude.{
  inl, inr, ◌+◌, ◌-◌, arith, ◌<◌, refl, true, length, ◌==◌, Bool, List, [], ◌∷◌, Text, suc,
}
use relaytv.Queue.Store.{replace_all}
use relaytv.Prelude.{some}
use relaytv.Prelude.{[]}
use relaytv.Prelude.{true}
use relaytv.Queue.Service.{failed}
use relaytv.Prelude.{suc}
use relaytv.Prelude.{Bool-cases}
use relaytv.Queue.Service.{is_retired}
use relaytv.Prelude.{◌∷◌}
use relaytv.Prelude.{◌<◌}
use relaytv.Queue.Service.{replace_all}
use relaytv.Queue.Service.{Http}
use relaytv.Prelude.{Text}
use relaytv.Prelude.{Bool}
use relaytv.Prelude.{List}
use relaytv.Queue.Service.{remove_queue_items_by_id}
use relaytv.Prelude.{ℕ, ◌≡◌}
use relaytv.Queue.Item.{Entry}
use relaytv.Queue.Store.{Store, append, extend, insert, clear, advance}
use relaytv.Queue.Service.{
  Binding, Listed, bind_import, cancelled, queue_item, queue_items, queue_item_next, clear_queue,
}

-- A command that adds to the queue.
pub data Addition : Type 0 where
  one next : Entry → Addition
  many : Entry → List Entry → Addition

unfoldable pub added : (ℕ → Text) → Bool → Binding → Addition → Store → Http Listed × Store
added uuid mine b (one e) s = queue_item uuid mine b e s
added uuid mine b (next e) s = queue_item_next uuid mine b e s
added uuid mine b (many e es) s = queue_items uuid mine b (e ∷ es) s

-- What other threads and this one do between the commits of a batch.
pub data Event : Type 0 where
  adding : Bool → Binding → Addition → Event
  clearing : Bool → Event
  removing : Bool → List Text → Event

unfoldable pub happen : (ℕ → Text) → Event → Store → Store
happen uuid (adding mine b a) s = (added uuid mine b a s).1
happen uuid (clearing mine) s = clear_queue mine s
happen uuid (removing mine ids) s = (remove_queue_items_by_id uuid mine ids s).1

unfoldable pub happen_all : (ℕ → Text) → List Event → Store → Store
happen_all uuid [] s = s
happen_all uuid (e ∷ es) s = happen_all uuid es (happen uuid e s)

unfoldable pub clears : List Event → ℕ
clears [] = 0
clears (adding mine b a ∷ es) = clears es
clears (clearing mine ∷ es) = suc (clears es)
clears (removing mine ids ∷ es) = clears es

added-generation :
    (uuid : ℕ → Text) (mine : Bool) (b : Binding) (a : Addition) (s : Store)
    → (added uuid mine b a s).1.generation ≡ s.generation
unfolding added queue_item queue_items queue_item_next append extend insert advance
added-generation uuid mine b (one e) s = elim (Bool-cases (is_retired b s)) [
  | inl h ↦ rw h refl
  | inr h ↦ rw h refl
]
added-generation uuid mine b (next e) s = elim (Bool-cases (is_retired b s)) [
  | inl h ↦ rw h refl
  | inr h ↦ rw h refl
]
added-generation uuid mine b (many e es) s = elim (Bool-cases (is_retired b s)) [
  | inl h ↦ rw h refl
  | inr h ↦ rw h refl
]

removed-generation :
    (uuid : ℕ → Text) (mine : Bool) (ids : List Text) (s : Store)
    → (remove_queue_items_by_id uuid mine ids s).1.generation ≡ s.generation
unfolding remove_queue_items_by_id replace_all advance
removed-generation uuid mine ids s =
    elim (Bool-cases (length s.queue - length (kept ids s.queue) == 0)) [
      | inl h ↦ rw h refl
      | inr h ↦ rw h refl
    ]

pub happen_all-generation :
    (uuid : ℕ → Text) (es : List Event) (s : Store)
    → (happen_all uuid es s).generation ≡ s.generation + clears es
unfolding happen_all happen clears clear_queue clear advance
happen_all-generation uuid [] s = omega arith
happen_all-generation uuid (adding mine b a ∷ es) s = omega (
  arith,
  happen_all-generation uuid es (happen uuid (adding mine b a) s),
  added-generation uuid mine b a s,
)
happen_all-generation uuid (clearing mine ∷ es) s =
    omega (arith, happen_all-generation uuid es (happen uuid (clearing mine) s))
happen_all-generation uuid (removing mine ids ∷ es) s = omega (
  arith,
  happen_all-generation uuid es (happen uuid (removing mine ids) s),
  removed-generation uuid mine ids s,
)

retired :
    (uuid : ℕ → Text) (mine : Bool) (b : Binding) (a : Addition) (s : Store)
    → is_retired b s ≡ true
    → added uuid mine b a s ≡ (failed 409 cancelled, s)
unfolding added queue_item queue_items queue_item_next
retired uuid mine b (one e) s h = rw h refl
retired uuid mine b (next e) s h = rw h refl
retired uuid mine b (many e es) s h = rw h refl

-- After any events among which the queue is cleared, a command by which a batch that was bound before
-- them adds one entry or more is refused, and changes nothing.
pub added-retired :
    (uuid : ℕ → Text) (mine : Bool) (a : Addition) (es : List Event) (s : Store)
    → 0 < clears es
    → added uuid mine (bind_import s) a (happen_all uuid es s)
      ≡ (failed 409 cancelled, happen_all uuid es s)
unfolding bind_import
added-retired uuid mine a es s h =
    retired uuid mine (some s.generation) a (happen_all uuid es s)
      (ground (arith, happen_all-generation uuid es s))

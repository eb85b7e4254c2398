-- ===== src/Queue/Tests.antt =====
-- Runs of the queue's operations, and the theorems at concrete queues.
mod Uuid
use relaytv.Prelude.{
  ℕ, ◌+◌, ◌≤◌, ◌<◌, ◌≡◌, ◌≢◌, ◌⊎◌, refl, Bool, true, false, Option, none, some, List, [], ◌∷◌,
  arith, Text, codes,
}
use relaytv.Prelude.Http.{Http, reply, failed}
use relaytv.Prelude.Int.{pos}
use relaytv.Prelude.Value.{Value, text, Fields}
use relaytv.Queue.Item.{Entry, dict, raw, id_key, id_of, with_id, normal_id, is_id, all_hex, is_hex}
use relaytv.Queue.Ids.{prepare, prepare_from, ensure, create_id, unseen, seen_ids, shown_id}
use relaytv.Queue.Ids.Unique.{
  count_id, count_unnamed, WellFormed, Unused, max_draws, IsPrepared, prepare-IsPrepared,
}
use relaytv.Queue.Store.{Store, advance, extend, append, insert, pop_at, settle, enter_scope}
use relaytv.Queue.Store.Invariant.{IsValid}
use relaytv.Queue.Store.Revision.{
  Change, change, run, others, own, run-counts, extending, appending, popping, clearing,
}
use relaytv.Queue.Store.History.{Foreseen, run-IsValid}
use relaytv.Queue.Service.{bind_import, clear_queue, cancelled, queue_item}
use relaytv.Queue.Service.Generation.{
  added, added-retired, happen, happen_all, one, clearing, adding, clears,
}
use relaytv.Queue.Service.Removal.{Removed, remove_queue_items_by_id-Removed}
use relaytv.Queue.Routes.{
  Selector, Popped, pop_selected, queue_index, position_of, queue_remove, queue_move,
}
use relaytv.Queue.Routes.Selection.{Removes, queue_remove-by_id}
use relaytv.Queue.Routes.Moving.{Moves, Refused, queue_move-Moves}
use relaytv.Queue.Dedupe.Distinct.{Deduped, queue_dedupe-distinct}
use relaytv.Queue.Play.{Outcome, raised, played, playable, queue_play, superseded}
use relaytv.Queue.Play.Rollback.{playing, at_end, queue_play-restores, queue_play-yields}
use relaytv.Prelude.{is_empty, subst}
use relaytv.Queue.Routes.{wanted_id, queue_changed}
use relaytv.Prelude.{ap}
use relaytv.Queue.Tests.Uuid.{uuid, uuid-IsUuid, hex, hex_digit}

abbrev bare : Text → Entry
bare url = dict ((codes "url", text url) ∷ [])

abbrev entry : ℕ → Text → Entry
entry n url = dict ((codes "url", text url) ∷ (id_key, text (uuid n)) ∷ [])

abbrev nothing : Store
nothing = record { queue = []; revision = 0; drawn = 0; generation = 0; scopes = [] }

abbrev batch : List (Bool × Change)
batch = (true, extending (bare (codes "a") ∷ bare (codes "b") ∷ bare (codes "a") ∷ [])) ∷ []

abbrev three : Store
three = record {
  queue = entry 0 (codes "a") ∷ entry 1 (codes "b") ∷ entry 2 (codes "a") ∷ [];
  revision = 1;
  drawn = 3;
  generation = 0;
  scopes = [];
}

run-batch : run uuid batch nothing ≡ three
unfolding run change extend advance prepare prepare_from create_id unseen seen_ids shown_id id_of
    with_id normal_id relaytv.Prelude.contains is_id relaytv.Prelude.lower relaytv.Prelude.strip
    relaytv.Prelude.Value.or_empty relaytv.Prelude.Dict.get relaytv.Prelude.codes_beq
    relaytv.Prelude.Dict.put uuid hex hex_digit
run-batch = refl

nothing-IsValid : IsValid uuid nothing
unfolding count_id count_unnamed
nothing-IsValid = record {
  ids = record { once = λ t. omega arith; named = refl };
  unused = λ k b m. refl;
}

few : (n : ℕ) → n ≤ 9 → n ≤ max_draws
unfolding max_draws
few n h = omega arith

batch-drawn : (run uuid batch nothing).drawn ≡ 3
batch-drawn = ap (λ s. s.drawn) run-batch

batch-unnamed :
    (t : Text) → count_id t (bare (codes "a") ∷ bare (codes "b") ∷ bare (codes "a") ∷ []) ≡ 0
unfolding count_id id_of normal_id is_id relaytv.Prelude.lower relaytv.Prelude.strip
    relaytv.Prelude.Value.or_empty relaytv.Prelude.Dict.get relaytv.Prelude.codes_beq
batch-unnamed t = refl

batch-Foreseen : Foreseen uuid batch nothing
unfolding Foreseen change run
batch-Foreseen = (
  λ k b m. batch-unnamed (uuid k),
  few (run uuid batch nothing).drawn (omega (arith, batch-drawn)),
  tt,
)

run-IsValid_example : IsValid uuid (run uuid batch nothing)
run-IsValid_example = run-IsValid uuid-IsUuid batch nothing batch-Foreseen nothing-IsValid

three-IsValid : IsValid uuid three
three-IsValid =
    subst (IsValid uuid) run-batch
      (run-IsValid uuid-IsUuid batch nothing batch-Foreseen nothing-IsValid)

copied-Unused : Unused uuid 3 (entry 1 (codes "c") ∷ [])
unfolding count_id id_of normal_id is_id relaytv.Prelude.lower relaytv.Prelude.strip
    relaytv.Prelude.Value.or_empty relaytv.Prelude.Dict.get relaytv.Prelude.codes_beq
copied-Unused k b m = omega (arith, three-IsValid.unused k b m)

copied-drawn : (prepare uuid 3 (entry 1 (codes "c") ∷ []) three.queue).drawn ≡ 4
unfolding prepare prepare_from unseen relaytv.Prelude.contains seen_ids relaytv.Prelude.codes_beq
    normal_id is_id relaytv.Prelude.lower relaytv.Prelude.strip relaytv.Prelude.Value.or_empty
    relaytv.Prelude.Dict.get uuid hex hex_digit create_id
copied-drawn = refl

drawn_again : (prepare uuid 3 (entry 1 (codes "c") ∷ []) three.queue).drawn ≤ max_draws
drawn_again =
    few (prepare uuid 3 (entry 1 (codes "c") ∷ []) three.queue).drawn (omega (arith, copied-drawn))

prepare-IsPrepared_example :
    IsPrepared uuid-IsUuid
      (λ t. count_id t three.queue)
      3
      (prepare uuid 3 (entry 1 (codes "c") ∷ []) three.queue)
prepare-IsPrepared_example =
    prepare-IsPrepared uuid-IsUuid 3 (entry 1 (codes "c") ∷ []) three.queue three-IsValid.ids
      three-IsValid.unused copied-Unused drawn_again

run-counts_example :
    ((run uuid batch (enter_scope nothing)).revision
      ≡ nothing.revision
        + own uuid batch (enter_scope nothing)
        + others uuid batch (enter_scope nothing))
    × ((run uuid batch (enter_scope nothing)).scopes
        ≡ (0 + own uuid batch (enter_scope nothing)) ∷ [])
unfolding enter_scope
run-counts_example = run-counts uuid batch (enter_scope nothing) 0 [] refl

added-retired_example :
    added uuid true
      (bind_import three)
      (one (bare (codes "c")))
      (happen_all uuid (clearing false ∷ []) three)
    ≡ (failed 409 cancelled, happen_all uuid (clearing false ∷ []) three)
unfolding clears
added-retired_example =
    added-retired uuid true (one (bare (codes "c"))) (clearing false ∷ []) three (omega arith)

remove_queue_items_by_id-Removed_example : Removed uuid true (uuid 1 ∷ []) three
remove_queue_items_by_id-Removed_example =
    remove_queue_items_by_id-Removed uuid true (uuid 1 ∷ []) three three-IsValid

queue_dedupe-distinct_example : Deduped (λ url. url) uuid three
queue_dedupe-distinct_example = queue_dedupe-distinct (λ url. url) uuid three three-IsValid

abbrev at_id : ℕ → Selector
at_id n = record { index = none; queue_id = some (uuid n) }

at_id-named : is_empty (wanted_id (at_id 1).queue_id) ≡ false
unfolding relaytv.Prelude.lower relaytv.Prelude.strip uuid hex hex_digit
at_id-named = refl

queue_remove-by_id_example :
    Removes uuid (at_id 1) (wanted_id (at_id 1).queue_id) three
    ⊎ ((count_id (wanted_id (at_id 1).queue_id) three.queue ≡ 0)
        × (queue_remove uuid (at_id 1) three ≡ (failed 409 queue_changed, three)))
queue_remove-by_id_example = queue_remove-by_id uuid (at_id 1) three three-IsValid at_id-named

queue_move-Moves_example :
    Moves uuid (at_id 1) (at_id 0) three ⊎ Refused uuid (at_id 1) (at_id 0) three three-IsValid
queue_move-Moves_example = queue_move-Moves uuid (at_id 1) (at_id 0) three three-IsValid

abbrev second : Popped
second = record {
  index = 1;
  item = entry 1 (codes "b");
  after = record three { queue = entry 0 (codes "a") ∷ entry 2 (codes "a") ∷ []; revision = 2 };
}

second-popped : pop_selected (at_id 1) (codes "index") three ≡ reply second
unfolding pop_selected queue_index position_of pop_at advance id_of normal_id relaytv.Prelude.lower
    relaytv.Prelude.strip uuid hex hex_digit is_id relaytv.Prelude.Value.or_empty
    relaytv.Prelude.Dict.get relaytv.Prelude.codes_beq
second-popped = refl

second-playable : playable second.item ≡ none
unfolding relaytv.Prelude.Dict.get relaytv.Prelude.codes_beq relaytv.Prelude.strip
second-playable = refl

superseded-not_played : superseded ≢ played
superseded-not_played e = absurd cc

quiet : others uuid [] (enter_scope second.after) ≡ 0
unfolding others
quiet = refl

unchanged : (at_end uuid superseded [] second).queue ≡ second.after.queue
unfolding run enter_scope
unchanged = refl

-- No other thread does anything.
abbrev idle : Store → Store
idle s = s

queue_play-restores_example :
    (queue_play uuid idle (playing uuid superseded []) (at_id 1) three).1.queue ≡ three.queue
queue_play-restores_example =
    queue_play-restores uuid superseded [] idle (at_id 1) three three-IsValid second-popped refl
      superseded-not_played quiet unchanged

abbrev foreign_clear : List (Bool × Change)
foreign_clear = (false, Change.clearing) ∷ []

busy : 0 < others uuid foreign_clear (enter_scope second.after)
unfolding others
busy = omega arith

queue_play-yields_example :
    (queue_play uuid idle (playing uuid superseded foreign_clear) (at_id 1) three).1.queue
    ≡ (at_end uuid superseded foreign_clear second).queue
queue_play-yields_example =
    queue_play-yields uuid superseded foreign_clear idle (at_id 1) three three-IsValid second-popped
      second-playable superseded-not_played busy

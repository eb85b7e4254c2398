-- ===== src/Queue/Play/Rollback.antt =====
-- A play that fails puts its entry back, unless somebody else has changed the queue since.
use relaytv.Prelude.{◌-◌}
use relaytv.Prelude.{
  ℕ, suc, ◌+◌, ◌<◌, ◌≡◌, ◌≢◌, refl, sym, Bool, true, false, Option, none, some, List, arith, Text,
  codes, length, min, ◌==◌, Option-cases, inl, inr,
}
use relaytv.Prelude.Http.{Http-cases, reply}
use relaytv.Queue.Item.{Entry}
use relaytv.Queue.Ids.Unique.{WellFormed}
use relaytv.Queue.Ids.Returning.{prepare_returning}
use relaytv.Queue.Store.{Store, advance, insert, pop_at, enter_scope, exit_scope, scope_mutations}
use relaytv.Queue.Store.Invariant.{
  IsValid, settle_self, insert_at-pop_at, count_id-pop_at, count_unnamed-pop_at,
}
use relaytv.Queue.Store.Revision.{Change, run, others, run-counts}
use relaytv.Queue.Routes.{Selector, Popped, popped, pop_selected, queue_index}
use relaytv.Queue.Play.{
  Outcome, played, superseded, raised, Play, restore, playable, finish_play, play_popped,
  queue_play,
}

-- What a successful pop says of the store before and after it.
pub record Took (s : Store) (p : Popped) : Type 0 where
  pub entry : pop_at p.index s.queue ≡ some (p.item, p.after.queue)
  pub revision : p.after.revision ≡ suc s.revision

popped-Took :
    (s : Store) (i : ℕ) (o : Option (Entry × List Entry)) {p : Popped}
    → pop_at i s.queue ≡ o
    → popped s i o ≡ reply p
    → Took s p
unfolding advance
popped-Took s i none e h = cc
popped-Took s i (some (x, rest)) {p} e h = record { entry = ground arith; revision = ground arith }

pub pop_selected-Took :
    (req : Selector) (label : Text) (s : Store) {p : Popped}
    → pop_selected req label s ≡ reply p
    → Took s p
unfolding pop_selected
pop_selected-Took req label s h = elim (Http-cases (queue_index req label s.queue)) [
  | inl (i, e) ↦ popped-Took s i (pop_at i s.queue) refl (rw (e, pop_selected) at h)
  | inr (status, detail, e) ↦ let refused = rw (e, pop_selected) at h in cc
]

-- The entry goes back to its place in a queue that is as it left it.
restore-back :
    (uuid : ℕ → Text) (s t : Store) (owned : ℕ) (p : Popped)
    → WellFormed s.queue
    → Took s p
    → t.queue ≡ p.after.queue
    → t.revision ≡ p.after.revision + owned
    → (restore uuid owned p t).queue ≡ s.queue
unfolding restore insert advance
restore-back uuid s t owned p w took q r =
    let back = insert_at-pop_at p.index s.queue took.entry in
    let same : min p.index (length t.queue) ≡ p.index = rw q (omega (arith, back.1)) in
    let on_time : (t.revision == p.after.revision + owned) ≡ true = ground arith in
    rw
      (
        on_time,
        same,
        q,
        prepare_returning uuid t.drawn p.item p.after.queue
            (λ k. omega (arith, count_id-pop_at k p.index s.queue took.entry, w.once k))
            (omega (arith, count_unnamed-pop_at p.index s.queue took.entry, w.named)),
      )
      (sym back.0)

-- Not on time: somebody else has decided about the queue.
restore-late :
    (uuid : ℕ → Text) (t : Store) (owned other : ℕ) (p : Popped)
    → t.revision ≡ p.after.revision + owned + suc other
    → restore uuid owned p t ≡ t
unfolding restore
restore-late uuid t owned other p r =
    let late : (t.revision == p.after.revision + owned) ≡ false = ground arith in rw late

finish_play-failed :
    (uuid : ℕ → Text) (p : Popped) (outcome : Outcome) (t : Store)
    → outcome ≢ played
    → (finish_play uuid p (outcome, t)).1 ≡ restore uuid (scope_mutations t.scopes) p (exit_scope t)
unfolding finish_play
finish_play-failed uuid p played t h = absurd (h refl)
finish_play-failed uuid p superseded t h = refl
finish_play-failed uuid p (raised status detail) t h = refl

module _ (uuid : ℕ → Text) (outcome : Outcome) (changes : List (Bool × Change)) where
  -- A play that ends so, while the queue goes through these changes, of its own thread or others.
  abbrev pub playing : Play
  playing fields s = (outcome, run uuid changes s)

  -- The store when the play ends, for an entry that was popped.
  abbrev pub at_end : Popped → Store
  at_end p = run uuid changes (enter_scope p.after)

  end-counts :
      (p : Popped)
      → ((exit_scope (at_end p)).revision
          ≡ p.after.revision
            + scope_mutations (at_end p).scopes
            + others uuid changes (enter_scope p.after))
  unfolding exit_scope enter_scope
  end-counts p =
      let counts = run-counts uuid changes (enter_scope p.after) 0 p.after.scopes refl in
      ground (arith, counts.0, counts.1)

  play_popped-restores :
      (meanwhile : Store → Store) (s : Store) (p : Popped)
      → WellFormed s.queue
      → Took s p
      → meanwhile p.after ≡ p.after
      → outcome ≢ played
      → others uuid changes (enter_scope p.after) ≡ 0
      → (at_end p).queue ≡ p.after.queue
      → (play_popped uuid meanwhile playing p).1.queue ≡ s.queue
  unfolding play_popped
  play_popped-restores meanwhile s p w took idle bad alone same =
      elim (Option-cases (playable p.item)) [
        | inr (problem, e) ↦
            rw (e, play_popped, idle) (restore-back uuid s p.after 0 p w took refl (omega arith))
        | inl e ↦
            rw (e, play_popped, finish_play-failed uuid p outcome (at_end p) bad)
              (restore-back uuid s (exit_scope (at_end p)) (scope_mutations (at_end p).scopes) p w
                took (unfold exit_scope in same) (omega (arith, end-counts p, alone)))
      ]

  -- Where the ids of the queue are well formed and the selector names an entry, a play that fails
  -- leaves the queue as it was before the request, with the entry at its old place, if no other
  -- thread changed the queue during the play, or before an entry that cannot be played was put back,
  -- and the changes of its own thread cancel out.
  pub queue_play-restores :
      (meanwhile : Store → Store) (req : Selector) (s : Store) {p : Popped}
      → IsValid uuid s
      → pop_selected req (codes "index") s ≡ reply p
      → meanwhile p.after ≡ p.after
      → outcome ≢ played
      → others uuid changes (enter_scope p.after) ≡ 0
      → (at_end p).queue ≡ p.after.queue
      → (queue_play uuid meanwhile playing req s).1.queue ≡ s.queue
  unfolding queue_play
  queue_play-restores meanwhile req s {p} v h idle bad alone same =
      rw (settle_self s v, queue_play)
        (rw (h, queue_play)
          (play_popped-restores meanwhile s p v.ids (pop_selected-Took req (codes "index") s h) idle
            bad alone same))

  -- Where the ids of the queue are well formed and the selector names an entry that can be played,
  -- a play that fails after another thread has changed the queue leaves the queue as it then is:
  -- the newer decision stands, and the entry does not come back.
  pub queue_play-yields :
      (meanwhile : Store → Store) (req : Selector) (s : Store) {p : Popped}
      → IsValid uuid s
      → pop_selected req (codes "index") s ≡ reply p
      → playable p.item ≡ none
      → outcome ≢ played
      → 0 < others uuid changes (enter_scope p.after)
      → (queue_play uuid meanwhile playing req s).1.queue ≡ (at_end p).queue
  unfolding queue_play play_popped
  queue_play-yields meanwhile req s {p} v h fine bad busy =
      let other = others uuid changes (enter_scope p.after) in
      let late : (exit_scope (at_end p)).revision
          ≡ p.after.revision + scope_mutations (at_end p).scopes + suc (other - 1) =
        omega (arith, end-counts p) in
      rw (settle_self s v, queue_play)
        (rw (h, queue_play)
          (rw
            (
              fine,
              play_popped,
              finish_play-failed uuid p outcome (at_end p) bad,
              restore-late uuid (exit_scope (at_end p)) (scope_mutations (at_end p).scopes)
                  (other - 1) p late,
            )
            (unfold exit_scope in refl)))

-- ===== src/Playback/Intents/Owner.antt =====
-- The counter of intents implements a player that has one owner at most.
use relaytv.Playback.Intents.{is_intent}
use relaytv.Playback.Intents.{finish_playback_intent}
use relaytv.Playback.Intents.{apply_playback_intent}
use relaytv.Playback.Intents.{retire_playback_intent_if_current}
use relaytv.Playback.Intents.{Intents}
use relaytv.Playback.Intents.{claim_playback_intent}
use relaytv.Playback.Intents.{retire_playback_intents}
use relaytv.Playback.Intents.{no_intents}
use relaytv.Prelude.{
  not, ◌||◌, ◌&&◌, ℕ, suc, ◌≡◌, ◌≤◌, ◌<◌, refl, true, false, Bool, Option, none, some, List, [],
  ◌∷◌, ◌==◌, if◌then◌else◌, arith, length, Bool-cases, Option-cases, inl, inr,
}

-- A play is named by how many had started before it.
pub data Event : Type 0 where
  starts : Event
  stops : Event
  cancelled : ℕ → Event
  effects_run : ℕ → Event
  finishes : ℕ → Event

-- The specification: the play that owns the player, if one does. Only its effects run.
pub record Player : Type 0 where
  pub owner : Option ℕ
  pub started : ℕ
  pub ran : List ℕ

abbrev pub owns : Option ℕ → ℕ → Bool
owns none play = false
owns (some k) play = k == play

unfoldable pub specified : Event → Player → Player
specified starts p = record p { owner = some p.started; started = suc p.started }
specified stops p = record p { owner = none }
specified (cancelled play) p = if owns p.owner play then record p { owner = none } else p
specified (effects_run play) p = if owns p.owner play then record p { ran = play ∷ p.ran } else p
specified (finishes play) p =
    if owns p.owner play then record p { owner = none; ran = play ∷ p.ran } else p

-- The implementation: each play keeps the intent that it claimed, here the newest play first.
pub record Plays : Type 0 where
  pub intents : Intents
  pub claimed : List ℕ
  pub ran : List ℕ

unfoldable pub intent_of : ℕ → List ℕ → Option ℕ
intent_of play [] = none
intent_of play (n ∷ ns) =
    let older = intent_of play ns in if play == length ns then some n else older

abbrev pub with_result : Plays → Intents × List ℕ → Plays
with_result c (intents, ran) = record c { intents = intents; ran = ran }

abbrev pub run_with : Option ℕ → (ℕ → Plays) → Plays → Plays
run_with none f c = c
run_with (some n) f c = f n

unfoldable pub implemented : Event → Plays → Plays
unfolding intent_of
implemented starts c =
    let (n, intents) = claim_playback_intent c.intents in
    record c { intents = intents; claimed = n ∷ c.claimed }
implemented stops c = record c { intents = (retire_playback_intents c.intents).1 }
implemented (cancelled play) c =
    run_with (intent_of play c.claimed)
      (λ n. record c { intents = (retire_playback_intent_if_current n false c.intents).1 }) c
implemented (effects_run play) c =
    run_with (intent_of play c.claimed)
      (λ n. with_result c (apply_playback_intent n (λ ran. play ∷ ran) (c.intents, c.ran)).1) c
implemented (finishes play) c =
    run_with (intent_of play c.claimed)
      (λ n. with_result c (finish_playback_intent n (λ ran. play ∷ ran) (c.intents, c.ran)).1) c

unfoldable pub specified_each : List Event → Player → Player
unfolding specified
specified_each [] p = p
specified_each (e ∷ es) p = specified_each es (specified e p)

unfoldable pub implemented_each : List Event → Plays → Plays
unfolding implemented
implemented_each [] c = c
implemented_each (e ∷ es) c = implemented_each es (implemented e c)

abbrev pub no_player : Player
no_player = record { owner = none; started = 0; ran = [] }

abbrev pub no_plays : Plays
no_plays = record { intents = no_intents; claimed = []; ran = [] }

-- A play owns the player exactly where its intent is the newest one.
record Refines (c : Plays) (p : Player) : Type 0 where
  same : c.ran ≡ p.ran
  count : length c.claimed ≡ p.started
  known : (play n : ℕ) → intent_of play c.claimed ≡ some n → n ≤ c.intents.newest
  agree :
      (play n : ℕ) → intent_of play c.claimed ≡ some n → (n == c.intents.newest) ≡ owns p.owner play
  unknown : (play : ℕ) → intent_of play c.claimed ≡ none → owns p.owner play ≡ false
  early : (play n : ℕ) → intent_of play c.claimed ≡ some n → play < p.started

starts-Refines :
    (c : Plays) (p : Player) → Refines c p → Refines (implemented starts c) (specified starts p)
unfolding implemented specified claim_playback_intent intent_of
starts-Refines c p r = record {
  same = r.same;
  count = omega (arith, r.count);
  known = λ play n h. elim (Bool-cases (play == length c.claimed)) [
    | inl same ↦
        let is : suc c.intents.newest ≡ n = (let h' = rw (same, intent_of) at h in cc) in
        omega (arith, is)
    | inr other ↦ let h' = rw (other, intent_of) at h in omega (arith, r.known play n h')
  ];
  agree = λ play n h. elim (Bool-cases (play == length c.claimed)) [
    | inl same ↦
        let is : suc c.intents.newest ≡ n = (let h' = rw (same, intent_of) at h in cc) in
        ground (arith, is, same, r.count)
    | inr other ↦
        let h' = rw (other, intent_of) at h in ground (arith, r.known play n h', r.early play n h')
  ];
  unknown = λ play h. elim (Bool-cases (play == length c.claimed)) [
    | inl same ↦ let h' = rw (same, intent_of) at h in absurd cc
    | inr other ↦ ground (arith, other, r.count)
  ];
  early = λ play n h. elim (Bool-cases (play == length c.claimed)) [
    | inl same ↦
        let is : suc c.intents.newest ≡ n = (let h' = rw (same, intent_of) at h in cc) in
        ground (arith, same, r.count)
    | inr other ↦ let h' = rw (other, intent_of) at h in omega (arith, r.early play n h')
  ];
}

stops-Refines :
    (c : Plays) (p : Player) → Refines c p → Refines (implemented stops c) (specified stops p)
unfolding implemented specified retire_playback_intents claim_playback_intent
stops-Refines c p r = record {
  same = r.same;
  count = r.count;
  known = λ play n h. omega (arith, r.known play n h);
  agree = λ play n h. ground (arith, r.known play n h);
  unknown = λ play h. refl;
  early = r.early;
}

dropped-Refines :
    (c : Plays) (p : Player)
    → Refines c p
    → Refines
        (record c { intents = record (c.intents) { newest = suc c.intents.newest } })
        (record p { owner = none })
unfolding implemented specified retire_playback_intents claim_playback_intent
dropped-Refines c p r = stops-Refines c p r

ran-Refines :
    (play : ℕ) (c : Plays) (p : Player)
    → Refines c p
    → Refines (record c { ran = play ∷ c.ran }) (record p { ran = play ∷ p.ran })
ran-Refines play c p r = record {
  same = rw r.same refl;
  count = r.count;
  known = r.known;
  agree = r.agree;
  unknown = r.unknown;
  early = r.early;
}

cancel_both :
    (b b' before : Bool) (c : Plays) (p : Player)
    → b ≡ b'
    → Refines c p
    → Refines
        (record c {
          intents =
              (if◌then◌else◌ {A = Bool × Intents}
                (not b || (false && before))
                (false, c.intents)
                (true, record (c.intents) { newest = suc c.intents.newest })).1;
        })
        (if b' then record p { owner = none } else p)
cancel_both true true before c p e r = dropped-Refines c p r
cancel_both false false before c p e r = r
cancel_both true false before c p e r = absurd cc
cancel_both false true before c p e r = absurd cc

run_both :
    (b b' : Bool) (play : ℕ) (c : Plays) (p : Player)
    → b ≡ b'
    → Refines c p
    → Refines
        (with_result c
          (if◌then◌else◌ {A = Bool × (Intents × List ℕ)} b
            (true, (c.intents, play ∷ c.ran))
            (false, (c.intents, c.ran))).1)
        (if b' then record p { ran = play ∷ p.ran } else p)
run_both true true play c p e r = ran-Refines play c p r
run_both false false play c p e r = r
run_both true false play c p e r = absurd cc
run_both false true play c p e r = absurd cc

finish_both :
    (b b' : Bool) (play : ℕ) (c : Plays) (p : Player)
    → b ≡ b'
    → Refines c p
    → Refines
        (with_result c
          (if◌then◌else◌ {A = Bool × (Intents × List ℕ)} b
            (true, (record (c.intents) { newest = suc c.intents.newest }, play ∷ c.ran))
            (false, (c.intents, c.ran))).1)
        (if b' then record p { owner = none; ran = play ∷ p.ran } else p)
finish_both true true play c p e r = ran-Refines play _ _ (dropped-Refines c p r)
finish_both false false play c p e r = r
finish_both true false play c p e r = absurd cc
finish_both false true play c p e r = absurd cc

step-Refines :
    (e : Event) (c : Plays) (p : Player) → Refines c p → Refines (implemented e c) (specified e p)
unfolding implemented specified retire_playback_intent_if_current apply_playback_intent
    finish_playback_intent
step-Refines starts c p r = starts-Refines c p r
step-Refines stops c p r = stops-Refines c p r
step-Refines (cancelled play) c p r = elim (Option-cases (intent_of play c.claimed)) [
  | inl h ↦ rw (h, r.unknown play h) r
  | inr (n, h) ↦ rw h (
      cancel_both (n == c.intents.newest) (owns p.owner play) (is_intent c.intents.load_started n) c
        p (r.agree play n h) r)
]
step-Refines (effects_run play) c p r = elim (Option-cases (intent_of play c.claimed)) [
  | inl h ↦ rw (h, r.unknown play h) r
  | inr (n, h) ↦
      rw h (run_both (n == c.intents.newest) (owns p.owner play) play c p (r.agree play n h) r)
]
step-Refines (finishes play) c p r = elim (Option-cases (intent_of play c.claimed)) [
  | inl h ↦ rw (h, r.unknown play h) r
  | inr (n, h) ↦
      rw h (finish_both (n == c.intents.newest) (owns p.owner play) play c p (r.agree play n h) r)
]

each-Refines :
    (es : List Event) (c : Plays) (p : Player)
    → Refines c p
    → Refines (implemented_each es c) (specified_each es p)
unfolding implemented_each specified_each
each-Refines [] c p r = r
each-Refines (e ∷ es) c p r =
    each-Refines es (implemented e c) (specified e p) (step-Refines e c p r)

start-Refines : Refines no_plays no_player
unfolding intent_of
start-Refines = record {
  same = refl;
  count = refl;
  known = λ play n h. absurd cc;
  agree = λ play n h. absurd cc;
  unknown = λ play h. refl;
  early = λ play n h. absurd cc;
}

-- Whatever plays start, end, are cancelled and stopped, in any order: the effects that run are those
-- that the specification runs, in which only the play that owns the player has effects, the newest
-- play takes it over, and a stop leaves it to nobody.
pub implemented_each-specified_each :
    (es : List Event) → (implemented_each es no_plays).ran ≡ (specified_each es no_player).ran
implemented_each-specified_each es = (each-Refines es no_plays no_player start-Refines).same

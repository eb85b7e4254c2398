-- ===== src/Playback/Intents/Stale.antt =====
-- A play that was superseded, and a play that was stopped, has no effect any more.
use relaytv.Playback.Intents.{finish_playback_intent}
use relaytv.Playback.Intents.{apply_playback_intent}
use relaytv.Playback.Intents.{begin_playback_load}
use relaytv.Playback.Intents.{retire_playback_intent_if_current}
use relaytv.Playback.Intents.{retire_playback_intents}
use relaytv.Playback.Intents.{claim_playback_intent}
use relaytv.Playback.Intents.{Intents}
use relaytv.Playback.Intents.{no_intents}
use relaytv.Prelude.{ℕ, suc, ◌≡◌, ◌<◌, Bool, true, false, List, [], ◌∷◌, ◌==◌, if◌then◌else◌}

-- What the threads do, in the order of the lock; any thread may name any intent.
pub data Action : Type 0 where
  claiming : Action
  retiring : Action
  retiring_one : ℕ → Bool → Action
  loading : ℕ → Action
  applying : ℕ → Action
  finishing : ℕ → Action

-- The intents whose effects ran, the newest first; to begin loading its media is one of them.
pub record Scene : Type 0 where
  pub intents : Intents
  pub effects : List ℕ

abbrev note : ℕ → List ℕ → List ℕ
note intent effects = intent ∷ effects

abbrev with_effects : Intents × List ℕ → Scene
with_effects (s, effects) = record { intents = s; effects = effects }

-- The caller loads the media where `_begin_playback_load` answers true.
abbrev with_load : ℕ → Bool × Intents → List ℕ → Scene
with_load intent (true, s) effects = record { intents = s; effects = note intent effects }
with_load intent (false, s) effects = record { intents = s; effects = effects }

unfoldable pub act : Action → Scene → Scene
act claiming c = record c { intents = (claim_playback_intent c.intents).1 }
act retiring c = record c { intents = (retire_playback_intents c.intents).1 }
act (retiring_one intent before) c = record c {
  intents = (retire_playback_intent_if_current intent before c.intents).1;
}
act (loading intent) c = with_load intent (begin_playback_load intent c.intents) c.effects
act (applying intent) c =
    with_effects (apply_playback_intent intent (note intent) (c.intents, c.effects)).1
act (finishing intent) c =
    with_effects (finish_playback_intent intent (note intent) (c.intents, c.effects)).1

unfoldable pub act_each : List Action → Scene → Scene
unfolding act
act_each [] c = c
act_each (a ∷ actions) c = act_each actions (act a c)

abbrev pub at_start : Scene
at_start = record { intents = no_intents; effects = [] }

-- How many effects of an intent ran.
unfoldable pub effects_of : ℕ → List ℕ → ℕ
effects_of intent [] = 0
effects_of intent (n ∷ ns) =
    let rest = effects_of intent ns in if n == intent then suc rest else rest

-- An intent that is older than the newest stays so, and no effect of it runs.
record IsStale (intent : ℕ) (c c' : Scene) : Type 0 where
  older : intent < c'.intents.newest
  none_ran : effects_of intent c'.effects ≡ effects_of intent c.effects

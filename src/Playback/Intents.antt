-- ===== src/Playback/Intents.antt =====
-- The playback intents of player.py. Each function is one critical section under `_INTENT_LOCK`.
pub mod Stale
pub mod Owner
use relaytv.Prelude.{
  ℕ, suc, Bool, true, false, ◌&&◌, ◌||◌, not, Option, none, some, List, [], ◌∷◌, ◌==◌,
  if◌then◌else◌,
}

pub record Intents : Type 0 where
  -- `_PLAYBACK_INTENT`
  pub newest : ℕ
  -- `_PLAYBACK_LOAD_STARTED_INTENT`
  pub load_started : Option ℕ

abbrev pub no_intents : Intents
no_intents = record { newest = 0; load_started = none }

unfoldable pub claim_playback_intent : Intents → ℕ × Intents
claim_playback_intent s = (suc s.newest, record s { newest = suc s.newest })

unfoldable pub current_playback_intent : Intents → ℕ
current_playback_intent s = s.newest

unfoldable pub playback_intent_current : ℕ → Intents → Bool
playback_intent_current intent s = intent == s.newest

abbrev pub is_intent : Option ℕ → ℕ → Bool
is_intent none intent = false
is_intent (some n) intent = n == intent

unfoldable pub playback_intent_loading : ℕ → Intents → Bool
playback_intent_loading intent s = intent == s.newest && is_intent s.load_started intent

unfoldable pub retire_playback_intent_if_current : ℕ → Bool → Intents → Bool × Intents
retire_playback_intent_if_current intent before_load_only s =
    if not (intent == s.newest) || (before_load_only && is_intent s.load_started intent)
    then (false, s)
    else (true, record s { newest = suc s.newest })

unfoldable pub begin_playback_load : ℕ → Intents → Bool × Intents
begin_playback_load intent s =
    if intent == s.newest then (true, record s { load_started = some intent }) else (false, s)

-- `retire_playback_intents`: the generation that it takes belongs to no play.
unfoldable pub retire_playback_intents : Intents → ℕ × Intents
unfolding claim_playback_intent
retire_playback_intents s = claim_playback_intent s

module _ {A : Type 0} where
  -- The effect runs under the lock, where its intent is the newest; `_run_owned` does the same, and
  -- raises where this answers false.
  unfoldable pub apply_playback_intent : ℕ → (A → A) → Intents × A → Bool × (Intents × A)
  apply_playback_intent intent effect (s, a) =
      if intent == s.newest then (true, (s, effect a)) else (false, (s, a))

  unfoldable pub finish_playback_intent : ℕ → (A → A) → Intents × A → Bool × (Intents × A)
  finish_playback_intent intent effect (s, a) =
      if intent == s.newest
      then (true, (record s { newest = suc s.newest }, effect a))
      else (false, (s, a))

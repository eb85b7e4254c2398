-- ===== src/Playback/Tests.antt =====
-- The playback theorems at concrete plays.
use relaytv.Playback.Preserve.Claims.{end_each-IsSettled}
use relaytv.Playback.Preserve.Claims.{shared}
use relaytv.Playback.Intents.Owner.{implemented_each-specified_each}
use relaytv.Playback.Preserve.Claims.{settles}
use relaytv.Playback.Intents.Owner.{no_player}
use relaytv.Playback.Intents.Owner.{specified_each}
use relaytv.Playback.Preserve.Claims.{fails}
use relaytv.Playback.Intents.Owner.{no_plays}
use relaytv.Playback.Same.Symmetric.{same_playback_item_comm}
use relaytv.Playback.Same.{item}
use relaytv.Playback.Preserve.Claims.{end_each}
use relaytv.Playback.Preserve.Claims.{IsSettled}
use relaytv.Playback.Same.{same_playback_item}
use relaytv.Playback.Same.{Media}
use relaytv.Playback.Intents.Owner.{implemented_each}
use relaytv.Prelude.{
  nat_eq, codes_eq, refl, true, false, ◌≡◌, List, [], ◌∷◌, ℕ, codes, Text, Bool, ◌==◌,
}
use relaytv.Prelude.Value.{text}
use relaytv.Playback.Intents.Stale
use relaytv.Playback.Intents.Owner

-- A play resolves slowly; a newer one starts; the older one then tries to load.
abbrev overtaken : List Stale.Action
overtaken = Stale.claiming ∷ Stale.applying 1 ∷ Stale.claiming ∷ []

abbrev afterwards : List Stale.Action
afterwards = Stale.applying 1 ∷ Stale.applying 2 ∷ Stale.finishing 1 ∷ []

abbrev evening : List Owner.Event
evening =
    Owner.starts
    ∷ Owner.effects_run 0
    ∷ Owner.starts
    ∷ Owner.effects_run 0
    ∷ Owner.effects_run 1
    ∷ Owner.stops
    ∷ Owner.effects_run 1
    ∷ []

only_owners : (implemented_each evening no_plays).ran ≡ 1 ∷ 0 ∷ []
unfolding implemented_each relaytv.Playback.Intents.apply_playback_intent
    relaytv.Playback.Intents.claim_playback_intent relaytv.Playback.Intents.retire_playback_intents
only_owners = refl

implemented_each-specified_each_example :
    (implemented_each evening no_plays).ran ≡ (specified_each evening no_player).ran
implemented_each-specified_each_example = implemented_each-specified_each evening

abbrev never : Text → Bool
never url = false

abbrev unchanged : Text → Text
unchanged url = url

abbrev episode : Media
episode = item ((codes "plex_item_id", text (codes " 42 ")) ∷ [])

abbrev other_episode : Media
other_episode = item (
    (codes "plex_item_id", text (codes "42"))
    ∷ (codes "url", text (codes "https://a.example/x"))
    ∷ [])

same_episode : same_playback_item never unchanged unchanged episode other_episode [] [] ≡ true
unfolding same_playback_item relaytv.Prelude.codes_beq
same_episode = refl

same_playback_item_comm_example :
    same_playback_item never unchanged unchanged episode other_episode []
      (codes "https://b.example/y")
    ≡ same_playback_item never unchanged unchanged other_episode episode
        (codes "https://b.example/y")
        []
same_playback_item_comm_example =
    same_playback_item_comm never unchanged unchanged episode other_episode []
      (codes "https://b.example/y")

abbrev equal_items : ℕ → ℕ → Bool
equal_items a b = a == b

abbrev marked : ℕ → Bool
marked a = true

end_each-IsSettled_example : IsSettled 7 ((7, 50) ∷ (8, 51) ∷ []) (
    end_each equal_items equal_items marked 7 50
      (fails ∷ settles 60 ∷ fails ∷ [])
      (shared 7 50 ((8, 51) ∷ []) ((7, 3) ∷ []) []))
unfolding relaytv.Prelude.Dict.get relaytv.Prelude.Dict.has_key
    relaytv.Playback.Preserve.Claims.is_replayed relaytv.Playback.Preserve.Claims.some_settle
end_each-IsSettled_example =
    end_each-IsSettled equal_items equal_items marked 7 50 ((8, 51) ∷ []) ((7, 3) ∷ []) [] fails
      (settles 60 ∷ fails ∷ []) refl refl refl

-- ===== src/History/Tests.antt =====
-- A short history.
use relaytv.Prelude.{◌≡◌, refl, true, false, List, [], ◌∷◌, codes, take, arith}
use relaytv.Prelude.Value.{text, number, flag, Fields}
use relaytv.History.{history_update}
use relaytv.History.Recent.{add_all, add_all-take}

abbrev played : List Fields
played =
    ((codes "history_id", text (codes "c")) ∷ [])
    ∷ ((codes "history_id", text (codes "b")) ∷ (codes "completed", flag true) ∷ [])
    ∷ ((codes "history_id", text (codes "a")) ∷ [])
    ∷ []

add_all-take_example : add_all 2 played [] ≡ take 2 played
add_all-take_example = add_all-take 2 played (omega arith)

-- The position of a completed entry stays.
completed_keeps :
    history_update (codes " b ") ((codes "resume_pos", number 9) ∷ []) played ≡ (false, played)
unfolding history_update relaytv.Prelude.strip relaytv.Prelude.codes_beq
    relaytv.Prelude.Value.or_empty relaytv.Prelude.Dict.get relaytv.Prelude.contains
completed_keeps = refl

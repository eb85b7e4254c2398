-- ===== src/FormatPolicy/Tests.antt =====
-- The caps on a concrete host.
use relaytv.Prelude.{◌≡◌, refl, Option, none, some, [], ◌∷◌, codes}
use relaytv.Prelude.Decimal.{to_int}
use relaytv.Prelude.Value.{number, text, Fields}
use relaytv.FormatPolicy.{Host, auto_profile, target_cap}
use relaytv.FormatPolicy.Caps.{Capped, target_cap-Capped}

abbrev host : Host
host = record {
  env = λ name. none;
  config = λ name. none;
  machine = codes "x86_64";
  int_float = λ s. to_int s;
}

abbrev settings : Option Fields
settings = some ((codes "quality_cap", text (codes "2160")) ∷ [])

abbrev profile : Option Fields
profile = some ((codes "display_cap_height", number 1080) ∷ [])

display_wins : target_cap host settings profile auto_profile ≡ 1080
unfolding target_cap relaytv.Prelude.Dict.get relaytv.Prelude.codes_beq relaytv.Prelude.lower
    relaytv.Prelude.strip relaytv.Prelude.Value.or_empty to_int
display_wins = refl

target_cap-Capped_example : Capped host settings profile auto_profile
target_cap-Capped_example = target_cap-Capped host settings profile auto_profile

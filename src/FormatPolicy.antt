-- ===== src/FormatPolicy.antt =====
-- app/relaytv_app/ytdlp_format_policy.py: the format selector that yt-dlp is given. A setting that is
-- stripped is a text. Parameters stand for the environment (`os.getenv`, and `raw` of the runtime
-- configuration), for the machine's name and for `int(float(s))` (`none`: it raises; 0 for a number
-- below 1).
pub mod Asked
pub mod Caps
pub mod Formats
mod Tests
use relaytv.Prelude.{
  ℕ, zero, suc, min, max, Bool, true, false, not, ◌&&◌, ◌||◌, Option, none, some, List, [], ◌∷◌,
  ◌++◌, ltb, leb, ◌==◌, ◌≟◌, if◌then◌else◌, contains, codes_eq, Text, codes, strip, lower, is_empty,
  is_digit,
}
use relaytv.Prelude.Dict
use relaytv.Prelude.Decimal.{show}
use relaytv.Prelude.Value.{Value, text, null, Fields, or_empty, to_text, truth}

pub record Host : Type 0 where
  pub env : Text → Option Text
  pub config : Text → Option Text
  pub machine : Text
  pub int_float : Text → Option ℕ

pub data Mode : Type 0 where
  auto_profile manual : Mode

abbrev pub cleaned : Text → Text
cleaned s = lower (strip s)

abbrev true_spellings : List Text
true_spellings = codes "1" ∷ codes "true" ∷ codes "yes" ∷ codes "on" ∷ []

abbrev pub or_else {ℓ} : {A : Type ℓ} → Option A → Option A → Option A
or_else none other = other
or_else (some a) other = some a

abbrev pub text_or_empty : Option Text → Text
text_or_empty none = []
text_or_empty (some s) = s

-- `get` of a settings or profile argument; `none` is not a dict.
abbrev pub get_field : Option Fields → Text → Option Value
get_field none name = none
get_field (some fields) name = Dict.get fields name

-- `value or other`, as a text.
unfoldable pub value_or : Option Value → Text → Text
value_or value other = let first = or_empty value in if is_empty first then other else first

-- The limit of a number of lines.
unfoldable pub clamp_cap : Option ℕ → Option ℕ
clamp_cap none = none
clamp_cap (some zero) = none
clamp_cap (some (suc n)) = some (max 144 (min 4320 (suc n)))

-- The longest run of digits at the front.
unfoldable pub digits : Text → Text
digits [] = []
digits (c ∷ s) = let rest = digits s in if is_digit c then c ∷ rest else []

-- `[0-9]{3,4}` at the front: four digits where there are as many.
abbrev pub three_or_four : Text → Option Text
three_or_four (a ∷ b ∷ c ∷ d ∷ s) = some (a ∷ b ∷ c ∷ d ∷ [])
three_or_four (a ∷ b ∷ c ∷ []) = some (a ∷ b ∷ c ∷ [])
three_or_four _ = none

unfoldable pub behind : Text → Text → Option Text
behind [] s = some s
behind (p ∷ ps) [] = none
behind (p ∷ ps) (c ∷ s) = let rest = behind ps s in if p == c then rest else none

abbrev pub height_at : Option Text → Option Text
height_at none = none
height_at (some s) = three_or_four (digits s)

-- `re.search(r"height<=([0-9]{3,4})", s)`
unfoldable pub search_height : Text → Option Text
unfolding behind digits
search_height [] = none
search_height (c ∷ s) =
    let later = search_height s in or_else (height_at (behind (codes "height<=") (c ∷ s))) later

-- `sub in s`
unfoldable pub has_part : Text → Text → Bool
unfolding behind
has_part sub [] = is_empty sub
has_part sub (c ∷ s) =
    let later = has_part sub s in elim (behind sub (c ∷ s)) [ none ↦ later | some rest ↦ true ]

-- The smaller of two caps, the one that there is, or 1080.
abbrev pub auto_cap : Option ℕ → Option ℕ → ℕ
auto_cap none none = 1080
auto_cap none (some user) = user
auto_cap (some display) none = display
auto_cap (some display) (some user) = min display user

abbrev pub manual_cap : Option ℕ → ℕ
manual_cap none = 1080
manual_cap (some user) = user

-- The variable of a provider; no other provider has one.
unfoldable pub provider_variable : Text → Text
provider_variable p =
    if p ≟ codes "youtube"
    then codes "YTDLP_FORMAT_YOUTUBE"
    else if p ≟ codes "twitch"
    then codes "YTDLP_FORMAT_TWITCH"
    else if p ≟ codes "tiktok"
    then codes "YTDLP_FORMAT_TIKTOK"
    else if p ≟ codes "rumble"
    then codes "YTDLP_FORMAT_RUMBLE"
    else if p ≟ codes "bitchute"
    then codes "YTDLP_FORMAT_BITCHUTE"
    else []

module _ (host : Host) where
  abbrev pub env_text : Text → Text
  env_text name = text_or_empty (host.env name)

  unfoldable pub env_bool : Text → Bool → Bool
  env_bool name default = elim (host.env name) [
    | none ↦ default
    | some value ↦ contains true_spellings (cleaned value)
  ]

  unfoldable pub normalize_quality_mode : Text → Mode
  unfolding env_bool
  normalize_quality_mode value =
      let raw = cleaned value in
      if contains (codes "auto" ∷ codes "auto_profile" ∷ codes "profile" ∷ []) raw
      then auto_profile
      else if raw ≟ codes "manual"
      then manual
      else if env_bool (codes "RELAYTV_AUTO_STREAM_PROFILE") true
      then auto_profile
      else manual

  unfoldable pub parse_text_cap : Text → Option ℕ
  unfolding clamp_cap
  parse_text_cap s =
      let raw = cleaned s in
      if is_empty raw || (raw ≟ codes "auto") || (raw ≟ codes "worst")
      then none
      else clamp_cap (host.int_float raw)

  unfoldable pub parse_cap : Option Value → Option ℕ
  unfolding parse_text_cap to_text
  parse_cap none = none
  parse_cap (some null) = none
  parse_cap (some value) = parse_text_cap (to_text value)

  abbrev pub parse_option_cap : Option Text → Option ℕ
  parse_option_cap none = none
  parse_option_cap (some s) = parse_text_cap s

  unfoldable pub extract_quality_cap_from_format : Option Value → Option ℕ
  unfolding parse_text_cap search_height
  extract_quality_cap_from_format fmt = parse_option_cap (search_height (cleaned (or_empty fmt)))

  unfoldable pub display_cap_height : Option Fields → Option ℕ
  unfolding parse_cap
  display_cap_height profile =
      or_else (parse_cap (get_field profile (codes "display_cap_height")))
        (parse_option_cap (host.env (codes "RELAYTV_DISPLAY_CAP_HEIGHT")))

  unfoldable pub user_cap : Option Fields → Option ℕ
  unfolding parse_cap extract_quality_cap_from_format
  user_cap settings = or_else (parse_cap (get_field settings (codes "quality_cap"))) (
      or_else (parse_option_cap (host.config (codes "RELAYTV_QUALITY_CAP")))
        (extract_quality_cap_from_format (get_field settings (codes "ytdlp_format"))))

  unfoldable pub target_cap : Option Fields → Option Fields → Mode → ℕ
  unfolding display_cap_height user_cap
  target_cap settings profile auto_profile =
      auto_cap (display_cap_height profile) (user_cap settings)
  target_cap settings profile manual = manual_cap (user_cap settings)

  unfoldable pub arm_default_quality_cap : ℕ
  unfolding parse_text_cap
  arm_default_quality_cap =
      manual_cap (parse_option_cap (host.env (codes "RELAYTV_ARM_DEFAULT_QUALITY")))

  abbrev pub is_arm : Bool
  is_arm = contains (codes "aarch64" ∷ codes "arm64" ∷ []) (lower host.machine)

  unfoldable pub provider_specific_env : Text → Text
  unfolding provider_variable
  provider_specific_env provider =
      let key = provider_variable (cleaned provider) in
      if is_empty key then [] else strip (env_text key)

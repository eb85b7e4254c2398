-- ===== src/FormatPolicy/Formats.antt =====
-- The selectors that ytdlp_format_policy.py composes.
use relaytv.Prelude.{
  ℕ, min, Bool, true, false, not, ◌&&◌, ◌||◌, Option, none, some, List, [], ◌∷◌, ◌++◌, ltb, ◌==◌,
  ◌≟◌, if◌then◌else◌, contains, codes_eq, Text, codes, strip, lower, is_empty,
}
use relaytv.Prelude.Decimal.{show}
use relaytv.Prelude.Value.{Value, Fields, or_empty, truth}
use relaytv.FormatPolicy.{
  Host, Mode, auto_profile, manual, cleaned, get_field, value_or, text_or_empty, env_bool,
  normalize_quality_mode, target_cap, arm_default_quality_cap, is_arm, provider_specific_env,
  has_part,
}

abbrev pub allows : Option Value → Bool
allows none = false
allows (some value) = truth value

-- `[height<=cap]`
unfoldable pub height : ℕ → Text
height cap = codes "[height<=" ++ (show cap ++ codes "]")

unfoldable pub best : Text → ℕ → Text → Text
unfolding height
best name cap more = name ++ (height cap ++ more)

unfoldable pub auto_provider_format : Text → ℕ → Bool → Text
unfolding best
auto_provider_format provider cap av1_allowed =
    let p = cleaned provider in
    let vcodec = if av1_allowed then [] else codes "[vcodec!*=av01]" in
    if p ≟ codes "rumble"
    then best (codes "best*") cap (codes "[fps<=60]/")
      ++ (best (codes "best*") cap (codes "/") ++ best (codes "best") cap (codes "[fps<=60]/best"))
    else if contains (codes "twitch" ∷ codes "tiktok" ∷ codes "bitchute" ∷ []) p
    then best (codes "best") cap (codes "[fps<=60]/best")
    else best (codes "bestvideo" ++ vcodec) cap (codes "[fps<=60]+bestaudio/")
      ++ best (codes "best" ++ vcodec) cap (codes "/best")

-- The selector that old machines decode.
unfoldable pub safe_format : ℕ → Text
unfolding best
safe_format cap =
    best (codes "best") cap (codes "[fps<=30][vcodec^=avc1]/")
    ++ (best (codes "best") cap (codes "[fps<=30]/") ++ best (codes "best") cap (codes "/best"))

unfoldable pub is_heavy : Text → Bool
unfolding has_part
is_heavy low =
    has_part (codes "bestvideo+") low
    || has_part (codes "bestvideo[") low
    || (low ≟ codes "bv*+ba/best")

abbrev pub is_auto : Mode → Bool
is_auto auto_profile = true
is_auto manual = false

module _ (host : Host) where
  -- The settings that pick a mode.
  abbrev pub mode_of : Option Fields → Mode
  mode_of settings = normalize_quality_mode host (
      value_or (get_field settings (codes "quality_mode"))
        (text_or_empty (host.config (codes "RELAYTV_QUALITY_MODE"))))

  abbrev pub safe_cap : ℕ → ℕ
  safe_cap cap =
      if ltb 0 cap then min (arm_default_quality_cap host) cap else arm_default_quality_cap host

  unfoldable pub arm_safe_if_needed : Text → Mode → ℕ → Text
  unfolding safe_format is_heavy
  arm_safe_if_needed fmt mode cap =
      let low = lower fmt in
      if not (is_arm host)
        || not (env_bool host (codes "RELAYTV_ARM_ENFORCE_SAFE_YTDL_FORMAT") false)
      then fmt
      else if is_auto mode || is_empty low || is_heavy low
      then safe_format (safe_cap cap)
      else fmt

  -- The last step of `effective_ytdlp_format`, once the environment names no format.
  unfoldable pub chosen_format : Option Fields → Text → Option Fields → Mode → ℕ → Text
  unfolding auto_provider_format
  chosen_format settings provider profile mode cap =
      let explicit = strip (
        value_or (get_field settings (codes "ytdlp_format"))
          (text_or_empty (host.config (codes "YTDLP_FORMAT")))) in
      if not (is_auto mode) && not (is_empty explicit)
      then explicit
      else auto_provider_format provider cap (allows (get_field profile (codes "av1_allowed")))

  unfoldable pub effective_ytdlp_format : Option Fields → Text → Option Fields → Text
  unfolding arm_safe_if_needed chosen_format
  effective_ytdlp_format settings provider profile =
      let mode = mode_of settings in
      let cap = target_cap host settings profile mode in
      let override = provider_specific_env host provider in
      arm_safe_if_needed
        (if is_empty override then chosen_format settings provider profile mode cap else override)
        mode cap

  abbrev pub is_arm_safe : Option Fields → Bool
  is_arm_safe profile =
      cleaned (or_empty (get_field profile (codes "decode_profile"))) ≟ codes "arm_safe"

  -- The cap of the progressive formats, which start at once.
  unfoldable pub startup_cap : Option Fields → Option Fields → ℕ
  startup_cap settings profile =
      let target = target_cap host settings profile (mode_of settings) in
      let cap = if target == 0 then 720 else target in
      if is_arm host || is_arm_safe profile then min cap (arm_default_quality_cap host) else cap

  unfoldable pub youtube_progressive_startup_format : Option Fields → Option Fields → Text
  unfolding startup_cap best
  youtube_progressive_startup_format settings profile =
      let cap = startup_cap settings profile in
      best (codes "best*") cap (codes "[fps<=30][vcodec!=none][acodec!=none][vcodec^=avc1]/")
      ++ (best (codes "best*") cap (codes "[fps<=30][vcodec!=none][acodec!=none]/")
          ++ best (codes "best") cap (codes "/best"))

  -- `dict.fromkeys` of the three: they differ from one another.
  unfoldable pub youtube_progressive_startup_candidates : Option Fields → Option Fields → List Text
  unfolding startup_cap best youtube_progressive_startup_format
  youtube_progressive_startup_candidates settings profile =
      let cap = startup_cap settings profile in
      youtube_progressive_startup_format settings profile
      ∷ (best (codes "best*") cap (codes "[vcodec!=none][acodec!=none]/")
          ++ best (codes "best") cap (codes "/best"))
      ∷ best (codes "best") cap (codes "/best")
      ∷ []

  unfoldable pub youtube_progressive_startup_enabled : Bool
  youtube_progressive_startup_enabled =
      if is_empty (strip (text_or_empty (host.env (codes "RELAYTV_YOUTUBE_PROGRESSIVE_FIRST"))))
      then false
      else env_bool host (codes "RELAYTV_YOUTUBE_PROGRESSIVE_FIRST") false

-- ===== src/FormatPolicy/Asked.antt =====
-- The number of lines that the user and the display ask for, and the caps that are read from it.
use relaytv.Prelude.{
  max, List, [], ◌∷◌, refl, ◌∙◌, subst, if◌then◌else◌, ℕ, zero, suc, ◌≤◌, ◌≡◌, inl, inr, Option,
  none, some, ◌||◌, arith, ◌≟◌, Text, codes, codes_eq, is_empty, Bool-cases,
}
use relaytv.Prelude.Value.{Value, null, text, number, flag, other, Fields, to_text, or_empty}
use relaytv.FormatPolicy.{
  Host, or_else, cleaned, get_field, clamp_cap, parse_text_cap, parse_cap, parse_option_cap,
  display_cap_height, user_cap, extract_quality_cap_from_format, search_height,
}

abbrev pub BelowIfAny : ℕ → Option ℕ → Type 0
BelowIfAny n none = Unit {0}
BelowIfAny n (some m) = n ≤ m

-- Within what was asked for, where anything was: a limit below 144 lines counts as 144.
abbrev pub Within : ℕ → Option ℕ → Type 0
Within n none = Unit {0}
Within n (some zero) = Unit {0}
Within n (some (suc m)) = n ≤ max 144 (suc m)

abbrev positive : Option ℕ → Option ℕ
positive none = none
positive (some zero) = none
positive (some (suc n)) = some (suc n)

abbrev shown_text : Option Value → Option Text
shown_text none = none
shown_text (some null) = none
shown_text (some value) = some (to_text value)

within_clamp : (n : ℕ) (m : Option ℕ) → BelowIfAny n (clamp_cap m) → Within n m
unfolding clamp_cap
within_clamp n none h = tt
within_clamp n (some zero) h = tt
within_clamp n (some (suc m)) h = omega (arith, h)

clamp_first :
    (x y : Option ℕ)
    → or_else (clamp_cap (positive x)) (clamp_cap y) ≡ clamp_cap (or_else (positive x) y)
unfolding clamp_cap
clamp_first none y = refl
clamp_first (some zero) y = refl
clamp_first (some (suc n)) y = refl

or_else-none : {A : Type 0} (x : Option A) → x ≡ or_else x none
or_else-none none = refl
or_else-none (some a) = refl

clamp_positive : (x : Option ℕ) → clamp_cap x ≡ clamp_cap (positive x)
unfolding clamp_cap
clamp_positive none = refl
clamp_positive (some zero) = refl
clamp_positive (some (suc n)) = refl

module _ (host : Host) where
  -- The number of lines that a text asks for: a positive one, of a text that is not "auto" or "worst".
  unfoldable pub asked_lines : Text → Option ℕ
  asked_lines s =
      let raw = cleaned s in
      if is_empty raw || (raw ≟ codes "auto") || (raw ≟ codes "worst")
      then none
      else positive (host.int_float raw)

  -- The first number of lines that any of the texts asks for.
  unfoldable pub first_asked : List (Option Text) → Option ℕ
  unfolding asked_lines
  first_asked [] = none
  first_asked (none ∷ texts) = first_asked texts
  first_asked (some s ∷ texts) = or_else (asked_lines s) (first_asked texts)

  -- Where the user asks for a number of lines, and where the display does.
  abbrev pub user_texts : Option Fields → List (Option Text)
  user_texts settings =
      shown_text (get_field settings (codes "quality_cap"))
      ∷ host.config (codes "RELAYTV_QUALITY_CAP")
      ∷ search_height (cleaned (or_empty (get_field settings (codes "ytdlp_format"))))
      ∷ []

  abbrev pub display_texts : Option Fields → List (Option Text)
  display_texts profile =
      shown_text (get_field profile (codes "display_cap_height"))
      ∷ host.env (codes "RELAYTV_DISPLAY_CAP_HEIGHT")
      ∷ []

  parse_first :
      (asked : Option Text) (texts : List (Option Text))
      → or_else (parse_option_cap host asked) (clamp_cap (first_asked texts))
        ≡ clamp_cap (first_asked (asked ∷ texts))
  unfolding first_asked asked_lines parse_text_cap
  parse_first none texts = refl
  parse_first (some s) texts =
      elim (Bool-cases
        (is_empty (cleaned s) || (cleaned s ≟ codes "auto") || (cleaned s ≟ codes "worst"))) [
          | inl h ↦ rw (h, parse_text_cap, asked_lines) refl
          | inr h ↦
              rw (h, parse_text_cap, asked_lines, clamp_positive (host.int_float (cleaned s)))
                (clamp_first (host.int_float (cleaned s)) (first_asked texts))
        ]

  parse_last :
      (asked : Option Text) → parse_option_cap host asked ≡ clamp_cap (first_asked (asked ∷ []))
  unfolding clamp_cap first_asked
  parse_last asked = or_else-none (parse_option_cap host asked) ∙ parse_first asked []

  parse_cap-text : (v : Option Value) → parse_cap host v ≡ parse_option_cap host (shown_text v)
  unfolding parse_cap
  parse_cap-text none = refl
  parse_cap-text (some null) = refl
  parse_cap-text (some (text s)) = refl
  parse_cap-text (some (number n)) = refl
  parse_cap-text (some (flag b)) = refl
  parse_cap-text (some (other label s)) = refl

  user_cap-asked :
      (settings : Option Fields)
      → user_cap host settings ≡ clamp_cap (first_asked (user_texts settings))
  unfolding user_cap extract_quality_cap_from_format
  user_cap-asked settings =
      let format = search_height (cleaned (or_empty (get_field settings (codes "ytdlp_format")))) in
      let config = host.config (codes "RELAYTV_QUALITY_CAP") in
      rw
        (
          parse_cap-text (get_field settings (codes "quality_cap")),
          parse_last format,
          parse_first config (format ∷ []),
          parse_first (shown_text (get_field settings (codes "quality_cap")))
              (config ∷ format ∷ []),
        )
        refl

  display_cap_height-asked :
      (profile : Option Fields)
      → display_cap_height host profile ≡ clamp_cap (first_asked (display_texts profile))
  unfolding display_cap_height
  display_cap_height-asked profile =
      let env = host.env (codes "RELAYTV_DISPLAY_CAP_HEIGHT") in
      rw
        (
          parse_cap-text (get_field profile (codes "display_cap_height")),
          parse_last env,
          parse_first (shown_text (get_field profile (codes "display_cap_height"))) (env ∷ []),
        )
        refl

  pub user_within :
      (n : ℕ) (settings : Option Fields)
      → BelowIfAny n (user_cap host settings)
      → Within n (first_asked (user_texts settings))
  user_within n settings h =
      within_clamp n (first_asked (user_texts settings))
        (subst (BelowIfAny n) (user_cap-asked settings) h)

  pub display_within :
      (n : ℕ) (profile : Option Fields)
      → BelowIfAny n (display_cap_height host profile)
      → Within n (first_asked (display_texts profile))
  display_within n profile h =
      within_clamp n (first_asked (display_texts profile))
        (subst (BelowIfAny n) (display_cap_height-asked profile) h)

-- ===== src/FormatPolicy/Caps.antt =====
-- Every cap is between 144 and 4320 lines, and none goes above what the display or the user asks for.
use relaytv.Prelude.{
  ℕ, zero, suc, ◌≤◌, ◌≡◌, inl, inr, Option, none, some, ◌||◌, arith, ◌≟◌, Text, codes, codes_eq,
  is_empty, Bool-cases,
}
use relaytv.Prelude.Value.{Value, null, Fields, to_text}
use relaytv.FormatPolicy.{
  Host, Mode, auto_profile, manual, or_else, cleaned, get_field, clamp_cap, parse_text_cap,
  parse_cap, parse_option_cap, display_cap_height, user_cap, target_cap, auto_cap, manual_cap,
  extract_quality_cap_from_format,
}
use relaytv.FormatPolicy.Asked.{
  BelowIfAny, Within, first_asked, user_texts, display_texts, user_within, display_within,
}

-- A number of lines that a selector may name.
abbrev pub IsCap : ℕ → Type 0
IsCap n = (144 ≤ n) × (n ≤ 4320)

abbrev IsCapIfAny : Option ℕ → Type 0
IsCapIfAny none = Unit {0}
IsCapIfAny (some n) = IsCap n

clamp_cap-IsCap : (n : Option ℕ) → IsCapIfAny (clamp_cap n)
unfolding clamp_cap
clamp_cap-IsCap none = tt
clamp_cap-IsCap (some zero) = tt
clamp_cap-IsCap (some (suc n)) = (omega arith, omega arith)

or_else-IsCap : (a b : Option ℕ) → IsCapIfAny a → IsCapIfAny b → IsCapIfAny (or_else a b)
or_else-IsCap none b p q = q
or_else-IsCap (some n) b p q = p

module _ (host : Host) where
  parse_text_cap-IsCap : (s : Text) → IsCapIfAny (parse_text_cap host s)
  unfolding parse_text_cap
  parse_text_cap-IsCap s =
      elim (Bool-cases
        (is_empty (cleaned s) || (cleaned s ≟ codes "auto") || (cleaned s ≟ codes "worst"))) [
          | inl h ↦ rw (h, parse_text_cap) tt
          | inr h ↦ rw (h, parse_text_cap) (clamp_cap-IsCap (host.int_float (cleaned s)))
        ]

  parse_cap-IsCap : (v : Option Value) → IsCapIfAny (parse_cap host v)
  unfolding parse_cap
  parse_cap-IsCap none = tt
  parse_cap-IsCap (some null) = tt
  parse_cap-IsCap (some value) = parse_text_cap-IsCap (to_text value)

  parse_option_cap-IsCap : (s : Option Text) → IsCapIfAny (parse_option_cap host s)
  parse_option_cap-IsCap none = tt
  parse_option_cap-IsCap (some s) = parse_text_cap-IsCap s

  display_cap_height-IsCap :
      (profile : Option Fields) → IsCapIfAny (display_cap_height host profile)
  unfolding display_cap_height
  display_cap_height-IsCap profile =
      or_else-IsCap (parse_cap host (get_field profile (codes "display_cap_height"))) _
        (parse_cap-IsCap (get_field profile (codes "display_cap_height")))
        (parse_option_cap-IsCap (host.env (codes "RELAYTV_DISPLAY_CAP_HEIGHT")))

  user_cap-IsCap : (settings : Option Fields) → IsCapIfAny (user_cap host settings)
  unfolding user_cap extract_quality_cap_from_format
  user_cap-IsCap settings =
      or_else-IsCap (parse_cap host (get_field settings (codes "quality_cap"))) _
        (parse_cap-IsCap (get_field settings (codes "quality_cap")))
        (or_else-IsCap (parse_option_cap host (host.config (codes "RELAYTV_QUALITY_CAP"))) _
          (parse_option_cap-IsCap (host.config (codes "RELAYTV_QUALITY_CAP")))
          (unfold extract_quality_cap_from_format in parse_option_cap-IsCap _))

  -- What the cap of a selector promises.
  pub record Capped (settings profile : Option Fields) (mode : Mode) : Type 0 where
    pub is_cap : IsCap (target_cap host settings profile mode)
    pub user :
        Within (target_cap host settings profile mode) (first_asked host (user_texts host settings))
    pub display :
        mode ≡ auto_profile
        → Within
            (target_cap host settings profile mode)
            (first_asked host (display_texts host profile))

  auto_cap-Capped :
      (d u : Option ℕ)
      → IsCapIfAny d
      → IsCapIfAny u
      → IsCap (auto_cap d u) × BelowIfAny (auto_cap d u) u × BelowIfAny (auto_cap d u) d
  auto_cap-Capped none none p q = ((omega arith, omega arith), tt, tt)
  auto_cap-Capped none (some u) p q = (q, omega arith, tt)
  auto_cap-Capped (some d) none p q = (p, tt, omega arith)
  auto_cap-Capped (some d) (some u) p q =
      ((omega (arith, p, q), omega (arith, p, q)), omega arith, omega arith)

  manual_cap-Capped :
      (u : Option ℕ) → IsCapIfAny u → IsCap (manual_cap u) × BelowIfAny (manual_cap u) u
  manual_cap-Capped none q = ((omega arith, omega arith), tt)
  manual_cap-Capped (some u) q = (q, omega arith)

  -- The cap that a selector is composed with is between 144 and 4320 lines. It is at most 144 or the
  -- number of lines that the user asks for: in the setting, or else in the configuration, or else in
  -- the user's format, where the first of them that names a positive number counts. In the automatic
  -- mode it is also at most 144 or the number that the profile, or else the environment, has for the
  -- display.
  pub target_cap-Capped :
      (settings profile : Option Fields) (mode : Mode) → Capped settings profile mode
  unfolding target_cap
  target_cap-Capped settings profile auto_profile =
      let (c, u, d) =
        auto_cap-Capped (display_cap_height host profile) (user_cap host settings)
          (display_cap_height-IsCap profile) (user_cap-IsCap settings) in
      record {
        is_cap = c;
        user = user_within host _ settings u;
        display = λ m. display_within host _ profile d;
      }
  target_cap-Capped settings profile manual =
      let (c, u) = manual_cap-Capped (user_cap host settings) (user_cap-IsCap settings) in
      record { is_cap = c; user = user_within host _ settings u; display = λ m. absurd cc }

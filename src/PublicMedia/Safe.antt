-- ===== src/PublicMedia/Safe.antt =====
-- A public copy shows no private key, no credentials of a URL and no signing parameter.
use relaytv.Prelude.{OneOf, ◌⊎◌, Option, none, some, [], ◌∷◌, codes_eq, Text, lower, strip}
use relaytv.Prelude.Dict
use relaytv.Prelude.Value.{Value, text, Fields}
use relaytv.PublicMedia.{Urls, url_fields}
use relaytv.PublicMedia.Sanitized.{IsPublicKey, IsWeb, IsSanitized}

module _ (urls : Urls) where
  -- A text under a key; other values are shown as they are.
  abbrev pub SafeValue : Text → Value → Type 0
  SafeValue key (text s) =
      ((¬ (OneOf url_fields (lower (strip key)))) × (¬ (IsWeb s))) ⊎ IsSanitized urls s
  SafeValue key value = Unit {0}

  abbrev pub Safe : Fields → Type 0
  Safe [] = Unit {0}
  Safe ((key, value) ∷ fields) = IsPublicKey key × SafeValue key value × Safe fields

  abbrev SafeIfAny : Text → Option Value → Type 0
  SafeIfAny key none = Unit {0}
  SafeIfAny key (some value) = SafeValue key value

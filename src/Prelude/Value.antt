-- ===== src/Prelude/Value.antt =====
-- The values of a JSON-like Python dict that the program looks into.
use Prim.Native.Nat.{ℕ, zero, suc}
use mathlib.Core.List.{[], ◌∷◌}
use mathlib.Core.Bool.{Bool, true, false}
use mathlib.Core.Option.{Option, none, some}
use relaytv.Prelude.Strings.{Text, codes}
use relaytv.Prelude.Dict.{Dict}
use relaytv.Prelude.Decimal.{show}

-- `other` stands for a list, a dict or a float; it is told apart by a label, and `str` of it is a
-- text of its own.
pub data Value : Type 0 where
  null : Value
  text : Text → Value
  number : ℕ → Value
  flag : Bool → Value
  other : ℕ → Text → Value

abbrev pub Fields : Type 0
Fields = Dict Text Value

-- `bool(value)`; an empty list or dict is not an `other`.
abbrev number_truth : ℕ → Bool
number_truth n = elim n [ zero ↦ false | suc k ↦ true ]

unfoldable pub truth : Value → Bool
truth null = false
truth (text []) = false
truth (text (c ∷ s)) = true
truth (number n) = number_truth n
truth (flag b) = b
truth (other label shown) = true

-- `str(value or "")`
unfoldable pub or_empty : Option Value → Text
unfolding show
or_empty none = []
or_empty (some null) = []
or_empty (some (text s)) = s
or_empty (some (number n)) = elim n [ zero ↦ [] | suc k ↦ show (suc k) ]
or_empty (some (flag true)) = codes "True"
or_empty (some (flag false)) = []
or_empty (some (other label shown)) = shown

-- `str(value)`
unfoldable pub to_text : Value → Text
to_text null = codes "None"
to_text (flag false) = codes "False"
to_text (number ℕ.zero) = codes "0"
to_text value = or_empty (some value)

-- ===== src/Prelude/Decimal.antt =====
-- `str(n)` and `int(s)` on natural numbers and ASCII digits.
use Prim.Native.Nat.{ℕ, zero, suc, ◌+◌, ◌-◌, ◌*◌, ◌/◌, ◌%◌}
use mathlib.Core.Bool.{Bool, true, ◌&&◌}
use mathlib.Core.Option.{Option, none, some}
use mathlib.Core.List.{[], ◌∷◌}
use relaytv.Prelude.Tests.{ltb, leb, if◌then◌else◌}
use relaytv.Prelude.Lists.{length}
use relaytv.Prelude.Strings.{Text, is_digit}

-- The decimal digits of `n` in front of `tail`; `n + 1` rounds are enough, since each divides by 10.
unfoldable pub show_from : ℕ → ℕ → Text → Text
show_from zero n tail = tail
show_from (suc fuel) n tail =
    let more = show_from fuel (n / 10) ((b'0' + n % 10) ∷ tail) in
    if ltb n 10 then (b'0' + n) ∷ tail else more

-- `str(n)`
unfoldable pub show : ℕ → Text
unfolding show_from
show n = show_from (suc n) n []

unfoldable pub all_digits : Text → Bool
all_digits [] = true
all_digits (c ∷ s) = is_digit c && all_digits s

unfoldable pub value_from : ℕ → Text → ℕ
value_from n [] = n
value_from n (c ∷ s) = value_from (n * 10 + (c - b'0')) s

-- `int(s)` on a text of digits; `none` is the ValueError for no digit at all, or for more digits
-- than the interpreter converts (4300 by default).
unfoldable pub to_int : Text → Option ℕ
unfolding value_from
to_int [] = none
to_int (c ∷ s) = if leb (length (c ∷ s)) 4300 then some (value_from 0 (c ∷ s)) else none

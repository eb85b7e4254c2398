-- ===== src/Prelude/Strings.antt =====
-- Python text as its code points, with the string methods that the program uses.
use Prim.Native.Nat.{ℕ, ◌+◌, ◌-◌, ◌*◌}
use Prim.Native.Char.{code}
use Prim.Native.String.{String}
use mathlib.Core.Bool.{Bool, true, false, ◌&&◌, ◌||◌}
use mathlib.Core.List.{List, [], ◌∷◌, map, reverse}
use relaytv.Prelude.Tests.{leb, ◌==◌, if◌then◌else◌}

abbrev pub Text : Type 0
Text = List ℕ

abbrev pub codes : String → Text
codes String.[] = []
codes (String.◌∷◌ c s) = code c ∷ codes s

-- `str.isspace` on one code point.
unfoldable pub is_space : ℕ → Bool
is_space c =
    (leb 9 c && leb c 13)
    || (leb 28 c && leb c 32)
    || c == 133
    || c == 160
    || c == 5760
    || (leb 8192 c && leb c 8202)
    || c == 8232
    || c == 8233
    || c == 8239
    || c == 8287
    || c == 12288

unfoldable pub lstrip : Text → Text
unfolding is_space
lstrip [] = []
lstrip (c ∷ s) = let rest = lstrip s in if is_space c then rest else c ∷ s

-- `str.strip()`
unfoldable pub strip : Text → Text
unfolding lstrip
strip s = reverse (lstrip (reverse (lstrip s)))

-- `str.lower()` on ASCII text.
unfoldable pub lower_code : ℕ → ℕ
lower_code c = if leb b'A' c && leb c b'Z' then c + 32 else c

unfoldable pub lower : Text → Text
unfolding lower_code
lower s = map lower_code s

unfoldable pub upper_code : ℕ → ℕ
upper_code c = if leb b'a' c && leb c b'z' then c - 32 else c

-- `str.upper()` on ASCII text.
unfoldable pub upper : Text → Text
unfolding upper_code
upper s = map upper_code s

abbrev pub is_digit : ℕ → Bool
is_digit c = leb b'0' c && leb c b'9'

abbrev pub is_empty {ℓ} : {A : Type ℓ} → List A → Bool
is_empty [] = true
is_empty (x ∷ xs) = false

-- A reading of the clock is a number of nanoseconds.
abbrev pub seconds : ℕ → ℕ
seconds n = n * 1000000000

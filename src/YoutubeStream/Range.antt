-- ===== src/YoutubeStream/Range.antt =====
-- `byte_range` of app/relaytv_app/youtube_stream.py.
-- A media size is a number of bytes. No source has size 0 (`Sources.Invariant`), so that `size - 1`
-- is the last byte.
pub mod Bounds
use relaytv.Prelude.{
  ℕ, ◌-◌, min, Bool, true, false, ◌||◌, Option, none, some, List, [], ◌∷◌, ◌≡◌, ltb, leb, ◌==◌,
  if◌then◌else◌, Text, codes, strip, is_digit, is_empty,
}
use relaytv.Prelude.Decimal.{to_int, all_digits}

-- The text behind a prefix.
unfoldable pub after_prefix : Text → Text → Option Text
after_prefix [] s = some s
after_prefix (p ∷ ps) [] = none
after_prefix (p ∷ ps) (c ∷ s) = let rest = after_prefix ps s in if p == c then rest else none

-- The longest prefix of digits, and what follows it.
unfoldable pub span_digits : Text → Text × Text
span_digits [] = ([], [])
span_digits (c ∷ s) =
    let (ds, rest) = span_digits s in if is_digit c then (c ∷ ds, rest) else ([], c ∷ s)

-- The two groups of `bytes=(\d*)-(\d*)`, matched against the whole text.
unfoldable pub after_first : Text × Text → Option (Text × Text)
unfolding all_digits
after_first (first, []) = none
after_first (first, c ∷ last) =
    if c == b'-' then (if all_digits last then some (first, last) else none) else none

unfoldable pub match_groups : Text → Option (Text × Text)
unfolding after_prefix span_digits after_first
match_groups s = elim (after_prefix (codes "bytes=") s) [
  | none ↦ none
  | some rest ↦ after_first (span_digits rest)
]

-- The last `size - suffix` bytes.
unfoldable pub suffix_range : ℕ → Option ℕ → Option (ℕ × ℕ)
suffix_range size none = none
suffix_range size (some suffix) = if suffix == 0 then none else some (size - suffix, size - 1)

unfoldable pub check_range : ℕ → ℕ → ℕ → Option (ℕ × ℕ)
check_range size start end = if leb size start || ltb end start then none else some (start, end)

unfoldable pub end_range : ℕ → ℕ → Option ℕ → Option (ℕ × ℕ)
unfolding check_range
end_range size start none = none
end_range size start (some end) = check_range size start (min end (size - 1))

unfoldable pub open_range : ℕ → Option ℕ → Text → Option (ℕ × ℕ)
unfolding check_range end_range to_int
open_range size none last = none
open_range size (some start) [] = check_range size start (size - 1)
open_range size (some start) (c ∷ last) = end_range size start (to_int (c ∷ last))

unfoldable pub groups_range : ℕ → Option (Text × Text) → Option (ℕ × ℕ)
unfolding suffix_range open_range to_int
groups_range size none = none
groups_range size (some ([], [])) = none
groups_range size (some ([], c ∷ last)) = suffix_range size (to_int (c ∷ last))
groups_range size (some (d ∷ first, last)) = open_range size (to_int (d ∷ first)) last

-- `none` is the ValueError.
unfoldable pub byte_range : Option Text → ℕ → Option (ℕ × ℕ)
unfolding groups_range match_groups strip
byte_range none size = some (0, size - 1)
byte_range (some header) size = groups_range size (match_groups (strip header))

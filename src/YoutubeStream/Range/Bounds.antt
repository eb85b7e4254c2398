-- ===== src/YoutubeStream/Range/Bounds.antt =====
-- What an accepted byte range guarantees.
use relaytv.Prelude.{ℕ, ◌-◌, ◌≤◌, ◌<◌, ◌≡◌, min, Option, none, some, [], ◌∷◌, arith, Text, strip}
use relaytv.Prelude.Decimal.{to_int}
use relaytv.YoutubeStream.Range.{
  byte_range, groups_range, match_groups, suffix_range, open_range, end_range, check_range,
}

abbrev pub Within : ℕ → ℕ × ℕ → Type 0
Within size r = (r.0 ≤ r.1) × (r.1 < size)

check_range-Within :
    (size start end : ℕ) {r : ℕ × ℕ}
    → end < size
    → check_range size start end ≡ some r
    → Within size r
unfolding check_range
check_range-Within size start end b h = ground arith

end_range-Within :
    (size start : ℕ) (end : Option ℕ) {r : ℕ × ℕ}
    → 0 < size
    → end_range size start end ≡ some r
    → Within size r
unfolding end_range
end_range-Within size start none b h = cc
end_range-Within size start (some end) b h =
    check_range-Within size start (min end (size - 1)) (omega arith) h

open_range-Within :
    (size : ℕ) (start : Option ℕ) (last : Text) {r : ℕ × ℕ}
    → 0 < size
    → open_range size start last ≡ some r
    → Within size r
unfolding open_range
open_range-Within size none last b h = cc
open_range-Within size (some start) [] b h =
    check_range-Within size start (size - 1) (omega arith) h
open_range-Within size (some start) (c ∷ last) b h =
    end_range-Within size start (to_int (c ∷ last)) b h

suffix_range-Within :
    (size : ℕ) (suffix : Option ℕ) {r : ℕ × ℕ}
    → 0 < size
    → suffix_range size suffix ≡ some r
    → Within size r
unfolding suffix_range
suffix_range-Within size none b h = cc
suffix_range-Within size (some suffix) b h = ground arith

groups_range-Within :
    (size : ℕ) (groups : Option (Text × Text)) {r : ℕ × ℕ}
    → 0 < size
    → groups_range size groups ≡ some r
    → Within size r
unfolding groups_range
groups_range-Within size none b h = cc
groups_range-Within size (some ([], [])) b h = cc
groups_range-Within size (some ([], c ∷ last)) b h =
    suffix_range-Within size (to_int (c ∷ last)) b h
groups_range-Within size (some (d ∷ first, last)) b h =
    open_range-Within size (to_int (d ∷ first)) last b h

-- An accepted byte range of a medium that is not empty starts at or before its end, and ends
-- inside the medium.
pub byte_range-Within :
    (header : Option Text) (size : ℕ) {r : ℕ × ℕ}
    → 0 < size
    → byte_range header size ≡ some r
    → Within size r
unfolding byte_range
byte_range-Within none size b h = ground arith
byte_range-Within (some header) size b h =
    groups_range-Within size (match_groups (strip header)) b h

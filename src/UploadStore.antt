-- ===== src/UploadStore.antt =====
-- The upload ids and directories of upload_store.py, and the texts that its modules share.
pub mod Names
pub mod Files
pub mod Cleanup
pub mod Session
mod Tests
use mathlib.Core.List.{reverse}
use relaytv.Prelude.{min}
use relaytv.Prelude.{◌*◌}
use relaytv.Prelude.{max}
use relaytv.Prelude.{seconds}
use relaytv.Prelude.{
  ℕ, suc, Bool, true, false, not, ◌&&◌, ◌||◌, Option, none, some, List, [], ◌∷◌, ◌++◌, leb, ◌==◌,
  ◌≟◌, if◌then◌else◌, length, codes_eq, Text, codes, is_digit, strip,
}

unfoldable pub all_of : (ℕ → Bool) → Text → Bool
all_of test [] = true
all_of test (c ∷ s) = test c && all_of test s

-- `[0-9a-f]`
abbrev pub is_hex : ℕ → Bool
is_hex c = is_digit c || (leb b'a' c && leb c b'f')

-- `^u_[0-9a-f]{20}$` on a text that has no newline at its end.
unfoldable pub has_id_shape : Text → Bool
unfolding all_of
has_id_shape (c ∷ d ∷ rest) = c == b'u' && d == b'_' && length rest == 20 && all_of is_hex rest
has_id_shape (c ∷ []) = false
has_id_shape [] = false

unfoldable pub is_valid_upload_id : Text → Bool
unfolding has_id_shape strip
is_valid_upload_id upload_id = has_id_shape (strip upload_id)

-- The directory of an upload by its name under the root, and `none` where the source has "".
-- `contained` is the answer of `os.path.commonpath` for such a name.
unfoldable pub upload_dir : (Text → Bool) → Text → Option Text
unfolding is_valid_upload_id strip
upload_dir contained upload_id =
    let ident = strip upload_id in
    if is_valid_upload_id ident then if contained ident then some ident else none else none

-- `os.path.basename`
unfoldable pub has_slash : Text → Bool
has_slash [] = false
has_slash (c ∷ s) = c == b'/' || has_slash s

unfoldable pub basename : Text → Text
unfolding has_slash
basename [] = []
basename (c ∷ s) = let rest = basename s in if has_slash (c ∷ s) then rest else c ∷ s

unfoldable pub lstrip_of : (ℕ → Bool) → Text → Text
lstrip_of test [] = []
lstrip_of test (c ∷ s) = let rest = lstrip_of test s in if test c then rest else c ∷ s

-- `str.strip(chars)`
unfoldable pub strip_of : (ℕ → Bool) → Text → Text
unfolding lstrip_of
strip_of test s = reverse (lstrip_of test (reverse (lstrip_of test s)))

-- `str.split(";", 1)[0]`
unfoldable pub before_semicolon : Text → Text
before_semicolon [] = []
before_semicolon (c ∷ s) = let rest = before_semicolon s in if c == b';' then [] else c ∷ rest

-- The sizes and times of a store are integers here: bytes and nanoseconds.
abbrev pub clamp : ℕ → ℕ → ℕ → ℕ
clamp low high n = max low (min high n)

-- `normalize_upload_settings`, `retention_seconds`, on a number of hours.
unfoldable pub retention : ℕ → ℕ
retention hours = seconds (max 3600 (clamp 1 (24 * 90) hours * 3600))

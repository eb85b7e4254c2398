-- ===== src/DeviceIdentity.antt =====
-- `device_id` and `device_name` of app/relaytv_app/device_identity.py: the id of an install. A state
-- holds the id that the process has cached and the text of the id file; `none` is a file that cannot
-- be read. Whether the file can be written, and the drawn id, are arguments.
pub mod Stable
mod Tests
use relaytv.Prelude.{
  ℕ, Bool, true, false, ◌&&◌, ◌||◌, Option, none, some, List, [], ◌∷◌, leb, ◌==◌, if◌then◌else◌,
  take, Text, codes, strip, is_empty,
}
use relaytv.Prelude.Value.{Value, or_empty}

-- Not in `[^A-Za-z0-9._:-]`.
abbrev pub is_id_code : ℕ → Bool
is_id_code c =
    (leb b'A' c && leb c b'Z')
    || (leb b'a' c && leb c b'z')
    || (leb b'0' c && leb c b'9')
    || c == b'.'
    || c == b'_'
    || c == b':'
    || c == b'-'

unfoldable pub valid_codes : Text → Text
valid_codes [] = []
valid_codes (c ∷ s) = let rest = valid_codes s in if is_id_code c then c ∷ rest else rest

unfoldable pub normalize_device_id : Text → Text
unfolding valid_codes
normalize_device_id value = take 64 (valid_codes (strip value))

pub record Identity : Type 0 where
  pub cached : Text
  pub file : Option Text

unfoldable pub read_persisted_id : Option Text → Text
unfolding normalize_device_id
read_persisted_id none = []
read_persisted_id (some content) = normalize_device_id content

-- `_write_persisted_id`; a write that fails is logged.
unfoldable pub write_persisted_id : Bool → Text → Option Text → Option Text
write_persisted_id writable value file = if writable then some value else file

-- The id of the file, or a new one, where none is cached.
unfoldable pub first_id : Bool → Text → Identity → Text × Identity
unfolding read_persisted_id write_persisted_id
first_id writable generated s =
    let persisted = read_persisted_id s.file in
    if is_empty persisted
    then (
      generated,
      record { cached = generated; file = write_persisted_id writable generated s.file },
    )
    else (persisted, record s { cached = persisted })

-- `override` is the text of `RELAYTV_DEVICE_ID`.
unfoldable pub device_id : Text → Bool → Text → Identity → Text × Identity
unfolding normalize_device_id first_id
device_id override writable generated s =
    let pinned = normalize_device_id override in
    if is_empty pinned
    then (if is_empty s.cached then first_id writable generated s else (s.cached, s))
    else (pinned, s)

-- A restart forgets what was cached.
abbrev pub restart : Identity → Identity
restart s = record s { cached = [] }

abbrev pub or_text : Text → Text → Text
or_text s other = if is_empty s then other else s

-- `setting` is the `device_name` of the settings, and `configured` that of the environment.
unfoldable pub device_name : Option Value → Text → Text
device_name setting configured =
    let name = or_text (strip (or_empty setting)) (or_text configured (codes "RelayTV")) in
    or_text (strip (take 80 name)) (codes "RelayTV")

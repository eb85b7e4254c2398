-- ===== src/Queue/Item.antt =====
-- Queue entries and their instance ids: `queue_item_id` of app/relaytv_app/state.py.
pub mod Normal
use relaytv.Prelude.{
  ℕ, Bool, true, ◌&&◌, ◌||◌, Option, none, some, [], ◌∷◌, leb, ◌==◌, if◌then◌else◌, length,
  codes_eq, Text, codes, strip, lower,
}
use relaytv.Prelude.Dict
use relaytv.Prelude.Value.{Value, text, Fields, or_empty}

-- An entry is a dict, as all that the program puts there, or a value left by an older version.
pub data Entry : Type 0 where
  dict : Fields → Entry
  raw : Value → Entry

abbrev pub id_key : Text
id_key = codes "_relaytv_queue_id"

unfoldable pub is_hex : ℕ → Bool
is_hex c = (leb b'0' c && leb c b'9') || (leb b'a' c && leb c b'f')

unfoldable pub all_hex : Text → Bool
unfolding is_hex
all_hex [] = true
all_hex (c ∷ s) = is_hex c && all_hex s

-- `re.fullmatch(r"[0-9a-f]{32}", s)`
unfoldable pub is_id : Text → Bool
unfolding all_hex
is_id s = length s == 32 && all_hex s

unfoldable pub normal_id : Text → Option Text
normal_id s = let current = lower (strip s) in if is_id current then some current else none

-- `queue_item_id(item)`; `none` is the empty id.
unfoldable pub id_of : Entry → Option Text
id_of (raw value) = none
id_of (dict fields) = normal_id (or_empty (Dict.get fields id_key))

-- `item[QUEUE_ITEM_ID_KEY] = id`
unfoldable pub with_id : Fields → Text → Fields
with_id fields id = Dict.put fields id_key (text id)

-- A copy without its id, which then gets another.
unfoldable pub renamed : Fields → Text → Fields
renamed fields id = with_id (Dict.pop fields id_key) id

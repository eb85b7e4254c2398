-- ===== src/History.antt =====
-- `_history_add`, `_history_update` and `_history_contains` of app/relaytv_app/state.py, under
-- `HISTORY_LOCK`. An entry is a dict; what is written to disk after a change is in Publisher.
pub mod Recent
mod Tests
use relaytv.Prelude.{
  ℕ, zero, suc, Bool, true, false, not, ◌&&◌, ◌||◌, Option, none, some, List, [], ◌∷◌, ltb, ◌==◌,
  ◌≟◌, if◌then◌else◌, contains, length, take, codes_eq, Text, codes, strip, is_empty,
}
use relaytv.Prelude.Dict
use relaytv.Prelude.Value.{Value, null, text, number, flag, other, Fields, or_empty}

abbrev pub History : Type 0
History = List Fields

-- `del HISTORY[HISTORY_LIMIT:]`; a limit of 0 is none.
unfoldable pub history_add : ℕ → Fields → History → History
history_add limit entry history =
    if ltb 0 limit && ltb limit (length (entry ∷ history))
    then take limit (entry ∷ history)
    else entry ∷ history

abbrev pub key_of : Fields → Text
key_of entry = strip (or_empty (Dict.get entry (codes "history_id")))

abbrev flag_number : Bool → ℕ
flag_number true = 1
flag_number false = 0

-- `==` on values: a bool is the number 0 or 1.
unfoldable pub same_value : Value → Value → Bool
same_value null null = true
same_value (text s) (text t) = s ≟ t
same_value (number m) (number n) = m == n
same_value (flag a) (flag b) = flag_number a == flag_number b
same_value (flag a) (number n) = flag_number a == n
same_value (number m) (flag b) = m == flag_number b
same_value (other label s) (other label' t) = label == label'
same_value _ _ = false

-- `entry.get(field)`, which is None where the field is missing.
abbrev pub value_or_null : Option Value → Value
value_or_null none = null
value_or_null (some value) = value

abbrev pub is_flag : Bool → Option Value → Bool
is_flag b (some (flag c)) = flag_number b == flag_number c
is_flag b _ = false

-- The updates of an entry that is completed and stays so: its position is kept.
unfoldable pub without_position : Fields → Fields
without_position [] = []
without_position ((field, value) ∷ updates) =
    let rest = without_position updates in
    if contains (codes "resume_pos" ∷ codes "duration_sec" ∷ []) field
    then rest
    else (field, value) ∷ rest

unfoldable pub effective_updates : Fields → Fields → Fields
unfolding without_position
effective_updates entry updates =
    if is_flag true (Dict.get entry (codes "completed"))
      && not (is_flag false (Dict.get updates (codes "completed")))
    then without_position updates
    else updates

-- The loop over the updates, and whether one of them changed the entry.
unfoldable pub apply_updates : Fields → Fields → Bool × Fields
unfolding same_value
apply_updates [] entry = (false, entry)
apply_updates ((field, value) ∷ updates) entry =
    if same_value (value_or_null (Dict.get entry field)) value
    then apply_updates updates entry
    else (true, (apply_updates updates (Dict.put entry field value)).1)

unfoldable pub update_first : Text → Fields → History → Bool × History
unfolding effective_updates apply_updates
update_first key updates [] = (false, [])
update_first key updates (entry ∷ history) =
    let (changed, rest) = update_first key updates history in
    let (changed', entry') = apply_updates (effective_updates entry updates) entry in
    if key_of entry ≟ key then (changed', entry' ∷ history) else (changed, entry ∷ rest)

unfoldable pub history_update : Text → Fields → History → Bool × History
unfolding update_first
history_update history_id updates history =
    if is_empty (strip history_id)
    then (false, history)
    else update_first (strip history_id) updates history

unfoldable pub any_has_key : Text → History → Bool
any_has_key key [] = false
any_has_key key (entry ∷ history) = (key_of entry ≟ key) || any_has_key key history

unfoldable pub history_contains : Text → History → Bool
unfolding any_has_key
history_contains history_id history =
    if is_empty (strip history_id) then false else any_has_key (strip history_id) history

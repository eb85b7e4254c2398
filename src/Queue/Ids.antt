-- ===== src/Queue/Ids.antt =====
-- `_RevisionedQueue._prepare` and `ensure_queue_item_ids` of app/relaytv_app/state.py. The `n`-th call
-- of `uuid4().hex` in the process is the parameter `uuid n`; `drawn` counts the calls so far.
pub mod Unique
pub mod Stable
pub mod Returning
use relaytv.Prelude.{
  ℕ, suc, Bool, true, false, Option, none, some, List, [], ◌∷◌, if◌then◌else◌, contains, codes_eq,
  Text,
}
use relaytv.Prelude.Value.{Fields}
use relaytv.Queue.Item.{Entry, dict, raw, id_of, with_id, renamed}

-- The ids of entries; a value without one has the empty text.
unfoldable pub shown_id : Entry → Text
unfolding id_of
shown_id e = elim (id_of e) [ none ↦ [] | some id ↦ id ]

unfoldable pub seen_ids : List Entry → List Text
unfolding shown_id
seen_ids [] = []
seen_ids (e ∷ es) = shown_id e ∷ seen_ids es

pub record Prepared : Type 0 where
  pub items : List Entry
  pub drawn : ℕ

abbrev pub placing : Entry → Prepared → Prepared
placing e p = record p { items = e ∷ p.items }

-- A dict with its id, and the number of ids drawn.
pub record Named : Type 0 where
  pub fields : Fields
  pub id : Text
  pub drawn : ℕ

module _ (uuid : ℕ → Text) where
  -- `queue_item_id(item, create=True)` of a dict
  unfoldable pub create_id : Fields → ℕ → Named
  create_id fields n = elim (id_of (dict fields)) [
    | none ↦ record { fields = with_id fields (uuid n); id = uuid n; drawn = suc n }
    | some id ↦ record { fields = fields; id = id; drawn = n }
  ]

  -- A repeated id makes a copy, with an id of its own.
  unfoldable pub unseen : List Text → Named → Named
  unseen seen item =
      if contains seen item.id
      then record {
        fields = renamed item.fields (uuid item.drawn);
        id = uuid item.drawn;
        drawn = suc item.drawn;
      }
      else item

  -- The loop over the values, with the ids seen so far.
  unfoldable pub prepare_from : List Text → ℕ → List Entry → Prepared
  prepare_from seen n [] = record { items = []; drawn = n }
  prepare_from seen n (raw value ∷ es) = placing (raw value) (prepare_from seen n es)
  prepare_from seen n (dict fields ∷ es) =
      let item = unseen seen (create_id fields n) in
      placing (dict item.fields) (prepare_from (item.id ∷ seen) item.drawn es)

  unfoldable pub prepare : ℕ → List Entry → List Entry → Prepared
  prepare n values existing = prepare_from (seen_ids existing) n values

  -- `ensure_queue_item_ids(items)`
  unfoldable pub ensure : ℕ → List Entry → Prepared
  ensure n items = prepare_from [] n items

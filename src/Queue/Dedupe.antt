-- ===== src/Queue/Dedupe.antt =====
-- `_queue_item_dedupe_key` and `queue_dedupe` of app/relaytv_app/routes/queue.py. The parameter
-- `url_key` is `canonical_url_key` of integrations/jellyfin_service.py, a function of the URL.
pub mod Distinct
use relaytv.Prelude.{◌≡◌, ◌-◌, ◌↔◌, arith}
use relaytv.Prelude.{
  ℕ, suc, ◌+◌, Bool, true, false, ◌&&◌, Option, none, some, List, [], ◌∷◌, ◌++◌, ◌==◌, ◌≟◌,
  if◌then◌else◌, contains, Eq, codes_eq, Text, codes, length, strip, lower, is_empty,
}
use relaytv.Prelude.Dict
use relaytv.Prelude.Value.{Value, Fields, or_empty, to_text}
use relaytv.Queue.Item.{Entry, dict, raw}
use relaytv.Queue.Store.{Store, replace_all}

-- The pair of a kind and a text.
abbrev pub Key : Type 0
Key = Text × Text

-- `s.replace("-", "")`
unfoldable pub without_dashes : Text → Text
without_dashes [] = []
without_dashes (c ∷ s) = let rest = without_dashes s in if c == b'-' then rest else c ∷ rest

unfoldable pub canonical_item_id : Option Value → Text
unfolding without_dashes
canonical_item_id value = without_dashes (lower (strip (or_empty value)))

-- `str(item.get(name) or "").strip()`
unfoldable pub field : Text → Fields → Text
field name fields = strip (or_empty (Dict.get fields name))

unfoldable pub plain_key : Text → Text → Text → Key
plain_key provider [] title = (codes "title", provider ++ (b'|' ∷ title))
plain_key provider (c ∷ url) title = (codes "url", c ∷ url)

unfoldable pub jellyfin_key : Text → Text → Key → Key
jellyfin_key [] [] otherwise = otherwise
jellyfin_key [] (c ∷ url_key) otherwise = (codes "jellyfin_url", c ∷ url_key)
jellyfin_key (c ∷ item_id) url_key otherwise = (codes "jellyfin_id", c ∷ item_id)

module _ (url_key : Text → Text) where
  unfoldable pub dedupe_key : Entry → Key
  unfolding plain_key jellyfin_key canonical_item_id field to_text
  dedupe_key (raw value) = (codes "raw", to_text value)
  dedupe_key (dict fields) =
      let provider = lower (field (codes "provider") fields) in
      let url = field (codes "url") fields in
      let plain = plain_key provider url (field (codes "title") fields) in
      if provider ≟ codes "jellyfin"
      then jellyfin_key (canonical_item_id (Dict.get fields (codes "jellyfin_item_id")))
          (url_key url) plain
      else plain

pub key_beq : Key → Key → Bool
key_beq (kind, s) (kind', s') = (kind ≟ kind') && (s ≟ s')

pub key_beq_iff : (a b : Key) → (key_beq a b ≡ true) ↔ (a ≡ b)
unfolding key_beq
key_beq_iff (kind, s) (kind', s') =
    ground (arith, codes_eq.beq_iff kind kind', codes_eq.beq_iff s s')

instance abbrev pub key_eq : Eq Key
key_eq = record { beq = key_beq; beq_iff = key_beq_iff }

-- The first entry of each key that is not among the seen ones.
unfoldable pub first_of_each : (Entry → Key) → List Key → List Entry → List Entry
first_of_each key seen [] = []
first_of_each key seen (e ∷ q) = elim (contains seen (key e)) [
  | true ↦ first_of_each key seen q
  | false ↦ e ∷ first_of_each key (key e ∷ seen) q
]

-- `changed`, `removed_count` and the queue that is left.
unfoldable pub queue_dedupe : (Text → Text) → (ℕ → Text) → Store → (Bool × ℕ × List Entry) × Store
unfolding first_of_each
queue_dedupe url_key uuid s =
    let deduped = first_of_each (dedupe_key url_key) [] s.queue in
    let removed = length s.queue - length deduped in
    let s' = replace_all uuid true deduped s in
    if removed == 0 then ((false, 0, s.queue), s) else ((true, removed, s'.queue), s')

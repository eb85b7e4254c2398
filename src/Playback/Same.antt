-- ===== src/Playback/Same.antt =====
-- `same_playback_item` of playback_service.py. `clean_url` is the resolver's `extract_first_url` and
-- `normalize_shared_url`; `is_youtube` and `youtube_id` are its tests, with "" for no id.
pub mod Symmetric
use relaytv.Prelude.{
  ap, ◌∙◌, codes_eq, ≟_iff, ◌≡◌, refl, Bool, true, false, ◌&&◌, ◌||◌, not, Option, none, some, List,
  [], ◌∷◌, ◌≟◌, ◌==◌, if◌then◌else◌, Text, codes, strip, lower, is_empty, contains, arith,
}
use relaytv.Prelude.Dict
use relaytv.Prelude.Value.{Fields, or_empty}

-- What is compared: an item, a text that was sent, or something else.
pub data Media : Type 0 where
  missing : Media
  item : Fields → Media
  words : Text → Media
  thing : Media

abbrev pub placeholder_urls : List Text
placeholder_urls =
    codes "https://plex.invalid/item"
    ∷ codes "https://iptv.invalid/channel"
    ∷ codes "https://jellyfin.invalid/item"
    ∷ []

unfoldable pub field : Fields → Text → Text
unfolding Dict.get strip or_empty
field fields key = strip (or_empty (Dict.get fields key))

unfoldable pub without_dashes : Text → Text
without_dashes [] = []
without_dashes (c ∷ s) = let rest = without_dashes s in if c == b'-' then rest else c ∷ rest

unfoldable pub jellyfin_id : Fields → Text
unfolding field lower without_dashes
jellyfin_id fields = without_dashes (lower (field fields (codes "jellyfin_item_id")))

abbrev pub both : Text → Text → Bool
both a b = not (is_empty a) && not (is_empty b)

unfoldable pub same_history : Fields → Fields → Bool
unfolding field
same_history left right =
    let l = field left (codes "history_id") in
    let r = field right (codes "history_id") in both l r && (l ≟ r)

unfoldable pub full_iptv : Fields → Bool
unfolding field
full_iptv fields =
    both (field fields (codes "iptv_source_id")) (field fields (codes "iptv_channel_id"))

unfoldable pub partial_iptv : Fields → Bool
unfolding field full_iptv
partial_iptv fields =
    (not (is_empty (field fields (codes "iptv_source_id")))
      || not (is_empty (field fields (codes "iptv_channel_id"))))
    && not (full_iptv fields)

unfoldable pub same_iptv : Fields → Fields → Bool
unfolding field
same_iptv left right =
    (field left (codes "iptv_source_id") ≟ field right (codes "iptv_source_id"))
    && (field left (codes "iptv_channel_id") ≟ field right (codes "iptv_channel_id"))

abbrev pub if_both : Text → Text → Option Bool → Option Bool
if_both l r other = if both l r then some (l ≟ r) else other

-- What two items say before their URLs are looked at.
unfoldable pub decided : Fields → Fields → Option Bool
unfolding same_history partial_iptv full_iptv same_iptv jellyfin_id field
decided left right =
    if same_history left right
    then some true
    else if partial_iptv left || partial_iptv right
    then some false
    else if full_iptv left && full_iptv right
    then some (same_iptv left right)
    else if_both (field left (codes "plex_item_id")) (field right (codes "plex_item_id"))
        (if_both (jellyfin_id left) (jellyfin_id right) none)

abbrev pub or_decided : Option Bool → Bool → Bool
or_decided (some answer) other = answer
or_decided none other = other

module _ (clean_url : Text → Text) where
  abbrev pub cleaned : Text → Text
  cleaned [] = []
  cleaned (c ∷ s) = clean_url (c ∷ s)

  abbrev pub or_fallback : Text → Text → Text
  or_fallback [] fallback = fallback
  or_fallback (c ∷ s) fallback = c ∷ s

  unfoldable pub extract_item_url : Media → Text → Text
  unfolding strip or_empty Dict.get
  extract_item_url missing fallback = cleaned (strip fallback)
  extract_item_url (item fields) fallback =
      cleaned (strip (or_fallback (or_empty (Dict.get fields (codes "url"))) fallback))
  extract_item_url (words s) fallback = cleaned (strip s)
  extract_item_url thing fallback = cleaned (strip fallback)

module _ (is_youtube : Text → Bool) (youtube_id : Text → Text) where
  unfoldable pub same_url : Text → Text → Bool
  unfolding contains
  same_url l r =
      if is_empty l || is_empty r
      then false
      else if contains placeholder_urls l || contains placeholder_urls r
      then false
      else if (is_youtube l && is_youtube r) && both (youtube_id l) (youtube_id r)
      then youtube_id l ≟ youtube_id r
      else l ≟ r

  unfoldable pub same_playback_item : (Text → Text) → Media → Media → Text → Text → Bool
  unfolding same_url decided extract_item_url
  same_playback_item clean_url missing right left_url right_url = false
  same_playback_item clean_url left missing left_url right_url = false
  same_playback_item clean_url (item l) (item r) left_url right_url = or_decided (decided l r) (
      same_url (extract_item_url clean_url (item l) left_url)
        (extract_item_url clean_url (item r) right_url))
  same_playback_item clean_url left right left_url right_url =
      same_url (extract_item_url clean_url left left_url)
        (extract_item_url clean_url right right_url)

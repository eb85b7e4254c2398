-- ===== src/PublicMedia.antt =====
-- app/relaytv_app/public_media.py: copies of media items that are safe to show. Keys are texts.
-- Parameters stand for `urlsplit`, `parse_qsl` (blank values kept), `urlencode` and `urlunsplit` of
-- the standard library.
pub mod Sanitized
pub mod Safe
mod Tests
use relaytv.Prelude.{
  ℕ, Bool, true, false, not, ◌&&◌, ◌||◌, Option, none, some, List, [], ◌∷◌, ◌++◌, ◌==◌, ◌≟◌,
  if◌then◌else◌, contains, codes_eq, Text, codes, strip, lower, is_empty,
}
use relaytv.Prelude.Dict
use relaytv.Prelude.Value.{Value, text, null, number, flag, other, Fields, or_empty, truth}
use relaytv.UrlBoundary.{SplitResult, ParsedUrl, parse_url, netloc}

abbrev pub private_item_keys : List Text
private_item_keys =
    codes "access_token"
    ∷ codes "api_key"
    ∷ codes "audio"
    ∷ codes "cookie"
    ∷ codes "cookies"
    ∷ codes "headers"
    ∷ codes "http_headers"
    ∷ codes "plex_token"
    ∷ codes "resolved_audio"
    ∷ codes "resolved_source_url"
    ∷ codes "resolved_stream"
    ∷ codes "stream"
    ∷ codes "token"
    ∷ codes "x-plex-token"
    ∷ codes "x_plex_token"
    ∷ []

abbrev pub sensitive_query_keys : List Text
sensitive_query_keys =
    codes "access_token"
    ∷ codes "apikey"
    ∷ codes "api_key"
    ∷ codes "auth"
    ∷ codes "authorization"
    ∷ codes "auth_token"
    ∷ codes "cookie"
    ∷ codes "exp"
    ∷ codes "expires"
    ∷ codes "hdnea"
    ∷ codes "hdnts"
    ∷ codes "jwt"
    ∷ codes "key-pair-id"
    ∷ codes "policy"
    ∷ codes "sig"
    ∷ codes "signature"
    ∷ codes "token"
    ∷ codes "x-emby-token"
    ∷ codes "x-jellyfin-token"
    ∷ codes "x-plex-token"
    ∷ []

abbrev pub url_fields : List Text
url_fields =
    codes "art"
    ∷ codes "image"
    ∷ codes "input"
    ∷ codes "poster"
    ∷ codes "thumbnail"
    ∷ codes "thumbnail_local"
    ∷ codes "url"
    ∷ []

-- `s.startswith(prefix)`
unfoldable pub starts_with : Text → Text → Bool
starts_with [] s = true
starts_with (p ∷ prefix) [] = false
starts_with (p ∷ prefix) (c ∷ s) = p == c && starts_with prefix s

abbrev pub normal_key : Text → Text
normal_key key = lower (strip key)

unfoldable pub is_sensitive_query_key : Text → Bool
unfolding contains starts_with
is_sensitive_query_key key =
    contains sensitive_query_keys (normal_key key) || starts_with (codes "x-amz-") (normal_key key)

-- The comprehension over `parse_qsl`.
unfoldable pub public_query : List (Text × Text) → List (Text × Text)
unfolding is_sensitive_query_key
public_query [] = []
public_query ((key, value) ∷ query) =
    let rest = public_query query in
    if is_sensitive_query_key key then rest else (key, value) ∷ rest

-- A key that is shown.
unfoldable pub is_private_key : Text → Bool
unfolding starts_with contains
is_private_key key = starts_with (codes "_") key || contains private_item_keys (normal_key key)

unfoldable pub looks_http : Text → Bool
unfolding starts_with
looks_http value =
    starts_with (codes "http://") (lower (strip value))
    || starts_with (codes "https://") (lower (strip value))

-- The first value, where it is true.
abbrev pub or_value : Option Value → Option Value → Option Value
or_value none b = b
or_value (some a) b = if truth a then some a else b

-- What stands under a key of the copy, where it stands there.
abbrev pub shown_if : Text → Option Value
shown_if safe = if is_empty safe then none else some (text safe)

-- The standard library on URLs.
pub record Urls : Type 0 where
  pub urlsplit : Text → Option SplitResult
  pub parse_qsl : Text → List (Text × Text)
  pub urlencode : List (Text × Text) → Text
  pub urlunsplit : Text → Text → Text → Text → Text

abbrev pub is_iptv_url : Text → Text → Bool
is_iptv_url provider key =
    (provider ≟ codes "iptv") && contains (codes "input" ∷ codes "url" ∷ []) (normal_key key)

abbrev pub with_shown : Text → Option Value → Fields → Fields
with_shown key none fields = fields
with_shown key (some value) fields = (key, value) ∷ fields

abbrev pub put_shown : Option Value → Fields → Fields
put_shown none fields = fields
put_shown (some value) fields = Dict.put fields (codes "url") value

abbrev pub provider_of : Fields → Text
provider_of item = lower (strip (or_empty (Dict.get item (codes "provider"))))

abbrev pub source_of : Fields → Option Value
source_of item =
    or_value (Dict.get item (codes "_resolved_source_url"))
      (Dict.get item (codes "resolved_source_url"))

module _ (urls : Urls) where
  unfoldable pub public_parts : Text → ParsedUrl → Text
  unfolding public_query netloc
  public_parts raw url =
      if is_empty url.scheme || is_empty url.raw_netloc
      then raw
      else if is_empty url.hostname
      then []
      else urls.urlunsplit url.scheme (netloc url) url.path
          (urls.urlencode (public_query (urls.parse_qsl url.query)))

  unfoldable pub sanitize_public_url : Option Value → Text
  unfolding public_parts
  sanitize_public_url value =
      let raw = strip (or_empty value) in
      elim (parse_url urls.urlsplit (some (text raw))) [
        | none ↦ []
        | some url ↦ public_parts raw url
      ]

  -- A text under a key that is shown.
  unfoldable pub public_text : Text → Text → Option Value
  unfolding sanitize_public_url looks_http
  public_text key s =
      if contains url_fields (normal_key key) || looks_http s
      then shown_if (sanitize_public_url (some (text s)))
      else some (text s)

  unfoldable pub public_value : Text → Value → Option Value
  unfolding public_text
  public_value key (text s) = public_text key s
  public_value key value = some value

  -- The loop over the items; a dict has each key once, so that each is added behind the others.
  unfoldable pub public_fields : Text → Fields → Fields
  unfolding is_private_key public_value
  public_fields provider [] = []
  public_fields provider ((key, value) ∷ fields) =
      let rest = public_fields provider fields in
      if is_private_key key || is_iptv_url provider key
      then rest
      else with_shown key (public_value key value) rest

  unfoldable pub public_media_item : Fields → Fields
  unfolding public_fields
  public_media_item item =
      let result = public_fields (provider_of item) item in
      if provider_of item ≟ codes "iptv"
      then result
      else put_shown (shown_if (sanitize_public_url (source_of item))) result

  unfoldable pub public_media_items : List Fields → List Fields
  unfolding public_media_item
  public_media_items [] = []
  public_media_items (item ∷ items) = public_media_item item ∷ public_media_items items

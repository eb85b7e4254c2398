-- ===== src/YoutubeStream/Sources.antt =====
-- The source registry of app/relaytv_app/youtube_stream.py: `StreamSource`, `_SOURCES`, `proxy_url`
-- and `get_source`. The parts of a URL come from `urlsplit` and `parse_qs` of the standard library;
-- `token_urlsafe` gives the token; the clock counts nanoseconds.
pub mod Invariant
pub mod Lookup
use relaytv.Prelude.{
  ℕ, ◌+◌, ◌*◌, ◌^◌, Bool, true, false, not, ◌&&◌, ◌||◌, Option, none, some, List, [], ◌∷◌, ◌++◌,
  ltb, leb, ◌==◌, ◌≟◌, if◌then◌else◌, length, contains, codes_beq, codes_eq, Text, codes, seconds,
}
use relaytv.Prelude.Dict.{Dict}
use relaytv.Prelude.Dict
use relaytv.Prelude.Decimal.{show}

abbrev pub max_sources : ℕ
max_sources = 128

abbrev pub source_ttl : ℕ
source_ttl = seconds (6 * 60 * 60)

pub record StreamSource : Type 0 where
  pub url : Text
  pub size : ℕ
  pub media_type : Text
  pub expires_at : ℕ

-- What `proxy_url` reads of a URL. `none` for `port` is an absent port; `mime` and `clen` are the
-- values of these query keys, in order; those of `clen` are read by `int`, with `none` for a text
-- that `isdecimal` refuses.
pub record UrlParts : Type 0 where
  pub scheme : Text
  pub hostname : Text
  pub port : Option ℕ
  pub username : Option Text
  pub password : Option Text
  pub path : Text
  pub mime : List Text
  pub clen : List (Option ℕ)

abbrev pub Sources : Type 0
Sources = Dict Text StreamSource

abbrev is_none {ℓ} : {A : Type ℓ} → Option A → Bool
is_none none = true
is_none (some a) = false

abbrev default_port : Option ℕ → Bool
default_port none = true
default_port (some p) = p == 443

-- `s.endswith(suffix)`
unfoldable pub ends_with : Text → Text → Bool
unfolding codes_beq
ends_with [] suffix = codes_beq [] suffix
ends_with (c ∷ s) suffix =
    let rest = ends_with s suffix in if codes_beq (c ∷ s) suffix then true else rest

abbrev media_types : List Text
media_types = codes "audio/webm" ∷ codes "audio/mp4" ∷ codes "video/webm" ∷ codes "video/mp4" ∷ []

-- `int(length)`, where it is decimal and in the range that is accepted.
abbrev accepted_size : Option ℕ → Option ℕ
accepted_size none = none
accepted_size (some n) = if ltb 0 n && leb n (2 ^ 40) then some n else none

unfoldable pub finite_media : UrlParts → Text → Bool
unfolding ends_with contains codes_beq
finite_media parsed media_type =
    (parsed.scheme ≟ codes "https")
    && ends_with parsed.hostname (codes ".googlevideo.com")
    && default_port parsed.port
    && is_none parsed.username
    && is_none parsed.password
    && (parsed.path ≟ codes "/videoplayback")
    && contains media_types media_type

-- The size and type of a URL that is to be proxied; each key must have one value.
unfoldable pub one_each : UrlParts → List Text → List (Option ℕ) → Option (ℕ × Text)
one_each parsed (media_type ∷ []) (length ∷ []) =
    if finite_media parsed media_type
    then (elim (accepted_size length) [ none ↦ none | some n ↦ some (n, media_type) ])
    else none
one_each parsed _ _ = none

-- `none`: a ValueError of `urlsplit` or of an accessor.
unfoldable pub accepted : Option UrlParts → Option (ℕ × Text)
unfolding one_each finite_media
accepted none = none
accepted (some parsed) = one_each parsed parsed.mime parsed.clen

unfoldable pub expired : ℕ → StreamSource → Bool
expired now source = leb source.expires_at now

-- The first token of a URL.
unfoldable pub find_url : Text → Sources → Option (Text × StreamSource)
unfolding codes_beq
find_url url [] = none
find_url url ((token, source) ∷ rest) =
    let later = find_url url rest in if source.url ≟ url then some (token, source) else later

-- `while len(_SOURCES) > MAX_SOURCES: _SOURCES.popitem(last=False)`
unfoldable pub evict_oldest : Sources → Sources
evict_oldest [] = []
evict_oldest (entry ∷ rest) =
    let fewer = evict_oldest rest in
    if ltb max_sources (length (entry ∷ rest)) then fewer else entry ∷ rest

-- `_SOURCES.move_to_end(token)`
unfoldable pub move_to_end : Sources → Text × StreamSource → Sources
move_to_end sources (token, source) = Dict.pop sources token ++ (token, source) ∷ []

abbrev pub new_source : ℕ → Text → ℕ × Text → StreamSource
new_source now url (size, media_type) = record {
  url = url;
  size = size;
  media_type = media_type;
  expires_at = now + source_ttl;
}

-- The critical section: the token of `url`, old or new.
unfoldable pub register : ℕ → Text → Text → ℕ × Text → Sources → Text × Sources
unfolding expired find_url evict_oldest move_to_end
register now new_token url size_type sources =
    let live = Dict.discard (expired now) sources in
    elim (find_url url live) [
      | some (token, source) ↦ (token, move_to_end live (token, source))
      | none ↦ (new_token, evict_oldest (Dict.put live new_token (new_source now url size_type)))
    ]

unfoldable pub capability : ℕ → Text → Text
capability port token =
    codes "http://127.0.0.1:" ++ (show port ++ (codes "/youtube-stream/" ++ token))

module _ (urlsplit : Text → Option UrlParts) (server_port : ℕ) where
  unfoldable pub proxy_text : ℕ → Text → Text → Sources → Text × Sources
  unfolding accepted register capability
  proxy_text now new_token url sources = elim (accepted (urlsplit url)) [
    | none ↦ (url, sources)
    | some size_type ↦
        let (token, sources') = register now new_token url size_type sources in
        (capability server_port token, sources')
  ]

  unfoldable pub proxy_url : ℕ → Text → Option Text → Sources → Option Text × Sources
  unfolding proxy_text
  proxy_url now new_token none sources = (none, sources)
  proxy_url now new_token (some []) sources = (some [], sources)
  proxy_url now new_token (some (c ∷ url)) sources =
      let (out, sources') = proxy_text now new_token (c ∷ url) sources in (some out, sources')

unfoldable pub live_source :
    ℕ → Text → Sources → Option StreamSource → Option StreamSource × Sources
unfolding expired
live_source now token sources none = (none, sources)
live_source now token sources (some source) =
    if expired now source then (none, Dict.pop sources token) else (some source, sources)

unfoldable pub get_source : ℕ → Text → Sources → Option StreamSource × Sources
unfolding live_source
get_source now token sources = live_source now token sources (Dict.get sources token)

-- The calls that the routes make, in the order in which they hold the lock.
pub data Call : Type 0 where
  proxy : ℕ → Text → Option Text → Call
  look : ℕ → Text → Call

module _ (urlsplit : Text → Option UrlParts) (server_port : ℕ) where
  unfoldable pub serve : List Call → Sources → Sources
  unfolding proxy_url get_source
  serve [] sources = sources
  serve (proxy now token url ∷ calls) sources =
      serve calls (proxy_url urlsplit server_port now token url sources).1
  serve (look now token ∷ calls) sources = serve calls (get_source now token sources).1

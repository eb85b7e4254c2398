-- ===== src/ApiAuth.antt =====
-- app/relaytv_app/api_auth.py: which requests write, and which of them may go on. `urlsplit` of the
-- standard library is a parameter (`none`: a ValueError of it or of an accessor), and the token's
-- comparison in constant time is equality.
pub mod Path
pub mod Guard
mod Tests
use mathlib.Core.List.{reverse}
use relaytv.Prelude.{
  ℕ, Bool, true, false, not, ◌&&◌, ◌||◌, Option, none, some, List, [], ◌∷◌, ◌++◌, ltb, ◌==◌, ◌≟◌,
  if◌then◌else◌, contains, length, codes_eq, Text, codes, strip, lower, upper, is_empty,
}
use relaytv.UrlBoundary.{SplitResult, rstrip_dots, text_or_empty}

abbrev pub write_methods : List Text
write_methods = codes "POST" ∷ codes "PUT" ∷ codes "PATCH" ∷ codes "DELETE" ∷ []

abbrev pub mutating_get_paths : List Text
mutating_get_paths = codes "/snapshot" ∷ []

-- `RELAYTV_API_TOKEN`, as the runtime configuration has it.
unfoldable pub configured_api_token : Option Text → Text
configured_api_token raw = strip (text_or_empty raw)

-- `s.partition(" ")`, without the separator.
unfoldable pub partition_space : Text → Text × Text
partition_space [] = ([], [])
partition_space (c ∷ s) =
    let (scheme, credentials) = partition_space s in
    if c == b' ' then ([], s) else (c ∷ scheme, credentials)

unfoldable pub bearer_token_from_header : Option Text → Text
unfolding partition_space
bearer_token_from_header authorization =
    let (scheme, credentials) = partition_space (strip (text_or_empty authorization)) in
    if lower scheme ≟ codes "bearer" then strip credentials else []

unfoldable pub lstrip_slashes : Text → Text
lstrip_slashes [] = []
lstrip_slashes (c ∷ s) = let rest = lstrip_slashes s in if c == b'/' then rest else c ∷ s

-- `value.rstrip("/") or "/"`, which changes a value only if it ends with a slash.
unfoldable pub without_slashes : Text → Text
unfolding lstrip_slashes
without_slashes value =
    let rest = reverse (lstrip_slashes (reverse value)) in if is_empty rest then codes "/" else rest

unfoldable pub normalized_path : Text → Text
unfolding without_slashes
normalized_path path =
    let value = strip path in if ltb 1 (length value) then without_slashes value else value

abbrev pub verb_of : Text → Text
verb_of method = upper (strip method)

abbrev pub is_mutating_path : Text → Bool
is_mutating_path path = contains mutating_get_paths (normalized_path path)

unfoldable pub is_write_request : Text → Text → Bool
unfolding normalized_path
is_write_request method path =
    contains write_methods (verb_of method)
    || ((verb_of method ≟ codes "GET") && is_mutating_path path)

-- The port of the scheme, for a URL that gives none.
unfoldable pub default_port : Text → Option ℕ
default_port scheme =
    if lower scheme ≟ codes "http"
    then some 80
    else if lower scheme ≟ codes "https"
    then some 443
    else none

abbrev pub port_or_default : Bool → Text → Option ℕ → Option ℕ
port_or_default absolute scheme (some port) = some port
port_or_default true scheme none = default_port scheme
port_or_default false scheme none = none

abbrev pub Authority : Type 0
Authority = Text × Option ℕ

unfoldable pub authority_of : Bool → SplitResult → Option Authority
unfolding default_port
authority_of absolute parts =
    let host = rstrip_dots (lower (strip (text_or_empty parts.hostname))) in
    if is_empty host then none else some (host, port_or_default absolute parts.scheme parts.port)

abbrev pub same_port : Option ℕ → Option ℕ → Bool
same_port none none = true
same_port none (some q) = false
same_port (some p) none = false
same_port (some p) (some q) = p == q

-- Whether the two differ, where a target without a port takes the one of the source.
abbrev pub differ : Authority → Authority → Bool
differ (host, port) (host', none) = not (host ≟ host')
differ (host, port) (host', some port') = not ((host ≟ host') && same_port port (some port'))

abbrev pub differ_if_known : Option Authority → Option Authority → Bool
differ_if_known none target = false
differ_if_known (some source) none = false
differ_if_known (some source) (some target) = differ source target

module _ (urlsplit : Text → Option SplitResult) where
  unfoldable pub request_authority : Text → Bool → Option Authority
  unfolding authority_of
  request_authority value absolute =
      let raw = strip value in
      if is_empty raw
      then none
      else (elim (urlsplit (if absolute then raw else codes "//" ++ raw)) [
        | none ↦ none
        | some parts ↦ authority_of absolute parts
      ])

  unfoldable pub is_cross_site : Option Text → Option Text → Option Text → Bool
  unfolding request_authority
  is_cross_site sec_fetch_site referer host =
      let fetch_site = lower (strip (text_or_empty sec_fetch_site)) in
      if contains (codes "same-origin" ∷ codes "none" ∷ []) fetch_site
      then false
      else if contains (codes "cross-site" ∷ codes "same-site" ∷ []) fetch_site
      then true
      else differ_if_known (request_authority (text_or_empty referer) true)
          (request_authority (text_or_empty host) false)

  unfoldable pub cross_site_mutating_get :
      Text → Text → Option Text → Option Text → Option Text → Bool
  unfolding is_cross_site
  cross_site_mutating_get method path sec_fetch_site referer host =
      (verb_of method ≟ codes "GET")
      && is_mutating_path path
      && is_cross_site sec_fetch_site referer host

-- `raw` is the token that is configured.
unfoldable pub write_request_allowed : Option Text → Text → Option Text → Text → Bool
unfolding configured_api_token is_write_request bearer_token_from_header
write_request_allowed raw method authorization path =
    let token = configured_api_token raw in
    let presented = bearer_token_from_header authorization in
    if is_empty token
    then true
    else if not (is_write_request method path)
    then true
    else if is_empty presented
    then false
    else presented ≟ token

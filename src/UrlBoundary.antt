-- ===== src/UrlBoundary.antt =====
-- app/relaytv_app/url_boundary.py: the parts of a URL that decisions are made on. `urlsplit` of the
-- standard library, with its accessors, is a parameter: `none` where one of them raises.
pub mod Dots
mod Tests
use mathlib.Core.List.{reverse}
use relaytv.Prelude.{
  ℕ, Bool, true, false, not, ◌&&◌, ◌||◌, Option, none, some, List, [], ◌∷◌, ◌++◌, ◌==◌, ◌≟◌,
  if◌then◌else◌, codes_eq, codes_beq, Text, codes, strip, lower, is_empty,
}
use relaytv.Prelude.Decimal.{show}
use relaytv.Prelude.Value.{Value, or_empty}

-- What `urlsplit` and its accessors give.
pub record SplitResult : Type 0 where
  pub scheme : Text
  pub netloc : Text
  pub path : Text
  pub query : Text
  pub fragment : Text
  pub port : Option ℕ
  pub hostname : Option Text
  pub username : Option Text
  pub password : Option Text

pub record ParsedUrl : Type 0 where
  pub scheme : Text
  pub hostname : Text
  pub port : Option ℕ
  pub raw_netloc : Text
  pub path : Text
  pub query : Text
  pub fragment : Text
  pub username : Text
  pub password : Text

abbrev pub text_or_empty : Option Text → Text
text_or_empty none = []
text_or_empty (some s) = s

-- `s.lstrip(".")`, and `s.rstrip(".")` by it.
unfoldable pub lstrip_dots : Text → Text
lstrip_dots [] = []
lstrip_dots (c ∷ s) = let rest = lstrip_dots s in if c == b'.' then rest else c ∷ s

unfoldable pub rstrip_dots : Text → Text
unfolding lstrip_dots
rstrip_dots s = reverse (lstrip_dots (reverse s))

unfoldable pub has_colon : Text → Bool
has_colon [] = false
has_colon (c ∷ s) = let rest = has_colon s in if c == b':' then true else rest

-- `[host]` for an IPv6 literal.
unfoldable pub bracketed : Text → Text
unfolding has_colon
bracketed host = if has_colon host then b'[' ∷ (host ++ (b']' ∷ [])) else host

abbrev pub with_port : Text → Option ℕ → Text
with_port host none = host
with_port host (some port) = host ++ (b':' ∷ show port)

-- The property `netloc`.
unfoldable pub netloc : ParsedUrl → Text
unfolding bracketed
netloc url = if is_empty url.hostname then [] else with_port (bracketed url.hostname) url.port

unfoldable pub parsed : SplitResult → ParsedUrl
unfolding rstrip_dots
parsed parts = record {
  scheme = lower parts.scheme;
  hostname = rstrip_dots (lower (text_or_empty parts.hostname));
  port = parts.port;
  raw_netloc = parts.netloc;
  path = parts.path;
  query = parts.query;
  fragment = parts.fragment;
  username = text_or_empty parts.username;
  password = text_or_empty parts.password;
}

unfoldable pub parse_url : (Text → Option SplitResult) → Option Value → Option ParsedUrl
unfolding parsed
parse_url urlsplit value =
    let raw = strip (or_empty value) in
    if is_empty raw
    then none
    else (elim (urlsplit raw) [ none ↦ none | some parts ↦ some (parsed parts) ])

-- `s.endswith(suffix)`
unfoldable pub ends_with : Text → Text → Bool
ends_with [] suffix = [] ≟ suffix
ends_with (c ∷ s) suffix = let rest = ends_with s suffix in if (c ∷ s) ≟ suffix then true else rest

-- A host as it is compared.
abbrev pub normal_host : Text → Text
normal_host host = rstrip_dots (lower (strip host))

unfoldable pub host_matches : Text → Text → Bool
unfolding ends_with
host_matches host domain =
    let left = normal_host host in
    let right = normal_host domain in
    if is_empty left || is_empty right
    then false
    else (left ≟ right) || ends_with left (b'.' ∷ right)

unfoldable pub host_matches_any : Text → List Text → Bool
unfolding host_matches
host_matches_any host [] = false
host_matches_any host (domain ∷ domains) = host_matches host domain || host_matches_any host domains

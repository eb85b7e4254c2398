-- ===== src/Realtime/Origin.antt =====
-- `websocket_origin_allowed` of realtime.py: which browser origins may open a WebSocket. `urlsplit`
-- is the library's, with `none` where it, or reading a port from its answer, raises.
pub mod Matching
use relaytv.Prelude.{
  ap, sym, codes_eq, ℕ, ◌≡◌, inl, inr, refl, Bool, true, false, not, ◌&&◌, ◌||◌, Option, none, some,
  [], ◌∷◌, ◌++◌, ◌≟◌, ≟_iff, ◌==◌, ==_iff, if◌then◌else◌, Text, codes, strip, lower, is_empty,
  is_space, contains, arith, Bool-cases, Option-cases, nat_eq,
}
use relaytv.UrlBoundary.{SplitResult, rstrip_dots, text_or_empty}

unfoldable pub any_space : Text → Bool
unfolding is_space
any_space [] = false
any_space (c ∷ s) = is_space c || any_space s

unfoldable pub default_port : Text → Option ℕ
unfolding contains
default_port scheme =
    if contains (codes "http" ∷ codes "ws" ∷ []) scheme
    then some 80
    else if contains (codes "https" ∷ codes "wss" ∷ []) scheme
    then some 443
    else none

abbrev pub or_default : Text → Option ℕ → Option ℕ
or_default scheme (some port) = some port
or_default scheme none = default_port scheme

abbrev pub is_there : Option Text → Bool
is_there none = false
is_there (some s) = true

unfoldable pub host_name : SplitResult → Text
unfolding lower rstrip_dots
host_name parts = lower (rstrip_dots (text_or_empty parts.hostname))

abbrev pub has_credentials : SplitResult → Bool
has_credentials parts = is_there parts.username || is_there parts.password

abbrev pub authority : Text → SplitResult → Text × Option ℕ
authority scheme parts = (host_name parts, or_default scheme parts.port)

abbrev pub expected_scheme : Text → Text
expected_scheme websocket_scheme =
    if contains (codes "wss" ∷ codes "https" ∷ []) (lower (strip websocket_scheme))
    then codes "https"
    else codes "http"

abbrev pub host_authority_of : Text → SplitResult → Option (Text × Option ℕ)
host_authority_of scheme parts =
    if is_empty (host_name parts) || has_credentials parts
    then none
    else some (authority scheme parts)

-- Whether an origin is a plain one of the scheme.
unfoldable pub is_plain_origin : Text → SplitResult → Bool
unfolding contains lower host_name
is_plain_origin scheme parts =
    contains (codes "http" ∷ codes "https" ∷ []) (lower parts.scheme)
    && (lower parts.scheme ≟ scheme)
    && not (has_credentials parts)
    && contains ([] ∷ codes "/" ∷ []) parts.path
    && is_empty parts.query
    && is_empty parts.fragment
    && not (is_empty (host_name parts))

abbrev pub same_port : Option ℕ → Option ℕ → Bool
same_port none none = true
same_port (some p) (some q) = p == q
same_port _ _ = false

abbrev pub same_authority : Option (Text × Option ℕ) → Text × Option ℕ → Bool
same_authority none a = false
same_authority (some (host, port)) (other, other_port) = host ≟ other && same_port port other_port

module _ (urlsplit : Text → Option SplitResult) where
  unfoldable pub host_authority : Text → Text → Option (Text × Option ℕ)
  unfolding strip contains any_space host_name default_port
  host_authority host scheme =
      let value = strip host in
      let found = elim (urlsplit (codes "//" ++ value)) as (λ x. Option (Text × Option ℕ)) [
        | none ↦ none
        | some parts ↦ host_authority_of scheme parts
      ] in
      if is_empty value || contains value b',' || any_space value then none else found

  unfoldable pub websocket_origin_allowed : Text → Text → Text → Bool
  unfolding strip is_plain_origin host_authority default_port
  websocket_origin_allowed origin host websocket_scheme =
      let value = strip origin in
      let scheme = expected_scheme websocket_scheme in
      let checked = elim (urlsplit value) as (λ x. Bool) [
        | none ↦ false
        | some parts ↦
            is_plain_origin scheme parts
            && same_authority (host_authority host scheme) (authority (lower parts.scheme) parts)
      ] in
      if is_empty value then true else checked

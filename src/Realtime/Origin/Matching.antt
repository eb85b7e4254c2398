-- ===== src/Realtime/Origin/Matching.antt =====
-- The origins that are let in are those of the host itself.
use relaytv.Prelude.{
  ap, sym, codes_eq, ℕ, ◌≡◌, refl, Bool, true, false, ◌&&◌, ◌||◌, Option, none, some, ◌++◌, ◌≟◌,
  ≟_iff, ==_iff, Text, codes, strip, lower, is_empty, contains, arith, Bool-cases, Option-cases,
  inl, inr, nat_eq,
}
use relaytv.UrlBoundary.{SplitResult}
use relaytv.Realtime.Origin.{
  any_space, or_default, host_name, has_credentials, authority, expected_scheme, host_authority_of,
  is_plain_origin, same_port, same_authority, host_authority, websocket_origin_allowed,
}

-- An origin and a host that a browser reaches by the same scheme, name and port.
pub record IsSameOrigin (scheme : Text) (origin host : SplitResult) : Type 0 where
  pub scheme_is : lower origin.scheme ≡ scheme
  pub host_is : host_name origin ≡ host_name host
  pub host_given : is_empty (host_name origin) ≡ false
  pub port_is : or_default scheme origin.port ≡ or_default scheme host.port
  pub no_credentials : has_credentials origin ≡ false

same_port_is : (p q : Option ℕ) → same_port p q ≡ true → p ≡ q
same_port_is none none h = refl
same_port_is none (some q) h = absurd cc
same_port_is (some p) none h = absurd cc
same_port_is (some p) (some q) h = let is = (==_iff p q).0 h in rw is refl

both_true : (a b : Bool) → (a && b) ≡ true → (a ≡ true) × (b ≡ true)
both_true true true h = (refl, refl)
both_true true false h = absurd cc
both_true false b h = absurd cc

plain_origin_lem :
    (scheme : Text) (parts : SplitResult)
    → is_plain_origin scheme parts ≡ true
    → (lower parts.scheme ≡ scheme)
      × (has_credentials parts ≡ false)
      × (is_empty (host_name parts) ≡ false)
unfolding is_plain_origin
plain_origin_lem scheme parts h = (
  (≟_iff (lower parts.scheme) scheme).0 (ground (arith, h)),
  ground (arith, h),
  ground (arith, h),
)

host_authority_of_lem :
    (scheme : Text) (parts : SplitResult) (a : Text × Option ℕ)
    → host_authority_of scheme parts ≡ some a
    → authority scheme parts ≡ a
host_authority_of_lem scheme parts a h =
    elim (Bool-cases (is_empty (host_name parts) || has_credentials parts)) [
      | inl bad ↦ let no = rw bad at h in absurd cc
      | inr good ↦ let made = rw good at h in cc
    ]

same_authority_lem :
    (a : Option (Text × Option ℕ)) (b : Text × Option ℕ) → same_authority a b ≡ true → a ≡ some b
same_authority_lem none b h = absurd cc
same_authority_lem (some (host, port)) (other, other_port) h =
    let (hosts, ports) = both_true (host ≟ other) (same_port port other_port) h in
    let host_is = (≟_iff host other).0 hosts in
    let port_is = same_port_is port other_port ports in rw (host_is, port_is) refl

module _ (urlsplit : Text → Option SplitResult) where
  host_authority_lem :
      (host scheme : Text) (a : Text × Option ℕ)
      → host_authority urlsplit host scheme ≡ some a
      → (parts : SplitResult) × (urlsplit (codes "//" ++ strip host) ≡ some parts)
        × (authority scheme parts ≡ a)
  unfolding host_authority
  host_authority_lem host scheme a h =
      elim (Bool-cases
        (is_empty (strip host) || contains (strip host) b',' || any_space (strip host))) [
          | inl bad ↦ let no = rw (bad, host_authority) at h in absurd cc
          | inr good ↦
              let found = rw (good, host_authority) at h in
              elim (Option-cases (urlsplit (codes "//" ++ strip host))) [
                | inl none_there ↦ let no = rw none_there at found in absurd cc
                | inr (parts, there) ↦
                    let made = rw there at found in
                    (parts, there, host_authority_of_lem scheme parts a made)
              ]
        ]

  -- A browser's origin, which is not blank, is let in only where it is the URL of the host that the
  -- request names: of the scheme that the socket's calls for, of the same name and effective port,
  -- and without credentials.
  pub websocket_origin_allowed-IsSameOrigin :
      (origin host websocket_scheme : Text)
      → is_empty (strip origin) ≡ false
      → websocket_origin_allowed urlsplit origin host websocket_scheme ≡ true
      → (from : SplitResult) × (to : SplitResult) × (urlsplit (strip origin) ≡ some from)
        × (urlsplit (codes "//" ++ strip host) ≡ some to)
        × IsSameOrigin (expected_scheme websocket_scheme) from to
  unfolding websocket_origin_allowed
  websocket_origin_allowed-IsSameOrigin origin host websocket_scheme given allowed =
      let scheme = expected_scheme websocket_scheme in
      let checked = rw (given, websocket_origin_allowed) at allowed in
      elim (Option-cases (urlsplit (strip origin))) [
        | inl none_there ↦ let no = rw none_there at checked in absurd cc
        | inr (from, there) ↦
            let tests = rw there at checked in
            let (plain, same) =
              both_true (is_plain_origin scheme from)
                (same_authority (host_authority urlsplit host scheme)
                  (authority (lower from.scheme) from))
                tests in
            let (scheme_is, no_credentials, host_given) = plain_origin_lem scheme from plain in
            let (to, found, is) = host_authority_lem host scheme _ (same_authority_lem _ _ same) in
            let equal = rw scheme_is at is in
            (
              from,
              to,
              there,
              found,
              record {
                scheme_is = scheme_is;
                host_is = sym (ap (λ (a : Text × Option ℕ). a.0) equal);
                host_given = host_given;
                port_is = sym (ap (λ (a : Text × Option ℕ). a.1) equal);
                no_credentials = no_credentials;
              },
            )
      ]

-- ===== src/PublicMedia/Sanitized.antt =====
-- What may be shown of a media item: its keys, and its texts. Sanitizing makes such texts.
use relaytv.Prelude.{Option-cases}
use relaytv.Prelude.Value.{or_empty}
use relaytv.PublicMedia.{parse_url}
use relaytv.PublicMedia.{sanitize_public_url}
use relaytv.PublicMedia.{public_parts}
use relaytv.Prelude.{
  if_either, OneOf, contains-OneOf, ◌≡◌, ◌⊎◌, inl, inr, refl, sym, subst, Bool, true, false, ◌||◌,
  Option, none, some, List, [], ◌∷◌, ◌++◌, arith, ◌==◌, ==_iff, if◌then◌else◌, contains, codes_eq,
  Text, codes, is_empty, Bool-cases, ℕ, lower, strip,
}
use relaytv.Prelude.Decimal.{show}
use relaytv.Prelude.Value.{Value, text, Fields}
use relaytv.UrlBoundary.{SplitResult, ParsedUrl, parsed, netloc, bracketed, has_colon, with_port}
use relaytv.PublicMedia.{
  Urls, is_private_key, looks_http, normal_key, starts_with, private_item_keys,
  sensitive_query_keys, is_sensitive_query_key, public_query,
}

abbrev pub Begins : Text → Text → Type 0
Begins prefix s = (rest : Text) × (s ≡ prefix ++ rest)

-- A key that may be shown.
abbrev pub IsPublicKey : Text → Type 0
IsPublicKey key = (¬ (Begins (codes "_") key)) × (¬ (OneOf private_item_keys (lower (strip key))))

-- A web URL, where a text is looked at.
abbrev pub IsWeb : Text → Type 0
IsWeb s = Begins (codes "http://") (lower (strip s)) ⊎ Begins (codes "https://") (lower (strip s))

-- A query without credentials and signatures.
abbrev pub IsPublicQuery : List (Text × Text) → Type 0
IsPublicQuery [] = Unit {0}
IsPublicQuery ((key, value) ∷ query) =
    (¬ (OneOf sensitive_query_keys (lower (strip key))))
    × (¬ (Begins (codes "x-amz-") (lower (strip key))))
    × IsPublicQuery query

-- Nothing but the host, in brackets for IPv6, and the port.
abbrev pub IsHostPort : Text → Option ℕ → Text → Type 0
IsHostPort host none s = (s ≡ host) ⊎ (s ≡ b'[' ∷ (host ++ (b']' ∷ [])))
IsHostPort host (some port) s =
    (s ≡ host ++ (b':' ∷ show port)) ⊎ (s ≡ (b'[' ∷ (host ++ (b']' ∷ []))) ++ (b':' ∷ show port))

module _ (urls : Urls) where
  -- A text that `urlsplit` finds no scheme or no authority in.
  pub record IsRelative (s : Text) : Type 0 where
    pub parts : SplitResult
    pub split : urls.urlsplit (strip s) ≡ some parts
    pub no_authority : (lower parts.scheme ≡ []) ⊎ (parts.netloc ≡ [])

  -- A URL put together of the host and port of another one and of a public query.
  pub record IsStripped (s : Text) : Type 0 where
    pub parts : SplitResult
    pub authority : Text
    pub query : List (Text × Text)
    pub host_port : IsHostPort (parsed parts).hostname parts.port authority
    pub public : IsPublicQuery query
    pub whole : s ≡ urls.urlunsplit (lower parts.scheme) authority parts.path (urls.urlencode query)

  abbrev pub IsSanitized : Text → Type 0
  IsSanitized s = IsRelative s ⊎ IsStripped s

starts_with-append : (prefix rest : Text) → starts_with prefix (prefix ++ rest) ≡ true
unfolding starts_with
starts_with-append [] rest = refl
starts_with-append (p ∷ prefix) rest =
    let same : (p == p) ≡ true = (==_iff p p).1 refl in
    rw (same, starts_with-append prefix rest) refl

not_Begins : (prefix s : Text) → starts_with prefix s ≡ false → ¬ (Begins prefix s)
not_Begins prefix s h (rest, e) =
    let begins =
      subst (λ t. starts_with prefix t ≡ true) (sym e) (starts_with-append prefix rest) in
    absurd cc

pub not_OneOf : (ts : List Text) (s : Text) → contains ts s ≡ false → ¬ (OneOf ts s)
not_OneOf ts s h o = let found = (contains-OneOf ts s).1 o in absurd cc

pub or_false : (b c : Bool) → (b || c) ≡ false → (b ≡ false) × (c ≡ false)
or_false b c h = ground arith

pub is_private_key-public : (key : Text) → is_private_key key ≡ false → IsPublicKey key
unfolding is_private_key
is_private_key-public key h =
    let (under, named) =
      or_false (starts_with (codes "_") key) (contains private_item_keys (normal_key key)) h in
    (not_Begins (codes "_") key under, not_OneOf private_item_keys (normal_key key) named)

pub not_IsWeb : (s : Text) → looks_http s ≡ false → ¬ (IsWeb s)
unfolding looks_http
not_IsWeb s h w =
    let (plain, secure) =
      or_false (starts_with (codes "http://") (lower (strip s)))
        (starts_with (codes "https://") (lower (strip s))) h in
    elim w [
      | inl b ↦ not_Begins (codes "http://") (lower (strip s)) plain b
      | inr b ↦ not_Begins (codes "https://") (lower (strip s)) secure b
    ]

public_query-public : (query : List (Text × Text)) → IsPublicQuery (public_query query)
unfolding public_query is_sensitive_query_key
public_query-public [] = tt
public_query-public ((key, value) ∷ query) = elim (Bool-cases (is_sensitive_query_key key)) [
  | inl h ↦ rw (h, public_query) (public_query-public query)
  | inr h ↦
      let (named, amazon) =
        or_false (contains sensitive_query_keys (normal_key key))
          (starts_with (codes "x-amz-") (normal_key key)) h in
      rw (h, public_query)
        (
          not_OneOf sensitive_query_keys (normal_key key) named,
          not_Begins (codes "x-amz-") (normal_key key) amazon,
          public_query-public query,
        )
]

bracketed-IsHostPort :
    (host : Text) (port : Option ℕ) (b : Bool)
    → IsHostPort host port (with_port (if b then b'[' ∷ (host ++ (b']' ∷ [])) else host) port)
bracketed-IsHostPort host none true = inr refl
bracketed-IsHostPort host none false = inl refl
bracketed-IsHostPort host (some port) true = inr refl
bracketed-IsHostPort host (some port) false = inl refl

netloc-IsHostPort :
    (url : ParsedUrl)
    → is_empty url.hostname ≡ false
    → IsHostPort url.hostname url.port (netloc url)
unfolding netloc bracketed
netloc-IsHostPort url h = rw h (bracketed-IsHostPort url.hostname url.port (has_colon url.hostname))

empty_either : (a b : Text) → (is_empty a || is_empty b) ≡ true → (a ≡ []) ⊎ (b ≡ [])
empty_either [] b h = inl refl
empty_either (c ∷ a) [] h = inr refl
empty_either (c ∷ a) (d ∷ b) h = absurd cc

module _ (urls : Urls) where
  public_parts-IsSanitized :
      (raw : Text) (parts : SplitResult)
      → urls.urlsplit (strip raw) ≡ some parts
      → is_empty (public_parts urls raw (parsed parts)) ≡ false
      → IsSanitized urls (public_parts urls raw (parsed parts))
  unfolding public_parts relaytv.UrlBoundary.parsed relaytv.UrlBoundary.netloc
  public_parts-IsSanitized raw parts p =
      let Fine = λ (s : Text). is_empty s ≡ false → IsSanitized urls s in
      if_either Fine (is_empty (lower parts.scheme) || is_empty parts.netloc) _ _
        (λ relative h. inl (record {
          parts = parts;
          split = p;
          no_authority = empty_either (lower parts.scheme) parts.netloc relative;
        }))
        (λ absolute.
          if_either Fine (is_empty (parsed parts).hostname) _ _ (λ nowhere h. absurd cc)
            (λ somewhere h. inr (record {
              parts = parts;
              authority = netloc (parsed parts);
              query = public_query (urls.parse_qsl parts.query);
              host_port = netloc-IsHostPort (parsed parts) somewhere;
              public = public_query-public (urls.parse_qsl parts.query);
              whole = refl;
            })))

  parse_url-parts :
      (raw : Text) (url : ParsedUrl)
      → parse_url urls.urlsplit (some (text raw)) ≡ some url
      → (parts : SplitResult) × (urls.urlsplit (strip raw) ≡ some parts) × (parsed parts ≡ url)
  unfolding relaytv.UrlBoundary.parse_url relaytv.Prelude.Value.or_empty
  parse_url-parts raw url h = elim (Bool-cases (is_empty (strip raw))) [
    | inl blank ↦ let nothing = rw blank at h in absurd cc
    | inr filled ↦ elim (Option-cases (urls.urlsplit (strip raw))) [
      | inl bad ↦ let nothing = rw (filled, bad) at h in absurd cc
      | inr (parts, p) ↦
          let found = rw (filled, p) at h in
          (parts, p, (let same : parsed parts ≡ url = cc in same))
    ]
  ]

  parsed-IsSanitized :
      (raw : Text) (r : Option ParsedUrl)
      → parse_url urls.urlsplit (some (text raw)) ≡ r
      → is_empty (elim r [ none ↦ [] | some url ↦ public_parts urls raw url ]) ≡ false
      → IsSanitized urls (elim r [ none ↦ [] | some url ↦ public_parts urls raw url ])
  parsed-IsSanitized raw none e h = absurd cc
  parsed-IsSanitized raw (some url) e h =
      let (parts, p, same) = parse_url-parts raw url e in
      subst
        (λ u.
          is_empty (public_parts urls raw u) ≡ false → IsSanitized urls (public_parts urls raw u))
        same (public_parts-IsSanitized raw parts p) h

  -- A text that sanitizing leaves is sanitized.
  pub sanitize_public_url-IsSanitized :
      (value : Option Value)
      → is_empty (sanitize_public_url urls value) ≡ false
      → IsSanitized urls (sanitize_public_url urls value)
  unfolding sanitize_public_url
  sanitize_public_url-IsSanitized value h =
      let raw = strip (or_empty value) in
      parsed-IsSanitized raw (parse_url urls.urlsplit (some (text raw))) refl h

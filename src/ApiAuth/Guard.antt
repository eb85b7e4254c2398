-- ===== src/ApiAuth/Guard.antt =====
-- What the guard lets through.
use relaytv.Prelude.{
  OneOf, contains-OneOf, ℕ, ◌≡◌, ◌⊎◌, ◌↔◌, inl, inr, refl, sym, ap, ◌∙◌, Bool, true, false, not,
  ◌&&◌, ◌||◌, Option, [], ◌∷◌, ◌++◌, arith, ◌==◌, ==_iff, ◌≟◌, ≟_iff, if◌then◌else◌, contains,
  codes_eq, Text, codes, is_empty, strip, upper, lower, Bool-cases, subst,
}
use relaytv.UrlBoundary.{text_or_empty}
use relaytv.ApiAuth.Path.{IsSnapshot, normalized_path-IsSnapshot}
use relaytv.ApiAuth.{
  configured_api_token, bearer_token_from_header, is_write_request, write_request_allowed,
  partition_space, normalized_path, verb_of, write_methods, is_mutating_path,
}

-- A request that changes something: by its method, or a GET of the snapshot page, with any spaces
-- around the path and slashes behind it.
abbrev pub Writes : Text → Text → Type 0
Writes method path =
    OneOf (codes "POST" ∷ codes "PUT" ∷ codes "PATCH" ∷ codes "DELETE" ∷ []) (upper (strip method))
    ⊎ ((upper (strip method) ≡ codes "GET") × IsSnapshot path)

unfoldable pub has_space : Text → Bool
has_space [] = false
has_space (c ∷ s) = c == b' ' || has_space s

-- The header is the word "bearer" in any case, a space, and the token between spaces.
pub record Presents (header : Option Text) (token : Text) : Type 0 where
  pub scheme : Text
  pub credentials : Text
  pub parts : strip (text_or_empty header) ≡ scheme ++ (b' ' ∷ credentials)
  pub one_word : has_space scheme ≡ false
  pub bearer : lower scheme ≡ codes "bearer"
  pub same : strip credentials ≡ token

-- Why a request may go on: there is no token, it does not write, or it presents the token.
abbrev pub Permitted : Option Text → Text → Option Text → Text → Type 0
Permitted raw method authorization path =
    (strip (text_or_empty raw) ≡ [])
    ⊎ ((¬ (Writes method path)) ⊎ Presents authorization (strip (text_or_empty raw)))

or_iff : (b c : Bool) → ((b || c) ≡ true) ↔ ((b ≡ true) ⊎ (c ≡ true))
or_iff true c = (λ h. inl refl, λ h. refl)
or_iff false c = (λ h. inr h, λ h. elim h [ inl never ↦ absurd cc | inr right ↦ right ])

and_iff : (b c : Bool) → ((b && c) ≡ true) ↔ ((b ≡ true) × (c ≡ true))
and_iff true c = (λ h. (refl, h), λ h. h.1)
and_iff false c = (λ h. absurd cc, λ h. absurd (let never = h.0 in cc))

is_mutating-IsSnapshot : (path : Text) → (is_mutating_path path ≡ true) ↔ IsSnapshot path
is_mutating-IsSnapshot path =
    let one = contains-OneOf (codes "/snapshot" ∷ []) (normalized_path path) in
    let page = normalized_path-IsSnapshot path in
    (
      λ h. elim (one.0 h) [ inl same ↦ page.0 same | inr never ↦ absurd never ],
      λ p. one.1 (inl (page.1 p)),
    )

is_write_request-Writes :
    (method path : Text) → (is_write_request method path ≡ true) ↔ Writes method path
unfolding is_write_request
is_write_request-Writes method path =
    let verb = verb_of method in
    let either =
      or_iff (contains write_methods verb) ((verb ≟ codes "GET") && is_mutating_path path) in
    let both = and_iff (verb ≟ codes "GET") (is_mutating_path path) in
    let method_iff = contains-OneOf write_methods verb in
    let get_iff = ≟_iff verb (codes "GET") in
    let path_iff = is_mutating-IsSnapshot path in
    (
      λ h. elim (either.0 h) [
        | inl by_method ↦ inl (method_iff.0 by_method)
        | inr by_path ↦ let (g, m) = both.0 by_path in inr (get_iff.0 g, path_iff.0 m)
      ],
      λ w. elim w [
        | inl by_method ↦ either.1 (inl (method_iff.1 by_method))
        | inr (g, m) ↦ either.1 (inr (both.1 (get_iff.1 g, path_iff.1 m)))
      ],
    )

-- The two parts of a text at its first space.
partition_space-append :
    (a b : Text) → has_space a ≡ false → partition_space (a ++ (b' ' ∷ b)) ≡ (a, b)
unfolding partition_space has_space
partition_space-append [] b h = refl
partition_space-append (c ∷ a) b h =
    let plain : (c == b' ') ≡ false = ground arith in
    let rest = partition_space-append a b (ground arith) in rw (plain, rest) refl

pub record Parted (s : Text) : Type 0 where
  pub one_word : has_space (partition_space s).0 ≡ false
  pub joined :
      ((partition_space s).1 ≡ []) ⊎ (s ≡ (partition_space s).0 ++ (b' ' ∷ (partition_space s).1))

space-Parted : (c : ℕ) (s : Text) → Parted s → Parted (c ∷ s)
unfolding partition_space has_space
space-Parted c s p = elim (Bool-cases (c == b' ')) [
  | inl e ↦ record {
    one_word = rw e refl;
    joined = inr (rw e (ap (λ d. d ∷ s) ((==_iff c b' ').0 e)));
  }
  | inr e ↦ record {
    one_word = rw e (ground (arith, e, p.one_word));
    joined =
        rw e (elim p.joined [
          | inl none_there ↦ inl none_there
          | inr same ↦ inr (ap (λ t. c ∷ t) same)
        ]);
  }
]

partition_space-Parted : (s : Text) → Parted s
unfolding partition_space has_space
partition_space-Parted [] = record { one_word = refl; joined = inl refl }
partition_space-Parted (c ∷ s) = space-Parted c s (partition_space-Parted s)

bearer-Presents :
    (header : Option Text) (c : ℕ) (t : Text)
    → (bearer_token_from_header header ≡ c ∷ t) ↔ Presents header (c ∷ t)
unfolding bearer_token_from_header strip
bearer-Presents header c t =
    let raw = strip (text_or_empty header) in
    let parts = partition_space raw in
    let whole = partition_space-Parted raw in
    (
      λ h. elim (Bool-cases (lower parts.0 ≟ codes "bearer")) [
        | inr other ↦ let nothing = rw other at h in absurd cc
        | inl bearer ↦
            let found : strip parts.1 ≡ c ∷ t = rw bearer at h in
            elim whole.joined [
              | inl none_there ↦ let nothing = rw none_there at found in absurd cc
              | inr joined ↦ record {
                scheme = parts.0;
                credentials = parts.1;
                parts = joined;
                one_word = whole.one_word;
                bearer = (≟_iff (lower parts.0) (codes "bearer")).0 bearer;
                same = found;
              }
            ]
      ],
      λ p.
          let e : parts ≡ (p.scheme, p.credentials) =
            ap partition_space p.parts ∙ partition_space-append p.scheme p.credentials p.one_word in
          let is = (≟_iff (lower p.scheme) (codes "bearer")).1 p.bearer in rw e (rw is p.same),
    )

abbrev decide : Text → Text → Bool → Bool
decide token presented writes =
    if is_empty token
    then true
    else if not writes
    then true
    else if is_empty presented
    then false
    else presented ≟ token

decide_iff :
    (token presented : Text) (writes : Bool) (W P : Type 0)
    → (writes ≡ true) ↔ W
    → ((c : ℕ) (t : Text) → token ≡ c ∷ t → (presented ≡ token) ↔ P)
    → (decide token presented writes ≡ true) ↔ ((token ≡ []) ⊎ ((¬ W) ⊎ P))
decide_iff [] presented writes W P w p = (λ h. inl refl, λ h. refl)
decide_iff (c ∷ t) presented false W P w p =
    (λ h. inr (inl (λ x. let never = w.1 x in absurd cc)), λ h. refl)
decide_iff (c ∷ t) [] true W P w p = (
  λ h. absurd cc,
  λ h. elim h [
    | inl never ↦ absurd cc
    | inr (inl reads) ↦ absurd (reads (w.0 refl))
    | inr (inr presents) ↦ let never = (p c t refl).1 presents in absurd cc
  ],
)
decide_iff (c ∷ t) (d ∷ s) true W P w p = (
  λ h. inr (inr ((p c t refl).0 ((≟_iff (d ∷ s) (c ∷ t)).0 h))),
  λ h. elim h [
    | inl never ↦ absurd cc
    | inr (inl reads) ↦ absurd (reads (w.0 refl))
    | inr (inr presents) ↦ (≟_iff (d ∷ s) (c ∷ t)).1 ((p c t refl).1 presents)
  ],
)

-- A request goes on exactly where no token is configured, its method is not POST, PUT, PATCH or
-- DELETE and it is no GET of the snapshot page (with slashes behind it or not), or its header is the word "bearer" in any case and
-- the configured token behind a space.
pub write_request_allowed-Permitted :
    (raw : Option Text) (method : Text) (authorization : Option Text) (path : Text)
    → (write_request_allowed raw method authorization path ≡ true)
      ↔ Permitted raw method authorization path
unfolding write_request_allowed configured_api_token
write_request_allowed-Permitted raw method authorization path =
    decide_iff (strip (text_or_empty raw)) (bearer_token_from_header authorization)
      (is_write_request method path) (Writes method path)
      (Presents authorization (strip (text_or_empty raw))) (is_write_request-Writes method path)
      (λ c t e.
        subst
          (λ token. (bearer_token_from_header authorization ≡ token) ↔ Presents authorization token)
          (sym e) (bearer-Presents authorization c t))

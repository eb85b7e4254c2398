-- ===== src/UrlBoundary/Dots.antt =====
-- A host matches a domain at a dot boundary only.
use relaytv.Prelude.{
  ◌≡◌, ◌⊎◌, ◌↔◌, inl, inr, refl, ap, true, false, ◌||◌, [], ◌∷◌, ◌++◌, arith, ◌≟◌, ≟_iff, ≟_refl,
  codes_eq, Text, is_empty, Bool-cases,
}
use relaytv.UrlBoundary.{ends_with, normal_host, host_matches}

ends_with-split :
    (s suffix : Text) → ends_with s suffix ≡ true → (front : Text) × (s ≡ front ++ suffix)
unfolding ends_with
ends_with-split [] suffix h = ([], (≟_iff [] suffix).0 h)
ends_with-split (c ∷ s) suffix h = elim (Bool-cases ((c ∷ s) ≟ suffix)) [
  | inl same ↦ ([], (≟_iff (c ∷ s) suffix).0 same)
  | inr other ↦
      let (front, e) = ends_with-split s suffix (rw (other, ends_with) at h) in
      (c ∷ front, ap (λ t. c ∷ t) e)
]

abbrev codes_nil : Text
codes_nil = []

ends_with-append : (front suffix : Text) → ends_with (front ++ suffix) suffix ≡ true
unfolding ends_with
ends_with-append [] [] = ≟_refl codes_nil
ends_with-append [] (c ∷ suffix) = ground (arith, ≟_refl (c ∷ suffix))
ends_with-append (c ∷ front) suffix = ground (arith, ends_with-append front suffix)

-- The host is the domain, or a name below it.
abbrev pub IsUnder : Text → Text → Type 0
IsUnder left right = (left ≡ right) ⊎ ((front : Text) × (left ≡ front ++ (b'.' ∷ right)))

or_IsUnder :
    (left right : Text)
    → ((left ≟ right) || ends_with left (b'.' ∷ right)) ≡ true
    → IsUnder left right
or_IsUnder left right h = elim (Bool-cases (left ≟ right)) [
  | inl same ↦ inl ((≟_iff left right).0 same)
  | inr other ↦ inr (ends_with-split left (b'.' ∷ right) (rw other at h))
]

under_or :
    (left right : Text)
    → IsUnder left right
    → ((left ≟ right) || ends_with left (b'.' ∷ right)) ≡ true
under_or left right (inl same) = rw same (rw (≟_refl right) refl)
under_or left right (inr (front, e)) =
    let found = ends_with-append front (b'.' ∷ right) in
    let found' : ends_with left (b'.' ∷ right) ≡ true = rw e found in ground (arith, found')

-- Where a host matches a domain, the two are not empty.
abbrev pub Matches : Text → Text → Type 0
Matches left right = (is_empty left ≡ false) × (is_empty right ≡ false) × IsUnder left right

if_Matches :
    (host domain : Text)
    → host_matches host domain ≡ true
    → Matches (normal_host host) (normal_host domain)
unfolding host_matches
if_Matches host domain h =
    elim (Bool-cases (is_empty (normal_host host) || is_empty (normal_host domain))) [
      | inl empty ↦ let no = rw (empty, host_matches) at h in absurd cc
      | inr full ↦ (
        ground arith,
        ground arith,
        or_IsUnder (normal_host host) (normal_host domain) (rw (full, host_matches) at h),
      )
    ]

only_if_Matches :
    (host domain : Text)
    → Matches (normal_host host) (normal_host domain)
    → host_matches host domain ≡ true
unfolding host_matches
only_if_Matches host domain (left, right, under) =
    rw (left, host_matches) (rw right (under_or (normal_host host) (normal_host domain) under))

-- A host matches a domain exactly where, in lower case and without spaces around and dots at the end,
-- the two are not empty and the host is the domain or ends with a dot and the domain.
pub host_matches-Matches :
    (host domain : Text)
    → (host_matches host domain ≡ true) ↔ Matches (normal_host host) (normal_host domain)
host_matches-Matches host domain = (if_Matches host domain, only_if_Matches host domain)

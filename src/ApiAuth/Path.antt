-- ===== src/ApiAuth/Path.antt =====
-- A path is taken for the snapshot page with any spaces around it and any slashes behind it.
use mathlib.Core.List.{reverse, reverse-append, reverse-reverse}
use relaytv.Prelude.{
  ◌≡◌, ◌↔◌, refl, sym, ap, ◌∙◌, true, [], ◌∷◌, ◌++◌, arith, ◌==◌, ==_iff, ltb, Text, codes, length,
  is_empty, strip, if◌then◌else◌, Bool-cases, inl, inr, if_either, subst,
}
use relaytv.ApiAuth.{lstrip_slashes, without_slashes, normalized_path}

-- Slashes only.
abbrev pub Slashes : Text → Type 0
Slashes [] = Unit {0}
Slashes (c ∷ s) = (c ≡ b'/') × Slashes s

Slashes-append : (s t : Text) → Slashes s → Slashes t → Slashes (s ++ t)
Slashes-append [] t h g = g
Slashes-append (c ∷ s) t h g = (h.0, Slashes-append s t h.1 g)

reverse-Slashes : (s : Text) → Slashes s → Slashes (reverse s)
reverse-Slashes [] h = tt
reverse-Slashes (c ∷ s) h =
    subst Slashes (sym (reverse-append (c ∷ []) s))
      (Slashes-append (reverse s) (c ∷ []) (reverse-Slashes s h.1) (h.0, tt))

-- What `lstrip_slashes` takes off.
record Cut (s : Text) : Type 0 where
  off : Text
  slashes : Slashes off
  whole : s ≡ off ++ lstrip_slashes s

lstrip_slashes-Cut : (s : Text) → Cut s
unfolding lstrip_slashes
lstrip_slashes-Cut [] = record { off = []; slashes = tt; whole = refl }
lstrip_slashes-Cut (c ∷ s) = elim (Bool-cases (c == b'/')) [
  | inr other ↦ record { off = []; slashes = tt; whole = rw other refl }
  | inl slash ↦
      let rest = lstrip_slashes-Cut s in
      record {
        off = c ∷ rest.off;
        slashes = ((==_iff c b'/').0 slash, rest.slashes);
        whole = rw slash (ap (λ t. c ∷ t) rest.whole);
      }
]

lstrip_slashes-append : (off s : Text) → Slashes off → lstrip_slashes (off ++ s) ≡ lstrip_slashes s
unfolding lstrip_slashes
lstrip_slashes-append [] s h = refl
lstrip_slashes-append (c ∷ off) s h = rw ((==_iff c b'/').1 h.0) (lstrip_slashes-append off s h.1)

abbrev snapshot : Text
snapshot = codes "/snapshot"

-- The page, and slashes behind it.
pub record IsSnapshot (path : Text) : Type 0 where
  pub tail : Text
  pub slashes : Slashes tail
  pub whole : strip path ≡ codes "/snapshot" ++ tail

stripped-split :
    (value : Text)
    → snapshot ≡ reverse (lstrip_slashes (reverse value))
    → (tail : Text) × Slashes tail × (value ≡ snapshot ++ tail)
stripped-split value e =
    let cut = lstrip_slashes-Cut (reverse value) in
    let back =
      sym (reverse-reverse value)
      ∙ ap reverse cut.whole
      ∙ reverse-append cut.off (lstrip_slashes (reverse value)) in
    (
      reverse cut.off,
      reverse-Slashes cut.off cut.slashes,
      back ∙ ap (λ t. t ++ reverse cut.off) (sym e),
    )

snapshot-stripped :
    (tail : Text) → Slashes tail → reverse (lstrip_slashes (reverse (snapshot ++ tail))) ≡ snapshot
unfolding lstrip_slashes
snapshot-stripped tail h =
    ap (λ t. reverse (lstrip_slashes t)) (reverse-append snapshot tail)
    ∙ ap reverse (lstrip_slashes-append (reverse tail) (reverse snapshot) (reverse-Slashes tail h))

short-split :
    (value : Text) → snapshot ≡ value → (tail : Text) × Slashes tail × (value ≡ snapshot ++ tail)
short-split value e = ([], tt, sym e)

value-split :
    (value : Text)
    → snapshot ≡ (if ltb 1 (length value) then without_slashes value else value)
    → (tail : Text) × Slashes tail × (value ≡ snapshot ++ tail)
unfolding without_slashes
value-split value =
    if_either (λ t. snapshot ≡ t → (tail : Text) × Slashes tail × (value ≡ snapshot ++ tail))
      (ltb 1 (length value)) _ _
      (λ long.
        if_either (λ t. snapshot ≡ t → (tail : Text) × Slashes tail × (value ≡ snapshot ++ tail))
          (is_empty (reverse (lstrip_slashes (reverse value)))) _ _ (λ empty e. absurd cc)
          (λ filled e. stripped-split value e))
      (λ short e. short-split value e)

split-value :
    (tail : Text)
    → Slashes tail
    → snapshot ≡ (
        if ltb 1 (length (snapshot ++ tail))
        then without_slashes (snapshot ++ tail)
        else snapshot ++ tail)
unfolding without_slashes
split-value tail h =
    let long : ltb 1 (length (snapshot ++ tail)) ≡ true = ground arith in
    rw (long, snapshot-stripped tail h) refl

pub normalized_path-IsSnapshot :
    (path : Text) → (codes "/snapshot" ≡ normalized_path path) ↔ IsSnapshot path
unfolding normalized_path
normalized_path-IsSnapshot path = (
  λ e.
      let (tail, slashes, whole) = value-split (strip path) e in
      record { tail = tail; slashes = slashes; whole = whole },
  λ p.
      subst (λ value. snapshot ≡ (if ltb 1 (length value) then without_slashes value else value))
        (sym p.whole) (split-value p.tail p.slashes),
)

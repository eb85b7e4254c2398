-- ===== src/UploadStore/Names/Safe.antt =====
-- A name that the store makes or accepts stays inside its directory.
use relaytv.UploadStore.Names.{starts_unsafe}
use relaytv.Prelude.{==_iff}
use relaytv.Prelude.{codes}
use relaytv.Prelude.{lstrip}
use relaytv.Prelude.{is_space}
use relaytv.Prelude.{◌≢◌}
use relaytv.Prelude.{
  ℕ, ◌≡◌, refl, Bool, true, false, not, ◌||◌, Option, some, List, [], ◌∷◌, arith, ◌==◌, Text, strip,
  is_empty, Bool-cases, Option-cases, inl, inr,
}
use mathlib.Core.List.{reverse, reverse_aux}
use relaytv.UploadStore.{
  all_of, is_hex, has_id_shape, has_slash, basename, lstrip_of, strip_of, is_valid_upload_id,
  upload_dir,
}
use relaytv.UploadStore.Names.{dashed, is_safe_code, ref_of, upload_ref_from_url, is_upload_url}

basename_plain : (s : Text) → has_slash (basename s) ≡ false
unfolding basename has_slash
basename_plain [] = refl
basename_plain (c ∷ s) = elim (Bool-cases (has_slash (c ∷ s))) [
  | inl h ↦ rw (h, basename) (basename_plain s)
  | inr h ↦ rw (h, basename) h
]

hex_plain : (s : Text) → all_of is_hex s ≡ true → has_slash s ≡ false
unfolding all_of has_slash
hex_plain [] h = refl
hex_plain (c ∷ s) h = ground (arith, h, hex_plain s)

shape_plain : (s : Text) → has_id_shape s ≡ true → has_slash s ≡ false
unfolding has_id_shape has_slash
shape_plain [] h = absurd cc
shape_plain (c ∷ []) h = absurd cc
shape_plain (c ∷ d ∷ rest) h = ground (arith, h, hex_plain rest)

space_slash : (c : ℕ) → is_space c ≡ true → (c == b'/') ≡ false
unfolding is_space
space_slash c h = elim (Bool-cases (c == b'/')) [
  | inl slash ↦ let is : c ≡ b'/' = (==_iff c b'/').0 slash in let no = rw is at h in absurd cc
  | inr other ↦ other
]

has_slash-lstrip : (s : Text) → has_slash (lstrip s) ≡ has_slash s
unfolding has_slash lstrip
has_slash-lstrip [] = refl
has_slash-lstrip (c ∷ s) = elim (Bool-cases (is_space c)) [
  | inl h ↦ rw (h, lstrip) (rw (space_slash c h) (has_slash-lstrip s))
  | inr h ↦ rw (h, lstrip) refl
]

has_slash-reverse_aux : (s t : Text) → has_slash (reverse_aux s t) ≡ (has_slash s || has_slash t)
unfolding has_slash
has_slash-reverse_aux [] t = refl
has_slash-reverse_aux (c ∷ s) t = ground (arith, has_slash-reverse_aux s (c ∷ t))

has_slash-strip : (s : Text) → has_slash (strip s) ≡ has_slash s
unfolding strip has_slash
has_slash-strip s =
    let left = lstrip s in
    ground (
      arith,
      has_slash-reverse_aux (lstrip (reverse left)) [],
      has_slash-lstrip (reverse left),
      has_slash-reverse_aux left [],
      has_slash-lstrip s,
    )

-- One path component that is not empty, `.` or `..`.
abbrev pub IsComponent : Text → Type 0
IsComponent s = (has_slash s ≡ false) × (s ≢ []) × (s ≢ codes ".") × (s ≢ codes "..")

empty_invalid : is_valid_upload_id [] ≡ false
unfolding is_valid_upload_id
empty_invalid = refl

dot_invalid : is_valid_upload_id (codes ".") ≡ false
unfolding is_valid_upload_id
dot_invalid = refl

dots_invalid : is_valid_upload_id (codes "..") ≡ false
unfolding is_valid_upload_id
dots_invalid = refl

valid_shape : (s : Text) → is_valid_upload_id s ≡ true → has_id_shape (strip s) ≡ true
unfolding is_valid_upload_id
valid_shape s h = h

valid-IsComponent : (s : Text) → is_valid_upload_id s ≡ true → IsComponent s
valid-IsComponent s h = (
  rw⁻¹ (has_slash-strip s) (shape_plain (strip s) (valid_shape s h)),
  λ is. let no = rw is at h in absurd (let bad = empty_invalid in cc),
  λ is. let no = rw is at h in absurd (let bad = dot_invalid in cc),
  λ is. let no = rw is at h in absurd (let bad = dots_invalid in cc),
)

dir_plain :
    (contained : Text → Bool) (id dir : Text) → upload_dir contained id ≡ some dir → IsComponent dir
unfolding upload_dir
dir_plain contained id dir h = elim (Bool-cases (is_valid_upload_id (strip id))) [
  | inr bad ↦ let no = rw bad at h in absurd cc
  | inl good ↦ elim (Bool-cases (contained (strip id))) [
    | inr out ↦ let no = rw (good, out) at h in absurd cc
    | inl within ↦
        let is : strip id ≡ dir = (let found = rw (good, within) at h in cc) in
        rw⁻¹ is (valid-IsComponent (strip id) good)
  ]
]

ref_plain :
    (unquote : Text → Text) (parts : List Text) (id file : Text)
    → ref_of unquote parts ≡ some (id, file)
    → has_slash file ≡ false
unfolding ref_of
ref_plain unquote [] id file h = absurd cc
ref_plain unquote (a ∷ []) id file h = absurd cc
ref_plain unquote (a ∷ b ∷ c ∷ rest) id file h = absurd cc
ref_plain unquote (a ∷ b ∷ []) id file h =
    elim (Bool-cases (is_empty (unquote b) || not (is_valid_upload_id (unquote a)))) [
      | inl bad ↦ let no = rw bad at h in absurd cc
      | inr good ↦
          let is : basename (unquote b) ≡ file = (let found = rw good at h in cc) in
          rw⁻¹ is (basename_plain (unquote b))
    ]

-- Whatever `unquote` makes of the parts of an upload URL: the directory that a reference leads to is
-- one component under the root, other than the empty one, `.` and `..`, and the file name has no
-- separator.
pub upload_ref_from_url-upload_dir :
    (url_path : Text → Option Text) (unquote : Text → Text) (contained : Text → Bool)
    (url id file dir : Text)
    → upload_ref_from_url url_path unquote url ≡ some (id, file)
    → upload_dir contained id ≡ some dir
    → IsComponent dir × (has_slash file ≡ false)
unfolding upload_ref_from_url
upload_ref_from_url-upload_dir url_path unquote contained url id file dir h g =
    elim (Option-cases (url_path url)) [
      | inl none_there ↦ let no = rw (none_there, upload_ref_from_url) at h in absurd cc
      | inr (path, there) ↦
          let found = rw (there, upload_ref_from_url) at h in
          elim (Bool-cases (is_upload_url url_path url)) [
            | inr other ↦ let no = rw other at found in absurd cc
            | inl upload ↦
                let ref = rw upload at found in
                (dir_plain contained id dir g, ref_plain unquote _ id file ref)
          ]
    ]

all_of-reverse_aux :
    (test : ℕ → Bool) (s t : Text)
    → all_of test s ≡ true
    → all_of test t ≡ true
    → all_of test (reverse_aux s t) ≡ true
unfolding all_of
all_of-reverse_aux test [] t h g = g
all_of-reverse_aux test (c ∷ s) t h g =
    all_of-reverse_aux test s (c ∷ t) (ground (arith, h)) (ground (arith, h, g))

all_of-lstrip_of :
    (test edge : ℕ → Bool) (s : Text) → all_of test s ≡ true → all_of test (lstrip_of edge s) ≡ true
unfolding all_of lstrip_of
all_of-lstrip_of test edge [] h = refl
all_of-lstrip_of test edge (c ∷ s) h = ground (arith, h, all_of-lstrip_of test edge s)

pub all_of-strip_of :
    (test edge : ℕ → Bool) (s : Text) → all_of test s ≡ true → all_of test (strip_of edge s) ≡ true
unfolding strip_of all_of
all_of-strip_of test edge s h =
    let left = lstrip_of edge s in
    let right = lstrip_of edge (reverse left) in
    all_of-reverse_aux test right []
      (all_of-lstrip_of test edge (reverse left)
        (all_of-reverse_aux test left [] (all_of-lstrip_of test edge s h) refl))
      refl

dash_safe : is_safe_code b'-' ≡ true
unfolding is_safe_code
dash_safe = refl

pub all_of-dashed : (s : Text) → all_of is_safe_code (dashed s) ≡ true
unfolding all_of dashed
all_of-dashed [] = refl
all_of-dashed (c ∷ s) = elim (Bool-cases (is_safe_code c)) [
  | inl safe ↦ rw (safe, dashed) (rw safe (all_of-dashed s))
  | inr odd ↦ elim (Bool-cases (starts_unsafe s)) [
    | inl more ↦ rw (odd, dashed) (rw more (all_of-dashed s))
    | inr last ↦ rw (odd, dashed) (rw (last, dash_safe) (all_of-dashed s))
  ]
]

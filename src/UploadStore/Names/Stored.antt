-- ===== src/UploadStore/Names/Stored.antt =====
-- The name that an upload of an allowed type is stored under.
use relaytv.UploadStore.Names.Safe.{all_of-dashed}
use relaytv.UploadStore.Names.{dashed}
use relaytv.UploadStore.{basename}
use relaytv.UploadStore.Names.{is_edge}
use relaytv.UploadStore.Names.{split_at_dot}
use relaytv.UploadStore.Names.Safe.{all_of-strip_of}
use relaytv.UploadStore.Names.{is_safe_code}
use relaytv.Prelude.{≟_refl}
use relaytv.UploadStore.Names.{safe_stem}
use relaytv.UploadStore.Names.{allowed_extension}
use relaytv.UploadStore.Names.{with_dot}
use relaytv.UploadStore.Names.{sanitize_upload_filename}
use relaytv.UploadStore.Names.{allowed_mime_types}
use relaytv.UploadStore.{all_of}
use relaytv.UploadStore.Names.{or_upload}
use relaytv.Prelude.{
  ℕ, suc, zero, ◌≡◌, ◌≢◌, refl, Bool, true, false, not, ◌&&◌, some, List, [], ◌∷◌, ◌++◌, arith,
  ◌==◌, ◌≟◌, ≟_iff, Text, strip, is_empty, Bool-cases, inl, inr, take, lower, codes_eq, contains,
}
use relaytv.Prelude.Dict.{Dict, get}

unfoldable each : (Text → Bool) → List Text → Bool
each test [] = true
each test (e ∷ es) = test e && each test es

abbrev begins_with_dot : Text → Bool
begins_with_dot [] = false
begins_with_dot (c ∷ s) = c == b'.'

abbrev is_extension : Text → Bool
is_extension e = begins_with_dot e && all_of is_safe_code e

unfoldable each_listed : Dict Text (List Text) → Bool
unfolding each
each_listed [] = true
each_listed ((mime, exts) ∷ m) = not (is_empty exts) && each is_extension exts && each_listed m

each_contains :
    (test : Text → Bool) (es : List Text) (e : Text)
    → each test es ≡ true
    → contains es e ≡ true
    → test e ≡ true
unfolding each contains
each_contains test [] e h g = absurd cc
each_contains test (x ∷ es) e h g = elim (Bool-cases (x ≟ e)) [
  | inl same ↦ rw⁻¹ ((≟_iff x e).0 same) (ground (arith, h))
  | inr other ↦ each_contains test es e (ground (arith, h)) (rw (other, contains) at g)
]

each_listed-get :
    (m : Dict Text (List Text)) (mime : Text) (exts : List Text)
    → each_listed m ≡ true
    → get m mime ≡ some exts
    → (is_empty exts ≡ false) × (each is_extension exts ≡ true)
unfolding each_listed get
each_listed-get [] mime exts h g = absurd cc
each_listed-get ((k, es) ∷ m) mime exts h g = elim (Bool-cases (k ≟ mime)) [
  | inl same ↦ let is : es ≡ exts = (let found = rw same at g in cc) in rw⁻¹ is (ground (arith, h))
  | inr other ↦ each_listed-get m mime exts (ground (arith, h)) (rw other at g)
]

table_listed : each_listed allowed_mime_types ≡ true
unfolding each_listed all_of is_safe_code
table_listed = refl

all_of-take :
    (test : ℕ → Bool) (n : ℕ) (s : Text) → all_of test s ≡ true → all_of test (take n s) ≡ true
unfolding all_of
all_of-take test zero s h = refl
all_of-take test (suc n) [] h = refl
all_of-take test (suc n) (c ∷ s) h = ground (arith, h, all_of-take test n s)

all_of-append :
    (test : ℕ → Bool) (s t : Text)
    → all_of test s ≡ true
    → all_of test t ≡ true
    → all_of test (s ++ t) ≡ true
unfolding all_of
all_of-append test [] t h g = g
all_of-append test (c ∷ s) t h g = ground (arith, h, all_of-append test s t)

or_upload_safe :
    (s : Text) → all_of is_safe_code s ≡ true → all_of is_safe_code (or_upload s) ≡ true
unfolding all_of is_safe_code
or_upload_safe [] h = refl
or_upload_safe (c ∷ s) h = h

safe_stem_safe : (stem : Text) → all_of is_safe_code (safe_stem stem) ≡ true
unfolding safe_stem
safe_stem_safe stem =
    all_of-take is_safe_code 96 _
      (or_upload_safe _ (all_of-strip_of is_safe_code is_edge (dashed stem) (all_of-dashed stem)))

take_some : (s : Text) → take 96 (or_upload s) ≢ []
take_some [] h = absurd cc
take_some (c ∷ s) h = absurd cc

contains_first : (first : Text) (more : List Text) → contains (first ∷ more) first ≡ true
unfolding contains
contains_first first more = rw (contains, ≟_refl first) refl

allowed_extension_listed :
    (guess : Text → Text) (mime ext : Text) (exts : List Text)
    → is_empty exts ≡ false
    → contains exts (allowed_extension guess mime ext (some exts)) ≡ true
unfolding allowed_extension
allowed_extension_listed guess mime ext [] h = absurd cc
allowed_extension_listed guess mime ext (first ∷ more) h =
    elim (Bool-cases (contains (first ∷ more) ext)) [
      | inl listed ↦ rw (listed, allowed_extension) listed
      | inr other ↦ rw (other, allowed_extension) (contains_first first more)
    ]

extension_safe : (e : Text) → is_extension e ≡ true → all_of is_safe_code e ≡ true
extension_safe [] h = absurd cc
extension_safe (c ∷ s) h = ground (arith, h)

with_dot_extension : (e : Text) → is_extension e ≡ true → with_dot e ≡ e
with_dot_extension [] h = refl
with_dot_extension (c ∷ s) h = ground (arith, h)

-- For an upload whose content type is listed: whatever its file name, it is stored under a name
-- that is a stem, then one of the extensions of its type, and every code of the name is a letter, a
-- digit, `.`, `_` or `-`.
pub sanitize_upload_filename-allowed :
    (guess : Text → Text) (filename content_type : Text) (exts : List Text)
    → get allowed_mime_types (lower (strip content_type)) ≡ some exts
    → (stem : Text) × (ext : Text) × (sanitize_upload_filename guess filename content_type
        ≡ stem ++ ext)
      × (stem ≢ [])
      × (contains exts ext ≡ true)
      × (all_of is_safe_code (stem ++ ext) ≡ true)
unfolding sanitize_upload_filename
sanitize_upload_filename-allowed guess filename content_type exts h =
    let mime = lower (strip content_type) in
    let (raw, suffix) = split_at_dot false (or_upload (basename (strip filename))) in
    let stem = safe_stem raw in
    let ext = allowed_extension guess mime (lower (strip suffix)) (some exts) in
    let (some_listed, good) = each_listed-get allowed_mime_types mime exts table_listed h in
    let listed = allowed_extension_listed guess mime (lower (strip suffix)) exts some_listed in
    let proper = each_contains is_extension exts ext good listed in
    (
      stem,
      ext,
      rw (h, sanitize_upload_filename) (rw (with_dot_extension ext proper) refl),
      take_some _,
      listed,
      all_of-append is_safe_code stem ext (safe_stem_safe raw) (extension_safe ext proper),
    )

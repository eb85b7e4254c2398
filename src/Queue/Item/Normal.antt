-- ===== src/Queue/Item/Normal.antt =====
-- A generated id is its own normal form, and the id that an item is given is the id that it has.
use mathlib.Core.List.{reverse, reverse-append, reverse-reverse}
use relaytv.Prelude.{
  ℕ, ◌≡◌, refl, true, false, some, [], ◌∷◌, ◌++◌, arith, codes_eq, Text, ≟_refl, is_space, lstrip,
  strip, lower, lower_code,
}
use relaytv.Prelude.Dict.{get-put}
use relaytv.Prelude.Dict
use relaytv.Prelude.Value.{Fields, text, or_empty}
use relaytv.Queue.Item.{dict, id_of, id_key, is_hex, all_hex, is_id, normal_id, with_id, renamed}

hex-not-space : (c : ℕ) → is_hex c ≡ true → is_space c ≡ false
unfolding is_hex is_space
hex-not-space c h = ground arith

lower_code-hex : (c : ℕ) → is_hex c ≡ true → lower_code c ≡ c
unfolding is_hex lower_code
lower_code-hex c h = ground arith

lower-hex : (s : Text) → all_hex s ≡ true → lower s ≡ s
unfolding all_hex lower
lower-hex [] h = refl
lower-hex (c ∷ s) h = ground (arith, lower_code-hex c, lower-hex s)

lstrip-hex : (s : Text) → all_hex s ≡ true → lstrip s ≡ s
unfolding all_hex lstrip
lstrip-hex [] h = refl
lstrip-hex (c ∷ s) h = ground (arith, hex-not-space c)

all_hex-append : (s t : Text) → all_hex s ≡ true → all_hex t ≡ true → all_hex (s ++ t) ≡ true
unfolding all_hex
all_hex-append [] t h k = k
all_hex-append (c ∷ s) t h k = ground (arith, all_hex-append s t)

all_hex-reverse : (s : Text) → all_hex s ≡ true → all_hex (reverse s) ≡ true
unfolding all_hex
all_hex-reverse [] h = refl
all_hex-reverse (c ∷ s) h =
    rw (reverse-append (c ∷ []) s)
      (all_hex-append (reverse s) (c ∷ []) (all_hex-reverse s (ground arith)) (ground arith))

strip-hex : (s : Text) → all_hex s ≡ true → strip s ≡ s
unfolding strip
strip-hex s h =
    rw (lstrip-hex s h, lstrip-hex (reverse s) (all_hex-reverse s h)) (reverse-reverse s)

normal_id-uuid : (t : Text) → is_id t ≡ true → normal_id t ≡ some t
unfolding normal_id
normal_id-uuid t h =
    let hex : all_hex t ≡ true = unfold is_id in ground arith in
    rw (strip-hex t hex, lower-hex t hex, h)

get-with_id : (f : Fields) (t : Text) → or_empty (Dict.get (with_id f t) id_key) ≡ t
unfolding with_id or_empty
get-with_id f t = rw (get-put f id_key id_key (text t), ≟_refl id_key)

pub id_of-with_id : (f : Fields) (t : Text) → is_id t ≡ true → id_of (dict (with_id f t)) ≡ some t
unfolding id_of
id_of-with_id f t h = rw (get-with_id f t) (normal_id-uuid t h)

pub id_of-renamed : (f : Fields) (t : Text) → is_id t ≡ true → id_of (dict (renamed f t)) ≡ some t
unfolding renamed
id_of-renamed f t h = id_of-with_id (Dict.pop f id_key) t h

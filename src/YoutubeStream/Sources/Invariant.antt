-- ===== src/YoutubeStream/Sources/Invariant.antt =====
-- The registry stays bounded, whatever is registered and looked up.
use relaytv.Prelude.{
  ℕ, ◌+◌, ◌^◌, ◌≤◌, ◌<◌, ◌≡◌, refl, Bool, true, false, Option, none, some, List, [], ◌∷◌, ◌++◌,
  arith, ◌≟◌, length, length-append, codes_eq, Text, Option-cases, Bool-cases, inl, inr,
}
use relaytv.Prelude.Dict.{
  Dict, KeysOnce, KeysOnce-discard, KeysOnce-put, KeysOnce-pop, has_key-pop, length-put_le,
  length-pop_le, length-discard_le,
}
use relaytv.Prelude.Dict
use relaytv.YoutubeStream.Sources.{
  StreamSource, Sources, UrlParts, max_sources, evict_oldest, move_to_end, find_url, register,
  expired, accepted, one_each, proxy_text, proxy_url, live_source, new_source, Call, proxy, look,
  serve,
}

-- A size that `proxy_url` lets through.
abbrev pub IsSize : ℕ → Type 0
IsSize n = (0 < n) × (n ≤ 2 ^ 40)

abbrev pub Sized : Sources → Type 0
Sized [] = Unit {0}
Sized ((token, source) ∷ rest) = IsSize source.size × Sized rest

pub record IsValid (sources : Sources) : Type 0 where
  pub bounded : length sources ≤ max_sources
  pub keys_once : KeysOnce sources
  pub sized : Sized sources

evict_oldest-length : (m : Sources) → length (evict_oldest m) ≤ max_sources
unfolding evict_oldest
evict_oldest-length [] = omega arith
evict_oldest-length (x ∷ m) = ground (arith, evict_oldest-length m)

evict_oldest-KeysOnce : (m : Sources) → KeysOnce m → KeysOnce (evict_oldest m)
unfolding evict_oldest
evict_oldest-KeysOnce [] h = tt
evict_oldest-KeysOnce ((t, s) ∷ m) h = ground (arith, evict_oldest-KeysOnce m)

evict_oldest-Sized : (m : Sources) → Sized m → Sized (evict_oldest m)
unfolding evict_oldest
evict_oldest-Sized [] h = tt
evict_oldest-Sized ((t, s) ∷ m) h = ground (arith, evict_oldest-Sized m)

discard-Sized : (drop : StreamSource → Bool) (m : Sources) → Sized m → Sized (Dict.discard drop m)
unfolding Dict.discard
discard-Sized drop [] h = tt
discard-Sized drop ((t, s) ∷ m) h = ground (arith, discard-Sized drop m)

pop-Sized : (m : Sources) (t : Text) → Sized m → Sized (Dict.pop m t)
unfolding Dict.pop
pop-Sized [] t h = tt
pop-Sized ((j, s) ∷ m) t h = ground (arith, pop-Sized m t)

put-Sized :
    (m : Sources) (t : Text) (s : StreamSource) → IsSize s.size → Sized m → Sized (Dict.put m t s)
unfolding Dict.put
put-Sized [] t s b h = (b, tt)
put-Sized ((j, w) ∷ m) t s b h = ground (arith, put-Sized m t s)

append-Sized :
    (m : Sources) (t : Text) (s : StreamSource) → IsSize s.size → Sized m → Sized (m ++ (t, s) ∷ [])
append-Sized [] t s b h = (b, tt)
append-Sized ((j, w) ∷ m) t s b h = (h.0, append-Sized m t s b h.1)

append-has_key-false :
    (m : Sources) (t j : Text) (s : StreamSource)
    → (t ≟ j) ≡ false
    → Dict.has_key m j ≡ false
    → Dict.has_key (m ++ (t, s) ∷ []) j ≡ false
unfolding Dict.has_key
append-has_key-false [] t j s n h = ground arith
append-has_key-false ((i, w) ∷ m) t j s n h = ground (arith, append-has_key-false m t j s n)

append-KeysOnce :
    (m : Sources) (t : Text) (s : StreamSource)
    → Dict.has_key m t ≡ false
    → KeysOnce m
    → KeysOnce (m ++ (t, s) ∷ [])
unfolding Dict.has_key
append-KeysOnce [] t s n h = (refl, tt)
append-KeysOnce ((i, w) ∷ m) t s n h = ground (
  arith,
  codes_eq.beq_iff i t,
  codes_eq.beq_iff t i,
  append-has_key-false m t i s,
  append-KeysOnce m t s,
)

length-pop_lt :
    (m : Sources) (t : Text) → Dict.has_key m t ≡ true → length (Dict.pop m t) + 1 ≤ length m
unfolding Dict.has_key Dict.pop
length-pop_lt [] t h = cc
length-pop_lt ((j, s) ∷ m) t h = ground (arith, length-pop_lt m t, length-pop_le m t)

pub find_url-has_key :
    (url : Text) (m : Sources) {t : Text} {s : StreamSource}
    → find_url url m ≡ some (t, s)
    → Dict.has_key m t ≡ true
unfolding find_url Dict.has_key
find_url-has_key url [] h = cc
find_url-has_key url ((j, w) ∷ m) {t} {s} h =
    ground (arith, find_url-has_key url m {t = t} {s = s}, codes_eq.beq_iff j t)

find_url-IsSize :
    (url : Text) (m : Sources) {t : Text} {s : StreamSource}
    → Sized m
    → find_url url m ≡ some (t, s)
    → IsSize s.size
unfolding find_url
find_url-IsSize url [] z h = cc
find_url-IsSize url ((j, w) ∷ m) {t} {s} z h = ground (arith, find_url-IsSize url m {t = t} {s = s})

discard-IsValid :
    (drop : StreamSource → Bool) {m : Sources} → IsValid m → IsValid (Dict.discard drop m)
discard-IsValid drop {m} v = record {
  bounded = omega (arith, length-discard_le drop m, v.bounded);
  keys_once = KeysOnce-discard drop m v.keys_once;
  sized = discard-Sized drop m v.sized;
}

pop-IsValid : (t : Text) {m : Sources} → IsValid m → IsValid (Dict.pop m t)
pop-IsValid t {m} v = record {
  bounded = omega (arith, length-pop_le m t, v.bounded);
  keys_once = KeysOnce-pop m t v.keys_once;
  sized = pop-Sized m t v.sized;
}

insert-IsValid :
    (t : Text) (s : StreamSource) {m : Sources}
    → IsSize s.size
    → IsValid m
    → IsValid (evict_oldest (Dict.put m t s))
insert-IsValid t s {m} b v = record {
  bounded = evict_oldest-length (Dict.put m t s);
  keys_once = evict_oldest-KeysOnce (Dict.put m t s) (KeysOnce-put m t s v.keys_once);
  sized = evict_oldest-Sized (Dict.put m t s) (put-Sized m t s b v.sized);
}

popped_key : (m : Sources) (t : Text) → Dict.has_key (Dict.pop m t) t ≡ false
popped_key m t = ground (arith, has_key-pop m t t, codes_eq.beq_iff t t)

move_to_end-IsValid :
    (t : Text) (s : StreamSource) {m : Sources}
    → Dict.has_key m t ≡ true
    → IsSize s.size
    → IsValid m
    → IsValid (move_to_end m (t, s))
unfolding move_to_end
move_to_end-IsValid t s {m} k b v = record {
  bounded =
      omega (arith, length-append {0} (Dict.pop m t) ((t, s) ∷ []), length-pop_lt m t k, v.bounded);
  keys_once = append-KeysOnce (Dict.pop m t) t s (popped_key m t) (KeysOnce-pop m t v.keys_once);
  sized = append-Sized (Dict.pop m t) t s b (pop-Sized m t v.sized);
}

register-IsValid :
    (now : ℕ) (token url : Text) (size : ℕ) (media_type : Text) {m : Sources}
    → IsSize size
    → IsValid m
    → IsValid (register now token url (size, media_type) m).1
unfolding register
register-IsValid now token url size media_type {m} b v =
    let live = Dict.discard (expired now) m in
    elim (Option-cases (find_url url live)) [
      | inl e ↦
          rw (e, register)
            (insert-IsValid token (new_source now url (size, media_type)) b
              (discard-IsValid (expired now) v))
      | inr ((t, s), e) ↦
          rw (e, register)
            (move_to_end-IsValid t s (find_url-has_key url live e)
              (find_url-IsSize url live (discard-Sized (expired now) m v.sized) e)
              (discard-IsValid (expired now) v))
    ]

one_each-IsSize :
    (p : UrlParts) (mime : List Text) (clen : List (Option ℕ)) {n : ℕ} {media_type : Text}
    → one_each p mime clen ≡ some (n, media_type)
    → IsSize n
unfolding one_each
one_each-IsSize p [] clen h = cc
one_each-IsSize p (t ∷ u ∷ r) clen h = cc
one_each-IsSize p (t ∷ []) [] h = cc
one_each-IsSize p (t ∷ []) (l ∷ k ∷ r) h = cc
one_each-IsSize p (t ∷ []) (none ∷ []) h = ground arith
one_each-IsSize p (t ∷ []) (some l ∷ []) h = ground arith

accepted-IsSize :
    (parsed : Option UrlParts) {n : ℕ} {media_type : Text}
    → accepted parsed ≡ some (n, media_type)
    → IsSize n
unfolding accepted
accepted-IsSize none h = cc
accepted-IsSize (some p) h = one_each-IsSize p p.mime p.clen h

proxy_text-IsValid :
    (urlsplit : Text → Option UrlParts) (port now : ℕ) (token url : Text) {m : Sources}
    → IsValid m
    → IsValid (proxy_text urlsplit port now token url m).1
unfolding proxy_text
proxy_text-IsValid urlsplit port now token url {m} v =
    elim (Option-cases (accepted (urlsplit url))) [
      | inl e ↦ rw (e, proxy_text) v
      | inr ((n, t), e) ↦
          rw (e, proxy_text)
            (register-IsValid now token url n t (accepted-IsSize (urlsplit url) e) v)
    ]

proxy_url-IsValid :
    (urlsplit : Text → Option UrlParts) (port now : ℕ) (token : Text) (url : Option Text)
    {m : Sources}
    → IsValid m
    → IsValid (proxy_url urlsplit port now token url m).1
unfolding proxy_url
proxy_url-IsValid urlsplit port now token none v = v
proxy_url-IsValid urlsplit port now token (some []) v = v
proxy_url-IsValid urlsplit port now token (some (c ∷ url)) v =
    proxy_text-IsValid urlsplit port now token (c ∷ url) v

live_source-IsValid :
    (now : ℕ) (token : Text) (found : Option StreamSource) {m : Sources}
    → IsValid m
    → IsValid (live_source now token m found).1
unfolding live_source
live_source-IsValid now token none v = v
live_source-IsValid now token (some source) {m} v = elim (Bool-cases (expired now source)) [
  | inl e ↦ rw (e, live_source) (pop-IsValid token v)
  | inr e ↦ rw (e, live_source) v
]

serve_from-IsValid :
    (urlsplit : Text → Option UrlParts) (port : ℕ) (calls : List Call) {m : Sources}
    → IsValid m
    → IsValid (serve urlsplit port calls m)
unfolding serve
serve_from-IsValid urlsplit port [] v = v
serve_from-IsValid urlsplit port (proxy now token url ∷ calls) v =
    serve_from-IsValid urlsplit port calls (proxy_url-IsValid urlsplit port now token url v)
serve_from-IsValid urlsplit port (look now token ∷ calls) {m} v =
    serve_from-IsValid urlsplit port calls (live_source-IsValid now token (Dict.get m token) v)

-- After any calls of `proxy_url` and `get_source`, at any times and with any new tokens, from the
-- empty registry of a started process: at most 128 sources, each token once, and every size between
-- 1 and 2^40 bytes.
pub serve-IsValid :
    (urlsplit : Text → Option UrlParts) (port : ℕ) (calls : List Call)
    → IsValid (serve urlsplit port calls [])
serve-IsValid urlsplit port calls =
    serve_from-IsValid urlsplit port calls
      (record { bounded = omega arith; keys_once = tt; sized = tt })

-- ===== src/YoutubeStream/Sources/Lookup.antt =====
-- What `get_source` returns.
use relaytv.Prelude.{
  ℕ, ◌<◌, ◌≡◌, refl, false, Option, some, [], ◌∷◌, ◌++◌, arith, codes_eq, Text, Option-cases, inl,
  inr,
}
use relaytv.Prelude.Dict.{has_key-discard-false}
use relaytv.Prelude.Dict
use relaytv.YoutubeStream.Sources.{
  StreamSource, Sources, evict_oldest, move_to_end, find_url, register, expired, get_source,
  live_source, new_source,
}

-- The last entry is found unless its key stands earlier.
get-append_last :
    (m : Sources) (t : Text) (s : StreamSource)
    → Dict.has_key m t ≡ false
    → Dict.get (m ++ (t, s) ∷ []) t ≡ some s
unfolding Dict.has_key Dict.get
get-append_last [] t s h = ground (arith, codes_eq.beq_iff t t)
get-append_last ((i, w) ∷ m) t s h = ground (arith, get-append_last m t s)

put-new :
    (m : Sources) (t : Text) (s : StreamSource)
    → Dict.has_key m t ≡ false
    → Dict.put m t s ≡ m ++ (t, s) ∷ []
unfolding Dict.has_key Dict.put
put-new [] t s h = refl
put-new ((i, w) ∷ m) t s h = ground (arith, put-new m t s)

-- Eviction keeps the newest entry.
get-evict_oldest_last :
    (m : Sources) (t : Text) (s : StreamSource)
    → Dict.has_key m t ≡ false
    → Dict.get (evict_oldest (m ++ (t, s) ∷ [])) t ≡ some s
unfolding evict_oldest Dict.has_key Dict.get
get-evict_oldest_last [] t s h = ground (arith, codes_eq.beq_iff t t)
get-evict_oldest_last ((i, w) ∷ m) t s h =
    ground (arith, get-evict_oldest_last m t s, get-append_last m t s)

find_url-live :
    (url : Text) (now : ℕ) (m : Sources) {t : Text} {s : StreamSource}
    → find_url url (Dict.discard (expired now) m) ≡ some (t, s)
    → (s.url ≡ url) × (expired now s ≡ false)
unfolding find_url Dict.discard
find_url-live url now [] h = cc
find_url-live url now ((j, w) ∷ m) {t} {s} h =
    ground (arith, find_url-live url now m {t = t} {s = s}, codes_eq.beq_iff w.url url)

popped_key : (m : Sources) (t : Text) → Dict.has_key (Dict.pop m t) t ≡ false
popped_key m t = ground (arith, Dict.has_key-pop m t t, codes_eq.beq_iff t t)

-- A source of `url` that is alive.
abbrev pub Serves : ℕ → Text → Option StreamSource → Type 0
Serves now url found = (s : StreamSource) × (found ≡ some s) × (s.url ≡ url) × (now < s.expires_at)

get_source-Serves :
    (now : ℕ) (url t : Text) (m : Sources) (s : StreamSource)
    → Dict.get m t ≡ some s
    → expired now s ≡ false
    → s.url ≡ url
    → Serves now url (get_source now t m).0
unfolding get_source
get_source-Serves now url t m s found alive same =
    (s, rw (found, live_source, alive), same, unfold expired in ground arith)

-- The token that `register` gives a URL leads `get_source` at the same time to a source of that
-- URL that has not expired, also when the registry was full, where the new token stands for no
-- other source.
pub register-get_source :
    (now : ℕ) (token url : Text) (size : ℕ) (media_type : Text) (m : Sources)
    → Dict.has_key m token ≡ false
    → let (t, m') = register now token url (size, media_type) m in
      Serves now url (get_source now t m').0
unfolding register
register-get_source now token url size media_type m fresh =
    let live = Dict.discard (expired now) m in
    elim (Option-cases (find_url url live)) [
      | inl e ↦
          rw (e, register)
            (get_source-Serves now url token _ (new_source now url (size, media_type))
              (rw
                (put-new live token (new_source now url (size, media_type))
                  (has_key-discard-false (expired now) m token fresh))
                (get-evict_oldest_last live token _
                  (has_key-discard-false (expired now) m token fresh)))
              (unfold expired in ground arith) refl)
      | inr ((t, s), e) ↦
          rw (e, register)
            (get_source-Serves now url t _ s
              (unfold move_to_end in get-append_last (Dict.pop live t) t s (popped_key live t))
              (find_url-live url now m e).1 (find_url-live url now m e).0)
    ]

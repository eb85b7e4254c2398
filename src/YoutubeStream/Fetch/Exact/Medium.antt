-- ===== src/YoutubeStream/Fetch/Exact/Medium.antt =====
-- A stream has the bytes of the medium that its server has.
use native.Mathlib.Numerals.{unary_clauses}
use relaytv.Prelude.{
  ◌≤◌, ◌<◌, ℕ, zero, suc, ◌+◌, ◌-◌, min, ◌≡◌, refl, sym, ap, ◌∙◌, not, ◌||◌, true, some, List, [],
  ◌∷◌, ◌++◌, arith, Text, ltb, length, take, drop, inl, inr, Bool-cases, Option-cases, ◌==◌, subst,
}
use relaytv.YoutubeStream.Sources.{StreamSource}
use relaytv.YoutubeStream.Fetch.{
  Server, Response, ok, answered, check_response, range_header, expected_range, is_header,
  is_identity, fetch_chunk, stream_from, iter_stream, chunk_bytes,
}
use relaytv.YoutubeStream.Fetch.Exact.{total, Fetched-cases}

-- The bytes of the chunks, one after the other.
abbrev pub joined : List (List ℕ) → List ℕ
joined [] = []
joined (c ∷ cs) = c ++ joined cs

-- HTTP partial content (RFC 9110): the body of a 206 answer without a content coding, whose
-- `Content-Range` names a range of the medium, has the bytes of the medium from the first position
-- of that range on. It may break off or go on at any byte.
abbrev pub Honest : Server → StreamSource → List ℕ → Type 0
Honest server source medium =
    (n : ℕ) (url header : Text) (start last : ℕ) (r : Response)
    → start ≤ last
    → last < source.size
    → server n url header ≡ some r
    → (r.status == 206) ≡ true
    → is_header r.content_range (expected_range start last source.size) ≡ true
    → is_identity r.content_encoding ≡ true
    → (j : ℕ) × (r.body ≡ take j (drop start medium))

take-take :
    {A : Type 0} (n m : ℕ) (xs : List A)
    → take n (take m xs) ≡ take (length (take n (take m xs))) xs
take-take zero m xs = refl
take-take (suc n) zero xs = refl
take-take (suc n) (suc m) [] = refl
take-take (suc n) (suc m) (x ∷ xs) = ap (λ ys. x ∷ ys) (take-take n m xs)

none_more : (b : ℕ) → 0 + b ≡ b
none_more b = omega arith

one_more : (a b : ℕ) → suc a + b ≡ suc (a + b)
one_more a b = omega arith

take-add : {A : Type 0} (a b : ℕ) (xs : List A) → take (a + b) xs ≡ take a xs ++ take b (drop a xs)
take-add zero b xs = ap (λ n. take n xs) (none_more b)
take-add (suc a) zero [] = simp unary_clauses refl
take-add (suc a) (suc b) [] = simp unary_clauses refl
take-add (suc a) b (x ∷ xs) =
    ap (λ n. take n (x ∷ xs)) (one_more a b) ∙ ap (λ ys. x ∷ ys) (take-add a b xs)

drop-add : {A : Type 0} (a b : ℕ) (xs : List A) → drop (a + b) xs ≡ drop b (drop a xs)
drop-add zero b xs = ap (λ n. drop n xs) (none_more b)
drop-add (suc a) zero [] = simp unary_clauses refl
drop-add (suc a) (suc b) [] = simp unary_clauses refl
drop-add (suc a) b (x ∷ xs) = ap (λ n. drop n (x ∷ xs)) (one_more a b) ∙ drop-add a b xs

-- The chunks are bytes of the medium, one after the other, from a position on.
unfoldable pub IsPart : List ℕ → ℕ → List (List ℕ) → Type 0
IsPart medium start chunks = joined chunks ≡ take (total chunks) (drop start medium)

nil-IsPart : (medium : List ℕ) (start : ℕ) → IsPart medium start []
unfolding IsPart
nil-IsPart medium start = refl

cons-IsPart :
    (medium : List ℕ) (start : ℕ) (bytes : List ℕ) (chunks : List (List ℕ))
    → bytes ≡ take (length bytes) (drop start medium)
    → IsPart medium (start + length bytes) chunks
    → IsPart medium start (bytes ∷ chunks)
unfolding IsPart
cons-IsPart medium start bytes chunks h g =
    ap (λ b. b ++ joined chunks) h
    ∙ ap (λ c. take (length bytes) (drop start medium) ++ c) g
    ∙ ap (λ d. take (length bytes) (drop start medium) ++ take (total chunks) d)
        (drop-add start (length bytes) medium)
    ∙ sym (take-add (length bytes) (total chunks) (drop start medium))

module _ (server : Server) (source : StreamSource) (medium : List ℕ) where
  answered-part :
      (n : ℕ) (url header : Text) (start last : ℕ) {bytes : List ℕ}
      → start ≤ last
      → last < source.size
      → Honest server source medium
      → answered source start last (server n url header) ≡ ok bytes
      → bytes ≡ take (length bytes) (drop start medium)
  unfolding answered check_response
  answered-part n url header start last {bytes} a b honest h =
      elim (Option-cases (server n url header)) [
        | inl p ↦ let no_answer = rw p at h in absurd cc
        | inr (r, p) ↦
            let checked = rw p at h in
            let read = take (last + 2 - start) r.body in
            let refused =
              not (r.status == 206)
              || not (is_header r.content_range (expected_range start last source.size))
              || not (is_identity r.content_encoding) in
            elim (Bool-cases refused) [
              | inl bad ↦ let no = rw bad at checked in absurd cc
              | inr good ↦
                  let (j, body) =
                    honest n url header start last r a b p (ground arith) (ground arith)
                      (ground arith) in
                  let is : read ≡ bytes = ground arith in
                  subst (λ b. b ≡ take (length b) (drop start medium)) is
                    (subst
                      (λ whole.
                        take (last + 2 - start) whole
                        ≡ take (length (take (last + 2 - start) whole)) (drop start medium))
                      (sym body) (take-take (last + 2 - start) j (drop start medium)))
            ]
      ]

  stream_from-IsPart :
      (fuel n start end : ℕ)
      → end < source.size
      → Honest server source medium
      → IsPart medium start (stream_from server source fuel n start end).chunks
  unfolding stream_from fetch_chunk
  stream_from-IsPart zero n start end t honest = elim (Bool-cases (ltb end start)) [
    | inl e ↦ rw e (nil-IsPart medium start)
    | inr e ↦ rw e (nil-IsPart medium start)
  ]
  stream_from-IsPart (suc fuel) n start end t honest = elim (Bool-cases (ltb end start)) [
    | inl e ↦ rw (e, stream_from) (nil-IsPart medium start)
    | inr e ↦ elim (Fetched-cases (fetch_chunk server source n start end)) [
      | inr (x, p) ↦ rw (e, stream_from) (rw (p, stream_from) (nil-IsPart medium start))
      | inl (bytes, p) ↦
          let last = min end (start + chunk_bytes - 1) in
          let part =
            answered-part n source.url (range_header start last) start last (ground arith)
              (omega (arith, t)) honest p in
          rw (e, stream_from)
            (rw (p, stream_from)
              (cons-IsPart medium start bytes
                (stream_from server source fuel (suc n) (start + length bytes) end).chunks part
                (stream_from-IsPart fuel (suc n) (start + length bytes) end t honest)))
    ]
  ]

  -- From a server whose 206 answers have the bytes of the medium from the start of the range that
  -- they name, for a range that ends inside the medium and behind a first chunk that has those from `start` on: the chunks that are streamed,
  -- joined, are the bytes of the medium from `start` on, without a gap, a repetition or another byte.
  pub iter_stream-medium :
      (n start end : ℕ) (first : List ℕ)
      → end < source.size
      → Honest server source medium
      → first ≡ take (length first) (drop start medium)
      → IsPart medium start (iter_stream server source n start end first).chunks
  unfolding iter_stream
  iter_stream-medium n start end first t honest h =
      cons-IsPart medium start first
        (stream_from server source (end + 1 - start) n (start + length first) end).chunks h
        (stream_from-IsPart (end + 1 - start) n (start + length first) end t honest)

-- ===== src/YoutubeStream/Fetch/Exact.antt =====
-- A stream ends, with as many bytes as were asked for, whatever the server sends.
pub mod Medium
use relaytv.Prelude.{
  ℕ, zero, suc, ◌+◌, ◌-◌, ◌≤◌, ◌<◌, min, ◌≡◌, ◌≢◌, ◌⊎◌, refl, Option, none, some, List, [], ◌∷◌,
  arith, ltb, length, inl, inr, Bool-cases,
}
use relaytv.YoutubeStream.Sources.{StreamSource}
use relaytv.YoutubeStream.Fetch.{
  Server, Response, Fetched, ok, err, StreamError, finished, out_of_fuel, raised, Streamed,
  answered, range_header, fetch_chunk, stream_from, iter_stream, chunk_bytes, yielding, ended,
}

answered-ok :
    (source : StreamSource) (start end : ℕ) (r : Option Response) {bytes : List ℕ}
    → answered source start end r ≡ ok bytes
    → length bytes ≡ end + 1 - start
unfolding answered
answered-ok source start end none h = cc
answered-ok source start end (some r) h = ground arith

abbrev pub total : List (List ℕ) → ℕ
total [] = 0
total (c ∷ cs) = length c + total cs

abbrev pub AllWithin : ℕ → List (List ℕ) → Type 0
AllWithin n [] = Unit {0}
AllWithin n (c ∷ cs) = (length c ≤ n) × AllWithin n cs

module _ (server : Server) (source : StreamSource) where
  pub fetch_chunk-length :
      (n start end : ℕ) {bytes : List ℕ}
      → start ≤ end
      → fetch_chunk server source n start end ≡ ok bytes
      → (0 < length bytes) × (length bytes ≤ chunk_bytes) × (start + length bytes ≤ end + 1)
  unfolding fetch_chunk
  fetch_chunk-length n start end b h =
      let last = min end (start + chunk_bytes - 1) in
      let e = answered-ok source start last (server n source.url (range_header start last)) h in
      (omega arith, omega arith, omega arith)

-- What a stream of the bytes from `start` to `end` is held to: it ends; a finished stream has as many
-- bytes; it never has more; and no chunk is larger than the limit.
pub record IsExact (start end : ℕ) (s : Streamed) : Type 0 where
  pub ends : s.outcome ≢ out_of_fuel
  pub complete : s.outcome ≡ finished → start + total s.chunks ≡ end + 1
  pub never_over : start + total s.chunks ≤ end + 1
  pub small : AllWithin chunk_bytes s.chunks

ended-IsExact :
    (start end : ℕ) (e : StreamError) → start ≤ end + 1 → IsExact start end (ended (raised e))
ended-IsExact start end e b = record {
  ends = λ p. cc;
  complete = λ p. cc;
  never_over = omega arith;
  small = tt;
}

finished-IsExact : (start end : ℕ) → start ≡ end + 1 → IsExact start end (ended finished)
finished-IsExact start end b = record {
  ends = λ p. cc;
  complete = λ p. omega arith;
  never_over = omega arith;
  small = tt;
}

yielding-IsExact :
    (start end : ℕ) (bytes : List ℕ) {s : Streamed}
    → length bytes ≤ chunk_bytes
    → IsExact (start + length bytes) end s
    → IsExact start end (yielding bytes s)
yielding-IsExact start end bytes {s} b h = record {
  ends = h.ends;
  complete = λ p. omega (arith, h.complete p);
  never_over = omega (arith, h.never_over);
  small = (b, h.small);
}

pub Fetched-cases :
    (r : Fetched) → ((bytes : List ℕ) × (r ≡ ok bytes)) ⊎ ((e : StreamError) × (r ≡ err e))
Fetched-cases (ok bytes) = inl (bytes, refl)
Fetched-cases (err e) = inr (e, refl)

module _ (server : Server) (source : StreamSource) where
  stream_from-IsExact :
      (fuel n start end : ℕ)
      → start ≤ end + 1
      → end + 1 ≤ fuel + start
      → IsExact start end (stream_from server source fuel n start end)
  unfolding stream_from
  stream_from-IsExact zero n start end b f = elim (Bool-cases (ltb end start)) [
    | inl e ↦ rw e (finished-IsExact start end (omega arith))
    | inr e ↦ absurd (ground arith)
  ]
  stream_from-IsExact (suc fuel) n start end b f = elim (Bool-cases (ltb end start)) [
    | inl e ↦ rw (e, stream_from) (finished-IsExact start end (ground arith))
    | inr e ↦ elim (Fetched-cases (fetch_chunk server source n start end)) [
      | inr (x, p) ↦ rw (e, stream_from) (rw (p, stream_from) (ended-IsExact start end x b))
      | inl (bytes, p) ↦
          let q = fetch_chunk-length server source n start end (ground arith) p in
          rw (e, stream_from)
            (rw (p, stream_from)
              (yielding-IsExact start end bytes q.1 (
                stream_from-IsExact fuel (suc n) (start + length bytes) end (omega arith)
                  (omega arith))))
    ]
  ]

  -- Behind a first chunk that is not longer than the range or 1 MiB, the stream ends whatever the
  -- server answers: with an error, or with as many bytes as from `start` to `end`; it has never
  -- more than those, in chunks of at most 1 MiB.
  pub iter_stream-IsExact :
      (n start end : ℕ) (first : List ℕ)
      → length first ≤ chunk_bytes
      → start + length first ≤ end + 1
      → IsExact start end (iter_stream server source n start end first)
  unfolding iter_stream
  iter_stream-IsExact n start end first b c =
      yielding-IsExact start end first b
        (stream_from-IsExact (end + 1 - start) n (start + length first) end c (omega arith))

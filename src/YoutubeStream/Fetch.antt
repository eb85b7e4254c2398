-- ===== src/YoutubeStream/Fetch.antt =====
-- `fetch_chunk` and `iter_stream` of app/relaytv_app/youtube_stream.py. The media server is a
-- parameter: its answer to the `n`-th request of the process, for a URL and a `Range` header, or
-- `none` where opening or reading raises.
pub mod Exact
use relaytv.Prelude.{
  ℕ, zero, suc, ◌+◌, ◌-◌, ◌*◌, min, Bool, true, false, not, ◌||◌, Option, none, some, List, [], ◌∷◌,
  ◌++◌, ltb, ◌==◌, ◌≟◌, if◌then◌else◌, length, take, codes_beq, codes_eq, Text, codes,
}
use relaytv.Prelude.Decimal.{show}
use relaytv.YoutubeStream.Sources.{StreamSource}

abbrev pub chunk_bytes : ℕ
chunk_bytes = 1024 * 1024

-- The messages of `StreamProxyError`.
pub data StreamError : Type 0 where
  invalid_range incomplete_range download_failed : StreamError

pub data Fetched : Type 0 where
  ok : List ℕ → Fetched
  err : StreamError → Fetched

pub record Response : Type 0 where
  pub status : ℕ
  pub content_range : Option Text
  pub content_encoding : Option Text
  pub body : List ℕ

abbrev pub Server : Type 0
Server = ℕ → Text → Text → Option Response

unfoldable pub range_header : ℕ → ℕ → Text
range_header start end = codes "bytes=" ++ (show start ++ (codes "-" ++ show end))

unfoldable pub expected_range : ℕ → ℕ → ℕ → Text
expected_range start end size =
    codes "bytes " ++ (show start ++ (codes "-" ++ (show end ++ (codes "/" ++ show size))))

-- `headers.get(name) != value`, and the same with the default "identity".
unfoldable pub is_header : Option Text → Text → Bool
unfolding codes_beq
is_header none value = false
is_header (some header) value = header ≟ value

unfoldable pub is_identity : Option Text → Bool
unfolding is_header
is_identity none = true
is_identity (some header) = is_header (some header) (codes "identity")

-- `read(n)` hands over at most `n` bytes of the body.
unfoldable pub check_response : StreamSource → ℕ → ℕ → Response → Fetched
unfolding is_header is_identity expected_range
check_response source start end response =
    if not (response.status == 206)
      || not (is_header response.content_range (expected_range start end source.size))
      || not (is_identity response.content_encoding)
    then err invalid_range
    else (let bytes = take (end + 2 - start) response.body in
        if length bytes == end + 1 - start then ok bytes else err incomplete_range)

unfoldable pub answered : StreamSource → ℕ → ℕ → Option Response → Fetched
unfolding check_response
answered source start end none = err download_failed
answered source start end (some response) = check_response source start end response

module _ (server : Server) (source : StreamSource) where
  unfoldable pub fetch_chunk : ℕ → ℕ → ℕ → Fetched
  unfolding answered range_header
  fetch_chunk n start end =
      let last = min end (start + chunk_bytes - 1) in
      answered source start last (server n source.url (range_header start last))

-- How the generator ends.
pub data Outcome : Type 0 where
  finished out_of_fuel : Outcome
  raised : StreamError → Outcome

pub record Streamed : Type 0 where
  pub chunks : List (List ℕ)
  pub outcome : Outcome

abbrev pub ended : Outcome → Streamed
ended o = record { chunks = []; outcome = o }

abbrev pub yielding : List ℕ → Streamed → Streamed
yielding bytes s = record { chunks = bytes ∷ s.chunks; outcome = s.outcome }

module _ (server : Server) (source : StreamSource) where
  -- The `while` loop, from the `n`-th request on; each round fetches a byte at least.
  unfoldable pub stream_from : ℕ → ℕ → ℕ → ℕ → Streamed
  stream_from zero n start end = if ltb end start then ended finished else ended out_of_fuel
  stream_from (suc fuel) n start end = elim (ltb end start) [
    | true ↦ ended finished
    | false ↦ elim (fetch_chunk server source n start end) [
      | err e ↦ ended (raised e)
      | ok bytes ↦ yielding bytes (stream_from fuel (suc n) (start + length bytes) end)
    ]
  ]

  unfoldable pub iter_stream : ℕ → ℕ → ℕ → List ℕ → Streamed
  unfolding stream_from
  iter_stream n start end first =
      yielding first (stream_from (end + 1 - start) n (start + length first) end)

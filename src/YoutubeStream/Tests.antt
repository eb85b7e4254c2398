-- ===== src/YoutubeStream/Tests.antt =====
-- Runs of the stream's operations, and the theorems at concrete sources.
use relaytv.Prelude.{codes_eq}
use relaytv.Prelude.{
  ℕ, zero, suc, ◌≤◌, ◌<◌, subst, sym, take, drop, true, ◌≡◌, refl, false, Option, none, some, List,
  [], ◌∷◌, arith, Text, codes, length,
}
use relaytv.Prelude.Dict
use relaytv.YoutubeStream.Range.{byte_range}
use relaytv.YoutubeStream.Range.Bounds.{Within, byte_range-Within}
use relaytv.YoutubeStream.Sources.{
  StreamSource, UrlParts, Call, proxy, look, serve, register, get_source,
}
use relaytv.YoutubeStream.Sources.Invariant.{IsValid, serve-IsValid}
use relaytv.YoutubeStream.Sources.Lookup.{Serves, register-get_source}
use relaytv.YoutubeStream.Fetch.{Server, Response, iter_stream, is_header, expected_range, finished}
use relaytv.YoutubeStream.Fetch.Exact.Medium.{Honest, IsPart, iter_stream-medium}
use relaytv.YoutubeStream.Fetch.Exact.{IsExact, iter_stream-IsExact}

abbrev media : StreamSource
media = record {
  url = codes "https://r1.googlevideo.com/videoplayback";
  size = 10;
  media_type = codes "video/mp4";
  expires_at = 1000;
}

tail_range : byte_range (some (codes " bytes=-3")) 10 ≡ some (7, 9)
unfolding byte_range
tail_range = refl

range_past_end : byte_range (some (codes "bytes=2-99")) 10 ≡ some (2, 9)
unfolding byte_range
range_past_end = refl

reversed_range : byte_range (some (codes "bytes=5-4")) 10 ≡ none
unfolding byte_range
reversed_range = refl

byte_range-Within_example : Within 10 (7, 9)
byte_range-Within_example = byte_range-Within (some (codes " bytes=-3")) 10 (omega arith) tail_range

-- `urlsplit` of a medium of 10 bytes, whatever the URL.
abbrev split_media : Text → Option UrlParts
split_media url = some (record {
  scheme = codes "https";
  hostname = codes "r1.googlevideo.com";
  port = none;
  username = none;
  password = none;
  path = codes "/videoplayback";
  mime = codes "video/mp4" ∷ [];
  clen = some 10 ∷ [];
})

abbrev calls : List Call
calls = proxy 5 (codes "t1") (some media.url) ∷ look 6 (codes "t1") ∷ []

serve-IsValid_example : IsValid (serve split_media 8787 calls [])
serve-IsValid_example = serve-IsValid split_media 8787 calls

served : length (serve split_media 8787 calls []) ≡ 1
unfolding serve Dict.get Dict.discard Dict.put
served = refl

fresh_token : Dict.has_key ((codes "t1", media) ∷ []) (codes "t2") ≡ false
unfolding Dict.has_key relaytv.Prelude.codes_beq
fresh_token = refl

register-get_source_example :
    let (t, m') =
      register 2000 (codes "t2") (codes "u") (10, codes "video/mp4") ((codes "t1", media) ∷ []) in
    Serves 2000 (codes "u") (get_source 2000 t m').0
register-get_source_example =
    register-get_source 2000 (codes "t2") (codes "u") 10 (codes "video/mp4")
      ((codes "t1", media) ∷ []) fresh_token

-- A server that sends the last seven bytes, and then nothing.
abbrev one_answer : Server
one_answer n url header = some (record {
  status = 206;
  content_range = some (codes "bytes 3-9/10");
  content_encoding = none;
  body = 3 ∷ 4 ∷ 5 ∷ 6 ∷ 7 ∷ 8 ∷ 9 ∷ [];
})

iter_stream-IsExact_example : IsExact 0 9 (iter_stream one_answer media 1 0 9 (0 ∷ 1 ∷ 2 ∷ []))
iter_stream-IsExact_example =
    iter_stream-IsExact one_answer media 1 0 9 (0 ∷ 1 ∷ 2 ∷ []) (omega arith) (omega arith)

abbrev two_bytes : StreamSource
two_bytes = record { url = []; size = 2; media_type = codes "video/mp4"; expires_at = 1000 }

abbrev last_byte : Response
last_byte = record {
  status = 206;
  content_range = some (codes "bytes 1-1/2");
  content_encoding = none;
  body = 8 ∷ [];
}

-- A server that has a medium of two bytes, and sends the second.
abbrev half_server : Server
half_server n url header = some last_byte

last_byte-part :
    (start last : ℕ)
    → start ≤ last
    → last < 2
    → is_header (some (codes "bytes 1-1/2")) (expected_range start last 2) ≡ true
    → (j : ℕ) × (last_byte.body ≡ take j (drop start (7 ∷ 8 ∷ [])))
unfolding is_header expected_range relaytv.Prelude.codes_beq relaytv.Prelude.Decimal.show
last_byte-part zero last a b h = absurd cc
last_byte-part (suc zero) last a b h = (1, refl)
last_byte-part (suc (suc start)) last a b h = absurd (omega (arith, a, b))

half_server-Honest : Honest half_server two_bytes (7 ∷ 8 ∷ [])
half_server-Honest n url header start last r a b p s h i =
    let e : last_byte ≡ r = cc in
    subst (λ (r : Response). (j : ℕ) × (r.body ≡ take j (drop start (7 ∷ 8 ∷ [])))) e
      (last_byte-part start last a b (
        subst (λ (r : Response). is_header r.content_range (expected_range start last 2) ≡ true)
          (sym e) h))

iter_stream-medium_example :
    IsPart (7 ∷ 8 ∷ []) 0 (iter_stream half_server two_bytes 1 0 1 (7 ∷ [])).chunks
iter_stream-medium_example =
    iter_stream-medium half_server two_bytes (7 ∷ 8 ∷ []) 1 0 1 (7 ∷ []) (omega arith)
      half_server-Honest refl

two_chunks :
    iter_stream half_server two_bytes 1 0 1 (7 ∷ [])
    ≡ record { chunks = (7 ∷ []) ∷ (8 ∷ []) ∷ []; outcome = finished }
unfolding iter_stream relaytv.Prelude.codes_beq relaytv.Prelude.Decimal.show
    relaytv.YoutubeStream.Fetch.fetch_chunk
two_chunks = refl

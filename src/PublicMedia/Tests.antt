-- ===== src/PublicMedia/Tests.antt =====
-- A public copy of a concrete item.
use relaytv.Prelude.{◌≡◌, refl, none, some, Option, List, [], ◌∷◌, ◌++◌, codes, Text, if◌then◌else◌}
use relaytv.UrlBoundary.{SplitResult, has_colon}
use relaytv.Prelude.Value.{text, Fields}
use relaytv.PublicMedia.{Urls, public_media_item}
use relaytv.PublicMedia.Safe.{Safe}

-- The parts of the one URL of the item; another text has no authority.
abbrev split_url : Text → Option SplitResult
split_url s = some (record {
  scheme = if has_colon s then codes "https" else [];
  netloc = if has_colon s then codes "user:pw@host" else [];
  path = codes "/a";
  query = codes "token=s&v=2";
  fragment = [];
  port = none;
  hostname = some (codes "host");
  username = some (codes "user");
  password = some (codes "pw");
})

abbrev keys_of : List (Text × Text) → Text
keys_of [] = []
keys_of ((key, value) ∷ query) = key ++ (codes "=" ++ (value ++ keys_of query))

abbrev urls : Urls
urls = record {
  urlsplit = split_url;
  parse_qsl = λ s. (codes "Token", codes "s") ∷ (codes "v", codes "2") ∷ [];
  urlencode = keys_of;
  urlunsplit = λ scheme netloc path query.
      scheme ++ (codes "://" ++ (netloc ++ (path ++ (codes "?" ++ query))));
}

abbrev item : Fields
item =
    (codes "title", text (codes "A"))
    ∷ (codes " Token", text (codes "secret"))
    ∷ (codes "url", text (codes "https://user:pw@host/a?token=s&v=2"))
    ∷ []

redacted :
    public_media_item urls item
    ≡ (codes "title", text (codes "A")) ∷ (codes "url", text (codes "https://host/a?v=2")) ∷ []
unfolding public_media_item relaytv.Prelude.codes_beq relaytv.Prelude.lower relaytv.Prelude.strip
    relaytv.Prelude.Value.or_empty relaytv.Prelude.Dict.get relaytv.UrlBoundary.parse_url
redacted = refl

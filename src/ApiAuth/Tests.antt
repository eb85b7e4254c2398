-- ===== src/ApiAuth/Tests.antt =====
-- The guard at concrete requests.
use relaytv.Prelude.{◌≡◌, ◌↔◌, refl, true, false, Option, none, some, Text, codes}
use relaytv.UrlBoundary.{SplitResult}
use relaytv.ApiAuth.{write_request_allowed, cross_site_mutating_get}
use relaytv.ApiAuth.Guard.{Permitted, write_request_allowed-Permitted}

abbrev secret : Option Text
secret = some (codes " s3cret ")

wrong_token :
    write_request_allowed secret (codes "POST") (some (codes "Bearer other")) (codes "/play")
    ≡ false
unfolding write_request_allowed relaytv.Prelude.strip relaytv.Prelude.contains
    relaytv.Prelude.codes_beq relaytv.Prelude.upper relaytv.Prelude.lower
wrong_token = refl

write_request_allowed-Permitted_example :
    (write_request_allowed secret (codes "GET") (some (codes "bearer s3cret")) (codes "/snapshot/")
      ≡ true)
    ↔ Permitted secret (codes "GET") (some (codes "bearer s3cret")) (codes "/snapshot/")
write_request_allowed-Permitted_example =
    write_request_allowed-Permitted secret (codes "GET") (some (codes "bearer s3cret"))
      (codes "/snapshot/")

abbrev no_split : Text → Option SplitResult
no_split url = none

forged :
    cross_site_mutating_get no_split
      (codes "get")
      (codes "/snapshot")
      (some (codes "cross-site"))
      none
      none
    ≡ true
unfolding cross_site_mutating_get relaytv.Prelude.codes_beq relaytv.Prelude.upper
    relaytv.Prelude.strip relaytv.Prelude.contains relaytv.ApiAuth.normalized_path
    relaytv.Prelude.lower
forged = refl

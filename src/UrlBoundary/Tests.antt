-- ===== src/UrlBoundary/Tests.antt =====
-- The boundary at concrete hosts.
use relaytv.Prelude.{◌≡◌, ◌↔◌, refl, true, false, codes}
use relaytv.UrlBoundary.{host_matches, normal_host}
use relaytv.UrlBoundary.Dots.{Matches, host_matches-Matches}

lookalike : host_matches (codes "evilrumble.com") (codes "rumble.com") ≡ false
unfolding host_matches relaytv.UrlBoundary.rstrip_dots relaytv.Prelude.lower relaytv.Prelude.strip
    relaytv.Prelude.codes_beq
lookalike = refl

host_matches-Matches_example :
    (host_matches (codes "WWW.rumble.com.") (codes "rumble.com") ≡ true)
    ↔ Matches (normal_host (codes "WWW.rumble.com.")) (normal_host (codes "rumble.com"))
host_matches-Matches_example = host_matches-Matches (codes "WWW.rumble.com.") (codes "rumble.com")

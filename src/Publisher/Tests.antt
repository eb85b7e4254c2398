-- ===== src/Publisher/Tests.antt =====
-- The theorem of the publisher at a concrete history.
use relaytv.Prelude.{ℕ, ◌≡◌, refl, List, [], ◌∷◌, codes, some}
use relaytv.Publisher.{stored, refused}
use relaytv.Publisher.Newest.{
  Event, taking, publishing, Settled, happen_all, started, happen_all-newest,
}

-- The second snapshot lands first.
abbrev race : List (Event ℕ)
race =
    taking 10
    ∷ taking 20
    ∷ taking 30
    ∷ publishing 2 stored
    ∷ publishing 1 stored
    ∷ publishing 3 (refused 7 (codes "OSError: disk full"))
    ∷ []

race_end : (happen_all race (started (some 5))).publisher.file ≡ some 20
unfolding happen_all relaytv.Publisher.Newest.happen relaytv.Publisher.Newest.snapshot
    relaytv.Publisher.Newest.take_snapshot relaytv.Publisher.Newest.publish_snapshot
    relaytv.Publisher.publish relaytv.Publisher.reserve
race_end = refl

happen_all-newest_example : Settled (some 5) (happen_all race (started (some 5)))
happen_all-newest_example = happen_all-newest (some 5) race

-- ===== src/DeviceIdentity/Tests.antt =====
-- The id of a concrete install.
use relaytv.Prelude.{◌≡◌, refl, none, [], codes}
use relaytv.DeviceIdentity.{Identity, normalize_device_id}
use relaytv.DeviceIdentity.Stable.{Stays, device_id-Stays}

abbrev fresh : Identity
fresh = record { cached = []; file = none }

drawn-normal : normalize_device_id (codes "0a1b") ≡ codes "0a1b"
unfolding normalize_device_id relaytv.Prelude.strip
drawn-normal = refl

device_id-Stays_example : Stays [] (codes "0a1b") (codes "ffff") fresh
device_id-Stays_example =
    device_id-Stays [] (codes "0a1b") (codes "ffff") fresh refl drawn-normal refl

-- ===== src/DeviceIdentity/Stable.antt =====
-- The id of an install stays.
use relaytv.Prelude.{◌≡◌, Bool, true, false, arith, Text, is_empty}
use relaytv.DeviceIdentity.{
  normalize_device_id, Identity, read_persisted_id, write_persisted_id, first_id, device_id,
  restart,
}

-- What an id that was once given stays equal to: the next answer of the same process, and that of
-- the next process.
pub record Stays (override generated later : Text) (s : Identity) : Type 0 where
  pub in_process :
      (first writable : Bool)
      → (device_id override writable later (device_id override first generated s).1).0
        ≡ (device_id override first generated s).0
  pub after_restart :
      (writable : Bool)
      → (device_id override writable later (restart (device_id override true generated s).1)).0
        ≡ (device_id override true generated s).0

-- From a process that has cached no id yet, where a drawn id is not empty and is its own normal form:
-- the id that is given stays the same in the process, whether it can be written or not; and where a
-- new id can be written when it is drawn, it stays the same after a restart, whatever would be drawn
-- later.
pub device_id-Stays :
    (override generated later : Text) (s : Identity)
    → is_empty generated ≡ false
    → normalize_device_id generated ≡ generated
    → is_empty s.cached ≡ true
    → Stays override generated later s
unfolding device_id first_id read_persisted_id write_persisted_id
device_id-Stays override generated later s some_text normal fresh = record {
  in_process = λ first writable. ground (arith, some_text, normal, fresh);
  after_restart = λ writable. ground (arith, some_text, normal, fresh);
}

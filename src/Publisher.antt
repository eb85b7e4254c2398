-- ===== src/Publisher.antt =====
-- `_Publisher` of app/relaytv_app/state.py and the health record of its writes. A payload is a
-- parameter; `_atomic_write_json` replaces the whole file or leaves it, and the outcome of each call,
-- with the text of its error, is an argument.
pub mod Newest
mod Tests
use relaytv.Prelude.{
  ℕ, suc, ◌+◌, Bool, true, false, Option, none, some, List, [], ◌∷◌, ltb, leb, ◌==◌, if◌then◌else◌,
  length, Text, take,
}

-- `_WRITE_FAILURES[name]`, where the last write failed.
pub record Failure : Type 0 where
  pub count : ℕ
  pub last_error : Text
  pub last_unix : ℕ

pub record Publisher (A : Type 0) : Type 0 where
  pub version : ℕ
  pub written : ℕ
  pub file : Option A
  pub failing : Option Failure

-- How a call of `_atomic_write_json` ends: the time and the text of its error are kept.
pub data Outcome : Type 0 where
  stored : Outcome
  refused : ℕ → Text → Outcome

abbrev pub failure_count : Option Failure → ℕ
failure_count none = 0
failure_count (some f) = f.count

unfoldable pub record_write_failure : ℕ → Text → Option Failure → Failure
record_write_failure now error failing = record {
  count = failure_count failing + 1;
  last_error = take 200 error;
  last_unix = now;
}

module _ {A : Type 0} where
  unfoldable pub reserve : Publisher A → ℕ × Publisher A
  reserve p = (suc p.version, record p { version = suc p.version })

  -- The second half of `publish`, under the write lock.
  unfoldable pub write : ℕ → A → Outcome → Publisher A → Bool × Publisher A
  unfolding record_write_failure
  write version payload stored p = (
    true,
    record p {
      file = some payload;
      failing = none;
      written = if ltb p.written version then version else p.written;
    },
  )
  write version payload (refused now error) p =
      (false, record p { failing = some (record_write_failure now error p.failing) })

  unfoldable pub publish : ℕ → A → Outcome → Publisher A → Bool × Publisher A
  unfolding write
  publish version payload outcome p =
      if leb version p.written then (false, p) else write version payload outcome p

  unfoldable pub superseded : ℕ → Publisher A → Bool
  superseded version p = leb version p.written

-- `persistence_health()["ok"]` of this file.
abbrev pub is_healthy : {A : Type 0} → Publisher A → Bool
is_healthy p = elim p.failing [ none ↦ true | some f ↦ false ]

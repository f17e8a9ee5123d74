-- ===== src/KeyServer/Time.antt =====
-- crates/key-server/src/time.rs: durations, in milliseconds. The clock is a parameter, and so is
-- whether the build checks machine arithmetic for overflow.
pub mod Bounds
use seal.Base.{
  ℕ, ◌+◌, ◌-◌, ◌*◌, ◌%◌, ◌^◌, Bool, true, false, ◌&&◌, Option, none, some, leb, if◌then◌else◌, ok,
  panic, ltb,
}
use seal.KeyServer.Errors.{Answer}

-- How long ago, and whether it is in the past.
unfoldable pub duration_since : ℕ → ℕ → ℕ × Bool
duration_since now offset = if leb offset now then (now - offset, true) else (offset - now, false)

unfoldable pub checked_duration_since : ℕ → ℕ → Option ℕ
checked_duration_since now offset = of_pair (duration_since now offset)
  where
    of_pair : ℕ × Bool → Option ℕ
    of_pair (duration, true) = some duration
    of_pair (duration, false) = none

-- The product is taken in 16 bits, before the cast.
unfoldable pub from_mins : Bool → ℕ → Answer ℕ
from_mins overflow_checks mins =
    if overflow_checks && leb (2 ^ 16) (mins * 60)
    then panic
    else ok (((mins * 60) % 2 ^ 16) * 1000)

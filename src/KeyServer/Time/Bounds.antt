-- ===== src/KeyServer/Time/Bounds.antt =====
-- What the durations are, and up to where.
use seal.Base.{
  ◌%◌, leb, Bool-cases, inl, inr, ap, true, false, ℕ, ◌+◌, ◌*◌, ◌≤◌, ◌<◌, ◌^◌, ◌≡◌, ◌↔◌, Bool, some,
  ok, ok-injective, arith,
}
use seal.KeyServer.Errors.{Answer}
use seal.KeyServer.Time.{checked_duration_since, duration_since, from_mins}

-- A duration since an instant is there exactly when the instant is not in the future, and it leads
-- from the instant to now.
pub checked_duration_since_iff :
    (now offset duration : ℕ)
    → (checked_duration_since now offset ≡ some duration) ↔ (offset + duration ≡ now)
unfolding checked_duration_since duration_since
checked_duration_since_iff now offset duration = ground arith

-- A number of minutes of 16 bits becomes a duration of as many minutes exactly when it is at most
-- 1092, whether the build checks for overflow or not.
pub from_mins_iff :
    (overflow_checks : Bool) (mins : ℕ)
    → mins < 2 ^ 16
    → (from_mins overflow_checks mins ≡ ok (mins * 60 * 1000)) ↔ (mins ≤ 1092)
unfolding from_mins
from_mins_iff false mins fits = (
  λ h. omega (arith, fits, ok-injective ((mins * 60) % 2 ^ 16 * 1000) (mins * 60 * 1000) h),
  λ h. ap {A = ℕ} {B = Answer ℕ} (λ n. ok n) (omega (arith, h)),
)
from_mins_iff true mins fits = elim (Bool-cases (leb (2 ^ 16) (mins * 60))) [
  | inl over ↦ rw over ((λ h. cc), λ h. absurd (ground (arith, over, h)))
  | inr within ↦
      rw within
        (λ h. ground (arith, within), λ h. ap {A = ℕ} {B = Answer ℕ} (λ n. ok n) (omega (arith, h)))
]

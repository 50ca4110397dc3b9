-- ===== src/Time.antt =====
-- crates/maybenot/src/time.rs, at the implementation for `std::time`: an instant and a duration are
-- counts of nanoseconds.
use maybenot.Prelude.{ℕ, ◌-◌, ◌*◌, Bool, ◌==◌, min}
use maybenot.Platform.{F64, Floats}

-- Zero where `earlier` is later.
abbrev pub saturating_duration_since : ℕ → ℕ → ℕ
saturating_duration_since now earlier = now - earlier

abbrev pub zero_duration : ℕ
zero_duration = 0

abbrev pub from_micros : ℕ → ℕ
from_micros micros = micros * 1000

abbrev pub is_zero : ℕ → Bool
is_zero d = d == 0

module _ ⦃fl : Floats⦄ where
  abbrev pub div_duration : ℕ → ℕ → F64
  div_duration d rhs = fl.div64 (fl.as_secs d) (fl.as_secs rhs)

-- `Duration::MAX` of the standard library.
abbrev pub duration_max : ℕ
duration_max = 18_446_744_073_709_551_615_999_999_999

-- `Instant::duration_since` of the standard library: zero where the other is later. No two instants
-- are further apart than the greatest duration.
abbrev pub duration_since : ℕ → ℕ → ℕ
duration_since t earlier = min (t - earlier) duration_max

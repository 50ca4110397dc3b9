-- ===== src/Platform.antt =====
-- What the code takes from outside the repository: the floating-point unit, and the crates rand and
-- rand_distr. An f64 or f32 is carried as its bit pattern, a number, and its operations are given.
use maybenot.Prelude.{ℕ, ◌≤◌, ◌<◌, ◌≡◌, Bool, true}
use maybenot.Constants.{u64_mod, max_sampled_timeout}

abbrev pub F64 : Type 0
F64 = ℕ

abbrev pub F32 : Type 0
F32 = ℕ

-- The bit patterns of the literals in the source: 0.0, 1.0 and `f64::MAX`.
abbrev pub zero64 : F64
zero64 = 0

abbrev pub one64 : F64
one64 = 0x3ff0_0000_0000_0000

abbrev pub biggest64 : F64
biggest64 = 0x7fef_ffff_ffff_ffff

abbrev pub zero32 : F32
zero32 = 0

abbrev pub one32 : F32
one32 = 0x3f80_0000

-- The constructors of rand and rand_distr that the code calls, with the arguments in the order in
-- which those crates take them. The last two draw an integer.
pub data RandDistr : Type 0 where
  uniform normal log_normal pareto weibull gamma beta : F64 → F64 → RandDistr
  skew_normal : F64 → F64 → F64 → RandDistr
  poisson : F64 → RandDistr

pub data RandCount : Type 0 where
  binomial : ℕ → F64 → RandCount
  geometric : F64 → RandCount

-- The operations, and below them the documented behaviour that the proofs rely on.
pub record Floats : Type 0 where
  -- f64
  pub lt64 : F64 → F64 → Bool
  pub le64 : F64 → F64 → Bool
  pub eq64 : F64 → F64 → Bool
  pub add64 : F64 → F64 → F64
  pub div64 : F64 → F64 → F64
  pub mul64 : F64 → F64 → F64
  pub min64 : F64 → F64 → F64
  pub max64 : F64 → F64 → F64
  pub round64 : F64 → F64
  -- `as u64`, and `as f64` from a u64
  pub to_u64 : F64 → ℕ
  pub of_u64 : ℕ → F64
  -- `as_secs_f64` of a duration in nanoseconds
  pub as_secs : ℕ → F64
  -- f32
  -- `as f32`
  pub to_f32 : F64 → F32
  pub lt32 : F32 → F32 → Bool
  pub le32 : F32 → F32 → Bool
  pub add32 : F32 → F32 → F32
  -- whether the constructor accepts its arguments
  pub accepts : RandDistr → Bool
  pub accepts_count : RandCount → Bool
  -- `max` and `min` return the other argument if one is a NaN.
  pub max_zero : (x : F64) → le64 zero64 (max64 zero64 x) ≡ true
  pub min_zero :
      (x c : F64) → le64 zero64 x ≡ true → lt64 zero64 c ≡ true → le64 zero64 (min64 x c) ≡ true
  pub min_le : (x c : F64) → lt64 zero64 c ≡ true → le64 (min64 x c) c ≡ true
  -- Rounding and the conversion to u64 are monotone, and the conversion saturates.
  pub round_mono : (x y : F64) → le64 x y ≡ true → le64 (round64 x) (round64 y) ≡ true
  pub to_u64_mono : (x y : F64) → le64 x y ≡ true → to_u64 x ≤ to_u64 y
  pub to_u64_lt : (x : F64) → to_u64 x < u64_mod
  -- The number of microseconds in a day is positive, and exact in an f64.
  pub day_positive : lt64 zero64 max_sampled_timeout ≡ true
  pub day_exact : to_u64 (round64 max_sampled_timeout) ≡ 86_400_000_000

-- A source of randomness whose state is `R`.
pub record Rng (R : Type 0) : Type 0 where
  pub draw : RandDistr → R → F64 × R
  pub draw_count : RandCount → R → ℕ × R
  -- `gen_range(0.0..1.0)` at f32
  pub gen_unit : R → F32 × R

-- ===== src/Dist.antt =====
-- crates/maybenot/src/dist.rs: the types and the validation. Sampling is the child's.
use maybenot.Prelude.{ℕ, Bool, true, false, not, Outcome, ok, err, reject_if}
use maybenot.Errors.{Error, Reason}
use maybenot.Platform.{F64, RandDistr, RandCount, Floats, zero64, biggest64}
pub mod Checked
pub mod Sample
pub mod Draws

pub data DistType : Type 0 where
  -- low, high
  uniform : F64 → F64 → DistType
  -- mean, stdev
  normal : F64 → F64 → DistType
  -- location, scale, shape
  skew_normal : F64 → F64 → F64 → DistType
  -- mu, sigma
  log_normal : F64 → F64 → DistType
  -- trials, probability
  binomial : ℕ → F64 → DistType
  -- probability
  geometric : F64 → DistType
  -- scale, shape
  pareto : F64 → F64 → DistType
  -- lambda
  poisson : F64 → DistType
  -- scale, shape
  weibull : F64 → F64 → DistType
  -- scale, shape
  gamma : F64 → F64 → DistType
  -- alpha, beta
  beta : F64 → F64 → DistType

pub record Dist : Type 0 where
  pub dist : DistType
  pub start : F64
  pub max : F64

abbrev pub new : DistType → F64 → F64 → Dist
new dist start max = record { dist = dist; start = start; max = max }

-- `Default`
abbrev pub default : Dist
default = new (DistType.uniform biggest64 biggest64) zero64 zero64

module _ ⦃fl : Floats⦄ where
  -- `X::new(..).map_err(..)?`
  abbrev pub construct : RandDistr → ℕ → Outcome (Unit {0})
  construct d kind = reject_if (not (fl.accepts d)) (Error.machine (Reason.rand_distr kind))

  abbrev pub construct_count : RandCount → ℕ → Outcome (Unit {0})
  construct_count d kind =
      reject_if (not (fl.accepts_count d)) (Error.machine (Reason.rand_distr kind))

  validate_type : DistType → Outcome (Unit {0})
  validate_type (DistType.uniform low high) =
      reject_if (fl.lt64 high low) (Error.machine Reason.uniform_low_above_high)
  validate_type (DistType.normal mean stdev) = construct (RandDistr.normal mean stdev) 1
  validate_type (DistType.skew_normal location scale shape) =
      construct (RandDistr.skew_normal location scale shape) 2
  validate_type (DistType.log_normal mu sigma) = construct (RandDistr.log_normal mu sigma) 3
  validate_type (DistType.binomial trials probability) =
      construct_count (RandCount.binomial trials probability) 4
  validate_type (DistType.geometric probability) =
      construct_count (RandCount.geometric probability) 5
  validate_type (DistType.pareto scale shape) = construct (RandDistr.pareto scale shape) 6
  validate_type (DistType.poisson lambda) = construct (RandDistr.poisson lambda) 7
  validate_type (DistType.weibull scale shape) = construct (RandDistr.weibull scale shape) 8
  -- the crate takes the shape first
  validate_type (DistType.gamma scale shape) = construct (RandDistr.gamma shape scale) 9
  validate_type (DistType.beta alpha b) = construct (RandDistr.beta alpha b) 10

  unfoldable pub validate : Dist → Outcome (Unit {0})
  unfolding validate_type
  validate d = validate_type d.dist

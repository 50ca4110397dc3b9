-- ===== src/Dist/Checked.antt =====
-- crates/maybenot/src/dist.rs: the validation of a distribution does not panic.
use maybenot.Prelude.{Passes, reject_if-Passes}
use maybenot.Platform.{Floats}
use maybenot.Dist.{Dist, DistType, validate_type, validate}

module _ ⦃fl : Floats⦄ where
  validate_type-Passes : (d : DistType) → Passes (validate_type d)
  unfolding validate_type
  validate_type-Passes (DistType.uniform low high) = reject_if-Passes _ _
  validate_type-Passes (DistType.normal mean stdev) = reject_if-Passes _ _
  validate_type-Passes (DistType.skew_normal location scale shape) = reject_if-Passes _ _
  validate_type-Passes (DistType.log_normal mu sigma) = reject_if-Passes _ _
  validate_type-Passes (DistType.binomial trials probability) = reject_if-Passes _ _
  validate_type-Passes (DistType.geometric probability) = reject_if-Passes _ _
  validate_type-Passes (DistType.pareto scale shape) = reject_if-Passes _ _
  validate_type-Passes (DistType.poisson lambda) = reject_if-Passes _ _
  validate_type-Passes (DistType.weibull scale shape) = reject_if-Passes _ _
  validate_type-Passes (DistType.gamma scale shape) = reject_if-Passes _ _
  validate_type-Passes (DistType.beta alpha b) = reject_if-Passes _ _

  pub validate-Passes : (d : Dist) → Passes (validate d)
  unfolding validate
  validate-Passes d = validate_type-Passes d.dist

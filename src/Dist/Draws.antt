-- ===== src/Dist/Draws.antt =====
-- crates/maybenot/src/dist.rs: when a distribution can be sampled, and in what range.
use maybenot.Prelude.{
  ◌≡◌, ◌⊎◌, Bool, true, ◌||◌, Option, none, some, ok, Returns, Returns-bind, arith,
}
use maybenot.Platform.{F64, RandDistr, RandCount, zero64, Floats, Rng}
use maybenot.Dist.{DistType, Dist, validate}
use maybenot.Dist.Sample.{dist_sample, sample}

module _ ⦃fl : Floats⦄ where
  -- Whether the distribution's constructor, if it is called, does not panic.
  unfoldable pub drawable : DistType → Bool
  drawable (DistType.uniform low high) = fl.eq64 low high || fl.accepts (RandDistr.uniform low high)
  drawable (DistType.normal x y) = fl.accepts (RandDistr.normal x y)
  drawable (DistType.skew_normal x y z) = fl.accepts (RandDistr.skew_normal x y z)
  drawable (DistType.log_normal x y) = fl.accepts (RandDistr.log_normal x y)
  drawable (DistType.binomial n x) = fl.accepts_count (RandCount.binomial n x)
  drawable (DistType.geometric x) = fl.accepts_count (RandCount.geometric x)
  drawable (DistType.pareto x y) = fl.accepts (RandDistr.pareto x y)
  drawable (DistType.poisson x) = fl.accepts (RandDistr.poisson x)
  drawable (DistType.weibull x y) = fl.accepts (RandDistr.weibull x y)
  drawable (DistType.gamma x y) = fl.accepts (RandDistr.gamma y x)
  drawable (DistType.beta x y) = fl.accepts (RandDistr.beta x y)

  -- What `validate` leaves open: the bounds of a uniform distribution are equal or accepted by rand,
  -- which refuses a NaN and an infinite width.
  abbrev pub UniformDraws : DistType → Type 0
  UniformDraws (DistType.uniform low high) =
      (fl.eq64 low high ≡ true) ⊎ (fl.accepts (RandDistr.uniform low high) ≡ true)
  UniformDraws _ = Unit

  validate_type-drawable :
      (t : DistType) (start max : F64)
      → validate (record { dist = t; start = start; max = max }) ≡ ok tt
      → UniformDraws t
      → drawable t ≡ true
  unfolding validate drawable
  validate_type-drawable (DistType.uniform low high) start max h u = ground arith
  validate_type-drawable (DistType.normal x y) start max h u = ground arith
  validate_type-drawable _ start max h u = ground arith

  pub validate-drawable :
      (d : Dist) → validate d ≡ ok tt → UniformDraws d.dist → drawable d.dist ≡ true
  validate-drawable d h u = validate_type-drawable d.dist d.start d.max h u

  unfoldable pub option_drawable : Option Dist → Bool
  option_drawable none = true
  option_drawable (some d) = drawable d.dist

  -- The result of a sample is a number that is not negative, and at most the maximum if one is set.
  abbrev pub InRange : Dist → F64 → Type 0
  InRange d x = (fl.le64 zero64 x ≡ true) × (fl.lt64 zero64 d.max ≡ true → fl.le64 x d.max ≡ true)

module _ {R : Type 0} ⦃fl : Floats⦄ ⦃g : Rng R⦄ where
  dist_sample-Returns :
      (t : DistType) (rng : R) → drawable t ≡ true → Returns (λ _. Unit {0}) (dist_sample t rng)
  unfolding dist_sample drawable
  dist_sample-Returns (DistType.uniform low high) rng h = ground arith
  dist_sample-Returns (DistType.normal x y) rng h = ground arith
  dist_sample-Returns _ rng h = ground arith

  pub sample-Returns :
      (d : Dist) (rng : R) → drawable d.dist ≡ true → Returns (λ r. InRange d r.0) (sample d rng)
  unfolding sample
  sample-Returns d rng h =
      Returns-bind _ (λ r. InRange d r.0) (dist_sample d.dist rng) _
        (dist_sample-Returns d.dist rng h)
        λ r e _.
          let top = fl.max64 zero64 (fl.add64 r.0 d.start) in
          ground
            (arith, fl.max_zero (fl.add64 r.0 d.start), fl.min_zero top d.max, fl.min_le top d.max)

  -- A distribution that passes validation is sampled without a panic. The result is not negative, and
  -- at most the maximum of the distribution if that is positive; it may be less than the start.
  -- The condition on a uniform distribution, that its bounds are equal or accepted by rand, is not
  -- checked by `validate`.
  pub sample-validated :
      (d : Dist) (rng : R)
      → validate d ≡ ok tt
      → UniformDraws d.dist
      → Returns (λ r. InRange d r.0) (sample d rng)
  sample-validated d rng h u = sample-Returns d rng (validate-drawable d h u)

-- ===== src/Dist/Sample.antt =====
-- crates/maybenot/src/dist.rs: `sample` and `dist_sample`.
use maybenot.Prelude.{ℕ, Outcome, ok, panic, ◌>>=◌, if◌then◌else◌}
use maybenot.Platform.{F64, RandDistr, RandCount, Floats, zero64, Rng}
use maybenot.Dist.{DistType, Dist}

module _ ⦃fl : Floats⦄ where
  -- The start is added, and the sum is clamped to [0, max], or from below only without a maximum.
  abbrev pub clamp : Dist → F64 → F64
  clamp d x =
      let r = fl.max64 zero64 (fl.add64 x d.start) in
      if fl.lt64 zero64 d.max then fl.min64 r d.max else r

module _ {R : Type 0} ⦃fl : Floats⦄ ⦃g : Rng R⦄ where
  -- `X::new(..).unwrap().sample(rng)`
  abbrev pub draw : RandDistr → R → Outcome (F64 × R)
  draw d rng = if fl.accepts d then ok (g.draw d rng) else panic

  abbrev draw_count_from : ℕ × R → F64 × R
  draw_count_from (n, rng) = (fl.of_u64 n, rng)

  abbrev pub draw_count : RandCount → R → Outcome (F64 × R)
  draw_count d rng = if fl.accepts_count d then ok (draw_count_from (g.draw_count d rng)) else panic

  unfoldable pub dist_sample : DistType → R → Outcome (F64 × R)
  dist_sample (DistType.uniform low high) rng =
      if fl.eq64 low high then ok (low, rng) else draw (RandDistr.uniform low high) rng
  dist_sample (DistType.normal mean stdev) rng = draw (RandDistr.normal mean stdev) rng
  dist_sample (DistType.skew_normal location scale shape) rng =
      draw (RandDistr.skew_normal location scale shape) rng
  dist_sample (DistType.log_normal mu sigma) rng = draw (RandDistr.log_normal mu sigma) rng
  dist_sample (DistType.binomial trials probability) rng =
      draw_count (RandCount.binomial trials probability) rng
  dist_sample (DistType.geometric probability) rng =
      draw_count (RandCount.geometric probability) rng
  dist_sample (DistType.pareto scale shape) rng = draw (RandDistr.pareto scale shape) rng
  dist_sample (DistType.poisson lambda) rng = draw (RandDistr.poisson lambda) rng
  dist_sample (DistType.weibull scale shape) rng = draw (RandDistr.weibull scale shape) rng
  dist_sample (DistType.gamma scale shape) rng = draw (RandDistr.gamma shape scale) rng
  dist_sample (DistType.beta alpha beta) rng = draw (RandDistr.beta alpha beta) rng

  unfoldable pub sample : Dist → R → Outcome (F64 × R)
  unfolding dist_sample
  sample d rng = do (x, rng') ← dist_sample d.dist rng; ok (clamp d x, rng')

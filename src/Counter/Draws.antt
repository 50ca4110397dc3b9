-- ===== src/Counter/Draws.antt =====
-- crates/maybenot/src/counter.rs: the samples of a counter are returned, and fit a u64.
use maybenot.Prelude.{
  ◌<◌, ◌≡◌, refl, Bool, true, Option, none, some, ok, Returns, Returns-bind, arith,
}
use maybenot.Constants.{u64_mod}
use maybenot.Platform.{Floats, Rng}
use maybenot.Dist.{Dist}
use maybenot.Dist.Sample.{sample}
use maybenot.Dist.Draws.{option_drawable, validate-drawable, sample-Returns}
use maybenot.Action.Bounds.{OptionDraws}
use maybenot.Counter.{Counter, sample_option, sample_value, validate}

module _ ⦃fl : Floats⦄ where
  abbrev pub counter_drawable : Counter → Bool
  counter_drawable c = option_drawable c.dist

  validate_option-drawable :
      (c : Counter) (o : Option Dist)
      → c.dist ≡ o
      → validate c ≡ ok tt
      → OptionDraws o
      → option_drawable o ≡ true
  unfolding validate option_drawable
  validate_option-drawable c none e h u = ground arith
  validate_option-drawable c (some d) e h u = ground (arith, validate-drawable d)

  pub counter-drawable :
      (c : Counter) → validate c ≡ ok tt → OptionDraws c.dist → option_drawable c.dist ≡ true
  counter-drawable c h u = validate_option-drawable c c.dist refl h u

module _ {R : Type 0} ⦃fl : Floats⦄ ⦃g : Rng R⦄ where
  sample_option-Returns :
      (o : Option Dist) (rng : R)
      → option_drawable o ≡ true
      → Returns (λ r. r.0 < u64_mod) (sample_option o rng)
  unfolding option_drawable
  sample_option-Returns none rng h = omega arith
  sample_option-Returns (some d) rng h =
      Returns-bind _ (λ r. r.0 < u64_mod) (sample d rng) _ (sample-Returns d rng h)
        λ r e _. fl.to_u64_lt r.0

  pub sample_value-Returns :
      (c : Counter) (rng : R)
      → option_drawable c.dist ≡ true
      → Returns (λ r. r.0 < u64_mod) (sample_value c rng)
  unfolding sample_value
  sample_value-Returns c rng h = sample_option-Returns c.dist rng h

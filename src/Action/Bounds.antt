-- ===== src/Action/Bounds.antt =====
-- crates/maybenot/src/action.rs: the samples of an action are returned, and a time is at most a day.
use maybenot.Prelude.{
  ℕ, ◌≤◌, ◌<◌, ◌≡◌, refl, Bool, true, ◌&&◌, Option, none, some, ok, Returns, Returns-bind, arith,
}
use maybenot.Constants.{u64_mod, max_sampled_timeout}
use maybenot.Platform.{F64, Floats, Rng}
use maybenot.Dist.{Dist}
use maybenot.Dist.Sample.{sample}
use maybenot.Dist.Draws.{drawable, option_drawable, UniformDraws, validate-drawable, sample-Returns}
use maybenot.Action.{
  Action, sample_capped, sample_timeout, sample_duration, sample_limit, sample_limit_dist,
  validate_option, validate,
}

-- A day in microseconds.
abbrev pub day : ℕ
day = 86_400_000_000

module _ ⦃fl : Floats⦄ where
  unfoldable pub action_drawable : Action → Bool
  action_drawable (Action.cancel timer) = true
  action_drawable (Action.send_padding b r timeout limit) =
      drawable timeout.dist && option_drawable limit
  action_drawable (Action.block_outgoing b r timeout duration limit) =
      drawable timeout.dist && (drawable duration.dist && option_drawable limit)
  action_drawable (Action.update_timer r duration limit) =
      drawable duration.dist && option_drawable limit

  abbrev pub OptionDraws : Option Dist → Type 0
  OptionDraws none = Unit
  OptionDraws (some d) = UniformDraws d.dist

  -- What validation leaves open, for each distribution of the action.
  abbrev pub ActionDraws : Action → Type 0
  ActionDraws (Action.cancel timer) = Unit
  ActionDraws (Action.send_padding b r timeout limit) =
      UniformDraws timeout.dist × OptionDraws limit
  ActionDraws (Action.block_outgoing b r timeout duration limit) =
      UniformDraws timeout.dist × UniformDraws duration.dist × OptionDraws limit
  ActionDraws (Action.update_timer r duration limit) =
      UniformDraws duration.dist × OptionDraws limit

  option-drawable :
      (o : Option Dist) → validate_option o ≡ ok tt → OptionDraws o → option_drawable o ≡ true
  unfolding option_drawable
  option-drawable none h u = refl
  option-drawable (some d) h u = validate-drawable d h u

  pub action-drawable : (a : Action) → validate a ≡ ok tt → ActionDraws a → action_drawable a ≡ true
  unfolding validate action_drawable
  action-drawable (Action.cancel timer) h u = refl
  action-drawable (Action.send_padding b r timeout limit) h u =
      ground (arith, validate-drawable timeout, option-drawable limit)
  action-drawable (Action.block_outgoing b r timeout duration limit) h u =
      ground (arith, validate-drawable timeout, validate-drawable duration, option-drawable limit)
  action-drawable (Action.update_timer r duration limit) h u =
      ground (arith, validate-drawable duration, option-drawable limit)

module _ {R : Type 0} ⦃fl : Floats⦄ ⦃g : Rng R⦄ where
  sample_capped-Returns :
      (d : Dist) (rng : R)
      → drawable d.dist ≡ true
      → Returns (λ r. r.0 ≤ day) (sample_capped d max_sampled_timeout rng)
  sample_capped-Returns d rng h =
      Returns-bind _ (λ r. r.0 ≤ day) (sample d rng) _ (sample-Returns d rng h) λ r e _. day_cap r.0
    where
      day_cap : (x : F64) → fl.to_u64 (fl.round64 (fl.min64 x max_sampled_timeout)) ≤ day
      day_cap x = omega (
        arith,
        fl.day_exact,
        fl.to_u64_mono _ _ (fl.round_mono _ _ (fl.min_le x max_sampled_timeout fl.day_positive)),
      )

  pub sample_timeout-Returns :
      (a : Action) (rng : R)
      → action_drawable a ≡ true
      → Returns (λ r. r.0 ≤ day) (sample_timeout a rng)
  unfolding sample_timeout action_drawable
  sample_timeout-Returns (Action.cancel timer) rng h = omega arith
  sample_timeout-Returns (Action.send_padding b r t l) rng h =
      sample_capped-Returns t rng (ground arith)
  sample_timeout-Returns (Action.block_outgoing b r t d l) rng h =
      sample_capped-Returns t rng (ground arith)
  sample_timeout-Returns (Action.update_timer r d l) rng h = omega arith

  pub sample_duration-Returns :
      (a : Action) (rng : R)
      → action_drawable a ≡ true
      → Returns (λ r. r.0 ≤ day) (sample_duration a rng)
  unfolding sample_duration action_drawable
  sample_duration-Returns (Action.cancel timer) rng h = omega arith
  sample_duration-Returns (Action.send_padding b r t l) rng h = omega arith
  sample_duration-Returns (Action.block_outgoing b r t d l) rng h =
      sample_capped-Returns d rng (ground arith)
  sample_duration-Returns (Action.update_timer r d l) rng h =
      sample_capped-Returns d rng (ground arith)

  sample_limit_dist-Returns :
      (o : Option Dist) (rng : R)
      → option_drawable o ≡ true
      → Returns (λ r. r.0 < u64_mod) (sample_limit_dist o rng)
  unfolding option_drawable
  sample_limit_dist-Returns none rng h = omega arith
  sample_limit_dist-Returns (some d) rng h =
      Returns-bind _ (λ r. r.0 < u64_mod) (sample d rng) _ (sample-Returns d rng h)
        λ r e _. fl.to_u64_lt (fl.round64 r.0)

  pub sample_limit-Returns :
      (a : Action) (rng : R)
      → action_drawable a ≡ true
      → Returns (λ r. r.0 < u64_mod) (sample_limit a rng)
  unfolding sample_limit action_drawable
  sample_limit-Returns (Action.cancel timer) rng h = omega arith
  sample_limit-Returns (Action.send_padding b r t l) rng h =
      sample_limit_dist-Returns l rng (ground arith)
  sample_limit-Returns (Action.block_outgoing b r t d l) rng h =
      sample_limit_dist-Returns l rng (ground arith)
  sample_limit-Returns (Action.update_timer r d l) rng h =
      sample_limit_dist-Returns l rng (ground arith)

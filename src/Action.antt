-- ===== src/Action.antt =====
-- crates/maybenot/src/action.rs.
use maybenot.Prelude.{ℕ, Bool, true, false, Option, none, some, Outcome, ok, ◌>>=◌, ◌>>◌}
use maybenot.Constants.{
  max_sampled_timeout, max_sampled_timer_duration, max_sampled_block_duration, state_limit_max,
}
use maybenot.Platform.{F64, Floats, Rng}
use maybenot.Dist.{Dist}
use maybenot.Dist
use maybenot.Dist.Sample
use maybenot.Event.{MachineId}
pub mod Bounds

pub data Timer : Type 0 where
  action internal all : Timer

pub data Action : Type 0 where
  cancel : Timer → Action
  -- bypass, replace, timeout, limit
  send_padding : Bool → Bool → Dist → Option Dist → Action
  -- bypass, replace, timeout, duration, limit
  block_outgoing : Bool → Bool → Dist → Dist → Option Dist → Action
  -- replace, duration, limit
  update_timer : Bool → Dist → Option Dist → Action

-- Times and durations are counted in nanoseconds.
pub data TriggerAction : Type 0 where
  -- machine, timer
  cancel : MachineId → Timer → TriggerAction
  -- timeout, bypass, replace, machine
  send_padding : ℕ → Bool → Bool → MachineId → TriggerAction
  -- timeout, duration, bypass, replace, machine
  block_outgoing : ℕ → ℕ → Bool → Bool → MachineId → TriggerAction
  -- duration, replace, machine
  update_timer : ℕ → Bool → MachineId → TriggerAction

unfoldable pub has_limit : Action → Bool
has_limit (Action.send_padding bypass replace timeout (some limit)) = true
has_limit (Action.block_outgoing bypass replace timeout duration (some limit)) = true
has_limit (Action.update_timer replace duration (some limit)) = true
has_limit _ = false

module _ {R : Type 0} ⦃fl : Floats⦄ ⦃g : Rng R⦄ where
  -- `d.sample(rng).min(cap).round() as u64`
  abbrev pub sample_capped : Dist → F64 → R → Outcome (ℕ × R)
  sample_capped d cap rng = do
    (x, rng') ← Dist.Sample.sample d rng
    ok (fl.to_u64 (fl.round64 (fl.min64 x cap)), rng')

  unfoldable pub sample_timeout : Action → R → Outcome (ℕ × R)
  sample_timeout (Action.send_padding bypass replace timeout limit) rng =
      sample_capped timeout max_sampled_timeout rng
  sample_timeout (Action.block_outgoing bypass replace timeout duration limit) rng =
      sample_capped timeout max_sampled_timeout rng
  sample_timeout _ rng = ok (0, rng)

  unfoldable pub sample_duration : Action → R → Outcome (ℕ × R)
  sample_duration (Action.block_outgoing bypass replace timeout duration limit) rng =
      sample_capped duration max_sampled_block_duration rng
  sample_duration (Action.update_timer replace duration limit) rng =
      sample_capped duration max_sampled_timer_duration rng
  sample_duration _ rng = ok (0, rng)

  abbrev pub sample_limit_dist : Option Dist → R → Outcome (ℕ × R)
  sample_limit_dist none rng = ok (state_limit_max, rng)
  sample_limit_dist (some limit) rng = do
    (x, rng') ← Dist.Sample.sample limit rng
    ok (fl.to_u64 (fl.round64 x), rng')

  unfoldable pub sample_limit : Action → R → Outcome (ℕ × R)
  sample_limit (Action.send_padding bypass replace timeout limit) rng = sample_limit_dist limit rng
  sample_limit (Action.block_outgoing bypass replace timeout duration limit) rng =
      sample_limit_dist limit rng
  sample_limit (Action.update_timer replace duration limit) rng = sample_limit_dist limit rng
  sample_limit (Action.cancel timer) rng = ok (state_limit_max, rng)

module _ ⦃fl : Floats⦄ where
  abbrev pub validate_option : Option Dist → Outcome (Unit {0})
  validate_option none = ok tt
  validate_option (some limit) = Dist.validate limit

  unfoldable pub validate : Action → Outcome (Unit {0})
  validate (Action.send_padding bypass replace timeout limit) = do
    Dist.validate timeout
    validate_option limit
  validate (Action.block_outgoing bypass replace timeout duration limit) = do
    Dist.validate timeout
    Dist.validate duration
    validate_option limit
  validate (Action.update_timer replace duration limit) = do
    Dist.validate duration
    validate_option limit
  validate (Action.cancel timer) = ok tt

-- ===== src/Framework/Types.antt =====
-- crates/maybenot/src/framework.rs: the state of the framework and of a machine in it.
use maybenot.Prelude.{ℕ, ◌+◌, ◌%◌, Bool, Option, List, set, index, Outcome, ok, ◌>>=◌}
use maybenot.Constants.{u64_mod}
use maybenot.Platform.{F64}
use maybenot.Action.{TriggerAction}
use maybenot.Machine.{Machine}

pub record MachineRuntime : Type 0 where
  pub current_state : ℕ
  pub state_limit : ℕ
  pub padding_sent : ℕ
  pub normal_sent : ℕ
  pub blocking_duration : ℕ
  pub machine_start : ℕ
  pub allowed_blocked_microsec : ℕ
  pub counter_a : ℕ
  pub counter_b : ℕ

pub data StateChange : Type 0 where
  changed unchanged : StateChange

pub data SignalTarget : Type 0 where
  all : SignalTarget
  all_except : ℕ → SignalTarget

-- `R` is the state of the random number generator.
pub record Framework (R : Type 0) : Type 0 where
  pub current_time : ℕ
  pub rng : R
  pub actions : List (Option TriggerAction)
  pub machines : List Machine
  pub runtime : List MachineRuntime
  pub max_padding_frac : F64
  pub normal_sent_packets : ℕ
  pub padding_sent_packets : ℕ
  pub max_blocking_frac : F64
  pub blocking_duration : ℕ
  pub blocking_started : ℕ
  pub blocking_active : Bool
  pub signal_pending : Option SignalTarget
  pub counter_zeroed_once : Bool × Bool
  pub framework_start : ℕ

-- `n += 1` on a u64
abbrev pub increment : ℕ → ℕ
increment n = (n + 1) % u64_mod

module _ {R : Type 0} where
  -- `self.runtime[mi] = rt`, after a read of that place
  abbrev pub set_runtime : Framework R → ℕ → MachineRuntime → Framework R
  set_runtime fw mi rt = record fw { runtime = set fw.runtime mi rt }

  -- `self.actions[mi] = action`
  unfoldable pub set_action : Framework R → ℕ → Option TriggerAction → Outcome (Framework R)
  set_action fw mi action = do
    _ ← index fw.actions mi
    ok (record fw { actions = set fw.actions mi action })

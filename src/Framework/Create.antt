-- ===== src/Framework/Create.antt =====
-- crates/maybenot/src/framework.rs: `new` and `num_machines`.
use maybenot.Prelude.{
  ℕ, Bool, false, not, ◌&&◌, none, Option, some, List, [], ◌∷◌, Outcome, ok, ◌>>=◌, ◌>>◌, reject_if,
  index, length, replicate,
}
use maybenot.Errors.{Error}
use maybenot.Platform.{F64, zero64, one64, Floats, Rng}
use maybenot.Time.{from_micros, zero_duration}
use maybenot.Action.{Action, sample_limit}
use maybenot.Machine.{Machine, validate}
use maybenot.Framework.Types.{MachineRuntime, Framework}

abbrev pub start_runtime : ℕ → Machine → MachineRuntime
start_runtime now m = record {
  current_state = 0;
  state_limit = 0;
  padding_sent = 0;
  normal_sent = 0;
  blocking_duration = zero_duration;
  machine_start = now;
  allowed_blocked_microsec = from_micros m.allowed_blocked_microsec;
  counter_a = 0;
  counter_b = 0;
}

module _ ⦃fl : Floats⦄ where
  -- `(0.0..=1.0).contains(&x)`
  abbrev pub is_fraction : F64 → Bool
  is_fraction x = fl.le64 zero64 x && fl.le64 x one64

  unfoldable pub start_runtimes : ℕ → List Machine → Outcome (List MachineRuntime)
  start_runtimes now [] = ok []
  start_runtimes now (m ∷ rest) = do
    validate m
    runtimes ← start_runtimes now rest
    ok (start_runtime now m ∷ runtimes)

module _ {R : Type 0} ⦃fl : Floats⦄ ⦃g : Rng R⦄ where
  abbrev pub first_limit : MachineRuntime → Option Action → R → Outcome (MachineRuntime × R)
  first_limit rt none rng = ok (rt, rng)
  first_limit rt (some action) rng = do
    (limit, rng') ← sample_limit action rng
    ok (record rt { state_limit = limit }, rng')

  -- The last loop of `new`: the limits of the first states are sampled.
  unfoldable pub sample_limits :
      List MachineRuntime → List Machine → R → Outcome (List MachineRuntime × R)
  sample_limits (rt ∷ rts) (m ∷ ms) rng = do
    state ← index m.states 0
    (rt', rng1) ← first_limit rt state.action rng
    (rts', rng2) ← sample_limits rts ms rng1
    ok (rt' ∷ rts', rng2)
  sample_limits rts ms rng = ok (rts, rng)

  unfoldable pub new : List Machine → F64 → F64 → ℕ → R → Outcome (Framework R)
  unfolding start_runtimes sample_limits
  new machines max_padding_frac max_blocking_frac current_time rng = do
    reject_if (not (is_fraction max_padding_frac)) Error.padding_limit
    reject_if (not (is_fraction max_blocking_frac)) Error.blocking_limit
    runtime ← start_runtimes current_time machines
    (runtime', rng') ← sample_limits runtime machines rng
    ok (record {
      current_time = current_time;
      rng = rng';
      actions = replicate (length machines) none;
      machines = machines;
      runtime = runtime';
      max_padding_frac = max_padding_frac;
      normal_sent_packets = 0;
      padding_sent_packets = 0;
      max_blocking_frac = max_blocking_frac;
      blocking_duration = zero_duration;
      blocking_started = current_time;
      blocking_active = false;
      signal_pending = none;
      counter_zeroed_once = (false, false);
      framework_start = current_time;
    })

abbrev pub num_machines : {R : Type 0} → Framework R → ℕ
num_machines fw = length fw.machines

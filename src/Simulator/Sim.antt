-- ===== src/Simulator/Sim.antt =====
-- crates/maybenot-simulator/src/lib.rs: the state of the client or the server, and what the main loop
-- passes around by mutable references.
use maybenot.Prelude.{
  ℕ, ◌-◌, Bool, false, Option, none, some, List, replicate, length, set, index, Outcome, ok, err,
  panic, unfinished, ◌>>=◌, ltb, if◌then◌else◌,
}
use maybenot.Platform.{F64, Floats, Rng}
use maybenot.Machine.{Machine}
use maybenot.Framework.Types.{Framework}
use maybenot.Framework.Create.{new}
use maybenot.Simulator.Queue.{SimQueue}
use maybenot.Simulator.Peek.{ScheduledAction}
use maybenot.Simulator.Integration.{Integration}
use maybenot.Simulator.Network.{NetworkBottleneck}

pub record SimState (R : Type 0) : Type 0 where
  pub framework : Framework R
  pub scheduled_action : List (Option ScheduledAction)
  pub scheduled_internal_timer : List (Option ℕ)
  pub blocking_until : Option ℕ
  pub blocking_bypassable : Bool
  pub integration : Option Integration

-- The queue, the states of the two sides, the network, and the thread's random number generator.
pub record Sim (H D R T : Type 0) : Type 0 where
  pub sq : SimQueue H
  pub client : SimState R
  pub server : SimState R
  pub network : NetworkBottleneck D
  pub thread : T

module _ {ℓ} {A : Type ℓ} where
  -- `Result::unwrap`
  abbrev pub unwrap : Outcome A → Outcome A
  unwrap (ok a) = ok a
  unwrap (err e) = panic
  unwrap panic = panic
  unwrap unfinished = unfinished

  -- `Option::unwrap`
  abbrev pub unwrap_some : Option A → Outcome A
  unwrap_some none = panic
  unwrap_some (some a) = ok a

  -- `xs[i] = v`
  unfoldable pub write : List A → ℕ → A → Outcome (List A)
  write xs i v = do _ ← index xs i; ok (set xs i v)

-- `Instant - Duration`, which panics before the earliest instant.
abbrev pub sub_instant : ℕ → ℕ → Outcome ℕ
sub_instant t d = if ltb t d then panic else ok (t - d)

module _ {R : Type 0} ⦃fl : Floats⦄ ⦃g : Rng R⦄ where
  -- `SimState::new`, with the generator that the seed selects.
  unfoldable pub new_state :
      List Machine → ℕ → F64 → F64 → Option Integration → R → Outcome (SimState R)
  new_state machines current_time max_padding_frac max_blocking_frac integration rng = do
    fw ← unwrap (new machines max_padding_frac max_blocking_frac current_time rng)
    ok (record {
      framework = fw;
      scheduled_action = replicate (length machines) none;
      scheduled_internal_timer = replicate (length machines) none;
      blocking_until = none;
      blocking_bypassable = false;
      integration = integration;
    })

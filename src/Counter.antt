-- ===== src/Counter.antt =====
-- crates/maybenot/src/counter.rs, and the arithmetic of `update_counter` in framework.rs.
use maybenot.Prelude.{ℕ, Bool, false, true, Option, none, some, Outcome, ok, ◌>>=◌}
use maybenot.Platform.{Floats, Rng}
use maybenot.Dist.{Dist}
use maybenot.Dist
use maybenot.Dist.Sample
pub mod Draws

pub data Operation : Type 0 where
  increment decrement set : Operation

pub record Counter : Type 0 where
  pub operation : Operation
  pub dist : Option Dist
  pub copy : Bool

abbrev pub new : Operation → Counter
new operation = record { operation = operation; dist = none; copy = false }

abbrev pub new_dist : Operation → Dist → Counter
new_dist operation dist = record { operation = operation; dist = some dist; copy = false }

abbrev pub new_copy : Operation → Counter
new_copy operation = record { operation = operation; dist = none; copy = true }

module _ {R : Type 0} ⦃fl : Floats⦄ ⦃g : Rng R⦄ where
  abbrev pub sample_option : Option Dist → R → Outcome (ℕ × R)
  sample_option none rng = ok (1, rng)
  sample_option (some dist) rng = do (x, rng') ← Dist.Sample.sample dist rng; ok (fl.to_u64 x, rng')

  unfoldable pub sample_value : Counter → R → Outcome (ℕ × R)
  sample_value c rng = sample_option c.dist rng

module _ ⦃fl : Floats⦄ where
  abbrev pub validate_option : Option Dist → Outcome (Unit {0})
  validate_option none = ok tt
  validate_option (some dist) = Dist.validate dist

  unfoldable pub validate : Counter → Outcome (Unit {0})
  validate c = validate_option c.dist

-- ===== src/Machine.antt =====
-- crates/maybenot/src/machine.rs: the machine, its construction and its validation.
use maybenot.Prelude.{
  ℕ, Bool, ◌||◌, List, [], ◌∷◌, Outcome, ok, err, panic, unfinished, ◌>>=◌, ◌>>◌, reject_if, ltb,
  ◌==◌, length,
}
use maybenot.Constants.{state_max}
use maybenot.Errors.{Error, Reason}
use maybenot.Platform.{F64, zero64, one64, Floats}
use maybenot.State.{State}
use maybenot.State
pub mod Sound
pub mod Checked

pub record Machine : Type 0 where
  pub allowed_padding_packets : ℕ
  pub max_padding_frac : F64
  pub allowed_blocked_microsec : ℕ
  pub max_blocking_frac : F64
  pub states : List State

-- The text of an error, as `Display` prints it, becomes the reason of another.
abbrev pub quoted : Error → Error
quoted (Error.machine r) = Error.machine (Reason.invalid_machine r)
quoted Error.padding_limit = Error.padding_limit
quoted Error.blocking_limit = Error.blocking_limit

-- `.map_err(|e| Error::Machine(e.to_string()))`, which a state's validation reaches with
-- `Error::Machine` only.
abbrev pub map_err {ℓ} : {A : Type ℓ} → Outcome A → Outcome A
map_err (ok a) = ok a
map_err (err e) = err (quoted e)
map_err panic = panic
map_err unfinished = unfinished

module _ ⦃fl : Floats⦄ where
  unfoldable pub validate_states : ℕ → List State → Outcome (Unit {0})
  validate_states num_states [] = ok tt
  validate_states num_states (s ∷ rest) = do
    map_err (State.validate s num_states)
    validate_states num_states rest

  abbrev pub bad_frac : F64 → Bool
  bad_frac x = fl.lt64 x zero64 || fl.lt64 one64 x

  unfoldable pub validate : Machine → Outcome (Unit {0})
  unfolding validate_states
  validate m = do
    reject_if (bad_frac m.max_padding_frac)
        (Error.machine (Reason.bad_padding_frac m.max_padding_frac))
    reject_if (bad_frac m.max_blocking_frac)
        (Error.machine (Reason.bad_blocking_frac m.max_blocking_frac))
    reject_if (length m.states == 0) (Error.machine Reason.no_states)
    reject_if (ltb state_max (length m.states))
        (Error.machine (Reason.too_many_states (length m.states)))
    validate_states (length m.states) m.states

  unfoldable pub new : ℕ → F64 → ℕ → F64 → List State → Outcome Machine
  new allowed_padding_packets max_padding_frac allowed_blocked_microsec max_blocking_frac states =
      let machine : Machine = record {
        allowed_padding_packets = allowed_padding_packets;
        max_padding_frac = max_padding_frac;
        allowed_blocked_microsec = allowed_blocked_microsec;
        max_blocking_frac = max_blocking_frac;
        states = states;
      } in
      do validate machine; ok machine

-- ===== src/Errors.antt =====
-- crates/maybenot/src/error.rs. The text of `Error::Machine` is a value of `Reason`, one
-- constructor for each message that the crate builds, with the values that the message quotes.
use Prim.Native.Nat.{ℕ}

pub data Reason : Type 0 where
  uniform_low_above_high : Reason
  -- an error of rand_distr, named by the distribution's position in `DistType`
  rand_distr : ℕ → Reason
  empty_transitions : ℕ → Reason
  state_out_of_bounds : ℕ → Reason
  duplicate_state : ℕ → Reason
  bad_probability : ℕ → Reason
  bad_total_probability : ℕ → ℕ → Reason
  bad_padding_frac : ℕ → Reason
  bad_blocking_frac : ℕ → Reason
  no_states : Reason
  too_many_states : ℕ → Reason
  -- of parsing.rs: the decoders' own errors, and the version, and the expected size in bytes, the
  -- number of states and the size
  bad_hex bad_zlib no_version : Reason
  unsupported_version : ℕ → Reason
  not_enough_data too_small missing_duration invalid_state : Reason
  unexpected_size : ℕ → ℕ → ℕ → Reason
  -- the text that `Display` gives an `Error::Machine`, quoted in another message
  invalid_machine : Reason → Reason

pub data Error : Type 0 where
  padding_limit : Error
  blocking_limit : Error
  machine : Reason → Error

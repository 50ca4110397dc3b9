-- ===== src/Machine/Checked.antt =====
-- crates/maybenot/src/machine.rs: `validate` and `new` do not panic.
use maybenot.Prelude.{
  ℕ, suc, ◌≡◌, refl, Bool, ◌∷◌, [], List, Option, none, some, Outcome, ok, err, panic, unfinished,
  length, ◌==◌, ltb, Settles, Settles-bind, Settles-reject, Passes, reject_if-Passes, then-Passes,
}
use maybenot.Constants.{state_max}
use maybenot.Platform.{F64, Floats, F32}
use maybenot.Dist.{Dist}
use maybenot.Dist
use maybenot.Errors.{Error, Reason}
use maybenot.Dist.Checked
use maybenot.Action.{Action}
use maybenot.Action
use maybenot.Counter.{Counter}
use maybenot.Counter
use maybenot.State.{
  State, Trans, check_vector, check_slot, check_slots, validate_action, validate_counter, is_empty,
  out_of_bounds, bad_probability,
}
use maybenot.State
use maybenot.Machine.{Machine, bad_frac, map_err, validate_states, validate, new}

module _ ⦃fl : Floats⦄ where
  limit-Passes : (d : Option Dist) → Passes (Action.validate_option d)
  limit-Passes none = tt
  limit-Passes (some d) = Checked.validate-Passes d

  action-Passes : (a : Option Action) → Passes (validate_action a)
  unfolding Action.validate
  action-Passes none = tt
  action-Passes (some (Action.send_padding bypass replace timeout limit)) =
      then-Passes (λ u. Unit {0}) (Dist.validate timeout) _ (Checked.validate-Passes timeout)
        (limit-Passes limit)
  action-Passes (some (Action.block_outgoing bypass replace timeout duration limit)) =
      then-Passes (λ u. Unit {0}) (Dist.validate timeout) _ (Checked.validate-Passes timeout)
        (then-Passes (λ u. Unit {0}) (Dist.validate duration) _ (Checked.validate-Passes duration)
          (limit-Passes limit))
  action-Passes (some (Action.update_timer replace duration limit)) =
      then-Passes (λ u. Unit {0}) (Dist.validate duration) _ (Checked.validate-Passes duration)
        (limit-Passes limit)
  action-Passes (some (Action.cancel timer)) = tt

  counter-Passes : (c : Option Counter) → Passes (validate_counter c)
  unfolding Counter.validate
  counter-Passes none = tt
  counter-Passes (some c) = dist-Passes c.dist
    where
      dist-Passes : (d : Option Dist) → Passes (Counter.validate_option d)
      dist-Passes none = tt
      dist-Passes (some d) = Checked.validate-Passes d

  vector-Passes :
      (n : ℕ) (sum : F32) (seen : List ℕ) (ts : List Trans)
      → Settles (λ s. Unit {0}) (check_vector n sum seen ts)
  unfolding check_vector
  vector-Passes n sum seen [] = tt
  vector-Passes n sum seen ((t, p) ∷ rest) =
      let Q : F32 → Type 0 = λ s. Unit {0} in
      Settles-reject Q (out_of_bounds n t) (Error.machine (Reason.state_out_of_bounds t)) _ λ a.
        Settles-reject Q (State.contains seen t) (Error.machine (Reason.duplicate_state t)) _ λ b.
          Settles-reject Q (bad_probability p) (Error.machine (Reason.bad_probability p)) _
            λ c. vector-Passes n (fl.add32 sum p) (t ∷ seen) rest

  slot-Passes :
      (n : ℕ) (empty : Bool) (event : ℕ) (slot : Option (List Trans))
      → Passes (check_slot n empty event slot)
  unfolding check_slot
  slot-Passes n empty event none = tt
  slot-Passes n empty event (some vector) =
      Settles-reject (λ u. Unit {0}) empty (Error.machine (Reason.empty_transitions event)) _
        λ a.
          Settles-bind (λ s. Unit {0}) (λ u. Unit {0}) (check_vector n 0 [] vector) _
            (vector-Passes n 0 [] vector)
            λ s e u.
              reject_if-Passes (bad_probability s)
                (Error.machine (Reason.bad_total_probability s event))

  slots-Passes :
      (n : ℕ) (empty : Bool) (event : ℕ) (slots : List (Option (List Trans)))
      → Passes (check_slots n empty event slots)
  unfolding check_slots
  slots-Passes n empty event [] = tt
  slots-Passes n empty event (slot ∷ rest) =
      then-Passes (λ u. Unit {0}) (check_slot n empty event slot) _ (slot-Passes n empty event slot)
        (slots-Passes n empty (suc event) rest)

  state-Passes : (s : State) (n : ℕ) → Passes (State.validate s n)
  unfolding State.validate
  state-Passes s n =
      then-Passes (λ u. Unit {0}) (check_slots n (is_empty s.transitions) 0 s.transitions) _
        (slots-Passes n (is_empty s.transitions) 0 s.transitions)
        (then-Passes (λ u. Unit {0}) (validate_action s.action) _ (action-Passes s.action)
          (then-Passes (λ u. Unit {0}) (validate_counter s.counter.0) _ (counter-Passes s.counter.0)
            (counter-Passes s.counter.1)))

  map_err-Passes : (m : Outcome (Unit {0})) → Passes m → Passes (map_err m)
  map_err-Passes (ok u) h = h
  map_err-Passes (err e) h = tt
  map_err-Passes panic h = h
  map_err-Passes unfinished h = h

  states-Passes : (n : ℕ) (ss : List State) → Passes (validate_states n ss)
  unfolding validate_states
  states-Passes n [] = tt
  states-Passes n (s ∷ rest) =
      then-Passes (λ u. Unit {0}) (map_err (State.validate s n)) _
        (map_err-Passes (State.validate s n) (state-Passes s n)) (states-Passes n rest)

  validate-Passes : (m : Machine) → Passes (validate m)
  unfolding validate
  validate-Passes m =
      let Q : Unit {0} → Type 0 = λ u. Unit {0} in
      Settles-reject Q (bad_frac m.max_padding_frac)
        (Error.machine (Reason.bad_padding_frac m.max_padding_frac)) _
        λ a.
          Settles-reject Q (bad_frac m.max_blocking_frac)
            (Error.machine (Reason.bad_blocking_frac m.max_blocking_frac)) _
            λ b. Settles-reject Q (length m.states == 0) (Error.machine Reason.no_states) _ λ c.
              Settles-reject Q (ltb state_max (length m.states))
                (Error.machine (Reason.too_many_states (length m.states))) _
                λ d. states-Passes (length m.states) m.states

  -- `new` does not panic, and what it makes is validated and has the states.
  pub new-Settles :
      (padding : ℕ) (padding_frac : F64) (blocked : ℕ) (blocking_frac : F64) (ss : List State)
      → Settles
          (λ m. (validate m ≡ ok tt) × (m.states ≡ ss))
          (new padding padding_frac blocked blocking_frac ss)
  unfolding new
  new-Settles padding padding_frac blocked blocking_frac ss =
      let m : Machine = record {
        allowed_padding_packets = padding;
        max_padding_frac = padding_frac;
        allowed_blocked_microsec = blocked;
        max_blocking_frac = blocking_frac;
        states = ss;
      } in
      Settles-bind (λ u. Unit {0}) (λ (m : Machine). (validate m ≡ ok tt) × (m.states ≡ ss))
        (validate m) _ (validate-Passes m) λ u e t. (e, refl)

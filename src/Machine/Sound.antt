-- ===== src/Machine/Sound.antt =====
-- crates/maybenot/src/machine.rs: what a machine that passes validation guarantees.
use maybenot.Prelude.{
  ℕ, ◌<◌, ◌≤◌, ◌≡◌, refl, List, [], ◌∷◌, Outcome, ok, err, panic, unfinished, >>=-eq-ok, All,
  length, reject_if, arith, ltb, ◌==◌,
}
use maybenot.Constants.{state_max}
use maybenot.Platform.{Floats}
use maybenot.State.{State}
use maybenot.State
use maybenot.State.Targets.{SoundState, StateDraws, validate-SoundState}
use maybenot.Machine.{Machine, bad_frac, map_err, validate_states, validate}

module _ ⦃fl : Floats⦄ where
  pub record IsSound (m : Machine) : Type 0 where
    pub some_state : 0 < length m.states
    pub few_states : length m.states ≤ state_max
    pub states : All (SoundState (length m.states)) m.states

  map_err-ok : (m : Outcome (Unit {0})) → map_err m ≡ ok tt → m ≡ ok tt
  map_err-ok (ok tt) h = refl
  map_err-ok (err e) h = cc
  map_err-ok panic h = cc
  map_err-ok unfinished h = cc

  validate_states-SoundState :
      (n : ℕ) (ss : List State)
      → validate_states n ss ≡ ok tt
      → All StateDraws ss
      → All (SoundState n) ss
  unfolding validate_states
  validate_states-SoundState n [] h u = tt
  validate_states-SoundState n (s ∷ rest) h u =
      let (_, e, h') = >>=-eq-ok (map_err (State.validate s n)) _ h in
      (
        validate-SoundState s n (map_err-ok (State.validate s n) e) u.0,
        validate_states-SoundState n rest h' u.1,
      )

  -- A machine that passes validation has a state, not too many of them, and every transition leads
  -- to one of its states or to a pseudo-state, and every distribution in it can be sampled; if rand
  -- accepts the bounds of its uniform distributions, and every state has one slot of transitions for
  -- each event, as its type says.
  pub validate-IsSound : (m : Machine) → validate m ≡ ok tt → All StateDraws m.states → IsSound m
  unfolding validate
  validate-IsSound m h u =
      let (_, e1, h1) = >>=-eq-ok (reject_if (bad_frac m.max_padding_frac) _) _ h in
      let (_, e2, h2) = >>=-eq-ok (reject_if (bad_frac m.max_blocking_frac) _) _ h1 in
      let (_, e3, h3) = >>=-eq-ok (reject_if (length m.states == 0) _) _ h2 in
      let (_, e4, h4) = >>=-eq-ok (reject_if (ltb state_max (length m.states)) _) _ h3 in
      record {
        some_state = ground arith;
        few_states = ground arith;
        states = validate_states-SoundState (length m.states) m.states h4 u;
      }

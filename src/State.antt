-- ===== src/State.antt =====
-- crates/maybenot/src/state.rs. The array of transitions is a list; that it has `event_num` slots,
-- which the Rust type says, is `HasSlots`.
use maybenot.Prelude.{
  ℕ, suc, ◌≡◌, Bool, false, true, not, ◌&&◌, ◌||◌, Option, none, some, List, [], ◌∷◌, Outcome, ok,
  ◌>>=◌, ◌>>◌, reject_if, index, ltb, ◌==◌, if◌then◌else◌, length, set, replicate,
}
use maybenot.Constants.{event_num, state_end, state_signal}
use maybenot.Errors.{Error, Reason}
use maybenot.Platform.{F32, zero32, one32, Floats, Rng}
use maybenot.Event.{Event, events, to_usize}
use maybenot.Action.{Action, validate as check_action}
use maybenot.Counter.{Counter}
use maybenot.Counter
pub mod Targets
pub mod RoundTrip
pub mod Exact

-- A state index and a probability.
abbrev pub Trans : Type 0
Trans = ℕ × F32

pub record State : Type 0 where
  pub action : Option Action
  pub counter : Option Counter × Option Counter
  pub transitions : List (Option (List Trans))

abbrev pub HasSlots : State → Type 0
HasSlots s = length s.transitions ≡ event_num

abbrev pub is_empty {ℓ} : {A : Type ℓ} → List A → Bool
is_empty [] = true
is_empty (x ∷ xs) = false

-- The loop of `State::new` over an `EnumMap`, which yields the events in order.
unfoldable pub fill_slots :
    (Event → List Trans) → List Event → List (Option (List Trans)) → List (Option (List Trans))
fill_slots t [] slots = slots
fill_slots t (event ∷ rest) slots =
    fill_slots t rest
      (if not (is_empty (t event)) then set slots (to_usize event) (some (t event)) else slots)

unfoldable pub new : (Event → List Trans) → State
unfolding fill_slots to_usize
new t = record {
  action = none;
  counter = (none, none);
  transitions = fill_slots t events (replicate event_num none);
}

unfoldable pub assign : (Event → List Trans) → Event → List Trans → Event → List Trans
unfolding to_usize
assign m event vector e = if to_usize e == to_usize event then vector else m e

-- The loop of `get_transitions`: slot `i` belongs to `Event::from_usize(i)`, the event at `i`.
unfoldable pub read_slots :
    List Event → List (Option (List Trans)) → (Event → List Trans) → Event → List Trans
read_slots (event ∷ rest) (none ∷ slots) m = read_slots rest slots m
read_slots (event ∷ rest) (some vector ∷ slots) m =
    read_slots rest slots (if is_empty vector then m else assign m event vector)
read_slots _ _ m = m

unfoldable pub get_transitions : State → Event → List Trans
unfolding read_slots assign
get_transitions s = read_slots events s.transitions (λ e. [])

abbrev pub contains : List ℕ → ℕ → Bool
contains [] k = false
contains (x ∷ xs) k = x == k || contains xs k

module _ ⦃fl : Floats⦄ where
  abbrev pub bad_probability : F32 → Bool
  bad_probability x = fl.le32 x zero32 || fl.lt32 one32 x

  abbrev pub out_of_bounds : ℕ → ℕ → Bool
  out_of_bounds num_states t =
      not (ltb t num_states) && not (t == state_end) && not (t == state_signal)

  -- The loop over one vector; the result is the sum of the probabilities.
  unfoldable pub check_vector : ℕ → F32 → List ℕ → List Trans → Outcome F32
  check_vector num_states sum seen [] = ok sum
  check_vector num_states sum seen ((t, p) ∷ rest) = do
    reject_if (out_of_bounds num_states t) (Error.machine (Reason.state_out_of_bounds t))
    reject_if (contains seen t) (Error.machine (Reason.duplicate_state t))
    reject_if (bad_probability p) (Error.machine (Reason.bad_probability p))
    check_vector num_states (fl.add32 sum p) (t ∷ seen) rest

  -- One round of the loop over the events. The test for emptiness is of the whole array.
  unfoldable pub check_slot : ℕ → Bool → ℕ → Option (List Trans) → Outcome (Unit {0})
  unfolding check_vector
  check_slot num_states array_empty event none = ok tt
  check_slot num_states array_empty event (some vector) = do
    reject_if array_empty (Error.machine (Reason.empty_transitions event))
    sum ← check_vector num_states zero32 [] vector
    reject_if (bad_probability sum) (Error.machine (Reason.bad_total_probability sum event))

  unfoldable pub check_slots : ℕ → Bool → ℕ → List (Option (List Trans)) → Outcome (Unit {0})
  unfolding check_slot
  check_slots num_states array_empty event [] = ok tt
  check_slots num_states array_empty event (slot ∷ rest) = do
    check_slot num_states array_empty event slot
    check_slots num_states array_empty (suc event) rest

  abbrev pub validate_action : Option Action → Outcome (Unit {0})
  validate_action none = ok tt
  validate_action (some action) = check_action action

  abbrev pub validate_counter : Option Counter → Outcome (Unit {0})
  validate_counter none = ok tt
  validate_counter (some counter) = Counter.validate counter

  unfoldable pub validate : State → ℕ → Outcome (Unit {0})
  validate s num_states = do
    check_slots num_states (is_empty s.transitions) 0 s.transitions
    validate_action s.action
    validate_counter s.counter.0
    validate_counter s.counter.1

module _ ⦃fl : Floats⦄ where
  -- The loop of `sample_state`: the first target whose running sum exceeds the draw.
  unfoldable pub pick : F32 → F32 → List Trans → Option ℕ
  pick r sum [] = none
  pick r sum ((t, p) ∷ rest) =
      let sum' = fl.add32 sum p in if fl.lt32 r sum' then some t else pick r sum' rest

module _ {R : Type 0} ⦃fl : Floats⦄ ⦃g : Rng R⦄ where
  unfoldable pub sample_slot : Option (List Trans) → R → Option ℕ × R
  unfolding pick
  sample_slot none rng = (none, rng)
  sample_slot (some vector) rng = let (r, rng') = g.gen_unit rng in (pick r zero32 vector, rng')

  unfoldable pub sample_state : State → Event → R → Outcome (Option ℕ × R)
  sample_state s event rng = do
    slot ← index s.transitions (to_usize event)
    ok (sample_slot slot rng)

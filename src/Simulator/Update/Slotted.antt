-- ===== src/Simulator/Update/Slotted.antt =====
-- crates/maybenot-simulator/src/lib.rs: writes to the slots of the machines.
use maybenot.Prelude.{
  ℕ, zero, suc, ◌<◌, ◌≡◌, ◌∙◌, Option, none, some, List, [], ◌∷◌, length, set, length-set, index,
  Returns, Returns-bind, arith,
}
use maybenot.Prelude.{index_ok}
use maybenot.Action.{Timer}
use maybenot.Event.{MachineId}
use maybenot.Simulator.Peek.{ScheduledAction}
use maybenot.Simulator.Sim.{SimState, write}
use maybenot.Simulator.Slots.Found.{InSlots, IsTimed}
use maybenot.Simulator.Update.{set_scheduled, set_timer, cancel}

pub index-Returns :
    {A : Type 0} (xs : List A) (i : ℕ) → i < length xs → Returns (λ a. Unit {0}) (index xs i)
index-Returns xs i lt = let (a, e) = index_ok xs i lt in rw e tt

write-Returns :
    {A : Type 0} (P : List A → Type 0) (xs : List A) (i : ℕ) (v : A)
    → i < length xs
    → P (set xs i v)
    → Returns P (write xs i v)
unfolding write
write-Returns P xs i v lt h = let (a, e) = index_ok xs i lt in rw e h

abbrev InSlot : {A : Type 0} → (A → Type 0) → Option A → Type 0
InSlot P none = Unit
InSlot P (some a) = P a

InSlots-set :
    {A : Type 0} (P : A → Type 0) (xs : List (Option A)) (i : ℕ) (v : Option A)
    → InSlot P v
    → InSlots P xs
    → InSlots P (set xs i v)
InSlots-set P [] i v h k = tt
InSlots-set P (none ∷ rest) zero none h k = k
InSlots-set P (none ∷ rest) zero (some a) h k = (h, k)
InSlots-set P (some b ∷ rest) zero none h k = k.1
InSlots-set P (some b ∷ rest) zero (some a) h k = (h, k.1)
InSlots-set P (none ∷ rest) (suc i) v h k = InSlots-set P rest i v h k
InSlots-set P (some b ∷ rest) (suc i) v h k = (k.0, InSlots-set P rest i v h k.1)

module _ {R : Type 0} where
  -- A state with a slot of each kind for `n` machines, which was made from `state`.
  pub record Slotted (n : ℕ) (state state' : SimState R) : Type 0 where
    pub actions : length state'.scheduled_action ≡ n
    pub timers : length state'.scheduled_internal_timer ≡ n
    pub timed : InSlots IsTimed state'.scheduled_action
    pub framework : state'.framework ≡ state.framework
    pub integration : state'.integration ≡ state.integration

  pub set_scheduled-Slotted :
      (n : ℕ) (state0 state : SimState R) (machine : MachineId) (slot : Option ScheduledAction)
      → machine < n
      → InSlot IsTimed slot
      → Slotted n state0 state
      → Returns (Slotted n state0) (set_scheduled state machine slot)
  set_scheduled-Slotted n state0 state machine slot lt k h =
      let xs = state.scheduled_action in
      Returns-bind (λ ys. (length ys ≡ n) × InSlots IsTimed ys) (Slotted n state0)
        (write xs machine slot) _
        (write-Returns (λ ys. (length ys ≡ n) × InSlots IsTimed ys) xs machine slot
          (omega (arith, h.actions, lt))
          (length-set xs machine slot ∙ h.actions, InSlots-set IsTimed xs machine slot k h.timed))
        λ ys ey q. record {
          actions = q.0;
          timers = h.timers;
          timed = q.1;
          framework = h.framework;
          integration = h.integration;
        }

  pub set_timer-Slotted :
      (n : ℕ) (state0 state : SimState R) (machine : MachineId) (slot : Option ℕ)
      → machine < n
      → Slotted n state0 state
      → Returns (Slotted n state0) (set_timer state machine slot)
  set_timer-Slotted n state0 state machine slot lt h =
      let xs = state.scheduled_internal_timer in
      Returns-bind (λ ys. length ys ≡ n) (Slotted n state0) (write xs machine slot) _
        (write-Returns (λ ys. length ys ≡ n) xs machine slot (omega (arith, h.timers, lt))
          (length-set xs machine slot ∙ h.timers))
        λ ys ey q. record {
          actions = h.actions;
          timers = q;
          timed = h.timed;
          framework = h.framework;
          integration = h.integration;
        }

  pub cancel-Slotted :
      (n : ℕ) (state0 state : SimState R) (machine : MachineId) (timer : Timer)
      → machine < n
      → Slotted n state0 state
      → Returns (Slotted n state0) (cancel state machine timer)
  unfolding cancel
  cancel-Slotted n state0 state machine Timer.action lt h =
      set_scheduled-Slotted n state0 state machine none lt tt h
  cancel-Slotted n state0 state machine Timer.internal lt h =
      set_timer-Slotted n state0 state machine none lt h
  cancel-Slotted n state0 state machine Timer.all lt h =
      Returns-bind (Slotted n state0) (Slotted n state0) (set_scheduled state machine none) _
        (set_scheduled-Slotted n state0 state machine none lt tt h)
        λ state' es h'. set_timer-Slotted n state0 state' machine none lt h'

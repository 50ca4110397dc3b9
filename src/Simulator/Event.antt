-- ===== src/Simulator/Event.antt =====
-- crates/maybenot-simulator/src/lib.rs: the events of the simulator and their order. A time is a
-- number of nanoseconds.
use maybenot.Prelude.{ℕ, Bool, false, true, Option, none, some}
use Prim.Native.Nat.{Ordering, compare}
use maybenot.Event.{TriggerEvent}

pub record SimEvent : Type 0 where
  pub event : TriggerEvent
  pub time : ℕ
  pub integration_delay : ℕ
  pub client : Bool
  pub contains_padding : Bool
  pub bypass : Bool
  pub replace : Bool
  pub propagate_base_delay : Option ℕ

abbrev pub event_to_usize : TriggerEvent → ℕ
event_to_usize TriggerEvent.tunnel_sent = 0
event_to_usize TriggerEvent.normal_sent = 1
event_to_usize (TriggerEvent.padding_sent machine) = 2
event_to_usize TriggerEvent.tunnel_recv = 3
event_to_usize TriggerEvent.normal_recv = 4
event_to_usize TriggerEvent.padding_recv = 5
event_to_usize (TriggerEvent.blocking_begin machine) = 6
event_to_usize TriggerEvent.blocking_end = 7
event_to_usize (TriggerEvent.timer_begin machine) = 8
event_to_usize (TriggerEvent.timer_end machine) = 9

abbrev pub then_with : Ordering → Ordering → Ordering
then_with Ordering.lt o = Ordering.lt
then_with Ordering.eq o = o
then_with Ordering.gt o = Ordering.gt

abbrev pub reverse : Ordering → Ordering
reverse Ordering.lt = Ordering.gt
reverse Ordering.eq = Ordering.eq
reverse Ordering.gt = Ordering.lt

-- By time, then by the number of the event.
abbrev pub cmp_from : ℕ → TriggerEvent → ℕ → TriggerEvent → Ordering
cmp_from t a u b = then_with (compare t u) (compare (event_to_usize a) (event_to_usize b))

-- `SimEvent::cmp`: the greatest is the earliest.
abbrev pub cmp : SimEvent → SimEvent → Ordering
cmp a b = reverse (cmp_from a.time a.event b.time b.event)

abbrev pub is_greater : Ordering → Bool
is_greater Ordering.gt = true
is_greater _ = false

-- The derived `>` of two options: `None` is the least.
abbrev pub greater : Option SimEvent → Option SimEvent → Bool
greater none b = false
greater (some a) none = true
greater (some a) (some b) = is_greater (cmp a b)

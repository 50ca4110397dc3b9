-- ===== src/Event.antt =====
-- crates/maybenot/src/event.rs.
use maybenot.Prelude.{ℕ, Bool, true, false, List, [], ◌∷◌, ◌==◌}
pub mod Order

-- `MachineId` of framework.rs, a number behind a name: `from_raw` and `into_raw` are the identity.
abbrev pub MachineId : Type 0
MachineId = ℕ

pub data Event : Type 0 where
  normal_recv padding_recv tunnel_recv normal_sent padding_sent tunnel_sent : Event
  blocking_begin blocking_end limit_reached counter_zero timer_begin timer_end signal : Event

-- `Event::iter`
abbrev pub events : List Event
events =
    Event.normal_recv ∷ Event.padding_recv ∷ Event.tunnel_recv ∷ Event.normal_sent
    ∷ Event.padding_sent ∷ Event.tunnel_sent ∷ Event.blocking_begin ∷ Event.blocking_end
    ∷ Event.limit_reached ∷ Event.counter_zero ∷ Event.timer_begin ∷ Event.timer_end ∷ Event.signal
    ∷ []

-- The discriminants are the positions of the declaration.
unfoldable pub to_usize : Event → ℕ
to_usize Event.normal_recv = 0
to_usize Event.padding_recv = 1
to_usize Event.tunnel_recv = 2
to_usize Event.normal_sent = 3
to_usize Event.padding_sent = 4
to_usize Event.tunnel_sent = 5
to_usize Event.blocking_begin = 6
to_usize Event.blocking_end = 7
to_usize Event.limit_reached = 8
to_usize Event.counter_zero = 9
to_usize Event.timer_begin = 10
to_usize Event.timer_end = 11
to_usize Event.signal = 12

pub data TriggerEvent : Type 0 where
  normal_recv padding_recv tunnel_recv normal_sent : TriggerEvent
  padding_sent : MachineId → TriggerEvent
  tunnel_sent : TriggerEvent
  blocking_begin : MachineId → TriggerEvent
  blocking_end : TriggerEvent
  timer_begin timer_end : MachineId → TriggerEvent

-- The derived `==` of a fieldless enum compares the discriminants.
abbrev pub event_eq : Event → Event → Bool
unfolding to_usize
event_eq a b = to_usize a == to_usize b

unfoldable pub is_event : TriggerEvent → Event → Bool
unfolding to_usize
is_event TriggerEvent.normal_recv e = event_eq e Event.normal_recv
is_event TriggerEvent.padding_recv e = event_eq e Event.padding_recv
is_event TriggerEvent.normal_sent e = event_eq e Event.normal_sent
is_event (TriggerEvent.padding_sent machine) e = event_eq e Event.padding_sent
is_event (TriggerEvent.blocking_begin machine) e = event_eq e Event.blocking_begin
is_event TriggerEvent.blocking_end e = event_eq e Event.blocking_end
is_event (TriggerEvent.timer_begin machine) e = event_eq e Event.timer_begin
is_event (TriggerEvent.timer_end machine) e = event_eq e Event.timer_end
is_event TriggerEvent.tunnel_sent e = event_eq e Event.tunnel_sent
is_event TriggerEvent.tunnel_recv e = event_eq e Event.tunnel_recv

-- ===== src/Simulator/Sides.antt =====
-- crates/maybenot-simulator/src/queue.rs: `SimQueue`, the queues of the client and the server.
use maybenot.Prelude.{
  ℕ, ◌+◌, Bool, true, false, Option, none, some, Outcome, ok, ◌>>=◌, ◌==◌, if◌then◌else◌, min,
}
use maybenot.Event.{TriggerEvent}
use maybenot.Simulator.Event.{SimEvent, cmp_from, is_greater, greater}
use maybenot.Simulator.Queue.{
  Heap, Queue, EventQueue, SimQueue, before, new_queue, peek_queue, pop_queue, push_sim, sim_len,
}
pub mod First

abbrev pub Peeked : Type 0
Peeked = Option SimEvent × Queue × ℕ

-- The choice of `SimQueue::peek` between what the two sides peek.
abbrev pub pick_side : Peeked → Peeked → Peeked
pick_side (some c, cq, cd) (none, sq, sd) = (some c, cq, cd)
pick_side (none, cq, cd) (some s, sq, sd) = (some s, sq, sd)
pick_side (none, cq, cd) (none, sq, sd) = (none, Queue.blocking, 0)
pick_side (some c, cq, cd) (some s, sq, sd) =
    if is_greater (cmp_from cd c.event sd s.event) then (some s, sq, sd) else (some c, cq, cd)

abbrev pub earlier_time : Option ℕ → Option ℕ → Option ℕ
earlier_time (some c) (some s) = some (min c s)
earlier_time (some c) none = some c
earlier_time none s = s

abbrev pub time_of : Option SimEvent → Option ℕ
time_of none = none
time_of (some e) = some e.time

module _ {H : Type 0} ⦃heap : Heap H⦄ where
  abbrev pub new_sim : SimQueue H
  new_sim = record { client = new_queue; server = new_queue; max_pps = none }

  abbrev pub is_empty_sim : SimQueue H → Bool
  is_empty_sim q = sim_len q == 0

  unfoldable pub push : SimQueue H → TriggerEvent → Bool → Bool → ℕ → ℕ → SimQueue H
  unfolding push_sim
  push q event is_client contains_padding time delay = push_sim q (record {
    event = event;
    time = time;
    integration_delay = delay;
    client = is_client;
    contains_padding = contains_padding;
    bypass = false;
    replace = false;
    propagate_base_delay = none;
  })

  unfoldable pub peek_sim : SimQueue H → ℕ → ℕ → Outcome Peeked
  peek_sim q delay now = if sim_len q == 0 then ok (none, Queue.blocking, 0) else (do
    client ← peek_queue q.client delay now
    server ← peek_queue q.server delay now
    ok (pick_side client server))

  -- The queue of a side.
  abbrev pub side : SimQueue H → Bool → EventQueue H
  side q true = q.client
  side q false = q.server

  abbrev pub set_side : SimQueue H → Bool → EventQueue H → SimQueue H
  set_side q true events = record q { client = events }
  set_side q false events = record q { server = events }

  unfoldable pub pop_sim : SimQueue H → Queue → Bool → ℕ → Outcome (Option SimEvent × SimQueue H)
  pop_sim q which is_client delay = do
    (e, events) ← pop_queue (side q is_client) which delay
    ok (e, set_side q is_client events)

  unfoldable pub pop_blocking :
      SimQueue H → Queue → Bool → Bool → ℕ → Outcome (Option SimEvent × SimQueue H)
  unfolding pop_sim
  pop_blocking q which bypassable is_client delay =
      if bypassable
      then (do
        (e, events) ← pop_queue (side q is_client) Queue.blocking delay
        ok (e, set_side q is_client events))
      else pop_sim q which is_client delay

  unfoldable pub peek_blocking : EventQueue H → Bool → Option SimEvent × Queue
  peek_blocking q active_blocking_bypassable =
      if active_blocking_bypassable
      then (heap.peek q.blocking, Queue.blocking)
      else (if greater (heap.peek q.blocking) (heap.peek q.bypassable)
          then (heap.peek q.blocking, Queue.blocking)
          else (heap.peek q.bypassable, Queue.bypassable))

  -- `EventQueue::peek_non_blocking`
  abbrev pub peek_unblocked : EventQueue H → ℕ → Option SimEvent × Queue
  peek_unblocked q delay =
      if before (heap.peek q.base) (heap.peek q.internal) delay
      then (heap.peek q.base, Queue.base)
      else (heap.peek q.internal, Queue.internal)

  unfoldable pub peek_non_blocking : EventQueue H → Bool → ℕ → Option SimEvent × Queue
  peek_non_blocking q bypassable delay =
      if bypassable
      then (if greater (heap.peek q.bypassable) (peek_unblocked q delay).0
          then (heap.peek q.bypassable, Queue.bypassable)
          else peek_unblocked q delay)
      else peek_unblocked q delay

  -- The first time of the base trace.
  abbrev pub get_first_time : SimQueue H → Option ℕ
  get_first_time q =
      earlier_time (time_of (heap.peek q.client.base)) (time_of (heap.peek q.server.base))

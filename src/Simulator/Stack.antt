-- ===== src/Simulator/Stack.antt =====
-- crates/maybenot-simulator/src/network.rs: `sim_network_stack`.
pub mod Packets
pub mod Safe
pub mod Arrival
use maybenot.Prelude.{
  ℕ, ◌+◌, ◌-◌, Bool, true, false, not, ◌&&◌, Option, none, some, Outcome, ok, ◌>>=◌, ltb,
  if◌then◌else◌,
}
use Prim.Native.Nat.{max}
use maybenot.Platform.{Floats}
use maybenot.Event.{TriggerEvent}
use maybenot.Simulator.Event.{SimEvent}
use maybenot.Simulator.Queue.{Heap, SimQueue, push_sim}
use maybenot.Simulator.Sides.{side, push, peek_blocking, pop_blocking}
use maybenot.Simulator.Integration.{Thread, reporting_delay}
use maybenot.Simulator.Network.{
  DelayHeap, NetworkBottleneck, sample_bottleneck, push_aggregate_delay,
}
use maybenot.Simulator.Sim.{SimState, unwrap_some, sub_instant}

abbrev pub same : Bool → Bool → Bool
same true b = b
same false b = not b

abbrev pub is_tunnel_sent : TriggerEvent → Bool
is_tunnel_sent TriggerEvent.tunnel_sent = true
is_tunnel_sent _ = false

-- Whether padding of the side can be replaced by the blocked event.
abbrev pub can_replace : Option SimEvent → Bool → Bool
can_replace none is_client = false
can_replace (some queued) is_client =
    same queued.client is_client && is_tunnel_sent queued.event && not queued.contains_padding

-- The packet into the tunnel that a sent event leads to.
abbrev pub tunnel_sent_from : SimEvent → Bool → Bool → Bool → SimEvent
tunnel_sent_from next contains_padding bypass replace = record {
  event = TriggerEvent.tunnel_sent;
  time = next.time;
  integration_delay = next.integration_delay;
  client = next.client;
  contains_padding = contains_padding;
  bypass = bypass;
  replace = replace;
  propagate_base_delay = none;
}

-- A blocked packet that goes out in place of bypassing padding.
abbrev pub release : SimEvent → ℕ → SimEvent
release entry now = record entry {
  bypass = true;
  replace = false;
  propagate_base_delay = if ltb entry.time now then some (now - entry.time) else none;
}

-- The base delay of a blocked packet and that of the network.
abbrev pub join_delays : Option ℕ → Option ℕ → Option ℕ
join_delays (some baseline) (some delay) = some (baseline + delay)
join_delays (some baseline) none = some baseline
join_delays none b = b

-- The packet at the other side.
abbrev pub received_at : SimEvent → ℕ → ℕ → Option ℕ → SimEvent
received_at next reported delay baseline = record {
  event = TriggerEvent.tunnel_recv;
  time = reported;
  integration_delay = delay;
  client = not next.client;
  contains_padding = next.contains_padding;
  bypass = false;
  replace = false;
  propagate_base_delay = baseline;
}

-- When the recipient is told, for a packet that needs `travel` in all.
unfoldable pub reported_time : SimEvent → ℕ → ℕ → Outcome ℕ
reported_time next travel now =
    if next.contains_padding
    then ok (next.time + next.integration_delay + travel)
    else (do sent ← sub_instant next.time next.integration_delay; ok (max (sent + travel) now))

module _ {H : Type 0} ⦃heap : Heap H⦄ where
  -- The arm of `PaddingSent`; `bypassable` is of the blocking, `delay` the aggregate base delay.
  unfoldable pub send_padding_packet : SimEvent → SimQueue H → Bool → ℕ → ℕ → Outcome (SimQueue H)
  send_padding_packet next sq bypassable delay now =
      let (queued, qid) = peek_blocking (side sq next.client) bypassable in
      if next.replace && can_replace queued next.client
      then (if not next.bypass then ok sq else (do
        (popped, sq') ← pop_blocking sq qid bypassable next.client delay
        entry ← unwrap_some popped
        ok (push_sim sq' (release entry now))))
      else ok (push_sim sq (tunnel_sent_from next true next.bypass next.replace))

  -- The last part of the arm of `TunnelRecv`.
  abbrev pub deliver : SimEvent → SimQueue H → SimQueue H
  deliver next sq =
      push sq
        (if next.contains_padding then TriggerEvent.padding_recv else TriggerEvent.normal_recv)
        next.client next.contains_padding next.time next.integration_delay

module _ {D : Type 0} ⦃delays : DelayHeap D⦄ where
  abbrev pub propagate : NetworkBottleneck D → SimEvent → ℕ → NetworkBottleneck D
  propagate network next now = elim next.propagate_base_delay [
    | none ↦ network
    | some bottleneck ↦ push_aggregate_delay network bottleneck now next.client
  ]

-- The results: whether there was network activity, the queue, the network and the generator.
module _ {H D R T : Type 0} ⦃heap : Heap H⦄ ⦃delays : DelayHeap D⦄ ⦃fl : Floats⦄
    ⦃th : Thread T⦄ where
  -- The arm of `TunnelSent`.
  unfoldable pub send_tunnel :
      SimEvent
      → SimQueue H
      → SimState R
      → NetworkBottleneck D
      → ℕ
      → T
      → Outcome (Bool × SimQueue H × NetworkBottleneck D × T)
  unfolding reported_time
  send_tunnel next sq recipient network now thread = do
    (delay, thread') ← reporting_delay recipient.integration thread
    let (network_delay, baseline, network') = sample_bottleneck network now next.client
    reported ← reported_time next (network_delay + delay) now
    let arrival = received_at next reported delay (join_delays next.propagate_base_delay baseline)
    ok (true, push_sim sq arrival, network', thread')

  stack_arm :
      TriggerEvent
      → SimEvent
      → SimQueue H
      → SimState R
      → SimState R
      → NetworkBottleneck D
      → ℕ
      → T
      → Outcome (Bool × SimQueue H × NetworkBottleneck D × T)
  unfolding send_padding_packet send_tunnel
  stack_arm TriggerEvent.normal_sent next sq state recipient network now thread =
      ok (false, push_sim sq (tunnel_sent_from next false false false), network, thread)
  stack_arm (TriggerEvent.padding_sent machine) next sq state recipient network now thread = do
    sq' ← send_padding_packet next sq state.blocking_bypassable network.aggregate_base_delay now
    ok (false, sq', network, thread)
  stack_arm TriggerEvent.tunnel_sent next sq state recipient network now thread =
      send_tunnel next sq recipient network now thread
  stack_arm TriggerEvent.tunnel_recv next sq state recipient network now thread =
      ok (true, deliver next sq, propagate network next now, thread)
  stack_arm _ next sq state recipient network now thread = ok (false, sq, network, thread)

  unfoldable pub sim_network_stack :
      SimEvent
      → SimQueue H
      → SimState R
      → SimState R
      → NetworkBottleneck D
      → ℕ
      → T
      → Outcome (Bool × SimQueue H × NetworkBottleneck D × T)
  unfolding stack_arm
  sim_network_stack next sq state recipient network now thread =
      stack_arm next.event next sq state recipient network now thread

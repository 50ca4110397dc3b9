-- ===== src/Simulator/Stack/Safe.antt =====
-- crates/maybenot-simulator/src/network.rs: `sim_network_stack` does not panic.
use maybenot.Prelude.{
  ℕ, ◌+◌, ◌≤◌, ◌≡◌, inl, inr, Bool, true, false, not, Option, none, some, ok, ◌>>=◌, ltb, if-both,
  Returns, Returns-bind, Returns-Ensures, Ensures, Ensures-bind, Bool-cases, arith,
}
use maybenot.Platform.{Floats}
use maybenot.Event.{TriggerEvent}
use maybenot.Simulator.Event.{SimEvent}
use maybenot.Simulator.Queue.{Heap, Queue, SimQueue, push_sim}
use maybenot.Simulator.Queue.Sided.{
  Aged, IsAged, PoppedFrom, BelongsIfAny, IsSided, push_sim-IsSided, pop_sim-PoppedFrom,
}
use maybenot.Simulator.Sides.{side, push, peek_blocking, pop_sim, pop_blocking}
use maybenot.Simulator.Integration.{Thread, reporting_delay}
use maybenot.Simulator.Network.{DelayHeap, NetworkBottleneck, sample_bottleneck}
use maybenot.Simulator.Sim.{SimState, unwrap_some}
use maybenot.Simulator.Slots.Actions.{Answers}
use maybenot.Simulator.Stack.{
  release, tunnel_sent_from, received_at, join_delays, reported_time, send_padding_packet, deliver,
  send_tunnel, stack_arm, sim_network_stack,
}
use maybenot.Simulator.Stack.Packets.{is_replaced, send_padding_packet-sim_len}

reported_time-le :
    (next : SimEvent) (travel now : ℕ)
    → (next.contains_padding ≡ false → next.integration_delay ≤ next.time)
    → Returns (λ t. travel ≤ t) (reported_time next travel now)
unfolding reported_time
reported_time-le next travel now h = elim (Bool-cases next.contains_padding) [
  | inl e ↦ rw e (omega arith)
  | inr e ↦
      let le = h e in
      let enough : ltb next.time next.integration_delay ≡ false = ground arith in
      rw (e, enough) (omega arith)
]

pub Aged-normal :
    (padding : Bool) (d t : ℕ) → Aged TriggerEvent.tunnel_sent padding d t → padding ≡ false → d ≤ t
Aged-normal true d t h e = cc
Aged-normal false d t h e = h

module _ {H : Type 0} ⦃heap : Heap H⦄ where
  pop_blocking-PoppedFrom :
      (sq : SimQueue H) (which : Queue) (bypassable is_client : Bool) (delay : ℕ)
      → IsSided sq
      → Ensures (PoppedFrom is_client) (pop_blocking sq which bypassable is_client delay)
  unfolding pop_blocking pop_sim
  pop_blocking-PoppedFrom sq which true is_client delay h =
      pop_sim-PoppedFrom sq Queue.blocking is_client delay h
  pop_blocking-PoppedFrom sq which false is_client delay h =
      pop_sim-PoppedFrom sq which is_client delay h

  push_released :
      (sq : SimQueue H) (o : Option SimEvent) (is_client : Bool) (now : ℕ)
      → BelongsIfAny is_client o
      → IsSided sq
      → Ensures IsSided (do entry ← unwrap_some o; ok (push_sim sq (release entry now)))
  push_released sq none is_client now b h = tt
  push_released sq (some e) is_client now b h = push_sim-IsSided sq (release e now) b.1 h

  send_padding_packet-IsSided :
      (next : SimEvent) (sq : SimQueue H) (bypassable : Bool) (delay now : ℕ)
      → IsSided sq
      → Ensures IsSided (send_padding_packet next sq bypassable delay now)
  unfolding send_padding_packet
  send_padding_packet-IsSided next sq bypassable delay now h =
      if-both (Ensures IsSided) (is_replaced next sq bypassable) _ _
        (λ e.
          if-both (Ensures IsSided) (not next.bypass) _ _ (λ b. h)
            (λ b.
              Ensures-bind (PoppedFrom next.client) IsSided
                (pop_blocking sq (peek_blocking (side sq next.client) bypassable).1 bypassable
                  next.client delay)
                _
                (pop_blocking-PoppedFrom sq (peek_blocking (side sq next.client) bypassable).1
                  bypassable next.client delay h)
                λ r er k. push_released r.1 r.0 next.client now k.0 k.1))
        (λ e. push_sim-IsSided sq (tunnel_sent_from next true next.bypass next.replace) tt h)

  deliver-IsSided :
      (next : SimEvent) (sq : SimQueue H)
      → next.integration_delay ≤ next.time
      → IsSided sq
      → IsSided (deliver next sq)
  unfolding push
  deliver-IsSided next sq le h = elim (Bool-cases next.contains_padding) [
    | inl e ↦ rw e (push_sim-IsSided sq _ le h)
    | inr e ↦ rw e (push_sim-IsSided sq _ le h)
  ]

module _ {H D R T : Type 0} ⦃heap : Heap H⦄ ⦃delays : DelayHeap D⦄ ⦃fl : Floats⦄
    ⦃th : Thread T⦄ where
  stack_arm-IsSided :
      (event : TriggerEvent) (next : SimEvent) (sq : SimQueue H) (state recipient : SimState R)
      (network : NetworkBottleneck D) (now : ℕ) (thread : T)
      → Aged event next.contains_padding next.integration_delay next.time
      → IsSided sq
      → Answers T recipient.integration
      → Returns (λ r. IsSided r.1) (stack_arm event next sq state recipient network now thread)
  unfolding stack_arm send_tunnel
  stack_arm-IsSided TriggerEvent.normal_sent next sq state recipient network now thread aged h k =
      push_sim-IsSided sq (tunnel_sent_from next false false false) aged h
  stack_arm-IsSided (TriggerEvent.padding_sent machine) next sq state recipient network now thread
        aged h k =
      let call =
        send_padding_packet next sq state.blocking_bypassable network.aggregate_base_delay now in
      Returns-bind IsSided (λ r. IsSided r.1) call _
        (Returns-Ensures _ IsSided call
          (send_padding_packet-sim_len next sq state.blocking_bypassable
            network.aggregate_base_delay now)
          (send_padding_packet-IsSided next sq state.blocking_bypassable
            network.aggregate_base_delay now h))
        λ sq' es k'. k'
  stack_arm-IsSided TriggerEvent.tunnel_sent next sq state recipient network now thread aged h k =
      Returns-bind (λ r. Unit {0}) (λ r. IsSided r.1) (reporting_delay recipient.integration thread)
        _ (k.reporting thread)
        λ d ed u.
          let sampled = sample_bottleneck network now next.client in
          Returns-bind (λ t. sampled.0 + d.0 ≤ t) (λ r. IsSided r.1)
            (reported_time next (sampled.0 + d.0) now) _
            (reported_time-le next (sampled.0 + d.0) now
              (Aged-normal next.contains_padding next.integration_delay next.time aged))
            λ t et le.
              push_sim-IsSided sq
                (received_at next t d.0 (join_delays next.propagate_base_delay sampled.1))
                (omega (arith, le)) h
  stack_arm-IsSided TriggerEvent.tunnel_recv next sq state recipient network now thread aged h k =
      deliver-IsSided next sq aged h
  stack_arm-IsSided event next sq state recipient network now thread aged h k = h

  -- `sim_network_stack` does not panic and leaves each event in the queues of its side and not before
  -- its own integration delay, padding that is sent apart, if that holds of the queues before, if the
  -- event itself is not before its delay, and if the recipient's integration can always draw its
  -- delays. Here instants and durations have no upper bound, so this says nothing of their overflow.
  pub sim_network_stack-IsSided :
      (next : SimEvent) (sq : SimQueue H) (state recipient : SimState R)
      (network : NetworkBottleneck D) (now : ℕ) (thread : T)
      → IsAged next
      → IsSided sq
      → Answers T recipient.integration
      → Returns (λ r. IsSided r.1) (sim_network_stack next sq state recipient network now thread)
  unfolding sim_network_stack
  sim_network_stack-IsSided next sq state recipient network now thread aged h k =
      stack_arm-IsSided next.event next sq state recipient network now thread aged h k

-- ===== src/Simulator/Stack/Packets.antt =====
-- crates/maybenot-simulator/src/network.rs: how many events `sim_network_stack` adds.
use maybenot.Prelude.{
  ℕ, suc, ◌+◌, ◌≡◌, refl, sym, ◌∙◌, inl, inr, Bool, true, false, ◌&&◌, Option, none, some, ok,
  ◌>>=◌, Returns, Returns-bind, Ensures, Ensures-after, Returns-Ensures-bind, if◌then◌else◌,
  Bool-cases, if-both, arith,
}
use maybenot.Platform.{Floats}
use maybenot.Event.{TriggerEvent}
use maybenot.Simulator.Event.{SimEvent}
use maybenot.Simulator.Queue.{
  Heap, Queue, EventQueue, SimQueue, queue_len, push_event, push_sim, pop_queue, sim_len,
}
use maybenot.Simulator.Queue.Earliest.{heap_of}
use maybenot.Simulator.Queue.Leads.{delay_in}
use maybenot.Simulator.Queue.Pop.{IsPopped, pop_queue-IsPopped}
use maybenot.Simulator.Sides.{side, set_side, push, peek_blocking, pop_sim, pop_blocking}
use maybenot.Simulator.Next.Named.{peek_blocking_source}
use maybenot.Simulator.Integration.{Thread, reporting_delay}
use maybenot.Simulator.Network.{DelayHeap, NetworkBottleneck, sample_bottleneck}
use maybenot.Simulator.Sim.{SimState, unwrap_some}
use maybenot.Simulator.Stack.{
  can_replace, release, tunnel_sent_from, reported_time, send_padding_packet, send_tunnel,
  stack_arm, sim_network_stack,
}

can_replace-some :
    (o : Option SimEvent) (is_client : Bool)
    → can_replace o is_client ≡ true
    → (e : SimEvent) × (o ≡ some e)
can_replace-some none is_client h = cc
can_replace-some (some e) is_client h = (e, refl)

and_right : (a b : Bool) → (a && b) ≡ true → b ≡ true
and_right true b h = h
and_right false b h = cc

module _ {H : Type 0} ⦃heap : Heap H⦄ where
  queue_len-push_event :
      (q : EventQueue H) (item : SimEvent) (event : TriggerEvent)
      → queue_len (push_event q item event) ≡ suc (queue_len q)
  unfolding push_event
  queue_len-push_event q item TriggerEvent.tunnel_sent = elim (Bool-cases item.bypass) [
    | inl e ↦ rw e (omega (arith, heap.push_len q.bypassable item))
    | inr e ↦ rw e (omega (arith, heap.push_len q.blocking item))
  ]
  queue_len-push_event q item TriggerEvent.normal_sent = omega (arith, heap.push_len q.base item)
  queue_len-push_event q item event = omega (arith, heap.push_len q.internal item)

  pub sim_len-push_sim :
      (sq : SimQueue H) (item : SimEvent) → sim_len (push_sim sq item) ≡ suc (sim_len sq)
  unfolding push_sim
  sim_len-push_sim sq item =
      if-both (λ (q : SimQueue H). sim_len q ≡ suc (sim_len sq)) item.client _ _
        (λ e. omega (arith, queue_len-push_event sq.client item item.event))
        (λ e. omega (arith, queue_len-push_event sq.server item item.event))

  sim_len-set_side :
      (sq : SimQueue H) (is_client : Bool) (q : EventQueue H)
      → queue_len (side sq is_client) ≡ suc (queue_len q)
      → sim_len sq ≡ suc (sim_len (set_side sq is_client q))
  sim_len-set_side sq true q h = omega (arith, h)
  sim_len-set_side sq false q h = omega (arith, h)

  peek_blocking-blocking : (q : EventQueue H) → (peek_blocking q true).1 ≡ Queue.blocking
  unfolding peek_blocking
  peek_blocking-blocking q = refl

  -- What `pop_blocking` yields.
  record IsTaken (sq : SimQueue H) (r : Option SimEvent × SimQueue H) : Type 0 where
    pub entry : SimEvent
    pub some_event : r.0 ≡ some entry
    pub shorter : sim_len sq ≡ suc (sim_len r.1)

  take_side :
      (sq : SimQueue H) (which : Queue) (is_client : Bool) (e : SimEvent) (delay : ℕ)
      → heap.peek (heap_of (side sq is_client) which) ≡ some e
      → Returns (IsTaken sq) (pop_sim sq which is_client delay)
  unfolding pop_sim
  take_side sq which is_client e delay at =
      Returns-bind (IsPopped (side sq is_client) which e (delay_in which delay)) (IsTaken sq)
        (pop_queue (side sq is_client) which delay) _
        (pop_queue-IsPopped (side sq is_client) which e delay at)
        λ r er h. record {
          entry = h.item;
          some_event = h.some_event;
          shorter = sim_len-set_side sq is_client r.1 h.shorter;
        }

  pop_blocking-IsTaken :
      (sq : SimQueue H) (bypassable is_client : Bool) (e : SimEvent) (delay : ℕ)
      → (peek_blocking (side sq is_client) bypassable).0 ≡ some e
      → Returns (IsTaken sq) (
          pop_blocking sq
            (peek_blocking (side sq is_client) bypassable).1
            bypassable
            is_client
            delay)
  unfolding pop_blocking pop_sim
  pop_blocking-IsTaken sq true is_client e delay at =
      take_side sq Queue.blocking is_client e delay (
        rw (sym (peek_blocking-blocking (side sq is_client)))
          (peek_blocking_source (side sq is_client) true ∙ at))
  pop_blocking-IsTaken sq false is_client e delay at =
      take_side sq (peek_blocking (side sq is_client) false).1 is_client e delay
        (peek_blocking_source (side sq is_client) false ∙ at)

  -- Whether padding is replaced by a packet that is blocked.
  abbrev pub is_replaced : SimEvent → SimQueue H → Bool → Bool
  is_replaced next sq bypassable =
      next.replace && can_replace (peek_blocking (side sq next.client) bypassable).0 next.client

  replace_packet :
      (next : SimEvent) (sq : SimQueue H) (bypassable : Bool) (delay now : ℕ)
      → is_replaced next sq bypassable ≡ true
      → Returns
          (λ sq'. sim_len sq' ≡ sim_len sq + 0)
          (do
            (popped, sq') ←
                pop_blocking sq
                  (peek_blocking (side sq next.client) bypassable).1
                  bypassable
                  next.client
                  delay
            entry ← unwrap_some popped
            ok (push_sim sq' (release entry now)))
  replace_packet next sq bypassable delay now e =
      let (queued, at) =
        can_replace-some (peek_blocking (side sq next.client) bypassable).0 next.client
          (and_right next.replace _ e) in
      Returns-bind (IsTaken sq) (λ sq'. sim_len sq' ≡ sim_len sq + 0)
        (pop_blocking sq (peek_blocking (side sq next.client) bypassable).1 bypassable next.client
          delay)
        _ (pop_blocking-IsTaken sq bypassable next.client queued delay at)
        λ r er h.
          rw h.some_event (omega (arith, h.shorter, sim_len-push_sim r.1 (release h.entry now)))

  -- Padding that is sent never panics, also where it takes a blocked packet out of its queue and puts it
  -- back to go first. It adds exactly one packet to the queues, unless a packet of its side that is
  -- blocked replaces it: then there are as many as before.
  pub send_padding_packet-sim_len :
      (next : SimEvent) (sq : SimQueue H) (bypassable : Bool) (delay now : ℕ)
      → Returns
          (λ sq'. sim_len sq' ≡ sim_len sq + (if is_replaced next sq bypassable then 0 else 1))
          (send_padding_packet next sq bypassable delay now)
  unfolding send_padding_packet
  send_padding_packet-sim_len next sq bypassable delay now =
      elim (Bool-cases (is_replaced next sq bypassable)) [
        | inr e ↦ rw e (
            omega
              (arith, sim_len-push_sim sq (tunnel_sent_from next true next.bypass next.replace)))
        | inl e ↦ rw e (elim (Bool-cases next.bypass) [
          | inr b ↦ rw b (omega arith)
          | inl b ↦ rw b (replace_packet next sq bypassable delay now e)
        ])
      ]

-- Network activity is a packet that enters or leaves the tunnel.
abbrev pub is_activity : TriggerEvent → Bool
is_activity TriggerEvent.tunnel_sent = true
is_activity TriggerEvent.tunnel_recv = true
is_activity _ = false

module _ {H : Type 0} ⦃heap : Heap H⦄ where
  -- How many events follow an event: none from those that are no packets, or from replaced padding.
  abbrev pub followers : TriggerEvent → SimEvent → SimQueue H → Bool → ℕ
  followers TriggerEvent.normal_sent next sq bypassable = 1
  followers TriggerEvent.tunnel_sent next sq bypassable = 1
  followers TriggerEvent.tunnel_recv next sq bypassable = 1
  followers (TriggerEvent.padding_sent machine) next sq bypassable =
      if is_replaced next sq bypassable then 0 else 1
  followers _ next sq bypassable = 0

  -- What the stack reports, and how many events it adds.
  abbrev Follows : TriggerEvent → SimEvent → SimQueue H → Bool → Bool → SimQueue H → Type 0
  Follows event next sq bypassable activity sq' =
      (activity ≡ is_activity event)
      × (sim_len sq' ≡ sim_len sq + followers event next sq bypassable)

module _ {H D R T : Type 0} ⦃heap : Heap H⦄ ⦃delays : DelayHeap D⦄ ⦃fl : Floats⦄
    ⦃th : Thread T⦄ where
  stack_arm-Follows :
      (event : TriggerEvent) (next : SimEvent) (sq : SimQueue H) (state recipient : SimState R)
      (network : NetworkBottleneck D) (now : ℕ) (thread : T)
      → Ensures
          (λ r. Follows event next sq state.blocking_bypassable r.0 r.1)
          (stack_arm event next sq state recipient network now thread)
  unfolding stack_arm send_tunnel push
  stack_arm-Follows TriggerEvent.normal_sent next sq state recipient network now thread =
      (refl, omega (arith, sim_len-push_sim sq (tunnel_sent_from next false false false)))
  stack_arm-Follows (TriggerEvent.padding_sent machine) next sq state recipient network now thread =
      Returns-Ensures-bind _
        (λ r. Follows (TriggerEvent.padding_sent machine) next sq state.blocking_bypassable r.0 r.1)
        (send_padding_packet next sq state.blocking_bypassable network.aggregate_base_delay now) _
        (send_padding_packet-sim_len next sq state.blocking_bypassable network.aggregate_base_delay
          now)
        λ sq' h. (refl, h)
  stack_arm-Follows TriggerEvent.tunnel_sent next sq state recipient network now thread =
      Ensures-after
        (λ r. Follows TriggerEvent.tunnel_sent next sq state.blocking_bypassable r.0 r.1)
        (reporting_delay recipient.integration thread) _
        λ d ed.
          Ensures-after
            (λ r. Follows TriggerEvent.tunnel_sent next sq state.blocking_bypassable r.0 r.1)
            (reported_time next ((sample_bottleneck network now next.client).0 + d.0) now) _
            λ t et. (refl, omega (arith, sim_len-push_sim {H = H}))
  stack_arm-Follows TriggerEvent.tunnel_recv next sq state recipient network now thread =
      (refl, omega (arith, sim_len-push_sim {H = H}))
  stack_arm-Follows event next sq state recipient network now thread = (refl, omega arith)

  -- `sim_network_stack` reports network activity exactly for packets that enter or leave the tunnel. It
  -- adds one event to the queues for each packet that is sent or received, and none for another event or
  -- for padding that a blocked packet replaces.
  pub sim_network_stack-followers :
      (next : SimEvent) (sq : SimQueue H) (state recipient : SimState R)
      (network : NetworkBottleneck D) (now : ℕ) (thread : T)
      → Ensures
          (λ r.
            (r.0 ≡ is_activity next.event)
            × (sim_len r.1 ≡ sim_len sq + followers next.event next sq state.blocking_bypassable))
          (sim_network_stack next sq state recipient network now thread)
  unfolding sim_network_stack
  sim_network_stack-followers next sq state recipient network now thread =
      stack_arm-Follows next.event next sq state recipient network now thread

-- ===== src/Simulator/Pick/Total.antt =====
-- crates/maybenot-simulator/src/lib.rs: `pick_next` returns.
use maybenot.Prelude.{
  ℕ, zero, suc, min, ◌≤◌, ◌<◌, ◌≡◌, refl, ◌∙◌, inl, inr, Bool, Option, none, some, ltb, if-both,
  Returns, Returns-bind, Returns-mono, Option-cases, arith,
}
use maybenot.Time.{duration_max}
use maybenot.Platform.{Floats}
use maybenot.Simulator.Event.{SimEvent}
use maybenot.Simulator.Queue.{Heap}
use maybenot.Simulator.Peek.{peek_blocked_exp}
use maybenot.Simulator.Peek.Soonest.{
  peek_scheduled_action-IsSoonest, peek_scheduled_internal_timer-IsSoonest,
}
use maybenot.Simulator.Integration.{Thread}
use maybenot.Simulator.Network.{
  PendingAggregateDelay, DelayHeap, peek_aggregate_delay, pop_aggregate_delay,
}
use maybenot.Simulator.Sim.{Sim}
use maybenot.Simulator.Next.{Found, peek_next}
use maybenot.Simulator.Next.Named.{IsNamed, peek_next-IsNamed}
use maybenot.Simulator.Slots.Found.{Keeps, Keeps-refl}
use maybenot.Simulator.Slots.Actions.{Keeps-trans}
use maybenot.Simulator.Pick.{
  Earliest, earliest_of, Picked, pick_earliest, next_action, next_timer, next_blocking_end,
  pick_step, finish, pick_bounded, pending, pick_next,
}
use maybenot.Simulator.Pick.Order.{peek_of, earliest_of-lt}
use maybenot.Simulator.Pick.Step.{
  NotBefore, IsReady, IsStep, pick_queued-IsStep, pick_blocking_end-IsStep, pick_timer-IsStep,
  pick_action-IsStep,
}

peek_blocked_exp-le : (c s : Option ℕ) (now : ℕ) → (peek_blocked_exp c s now).0 ≤ duration_max
unfolding peek_blocked_exp
peek_blocked_exp-le none none now = omega arith
peek_blocked_exp-le none (some s) now = omega arith
peek_blocked_exp-le (some c) none now = omega arith
peek_blocked_exp-le (some c) (some s) now =
    if-both (λ (r : ℕ × Bool). r.0 ≤ duration_max) (ltb c s) _ _ (λ e. omega arith)
      (λ e. omega arith)

module _ {H D R T : Type 0} ⦃heap : Heap H⦄ ⦃delays : DelayHeap D⦄ ⦃fl : Floats⦄
    ⦃th : Thread T⦄ where
  peek_aggregate_delay-le :
      (sim : Sim H D R T) (now : ℕ) → peek_aggregate_delay sim.network now ≤ duration_max
  peek_aggregate_delay-le sim now =
      elim (Option-cases (delays.peek sim.network.aggregate_delay_queue)) [
        | inl e ↦ rw e (omega arith)
        | inr (p, e) ↦ rw e (omega arith)
      ]

  pop_aggregate-IsStep :
      (sim : Sim H D R T) (now : ℕ) (o : Option PendingAggregateDelay)
      → delays.peek sim.network.aggregate_delay_queue ≡ o
      → IsReady sim
      → peek_aggregate_delay sim.network now < duration_max
      → IsStep sim now (Picked.again, record sim { network = pop_aggregate_delay sim.network })
  unfolding pop_aggregate_delay
  pop_aggregate-IsStep sim now none e h lt = absurd (omega (arith, rw e at lt))
  pop_aggregate-IsStep sim now (some p) e h lt =
      let q = sim.network.aggregate_delay_queue in
      record {
        not_before = tt;
        progress =
            rw (delays.pop_peek q ∙ e, pop_aggregate_delay)
              (omega (arith, delays.pop_sum q p (λ d. 1) e));
        ready = record {
          sided = h.sided;
          client_timed = h.client_timed;
          server_timed = h.server_timed;
          client_answers = h.client_answers;
          server_answers = h.server_answers;
        };
        client = Keeps-refl sim.client;
        server = Keeps-refl sim.server;
      }

  pick_earliest-IsStep :
      (sim : Sim H D R T) (now : ℕ) (found : Found) (choice : Earliest)
      → IsReady sim
      → IsNamed sim.sq found
      → peek_of choice
          (next_action sim now)
          (next_timer sim now)
          (next_blocking_end sim now).0
          (peek_aggregate_delay sim.network now)
          found.0
        < duration_max
      → Returns (IsStep sim now) (
          pick_earliest choice sim now
            (next_action sim now)
            (next_timer sim now)
            (next_blocking_end sim now)
            found)
  unfolding pick_earliest
  pick_earliest-IsStep sim now found Earliest.nothing h named lt = record {
    not_before = tt;
    progress = tt;
    ready = h;
    client = Keeps-refl sim.client;
    server = Keeps-refl sim.server;
  }
  pick_earliest-IsStep sim now found Earliest.aggregate h named lt =
      pop_aggregate-IsStep sim now (delays.peek sim.network.aggregate_delay_queue) refl h lt
  pick_earliest-IsStep sim now found Earliest.queued h named lt =
      pick_queued-IsStep sim now found h named lt
  pick_earliest-IsStep sim now found Earliest.blocking_end h named lt =
      pick_blocking_end-IsStep sim now (next_blocking_end sim now) h
  pick_earliest-IsStep sim now found Earliest.timer h named lt = pick_timer-IsStep sim now h lt
  pick_earliest-IsStep sim now found Earliest.action h named lt = pick_action-IsStep sim now h lt

  pick_step-IsStep :
      (sim : Sim H D R T) (now : ℕ) → IsReady sim → Returns (IsStep sim now) (pick_step sim now)
  unfolding pick_step
  pick_step-IsStep sim now h =
      let s = next_action sim now in
      let i = next_timer sim now in
      let b = next_blocking_end sim now in
      let n = peek_aggregate_delay sim.network now in
      Returns-bind (IsNamed sim.sq) (IsStep sim now)
        (peek_next sim.sq sim.client sim.server sim.network.aggregate_base_delay
          (min (min (min s i) b.0) n) now)
        _
        (peek_next-IsNamed sim.sq sim.client sim.server sim.network.aggregate_base_delay
          (min (min (min s i) b.0) n) now h.sided)
        λ found ef named.
          pick_earliest-IsStep sim now found (earliest_of s i b.0 n found.0) h named (
            earliest_of-lt s i b.0 n found.0 (record {
              action =
                  (peek_scheduled_action-IsSoonest sim.client.scheduled_action
                    sim.server.scheduled_action now).below;
              timer =
                  (peek_scheduled_internal_timer-IsSoonest sim.client.scheduled_internal_timer
                    sim.server.scheduled_internal_timer now).below;
              blocking_end =
                  peek_blocked_exp-le sim.client.blocking_until sim.server.blocking_until now;
              delay = peek_aggregate_delay-le sim now;
              queue = named.0;
            }))

  -- What `pick_next` yields.
  pub record IsPick (sim : Sim H D R T) (now : ℕ) (r : Option SimEvent × Sim H D R T) : Type 0 where
    pub not_before : NotBefore now r.0
    pub ready : IsReady r.1
    pub client : Keeps sim.client r.1.client
    pub server : Keeps sim.server r.1.server

  -- The rest of the calls, after one.
  finish-IsPick :
      (k : ℕ) (sim : Sim H D R T) (now : ℕ) (r : Picked × Sim H D R T)
      → pending sim < suc k
      → IsStep sim now r
      → (pending r.1 < k → IsReady r.1 → Returns (IsPick r.1 now) (pick_bounded k r.1 now))
      → Returns (IsPick sim now) (finish r.0 r.1 (pick_bounded k r.1 now))
  finish-IsPick k sim now (Picked.done e, sim') lt st rest = record {
    not_before = st.not_before;
    ready = st.ready;
    client = st.client;
    server = st.server;
  }
  finish-IsPick k sim now (Picked.again, sim') lt st rest =
      Returns-mono (IsPick sim' now) (IsPick sim now) (pick_bounded k sim' now)
        (λ r p. record {
          not_before = p.not_before;
          ready = p.ready;
          client = Keeps-trans sim.client sim'.client r.1.client st.client p.client;
          server = Keeps-trans sim.server sim'.server r.1.server st.server p.server;
        })
        (rest (omega (arith, st.progress, lt)) st.ready)

  pick_bounded-IsPick :
      (k : ℕ) (sim : Sim H D R T) (now : ℕ)
      → pending sim < k
      → IsReady sim
      → Returns (IsPick sim now) (pick_bounded k sim now)
  unfolding pick_bounded
  pick_bounded-IsPick zero sim now lt h = absurd (omega arith)
  pick_bounded-IsPick (suc k) sim now lt h =
      Returns-bind (IsStep sim now) (IsPick sim now) (pick_step sim now) _
        (pick_step-IsStep sim now h)
        λ r er st. finish-IsPick k sim now r lt st (pick_bounded-IsPick k r.1 now)

  -- `pick_next` returns: it calls itself no more often than delays, timers and actions are pending,
  -- never comes to its assertions, nor to an `unwrap` of nothing. It does so if every event is in the
  -- queues of its side, if the scheduled actions are padding or blocking, and if the delays of the
  -- integrations can be drawn; and all this holds after it. The event that it yields, if any, is not
  -- before the current time, so that the main loop never moves time backwards. The frameworks,
  -- the integrations and the numbers of slots stay as they were.
  pub pick_next-IsPick :
      (sim : Sim H D R T) (now : ℕ) → IsReady sim → Returns (IsPick sim now) (pick_next sim now)
  unfolding pick_next
  pick_next-IsPick sim now h = pick_bounded-IsPick (suc (pending sim)) sim now (omega arith) h

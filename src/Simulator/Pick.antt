-- ===== src/Simulator/Pick.antt =====
-- crates/maybenot-simulator/src/lib.rs: `pick_next`.
pub mod Order
pub mod Step
pub mod Total
use maybenot.Prelude.{
  ℕ, zero, suc, ◌+◌, ◌-◌, min, Bool, true, false, not, ◌&&◌, Option, none, some, Outcome, ok,
  unfinished, ◌>>=◌, ltb, leb, ◌==◌, if◌then◌else◌,
}
use maybenot.Platform.{Floats}
use maybenot.Time.{duration_max}
use maybenot.Event.{TriggerEvent}
use maybenot.Simulator.Event.{SimEvent}
use maybenot.Simulator.Queue.{Heap, push_sim}
use maybenot.Simulator.Sides.{pop_sim}
use maybenot.Simulator.Peek.{peek_scheduled_action, peek_scheduled_internal_timer, peek_blocked_exp}
use maybenot.Simulator.Integration.{Thread, reporting_delay}
use maybenot.Simulator.Network.{DelayHeap, sum_of, peek_aggregate_delay, pop_aggregate_delay}
use maybenot.Simulator.Sim.{Sim, unwrap_some}
use maybenot.Simulator.Next.{Found, peek_next}
use maybenot.Simulator.Slots.{plain_event, do_internal_timer, do_scheduled_action, set_slots}

-- What is earliest: nothing, an aggregate delay, the queue, the end of a blocking, an internal timer
-- or a scheduled action.
pub data Earliest : Type 0 where
  nothing aggregate queued blocking_end timer action : Earliest

-- The tests of `pick_next` in their order.
unfoldable pub earliest_of : ℕ → ℕ → ℕ → ℕ → ℕ → Earliest
earliest_of s i b n q =
    if s == duration_max
      && i == duration_max
      && b == duration_max
      && n == duration_max
      && q == duration_max
    then Earliest.nothing
    else (if leb n s && leb n i && leb n b && leb n q
        then Earliest.aggregate
        else (if leb q s && leb q i && leb q b
            then Earliest.queued
            else (if leb b s && leb b i
                then Earliest.blocking_end
                else (if leb i s then Earliest.timer else Earliest.action))))

-- Whether `pick_next` returns, with an event or none, or calls itself.
pub data Picked : Type 0 where
  done : Option SimEvent → Picked
  again : Picked

-- A blocked event goes out at `target`, and tells its delay if time moves for it.
unfoldable pub move_forward : SimEvent → ℕ → ℕ → SimEvent
move_forward e now q =
    if ltb e.time (now + q)
    then record e {
      time = now + q;
      propagate_base_delay =
          if ltb 0 q && not e.contains_padding
          then some ((now + q) - e.time)
          else e.propagate_base_delay;
    }
    else e

module _ {H D R T : Type 0} where
  -- `return`, or the rest of the calls.
  abbrev pub finish :
      Picked
      → Sim H D R T
      → Outcome (Option SimEvent × Sim H D R T)
      → Outcome (Option SimEvent × Sim H D R T)
  finish (Picked.done e) sim rest = ok (e, sim)
  finish Picked.again sim rest = rest

module _ {H D R T : Type 0} ⦃heap : Heap H⦄ ⦃delays : DelayHeap D⦄ ⦃fl : Floats⦄
    ⦃th : Thread T⦄ where
  unfoldable pub pick_queued : Sim H D R T → ℕ → Found → Outcome (Picked × Sim H D R T)
  unfolding move_forward
  pick_queued sim now (q, qid, is_client) = do
    (popped, sq) ← pop_sim sim.sq qid is_client sim.network.aggregate_base_delay
    e ← unwrap_some popped
    ok (Picked.done (some (move_forward e now q)), record sim { sq = sq })

  unfoldable pub pick_blocking_end : Sim H D R T → ℕ → ℕ × Bool → Outcome (Picked × Sim H D R T)
  pick_blocking_end sim now (b, true) = do
    (delay, thread) ← reporting_delay sim.client.integration sim.thread
    ok (
      Picked.done (some (plain_event TriggerEvent.blocking_end (now + b + delay) delay true false)),
      record sim { client = record sim.client { blocking_until = none }; thread = thread },
    )
  pick_blocking_end sim now (b, false) = do
    (delay, thread) ← reporting_delay sim.server.integration sim.thread
    ok (
      Picked.done
          (some (plain_event TriggerEvent.blocking_end (now + b + delay) delay false false)),
      record sim { server = record sim.server { blocking_until = none }; thread = thread },
    )

  unfoldable pub pick_timer : Sim H D R T → ℕ → Outcome (Picked × Sim H D R T)
  unfolding do_internal_timer
  pick_timer sim target = do
    (e, client, server) ← do_internal_timer sim.client sim.server target
    ok (Picked.again, record sim { sq = push_sim sim.sq e; client = client; server = server })

  unfoldable pub pick_action : Sim H D R T → ℕ → Outcome (Picked × Sim H D R T)
  unfolding do_scheduled_action
  pick_action sim target = do
    (e, client, server, thread) ← do_scheduled_action sim.client sim.server target sim.thread
    ok (
      Picked.again,
      record sim { sq = push_sim sim.sq e; client = client; server = server; thread = thread },
    )

  unfoldable pub pick_earliest :
      Earliest → Sim H D R T → ℕ → ℕ → ℕ → ℕ × Bool → Found → Outcome (Picked × Sim H D R T)
  unfolding pick_queued pick_blocking_end pick_timer pick_action
  pick_earliest Earliest.nothing sim now s i b found = ok (Picked.done none, sim)
  pick_earliest Earliest.aggregate sim now s i b found =
      ok (Picked.again, record sim { network = pop_aggregate_delay sim.network })
  pick_earliest Earliest.queued sim now s i b found = pick_queued sim now found
  pick_earliest Earliest.blocking_end sim now s i b found = pick_blocking_end sim now b
  pick_earliest Earliest.timer sim now s i b found = pick_timer sim (now + i)
  pick_earliest Earliest.action sim now s i b found = pick_action sim (now + s)

  -- The peeks of `pick_next`.
  abbrev pub next_action : Sim H D R T → ℕ → ℕ
  next_action sim now =
      peek_scheduled_action sim.client.scheduled_action sim.server.scheduled_action now

  abbrev pub next_timer : Sim H D R T → ℕ → ℕ
  next_timer sim now =
      peek_scheduled_internal_timer sim.client.scheduled_internal_timer
        sim.server.scheduled_internal_timer now

  abbrev pub next_blocking_end : Sim H D R T → ℕ → ℕ × Bool
  next_blocking_end sim now =
      peek_blocked_exp sim.client.blocking_until sim.server.blocking_until now

  -- One call of `pick_next`, up to its call of itself.
  unfoldable pub pick_step : Sim H D R T → ℕ → Outcome (Picked × Sim H D R T)
  unfolding pick_earliest
  pick_step sim now =
      let s = next_action sim now in
      let i = next_timer sim now in
      let b = next_blocking_end sim now in
      let n = peek_aggregate_delay sim.network now in
      do
        found ←
            peek_next sim.sq sim.client sim.server sim.network.aggregate_base_delay
              (min (min (min s i) b.0) n) now
        pick_earliest (earliest_of s i b.0 n found.0) sim now s i b found

  -- The bound is on the calls of `pick_next` by itself.
  unfoldable pub pick_bounded : ℕ → Sim H D R T → ℕ → Outcome (Option SimEvent × Sim H D R T)
  unfolding pick_step
  pick_bounded zero sim now = unfinished
  pick_bounded (suc k) sim now = do
    (picked, sim') ← pick_step sim now
    let rest = pick_bounded k sim' now
    finish picked sim' rest

  -- How many calls can follow: each takes out a pending delay, a timer or an action.
  abbrev pub pending : Sim H D R T → ℕ
  pending sim =
      sum_of (λ d. 1) (delays.contents sim.network.aggregate_delay_queue)
      + set_slots sim.client.scheduled_internal_timer
      + set_slots sim.server.scheduled_internal_timer
      + set_slots sim.client.scheduled_action
      + set_slots sim.server.scheduled_action

  unfoldable pub pick_next : Sim H D R T → ℕ → Outcome (Option SimEvent × Sim H D R T)
  unfolding pick_bounded
  pick_next sim now = pick_bounded (suc (pending sim)) sim now

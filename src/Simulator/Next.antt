-- ===== src/Simulator/Next.antt =====
-- crates/maybenot-simulator/src/peek.rs: the next event of the queues, blocking taken into account.
pub mod Named
use maybenot.Prelude.{
  ℕ, ◌+◌, Bool, true, false, not, ◌&&◌, ◌||◌, Option, none, some, Outcome, ok, ◌>>=◌, ltb, leb,
  if◌then◌else◌,
}
use Prim.Native.Nat.{max, compare, Ordering}
use maybenot.Event.{Event, is_event}
use maybenot.Simulator.Event.{SimEvent}
use maybenot.Simulator.Queue.{Heap, Queue, SimQueue}
use maybenot.Simulator.Sides.{side, is_empty_sim, peek_sim, peek_blocking, peek_non_blocking}
use maybenot.Time.{duration_max, duration_since}
use maybenot.Simulator.Network.{unwrap_or}
use maybenot.Simulator.Sim.{SimState, unwrap_some}

abbrev pub is_some {ℓ} : {A : Type ℓ} → Option A → Bool
is_some none = false
is_some (some a) = true

abbrev pub is_base : Queue → Bool
is_base Queue.base = true
is_base _ = false

-- The network delay is for the base events.
abbrev pub delayed_time : SimEvent → Queue → ℕ → ℕ
delayed_time e which delay = if is_base which then e.time + delay else e.time

abbrev pub Found : Type 0
Found = ℕ × Queue × Bool

-- On equal times the blocking queue goes first, unless the other is the base queue.
abbrev pub blocking_first : ℕ → ℕ → Queue → Bool
blocking_first b n which = elim (compare b n) [
  | Ordering.lt ↦ true
  | Ordering.gt ↦ false
  | Ordering.eq ↦ not (is_base which)
]

-- The rest of `peek_queue_earliest_side`, from the two peeks: of a blocked event, from when on it can
-- go; and of one that is not blocked.
unfoldable pub choose_of_side :
    Option SimEvent × Queue → Option SimEvent × Queue → ℕ → ℕ → ℕ → Bool → Found
choose_of_side (none, bq) (none, nq) until now delay is_client =
    (duration_max, Queue.blocking, is_client)
choose_of_side (none, bq) (some n, nq) until now delay is_client =
    (duration_since (delayed_time n nq delay) now, nq, is_client)
choose_of_side (some b, bq) (none, nq) until now delay is_client =
    (duration_since (max b.time until) now, bq, is_client)
choose_of_side (some b, bq) (some n, nq) until now delay is_client =
    if blocking_first (max b.time until) (delayed_time n nq delay) nq
    then (duration_since (max b.time until) now, bq, is_client)
    else (duration_since (delayed_time n nq delay) now, nq, is_client)

module _ {H : Type 0} ⦃heap : Heap H⦄ where
  unfoldable pub peek_queue_earliest_side : SimQueue H → Option ℕ → Bool → ℕ → ℕ → Bool → Found
  unfolding choose_of_side
  peek_queue_earliest_side sq blocking_until bypassable now delay is_client =
      choose_of_side (peek_blocking (side sq is_client) bypassable)
        (peek_non_blocking (side sq is_client) bypassable delay) (unwrap_or blocking_until now) now
        delay is_client

module _ {R : Type 0} where
  -- Whether blocking does not hold the peeked event back.
  abbrev pub may_go : SimEvent → SimState R → SimState R → Bool
  may_go peek client server =
      not (is_event peek.event Event.tunnel_sent)
      || (not (is_some client.blocking_until) && not (is_some server.blocking_until))
      || ((peek.client && not (is_some client.blocking_until))
          || (not peek.client && not (is_some server.blocking_until)))
      || ((peek.client
            && is_some client.blocking_until
            && client.blocking_bypassable
            && is_event peek.event Event.tunnel_sent
            && peek.bypass)
          || (not peek.client
              && is_some server.blocking_until
              && server.blocking_bypassable
              && is_event peek.event Event.tunnel_sent
              && peek.bypass))

abbrev pub sooner_found : Found → Found → Found
sooner_found c s = if leb c.0 s.0 then c else s

module _ {H R : Type 0} ⦃heap : Heap H⦄ where
  unfoldable pub peek_both_sides : SimQueue H → SimState R → SimState R → ℕ → ℕ → Found
  unfolding peek_queue_earliest_side
  peek_both_sides sq client server delay now =
      sooner_found
        (peek_queue_earliest_side sq client.blocking_until client.blocking_bypassable now delay
          true)
        (peek_queue_earliest_side sq server.blocking_until server.blocking_bypassable now delay
          false)

  -- `peek_queue`
  unfoldable pub peek_next : SimQueue H → SimState R → SimState R → ℕ → ℕ → ℕ → Outcome Found
  unfolding peek_both_sides
  peek_next sq client server delay earliest now =
      if is_empty_sim sq then ok (duration_max, Queue.blocking, false) else (do
        (peeked, which, wait) ← peek_sim sq delay now
        peek ← unwrap_some peeked
        ok (
            if ltb earliest wait
            then (duration_max, Queue.blocking, false)
            else (if may_go peek client server
                then (wait, which, peek.client)
                else peek_both_sides sq client server delay now)))

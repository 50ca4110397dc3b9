-- ===== src/Simulator/Queue/Sided.antt =====
-- crates/maybenot-simulator/src/queue.rs: the events of a side stay in that side's queues.
use maybenot.Prelude.{
  ℕ, ◌+◌, ◌≤◌, ◌≡◌, refl, ◌∙◌, Bool, true, false, Option, none, some, ok, panic, ◌==◌, All, Returns,
  Returns-bind, Ensures, Ensures-bind, if-both, arith,
}
use maybenot.Event.{TriggerEvent}
use maybenot.Simulator.Event.{SimEvent}
use maybenot.Simulator.Queue.{Heap, Queue, EventQueue, SimQueue, push_event, push_sim, pop_queue}
use maybenot.Simulator.Queue.Earliest.{heap_of}
use maybenot.Simulator.Queue.Leads.{delay_in}
use maybenot.Simulator.Queue.Pop.{IsPopped, pop_queue-IsPopped}
use maybenot.Simulator.Sides.{side, set_side, pop_sim}

-- The integration delay is part of the time, except of padding that is sent, whose delay is still to
-- come: event, padding, delay, time.
abbrev pub Aged : TriggerEvent → Bool → ℕ → ℕ → Type 0
Aged (TriggerEvent.padding_sent machine) padding d t = Unit
Aged TriggerEvent.tunnel_sent true d t = Unit
Aged TriggerEvent.tunnel_sent false d t = d ≤ t
Aged _ padding d t = d ≤ t

abbrev pub IsAged : SimEvent → Type 0
IsAged e = Aged e.event e.contains_padding e.integration_delay e.time

pub Aged-later :
    (event : TriggerEvent) (padding : Bool) (d t u : ℕ)
    → t ≤ u
    → Aged event padding d t
    → Aged event padding d u
Aged-later (TriggerEvent.padding_sent machine) padding d t u h k = tt
Aged-later TriggerEvent.tunnel_sent true d t u h k = tt
Aged-later TriggerEvent.tunnel_sent false d t u h k = omega arith
Aged-later _ padding d t u h k = omega arith

-- An event of a side's queues.
abbrev pub Belongs : Bool → SimEvent → Type 0
Belongs is_client e = (e.client ≡ is_client) × IsAged e

abbrev pub BelongsIfAny : Bool → Option SimEvent → Type 0
BelongsIfAny is_client none = Unit
BelongsIfAny is_client (some e) = Belongs is_client e

module _ {H : Type 0} ⦃heap : Heap H⦄ where
  -- Every event of the queues is of the side.
  pub record AllOf (is_client : Bool) (q : EventQueue H) : Type 0 where
    pub base : All (Belongs is_client) (heap.contents q.base)
    pub blocking : All (Belongs is_client) (heap.contents q.blocking)
    pub bypassable : All (Belongs is_client) (heap.contents q.bypassable)
    pub internal : All (Belongs is_client) (heap.contents q.internal)

  pub record IsSided (sq : SimQueue H) : Type 0 where
    pub client : AllOf true sq.client
    pub server : AllOf false sq.server

  pub AllOf-peek :
      (is_client : Bool) (q : EventQueue H) (which : Queue) (e : SimEvent)
      → AllOf is_client q
      → heap.peek (heap_of q which) ≡ some e
      → Belongs is_client e
  AllOf-peek is_client q Queue.blocking e h at =
      heap.peek_all (Belongs is_client) q.blocking e at h.blocking
  AllOf-peek is_client q Queue.bypassable e h at =
      heap.peek_all (Belongs is_client) q.bypassable e at h.bypassable
  AllOf-peek is_client q Queue.internal e h at =
      heap.peek_all (Belongs is_client) q.internal e at h.internal
  AllOf-peek is_client q Queue.base e h at = heap.peek_all (Belongs is_client) q.base e at h.base

  push_event-AllOf :
      (is_client : Bool) (q : EventQueue H) (e : SimEvent) (event : TriggerEvent)
      → Belongs is_client e
      → AllOf is_client q
      → AllOf is_client (push_event q e event)
  unfolding push_event
  push_event-AllOf is_client q e TriggerEvent.tunnel_sent p h =
      if-both (AllOf is_client) e.bypass _ _
        (λ b. record {
          base = h.base;
          blocking = h.blocking;
          bypassable = heap.push_all (Belongs is_client) q.bypassable e p h.bypassable;
          internal = h.internal;
        })
        (λ b. record {
          base = h.base;
          blocking = heap.push_all (Belongs is_client) q.blocking e p h.blocking;
          bypassable = h.bypassable;
          internal = h.internal;
        })
  push_event-AllOf is_client q e TriggerEvent.normal_sent p h = record {
    base = heap.push_all (Belongs is_client) q.base e p h.base;
    blocking = h.blocking;
    bypassable = h.bypassable;
    internal = h.internal;
  }
  push_event-AllOf is_client q e event p h = record {
    base = h.base;
    blocking = h.blocking;
    bypassable = h.bypassable;
    internal = heap.push_all (Belongs is_client) q.internal e p h.internal;
  }

  pub push_sim-IsSided :
      (sq : SimQueue H) (e : SimEvent) → IsAged e → IsSided sq → IsSided (push_sim sq e)
  unfolding push_sim
  push_sim-IsSided sq e aged h =
      if-both IsSided e.client _ _
        (λ b. record {
          client = push_event-AllOf true sq.client e e.event (b, aged) h.client;
          server = h.server;
        })
        (λ b. record {
          client = h.client;
          server = push_event-AllOf false sq.server e e.event (b, aged) h.server;
        })

  pop_heap :
      (is_client : Bool) (h : H) (o : Option SimEvent)
      → heap.peek h ≡ o
      → All (Belongs is_client) (heap.contents h)
      → BelongsIfAny is_client (heap.pop h).0
  pop_heap is_client h none e k = rw (heap.pop_peek h ∙ e) tt
  pop_heap is_client h (some x) e k =
      rw (heap.pop_peek h ∙ e) (heap.peek_all (Belongs is_client) h x e k)

  -- What was popped and what is left are of the side.
  abbrev pub PoppedOf : Bool → Option SimEvent × EventQueue H → Type 0
  PoppedOf is_client r = BelongsIfAny is_client r.0 × AllOf is_client r.1

  pop_base :
      (is_client : Bool) (q rest : EventQueue H) (delay : ℕ) (o : Option SimEvent)
      → BelongsIfAny is_client o
      → AllOf is_client rest
      → Ensures (PoppedOf is_client) (elim o [
        | none ↦ panic
        | some item ↦ ok (some (record item { time = item.time + delay }), rest)
      ])
  pop_base is_client q rest delay none k h = tt
  pop_base is_client q rest delay (some e) k h = (
    (
      k.0,
      Aged-later e.event e.contains_padding e.integration_delay e.time (e.time + delay)
          (omega arith) k.1,
    ),
    h,
  )

  pub pop_queue-PoppedOf :
      (is_client : Bool) (q : EventQueue H) (which : Queue) (delay : ℕ)
      → AllOf is_client q
      → Ensures (PoppedOf is_client) (pop_queue q which delay)
  unfolding pop_queue
  pop_queue-PoppedOf is_client q Queue.blocking delay h = (
    pop_heap is_client q.blocking (heap.peek q.blocking) refl h.blocking,
    record {
      base = h.base;
      blocking = heap.pop_all (Belongs is_client) q.blocking h.blocking;
      bypassable = h.bypassable;
      internal = h.internal;
    },
  )
  pop_queue-PoppedOf is_client q Queue.bypassable delay h = (
    pop_heap is_client q.bypassable (heap.peek q.bypassable) refl h.bypassable,
    record {
      base = h.base;
      blocking = h.blocking;
      bypassable = heap.pop_all (Belongs is_client) q.bypassable h.bypassable;
      internal = h.internal;
    },
  )
  pop_queue-PoppedOf is_client q Queue.internal delay h = (
    pop_heap is_client q.internal (heap.peek q.internal) refl h.internal,
    record {
      base = h.base;
      blocking = h.blocking;
      bypassable = h.bypassable;
      internal = heap.pop_all (Belongs is_client) q.internal h.internal;
    },
  )
  pop_queue-PoppedOf is_client q Queue.base delay h =
      let popped = pop_heap is_client q.base (heap.peek q.base) refl h.base in
      let rest : EventQueue H = record q { base = (heap.pop q.base).1 } in
      let kept : AllOf is_client rest = record {
        base = heap.pop_all (Belongs is_client) q.base h.base;
        blocking = h.blocking;
        bypassable = h.bypassable;
        internal = h.internal;
      } in
      if-both (Ensures (PoppedOf is_client)) (delay == 0) _ _ (λ b. (popped, kept))
        (λ b. pop_base is_client q rest delay (heap.pop q.base).0 popped kept)

  set_side-IsSided :
      (sq : SimQueue H) (is_client : Bool) (q : EventQueue H)
      → IsSided sq
      → AllOf is_client q
      → IsSided (set_side sq is_client q)
  set_side-IsSided sq true q h k = record { client = k; server = h.server }
  set_side-IsSided sq false q h k = record { client = h.client; server = k }

  side-AllOf :
      (sq : SimQueue H) (is_client : Bool) → IsSided sq → AllOf is_client (side sq is_client)
  side-AllOf sq true h = h.client
  side-AllOf sq false h = h.server

  pub side-peek :
      (sq : SimQueue H) (is_client : Bool) (which : Queue) (e : SimEvent)
      → IsSided sq
      → heap.peek (heap_of (side sq is_client) which) ≡ some e
      → Belongs is_client e
  side-peek sq is_client which e h at =
      AllOf-peek is_client (side sq is_client) which e (side-AllOf sq is_client h) at

  -- What was popped of a side, and the queues left.
  abbrev pub PoppedFrom : Bool → Option SimEvent × SimQueue H → Type 0
  PoppedFrom is_client r = BelongsIfAny is_client r.0 × IsSided r.1

  pub pop_sim-PoppedFrom :
      (sq : SimQueue H) (which : Queue) (is_client : Bool) (delay : ℕ)
      → IsSided sq
      → Ensures (PoppedFrom is_client) (pop_sim sq which is_client delay)
  unfolding pop_sim
  pop_sim-PoppedFrom sq which is_client delay h =
      Ensures-bind (PoppedOf is_client) (PoppedFrom is_client)
        (pop_queue (side sq is_client) which delay) _
        (pop_queue-PoppedOf is_client (side sq is_client) which delay (side-AllOf sq is_client h))
        λ r er k. (k.0, set_side-IsSided sq is_client r.1 h k.1)

  -- A `pop` of a queue of a side whose peek is known.
  pub pop_sim-peeked :
      (sq : SimQueue H) (which : Queue) (is_client : Bool) (e : SimEvent) (delay : ℕ)
      → heap.peek (heap_of (side sq is_client) which) ≡ some e
      → Returns (λ r. (item : SimEvent) × (r.0 ≡ some item)) (pop_sim sq which is_client delay)
  unfolding pop_sim
  pop_sim-peeked sq which is_client e delay at =
      Returns-bind (IsPopped (side sq is_client) which e (delay_in which delay))
        (λ r. (item : SimEvent) × (r.0 ≡ some item)) (pop_queue (side sq is_client) which delay) _
        (pop_queue-IsPopped (side sq is_client) which e delay at) λ r er h. (h.item, h.some_event)

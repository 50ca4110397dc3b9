-- ===== src/Simulator/Queue/Pop.antt =====
-- crates/maybenot-simulator/src/queue.rs: `EventQueue::pop` takes out what `peek` named.
use maybenot.Prelude.{
  ℕ, suc, ◌+◌, ◌<◌, ◌≡◌, refl, ap, ◌∙◌, true, inl, inr, Option, some, ◌==◌, Returns, Returns-mono,
  Bool-cases, arith,
}
use maybenot.Simulator.Event.{SimEvent}
use maybenot.Simulator.Queue.{Heap, Queue, EventQueue, queue_len, peek_queue, pop_queue}
use maybenot.Simulator.Queue.Leads.{delay_in}
use maybenot.Simulator.Queue.Earliest.{heap_of, IsEarliest, peek_queue-IsEarliest}

on_time : (t : ℕ) → t ≡ t + 0
on_time t = omega arith

no_delay : (t delay : ℕ) → (delay == 0) ≡ true → t ≡ t + delay
no_delay t delay h = ground arith

module _ {H : Type 0} ⦃heap : Heap H⦄ where
  -- The queues with another heap in the place of one.
  abbrev pub with_heap : EventQueue H → Queue → H → EventQueue H
  with_heap q Queue.blocking h = record q { blocking = h }
  with_heap q Queue.bypassable h = record q { bypassable = h }
  with_heap q Queue.internal h = record q { internal = h }
  with_heap q Queue.base h = record q { base = h }

  -- What `pop` yields after `peek`, and what it leaves.
  pub record IsPopped (q : EventQueue H) (which : Queue) (e : SimEvent) (delay : ℕ)
      (p : Option SimEvent × EventQueue H) : Type 0 where
    pub item : SimEvent
    pub some_event : p.0 ≡ some item
    pub same : item ≡ record e { time = e.time + delay }
    pub left : p.1 ≡ with_heap q which (heap.pop (heap_of q which)).1
    pub shorter : queue_len q ≡ suc (queue_len p.1)

  -- A `pop` of a queue whose peek is known.
  pub pop_queue-IsPopped :
      (q : EventQueue H) (which : Queue) (e : SimEvent) (delay : ℕ)
      → heap.peek (heap_of q which) ≡ some e
      → Returns (IsPopped q which e (delay_in which delay)) (pop_queue q which delay)
  unfolding pop_queue
  pop_queue-IsPopped q Queue.blocking e delay at =
      let shorter = heap.pop_len q.blocking e at in
      record {
        item = e;
        some_event = heap.pop_peek q.blocking ∙ at;
        same = ap (λ (t : ℕ). record e { time = t }) (on_time e.time);
        left = refl;
        shorter = omega arith;
      }
  pop_queue-IsPopped q Queue.bypassable e delay at =
      let shorter = heap.pop_len q.bypassable e at in
      record {
        item = e;
        some_event = heap.pop_peek q.bypassable ∙ at;
        same = ap (λ (t : ℕ). record e { time = t }) (on_time e.time);
        left = refl;
        shorter = omega arith;
      }
  pop_queue-IsPopped q Queue.internal e delay at =
      let shorter = heap.pop_len q.internal e at in
      record {
        item = e;
        some_event = heap.pop_peek q.internal ∙ at;
        same = ap (λ (t : ℕ). record e { time = t }) (on_time e.time);
        left = refl;
        shorter = omega arith;
      }
  pop_queue-IsPopped q Queue.base e delay at =
      let shorter = heap.pop_len q.base e at in
      let popped : (heap.pop q.base).0 ≡ some e = heap.pop_peek q.base ∙ at in
      elim (Bool-cases (delay == 0)) [
        | inl z ↦ rw z (record {
          item = e;
          some_event = popped;
          same = ap (λ (t : ℕ). record e { time = t }) (no_delay e.time delay z);
          left = refl;
          shorter = omega arith;
        })
        | inr z ↦
            rw (z, popped)
              (record {
                item = record e { time = e.time + delay };
                some_event = refl;
                same = refl;
                left = refl;
                shorter = omega arith;
              })
      ]

  -- After a `peek` at a queue that is not empty, `pop` from the queue that it names, with the same
  -- network delay, does not panic: it yields the event that was peeked, all of it the same but for the
  -- time, which is later by the delay that `peek` reckoned with. It leaves one event fewer: what the
  -- heap's `pop` leaves of the queue that was named, and the other three queues as they were.
  pub pop-peek_queue :
      (q : EventQueue H) (delay now : ℕ)
      → 0 < queue_len q
      → Returns
          (λ r.
            (e : SimEvent) × (r.0 ≡ some e)
            × Returns (IsPopped q r.1 e (delay_in r.1 delay)) (pop_queue q r.1 delay))
          (peek_queue q delay now)
  pop-peek_queue q delay now lt =
      Returns-mono (IsEarliest q delay now) _ (peek_queue q delay now)
        (λ r h. (h.e, h.some_event, pop_queue-IsPopped q r.1 h.e delay h.from_queue))
        (peek_queue-IsEarliest q delay now lt)

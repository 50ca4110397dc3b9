-- ===== src/Simulator/Queue/Earliest.antt =====
-- crates/maybenot-simulator/src/queue.rs: `EventQueue::peek` yields the earliest event.
use maybenot.Prelude.{
  ℕ, ◌+◌, ◌<◌, ◌≡◌, refl, ap, ◌∙◌, inl, inr, true, false, Option, none, some, List, [], length,
  ◌==◌, Returns, Bool-cases, Option-cases, arith,
}
use maybenot.Time.{duration_since}
use maybenot.Simulator.Event.{SimEvent, greater}
use maybenot.Simulator.Queue.{
  Heap, Queue, EventQueue, before, better, queue_len, first_event, with_base, peek_queue,
}
use maybenot.Simulator.Queue.Leads.{
  not_greater, All-mono, Leads, Leads-earlier, Covers, better-Covers, before-AtOrBefore, not_before,
  LeadsDelayed, delay-Leads, earlier-LeadsDelayed, delay_in,
}

module _ {H : Type 0} ⦃heap : Heap H⦄ where
  abbrev pub heap_of : EventQueue H → Queue → H
  heap_of q Queue.blocking = q.blocking
  heap_of q Queue.bypassable = q.bypassable
  heap_of q Queue.internal = q.internal
  heap_of q Queue.base = q.base

  -- The answer of `peek` names an event and its queue, that queue yields it, no event of any queue is
  -- before it, with the delay on the events of the base, and the answer tells the time until it.
  pub record IsEarliest (q : EventQueue H) (delay now : ℕ) (r : Option SimEvent × Queue × ℕ)
      : Type 0 where
    pub e : SimEvent
    pub some_event : r.0 ≡ some e
    pub from_queue : heap.peek (heap_of q r.1) ≡ some e
    pub wait : r.2 ≡ duration_since (e.time + delay_in r.1 delay) now
    pub blocking : Leads (e.time + delay_in r.1 delay) e.event (heap.contents q.blocking)
    pub bypassable : Leads (e.time + delay_in r.1 delay) e.event (heap.contents q.bypassable)
    pub internal : Leads (e.time + delay_in r.1 delay) e.event (heap.contents q.internal)
    pub base : LeadsDelayed (e.time + delay_in r.1 delay) e.event delay (heap.contents q.base)

  heap-Covers : (h : H) → Covers (heap.peek h) (heap.contents h)
  heap-Covers h = elim (Option-cases (heap.peek h)) [
    | inl e ↦ rw e (heap.peek_none h e)
    | inr (a, e) ↦
        rw e (All-mono _ _ (heap.contents h) (λ x k. not_greater x a k) (heap.peek_greatest h a e))
  ]

  -- What is known of the first of the queues that are not the base.
  record IsFirst (q : EventQueue H) (best : Option SimEvent × Queue) : Type 0 where
    source : heap.peek (heap_of q best.1) ≡ best.0
    not_base : (delay : ℕ) → delay_in best.1 delay ≡ 0
    bypassable : Covers best.0 (heap.contents q.bypassable)
    blocking : Covers best.0 (heap.contents q.blocking)
    internal : Covers best.0 (heap.contents q.internal)

  -- A choice between two queues that are not the base.
  better-source :
      (q : EventQueue H) (which : Queue) (best : Option SimEvent × Queue)
      → ((delay : ℕ) → delay_in which delay ≡ 0)
      → (heap.peek (heap_of q best.1) ≡ best.0) × ((delay : ℕ) → delay_in best.1 delay ≡ 0)
      → (heap.peek (heap_of q (better (heap.peek (heap_of q which)) which best).1)
          ≡ (better (heap.peek (heap_of q which)) which best).0)
        × ((delay : ℕ) → delay_in (better (heap.peek (heap_of q which)) which best).1 delay ≡ 0)
  better-source q which best nb h =
      elim (Bool-cases (greater (heap.peek (heap_of q which)) best.0)) [
        | inl e ↦ rw e (refl, nb)
        | inr e ↦ rw e h
      ]

  first_event-IsFirst : (q : EventQueue H) → IsFirst q (first_event q)
  first_event-IsFirst q =
      let byp = heap.peek q.bypassable in
      let blo = heap.peek q.blocking in
      let int = heap.peek q.internal in
      let best1 = better blo Queue.blocking (byp, Queue.bypassable) in
      let s1 =
        better-source q Queue.blocking (byp, Queue.bypassable) (λ d. refl) (refl, λ d. refl) in
      let s2 = better-source q Queue.internal best1 (λ d. refl) s1 in
      let c1 =
        better-Covers blo Queue.blocking byp Queue.bypassable (heap.contents q.bypassable)
          (heap.contents q.blocking) (heap-Covers q.bypassable) (heap-Covers q.blocking) in
      let c2 =
        better-Covers int Queue.internal best1.0 best1.1 (heap.contents q.bypassable)
          (heap.contents q.internal) c1.0 (heap-Covers q.internal) in
      let c3 =
        better-Covers int Queue.internal best1.0 best1.1 (heap.contents q.blocking)
          (heap.contents q.internal) c1.1 (heap-Covers q.internal) in
      record { source = s2.0; not_base = s2.1; bypassable = c2.0; blocking = c3.0; internal = c2.1 }

  heap-Leads :
      (h : H) (a : SimEvent) → heap.peek h ≡ some a → Leads a.time a.event (heap.contents h)
  heap-Leads h a e =
      All-mono _ _ (heap.contents h) (λ x k. not_greater x a k) (heap.peek_greatest h a e)

  -- The first of the base is before the first of the others, or there is none of the others.
  base_first :
      (q : EventQueue H) (a : SimEvent) (best : Option SimEvent × Queue) (delay now : ℕ)
      → IsFirst q best
      → heap.peek q.base ≡ some a
      → before (some a) best.0 delay ≡ true
      → IsEarliest q delay now (some a, Queue.base, duration_since (a.time + delay) now)
  base_first q a (none, w) delay now first at h = record {
    e = a;
    some_event = refl;
    from_queue = at;
    wait = refl;
    blocking = rw first.blocking tt;
    bypassable = rw first.bypassable tt;
    internal = rw first.internal tt;
    base = delay-Leads a.time a.event delay (heap.contents q.base) (heap-Leads q.base a at);
  }
  base_first q a (some b, w) delay now first at h =
      let lead : (xs : List SimEvent)
          → Leads b.time b.event xs
          → Leads (a.time + delay) a.event xs =
        λ xs k.
          Leads-earlier (a.time + delay) b.time a.event b.event xs (before-AtOrBefore a b delay h)
            k in
      record {
        e = a;
        some_event = refl;
        from_queue = at;
        wait = refl;
        blocking = lead (heap.contents q.blocking) first.blocking;
        bypassable = lead (heap.contents q.bypassable) first.bypassable;
        internal = lead (heap.contents q.internal) first.internal;
        base = delay-Leads a.time a.event delay (heap.contents q.base) (heap-Leads q.base a at);
      }

  base_later :
      (q : EventQueue H) (b : SimEvent) (delay : ℕ) (o : Option SimEvent)
      → heap.peek q.base ≡ o
      → before o (some b) delay ≡ false
      → LeadsDelayed b.time b.event delay (heap.contents q.base)
  base_later q b delay none at h = rw (heap.peek_none q.base at) tt
  base_later q b delay (some a) at h =
      earlier-LeadsDelayed b.time (a.time + delay) b.event a.event delay (heap.contents q.base)
        (not_before a b delay h)
        (delay-Leads a.time a.event delay (heap.contents q.base) (heap-Leads q.base a at))

  best_first :
      (q : EventQueue H) (b : SimEvent) (w : Queue) (delay now : ℕ)
      → IsFirst q (some b, w)
      → before (heap.peek q.base) (some b) delay ≡ false
      → IsEarliest q delay now (some b, w, duration_since (b.time + 0) now)
  best_first q b w delay now first h =
      let same : b.time + delay_in w delay ≡ b.time = omega (arith, first.not_base delay) in
      record {
        e = b;
        some_event = refl;
        from_queue = first.source;
        wait = rw (first.not_base delay) refl;
        blocking = rw same first.blocking;
        bypassable = rw same first.bypassable;
        internal = rw same first.internal;
        base = rw same (base_later q b delay (heap.peek q.base) refl h);
      }

  contents-len : (h : H) → heap.contents h ≡ [] → heap.len h ≡ 0
  contents-len h e = heap.len_contents h ∙ ap length e

  with_base-IsEarliest :
      (q : EventQueue H) (best : Option SimEvent × Queue) (o : Option SimEvent) (delay now : ℕ)
      → IsFirst q best
      → heap.peek q.base ≡ o
      → 0 < queue_len q
      → Returns (IsEarliest q delay now) (with_base q best delay now)
  unfolding with_base before
  with_base-IsEarliest q (none, w) none delay now first at lt = absurd (
      omega (
        arith,
        lt,
        contents-len q.blocking first.blocking,
        contents-len q.bypassable first.bypassable,
        contents-len q.internal first.internal,
        contents-len q.base (heap.peek_none q.base at),
      ))
  with_base-IsEarliest q (none, w) (some a) delay now first at lt =
      rw at (base_first q a (none, w) delay now first at refl)
  with_base-IsEarliest q (some b, w) none delay now first at lt =
      rw at (best_first q b w delay now first (rw at refl))
  with_base-IsEarliest q (some b, w) (some a) delay now first at lt =
      elim (Bool-cases (before (some a) (some b) delay)) [
        | inl e ↦ rw (at, e) (base_first q a (some b, w) delay now first at e)
        | inr e ↦ rw (at, e) (best_first q b w delay now first (rw at e))
      ]

  -- `peek` on a queue that is not empty returns without a panic, and names an event, the queue it is
  -- the peek of, and the time until it; and no event of the four queues is before that event, by time
  -- and then by the order of the kinds of events, with the network delay added to the base events.
  pub peek_queue-IsEarliest :
      (q : EventQueue H) (delay now : ℕ)
      → 0 < queue_len q
      → Returns (IsEarliest q delay now) (peek_queue q delay now)
  unfolding peek_queue
  peek_queue-IsEarliest q delay now lt =
      let some_events : (queue_len q == 0) ≡ false = ground arith in
      rw some_events (
        with_base-IsEarliest q (first_event q) (heap.peek q.base) delay now (first_event-IsFirst q)
          refl lt)

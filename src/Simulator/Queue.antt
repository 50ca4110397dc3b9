-- ===== src/Simulator/Queue.antt =====
-- crates/maybenot-simulator/src/queue.rs. The binary heap of the standard library is a parameter: a
-- heap holds events, and its peek is one of its greatest.
use maybenot.Prelude.{
  ℕ, suc, ◌+◌, ◌-◌, ◌≡◌, Bool, true, false, Option, none, some, List, [], ◌∷◌, All, length, Outcome,
  ok, panic, ◌>>=◌, ◌==◌, if◌then◌else◌,
}
use Prim.Native.Nat.{Ordering}
use maybenot.Event.{TriggerEvent}
use maybenot.Time.{duration_since}
use maybenot.Simulator.Event.{SimEvent, cmp, cmp_from, is_greater, greater}
pub mod Leads
pub mod Earliest
pub mod Pop
pub mod Sided

pub record Heap (H : Type 0) : Type 1 where
  pub contents : H → List SimEvent
  pub empty : H
  pub len : H → ℕ
  pub push : H → SimEvent → H
  pub peek : H → Option SimEvent
  pub pop : H → Option SimEvent × H
  -- the documentation of std::collections::BinaryHeap
  pub len_contents : (h : H) → len h ≡ length (contents h)
  pub peek_none : (h : H) → peek h ≡ none → contents h ≡ []
  pub peek_greatest :
      (h : H) (e : SimEvent)
      → peek h ≡ some e
      → All (λ x. is_greater (cmp x e) ≡ false) (contents h)
  pub pop_peek : (h : H) → (pop h).0 ≡ peek h
  pub pop_len : (h : H) (e : SimEvent) → peek h ≡ some e → len h ≡ suc (len (pop h).1)
  pub push_len : (h : H) (e : SimEvent) → len (push h e) ≡ suc (len h)
  -- what holds of all that is in a heap
  pub empty_all : (P : SimEvent → Type 0) → All P (contents empty)
  pub peek_all :
      (P : SimEvent → Type 0) (h : H) (e : SimEvent) → peek h ≡ some e → All P (contents h) → P e
  pub push_all :
      (P : SimEvent → Type 0) (h : H) (e : SimEvent)
      → P e
      → All P (contents h)
      → All P (contents (push h e))
  pub pop_all : (P : SimEvent → Type 0) (h : H) → All P (contents h) → All P (contents (pop h).1)

pub data Queue : Type 0 where
  blocking bypassable internal base : Queue

pub record EventQueue (H : Type 0) : Type 0 where
  pub base : H
  pub blocking : H
  pub bypassable : H
  pub internal : H

pub record SimQueue (H : Type 0) : Type 0 where
  pub client : EventQueue H
  pub server : EventQueue H
  pub max_pps : Option ℕ

-- Whether `a`, later by the delay, is before `b` or at it.
unfoldable pub before : Option SimEvent → Option SimEvent → ℕ → Bool
before (some a) (some b) delay = elim (cmp_from (a.time + delay) a.event b.time b.event) [
  | Ordering.gt ↦ false
  | _ ↦ true
]
before (some a) none delay = true
before none b delay = false

-- `let n = ...; if n > first { first = n; q = ... }`
abbrev pub better : Option SimEvent → Queue → Option SimEvent × Queue → Option SimEvent × Queue
better n which best = if greater n best.0 then (n, which) else best

-- `first.unwrap().time`, later by the delay, since the current time.
abbrev pub since : Option SimEvent → ℕ → ℕ → Outcome ℕ
since none delay now = panic
since (some e) delay now = ok (duration_since (e.time + delay) now)

module _ {H : Type 0} ⦃heap : Heap H⦄ where
  abbrev pub new_queue : EventQueue H
  new_queue = record {
    base = heap.empty;
    blocking = heap.empty;
    bypassable = heap.empty;
    internal = heap.empty;
  }

  abbrev pub queue_len : EventQueue H → ℕ
  queue_len q = heap.len q.blocking + heap.len q.bypassable + heap.len q.internal + heap.len q.base

  unfoldable pub push_event : EventQueue H → SimEvent → TriggerEvent → EventQueue H
  push_event q item TriggerEvent.tunnel_sent =
      if item.bypass
      then record q { bypassable = heap.push q.bypassable item }
      else record q { blocking = heap.push q.blocking item }
  push_event q item TriggerEvent.normal_sent = record q { base = heap.push q.base item }
  push_event q item _ = record q { internal = heap.push q.internal item }

  abbrev pub push_queue : EventQueue H → SimEvent → EventQueue H
  push_queue q item = push_event q item item.event

  -- The first of the events that are not of the base.
  abbrev pub first_event : EventQueue H → Option SimEvent × Queue
  first_event q =
      better (heap.peek q.internal) Queue.internal
        (better (heap.peek q.blocking) Queue.blocking (heap.peek q.bypassable, Queue.bypassable))

  -- The rest of `peek`, from the other queues' first.
  unfoldable pub with_base :
      EventQueue H → Option SimEvent × Queue → ℕ → ℕ → Outcome (Option SimEvent × Queue × ℕ)
  with_base q best delay now =
      if before (heap.peek q.base) best.0 delay
      then (do d ← since (heap.peek q.base) delay now; ok (heap.peek q.base, Queue.base, d))
      else (do d ← since best.0 0 now; ok (best.0, best.1, d))

  unfoldable pub peek_queue : EventQueue H → ℕ → ℕ → Outcome (Option SimEvent × Queue × ℕ)
  unfolding with_base
  peek_queue q delay now =
      if queue_len q == 0
      then ok (none, Queue.blocking, 0)
      else with_base q (first_event q) delay now

  unfoldable pub pop_queue : EventQueue H → Queue → ℕ → Outcome (Option SimEvent × EventQueue H)
  pop_queue q Queue.blocking delay =
      let (e, rest) = heap.pop q.blocking in ok (e, record q { blocking = rest })
  pop_queue q Queue.bypassable delay =
      let (e, rest) = heap.pop q.bypassable in ok (e, record q { bypassable = rest })
  pop_queue q Queue.internal delay =
      let (e, rest) = heap.pop q.internal in ok (e, record q { internal = rest })
  pop_queue q Queue.base delay =
      let (e, rest) = heap.pop q.base in
      if delay == 0 then ok (e, record q { base = rest }) else elim e [
        | none ↦ panic
        | some item ↦ ok (some (record item { time = item.time + delay }), record q { base = rest })
      ]

  unfoldable pub push_sim : SimQueue H → SimEvent → SimQueue H
  push_sim q item =
      if item.client
      then record q { client = push_queue q.client item }
      else record q { server = push_queue q.server item }

  abbrev pub sim_len : SimQueue H → ℕ
  sim_len q = queue_len q.client + queue_len q.server

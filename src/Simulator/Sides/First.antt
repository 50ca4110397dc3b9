-- ===== src/Simulator/Sides/First.antt =====
-- crates/maybenot-simulator/src/queue.rs: `SimQueue::peek` yields the first event of both sides.
use maybenot.Prelude.{
  ℕ, ◌<◌, ◌≡◌, refl, sym, ap, ◌⊎◌, inl, inr, Bool, true, false, not, none, some, ok, ◌==◌, Returns,
  Returns-bind, Bool-cases, arith,
}
use maybenot.Event.{TriggerEvent}
use maybenot.Simulator.Event.{SimEvent, cmp_from, is_greater}
use maybenot.Simulator.Queue.{Heap, Queue, EventQueue, SimQueue, queue_len, peek_queue, sim_len}
use maybenot.Simulator.Queue.Leads.{AtOrBefore}
use maybenot.Simulator.Queue.Earliest.{IsEarliest, peek_queue-IsEarliest}
use maybenot.Simulator.Sides.{Peeked, pick_side, peek_sim, side}

pick_order :
    (d d' : ℕ) (a b : TriggerEvent)
    → ((is_greater (cmp_from d a d' b) ≡ true) × AtOrBefore d' b d a)
      ⊎ ((is_greater (cmp_from d a d' b) ≡ false) × AtOrBefore d a d' b)
pick_order d d' a b = elim (Bool-cases (is_greater (cmp_from d a d' b))) [
  | inl e ↦ inl (e, ground arith)
  | inr e ↦ inr (e, ground arith)
]

none-some : {e : SimEvent} → none ≡ some e → ⊥
none-some e = cc

same_event : {a b : SimEvent} → some a ≡ some b → a.event ≡ b.event
same_event {a} {b} e = let same : a ≡ b = cc in ap (λ x. x.event) same

module _ {H : Type 0} ⦃heap : Heap H⦄ where
  -- The answer is the earliest event of one side, and the other side is empty, or its earliest event
  -- is not sooner, nor at once with a kind that goes before.
  pub record IsFirstOfBoth (q : SimQueue H) (delay now : ℕ) (r : Peeked) : Type 0 where
    pub of_client : Bool
    pub here : IsEarliest (side q of_client) delay now r
    pub other :
        (queue_len (side q (not of_client)) ≡ 0)
        ⊎ ((r' : Peeked) × (there : IsEarliest (side q (not of_client)) delay now r') × AtOrBefore
              r.2 here.e.event r'.2 there.e.event)

  pick_side-IsFirstOfBoth :
      (q : SimQueue H) (delay now : ℕ) (c s : Peeked)
      → IsEarliest q.client delay now c
      → IsEarliest q.server delay now s
      → IsFirstOfBoth q delay now (pick_side c s)
  pick_side-IsFirstOfBoth q delay now (none, cq, cd) (o, sq, sd) hc hs =
      absurd (none-some hc.some_event)
  pick_side-IsFirstOfBoth q delay now (some c, cq, cd) (none, sq, sd) hc hs =
      absurd (none-some hs.some_event)
  pick_side-IsFirstOfBoth q delay now (some c, cq, cd) (some s, sq, sd) hc hs =
      let ec : c.event ≡ hc.e.event = same_event hc.some_event in
      let es : s.event ≡ hs.e.event = same_event hs.some_event in
      elim (pick_order cd sd c.event s.event) [
        | inl (e, o) ↦
            let o' : AtOrBefore sd hs.e.event cd hc.e.event = rw (sym es, sym ec) o in
            rw e (record { of_client = false; here = hs; other = inr ((some c, cq, cd), hc, o') })
        | inr (e, o) ↦
            let o' : AtOrBefore cd hc.e.event sd hs.e.event = rw (sym es, sym ec) o in
            rw e (record { of_client = true; here = hc; other = inr ((some s, sq, sd), hs, o') })
      ]

  -- One side is empty.
  only_client :
      (q : SimQueue H) (delay now : ℕ) (c : Peeked)
      → IsEarliest q.client delay now c
      → queue_len q.server ≡ 0
      → IsFirstOfBoth q delay now (pick_side c (none, Queue.blocking, 0))
  only_client q delay now (none, cq, cd) hc e = absurd (none-some hc.some_event)
  only_client q delay now (some c, cq, cd) hc e = record {
    of_client = true;
    here = hc;
    other = inl e;
  }

  only_server :
      (q : SimQueue H) (delay now : ℕ) (s : Peeked)
      → IsEarliest q.server delay now s
      → queue_len q.client ≡ 0
      → IsFirstOfBoth q delay now (pick_side (none, Queue.blocking, 0) s)
  only_server q delay now (none, sq, sd) hs e = absurd (none-some hs.some_event)
  only_server q delay now (some s, sq, sd) hs e = record {
    of_client = false;
    here = hs;
    other = inl e;
  }

  peek_empty :
      (q : EventQueue H) (delay now : ℕ)
      → (queue_len q == 0) ≡ true
      → peek_queue q delay now ≡ ok (none, Queue.blocking, 0)
  unfolding peek_queue
  peek_empty q delay now e = rw e refl

  -- `SimQueue::peek` at queues that are not both empty returns without a panic. Its answer is the
  -- earliest event of one side, with the network delay on its base events; and the other side is
  -- empty, or its own earliest event is not sooner, and, if it is due at the same time, of a kind that
  -- does not go before.
  pub peek_sim-IsFirstOfBoth :
      (q : SimQueue H) (delay now : ℕ)
      → 0 < sim_len q
      → Returns (IsFirstOfBoth q delay now) (peek_sim q delay now)
  unfolding peek_sim
  peek_sim-IsFirstOfBoth q delay now lt =
      let some_events : (sim_len q == 0) ≡ false = ground arith in
      rw some_events (elim (Bool-cases (queue_len q.client == 0)) [
        | inl c ↦ rw (peek_empty q.client delay now c) (
            Returns-bind (IsEarliest q.server delay now) (IsFirstOfBoth q delay now)
              (peek_queue q.server delay now) _
              (peek_queue-IsEarliest q.server delay now (ground arith))
              λ s es hs. only_server q delay now s hs (ground arith))
        | inr c ↦
            Returns-bind (IsEarliest q.client delay now) (IsFirstOfBoth q delay now)
              (peek_queue q.client delay now) _
              (peek_queue-IsEarliest q.client delay now (ground arith))
              λ r er hr. elim (Bool-cases (queue_len q.server == 0)) [
                | inl s ↦
                    rw (peek_empty q.server delay now s)
                      (only_client q delay now r hr (ground arith))
                | inr s ↦
                    Returns-bind (IsEarliest q.server delay now) (IsFirstOfBoth q delay now)
                      (peek_queue q.server delay now) _
                      (peek_queue-IsEarliest q.server delay now (ground arith))
                      λ s' es hs. pick_side-IsFirstOfBoth q delay now r s' hr hs
              ]
      ])

-- ===== src/Simulator/Next/Named.antt =====
-- crates/maybenot-simulator/src/peek.rs: `peek_queue` names an event that is in the queue it names.
use maybenot.Prelude.{
  ℕ, ◌+◌, ◌≤◌, ◌≡◌, refl, sym, subst, ◌⊎◌, inl, inr, Bool, true, false, Option, none, some, Returns,
  Returns-bind, ltb, leb, if-both, Bool-cases, arith,
}
use Prim.Native.Nat.{max}
use maybenot.Time.{duration_max, duration_since}
use maybenot.Simulator.Event.{SimEvent, greater}
use maybenot.Simulator.Queue.{Heap, Queue, EventQueue, SimQueue, before}
use maybenot.Simulator.Queue.Earliest.{heap_of}
use maybenot.Simulator.Queue.Leads.{delay_in}
use maybenot.Simulator.Queue.Sided.{IsSided, side-peek}
use maybenot.Simulator.Sides.{
  Peeked, side, is_empty_sim, peek_sim, peek_blocking, peek_unblocked, peek_non_blocking,
}
use maybenot.Simulator.Sides.First.{IsFirstOfBoth, peek_sim-IsFirstOfBoth}
use maybenot.Simulator.Network.{unwrap_or}
use maybenot.Simulator.Sim.{SimState}
use maybenot.Simulator.Next.{
  Found, delayed_time, blocking_first, choose_of_side, peek_queue_earliest_side, may_go,
  peek_both_sides, peek_next,
}

duration_since-le : (t now : ℕ) → duration_since t now ≤ duration_max
duration_since-le t now = omega arith

module _ {H : Type 0} ⦃heap : Heap H⦄ where
  -- The answer is the greatest duration, or the named queue of the named side has a first event.
  abbrev pub IsNamed : SimQueue H → Found → Type 0
  IsNamed sq r =
      (r.0 ≤ duration_max)
      × ((r.0 ≡ duration_max) ⊎ ((e : SimEvent) × (heap.peek (heap_of (side sq r.2) r.1) ≡ some e)))

  pub peek_blocking_source :
      (q : EventQueue H) (bypassable : Bool)
      → heap.peek (heap_of q (peek_blocking q bypassable).1) ≡ (peek_blocking q bypassable).0
  unfolding peek_blocking
  peek_blocking_source q true = refl
  peek_blocking_source q false =
      elim (Bool-cases (greater (heap.peek q.blocking) (heap.peek q.bypassable))) [
        | inl e ↦ rw e refl
        | inr e ↦ rw e refl
      ]

  peek_unblocked_source :
      (q : EventQueue H) (delay : ℕ)
      → heap.peek (heap_of q (peek_unblocked q delay).1) ≡ (peek_unblocked q delay).0
  peek_unblocked_source q delay =
      elim (Bool-cases (before (heap.peek q.base) (heap.peek q.internal) delay)) [
        | inl e ↦ rw e refl
        | inr e ↦ rw e refl
      ]

  peek_non_blocking_source :
      (q : EventQueue H) (bypassable : Bool) (delay : ℕ)
      → heap.peek (heap_of q (peek_non_blocking q bypassable delay).1)
        ≡ (peek_non_blocking q bypassable delay).0
  unfolding peek_non_blocking
  peek_non_blocking_source q false delay = peek_unblocked_source q delay
  peek_non_blocking_source q true delay =
      elim (Bool-cases (greater (heap.peek q.bypassable) (peek_unblocked q delay).0)) [
        | inl e ↦ rw e refl
        | inr e ↦ rw e (peek_unblocked_source q delay)
      ]

  choose_of_side-IsNamed :
      (sq : SimQueue H) (b n : Option SimEvent × Queue) (until now delay : ℕ) (is_client : Bool)
      → heap.peek (heap_of (side sq is_client) b.1) ≡ b.0
      → heap.peek (heap_of (side sq is_client) n.1) ≡ n.0
      → IsNamed sq (choose_of_side b n until now delay is_client)
  unfolding choose_of_side
  choose_of_side-IsNamed sq (none, bq) (none, nq) until now delay is_client hb hn =
      (omega arith, inl refl)
  choose_of_side-IsNamed sq (none, bq) (some n, nq) until now delay is_client hb hn =
      (duration_since-le (delayed_time n nq delay) now, inr (n, hn))
  choose_of_side-IsNamed sq (some b, bq) (none, nq) until now delay is_client hb hn =
      (duration_since-le (max b.time until) now, inr (b, hb))
  choose_of_side-IsNamed sq (some b, bq) (some n, nq) until now delay is_client hb hn =
      if-both (IsNamed sq) (blocking_first (max b.time until) (delayed_time n nq delay) nq) _ _
        (λ e. (duration_since-le (max b.time until) now, inr (b, hb)))
        (λ e. (duration_since-le (delayed_time n nq delay) now, inr (n, hn)))

  peek_queue_earliest_side-IsNamed :
      (sq : SimQueue H) (blocking_until : Option ℕ) (bypassable : Bool) (now delay : ℕ)
      (is_client : Bool)
      → IsNamed sq (peek_queue_earliest_side sq blocking_until bypassable now delay is_client)
  unfolding peek_queue_earliest_side
  peek_queue_earliest_side-IsNamed sq blocking_until bypassable now delay is_client =
      choose_of_side-IsNamed sq (peek_blocking (side sq is_client) bypassable)
        (peek_non_blocking (side sq is_client) bypassable delay) (unwrap_or blocking_until now) now
        delay is_client (peek_blocking_source (side sq is_client) bypassable)
        (peek_non_blocking_source (side sq is_client) bypassable delay)

  none_found : (sq : SimQueue H) (which : Queue) (b : Bool) → IsNamed sq (duration_max, which, b)
  none_found sq which b = (omega arith, inl refl)

  found_first :
      (sq : SimQueue H) (delay now : ℕ) (r : Peeked)
      → IsSided sq
      → (h : IsFirstOfBoth sq delay now r) → IsNamed sq (r.2, r.1, h.here.e.client)
  found_first sq delay now r sided h =
      let e = h.here.e in
      subst (λ b. IsNamed sq (r.2, r.1, b))
        (sym (side-peek sq h.of_client r.1 e sided h.here.from_queue).0)
        (
          rw h.here.wait (duration_since-le (e.time + delay_in r.1 delay) now),
          inr (e, h.here.from_queue),
        )

module _ {H R : Type 0} ⦃heap : Heap H⦄ where
  peek_both_sides-IsNamed :
      (sq : SimQueue H) (client server : SimState R) (delay now : ℕ)
      → IsNamed sq (peek_both_sides sq client server delay now)
  unfolding peek_both_sides
  peek_both_sides-IsNamed sq client server delay now =
      if-both (IsNamed sq) (leb _ _) _ _
        (λ e.
          peek_queue_earliest_side-IsNamed sq client.blocking_until client.blocking_bypassable now
            delay true)
        (λ e.
          peek_queue_earliest_side-IsNamed sq server.blocking_until server.blocking_bypassable now
            delay false)

  -- If every event is in the queues of its side and not before its own integration delay, padding that
  -- is sent apart, `peek_queue` does not panic. It yields the greatest duration, or it names a side and
  -- one of its queues that is not empty, so that a `pop` there yields an event.
  pub peek_next-IsNamed :
      (sq : SimQueue H) (client server : SimState R) (delay earliest now : ℕ)
      → IsSided sq
      → Returns (IsNamed sq) (peek_next sq client server delay earliest now)
  unfolding peek_next
  peek_next-IsNamed sq client server delay earliest now sided =
      if-both (Returns (IsNamed sq)) (is_empty_sim sq) _ _ (λ e. none_found sq Queue.blocking false)
        (λ e.
          Returns-bind (IsFirstOfBoth sq delay now) (IsNamed sq) (peek_sim sq delay now) _
            (peek_sim-IsFirstOfBoth sq delay now (ground arith))
            λ r er h. rw h.here.some_event (
              if-both (IsNamed sq) (ltb earliest r.2) _ _ (λ e. none_found sq Queue.blocking false)
                (λ e.
                  if-both (IsNamed sq) (may_go h.here.e client server) _ _
                    (λ e'. found_first sq delay now r sided h)
                    (λ e'. peek_both_sides-IsNamed sq client server delay now))))

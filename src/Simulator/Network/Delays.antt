-- ===== src/Simulator/Network/Delays.antt =====
-- crates/maybenot-simulator/src/network.rs: the base delays that wait, and the delay of a packet.
use maybenot.Prelude.{
  ℕ, ◌+◌, ◌-◌, ◌*◌, ◌%◌, ◌≤◌, ◌<◌, ◌≡◌, refl, sym, subst, ap, ◌∙◌, inl, inr, Bool, true, false,
  Option, none, some, List, [], ◌∷◌, ◌++◌, length, not, ltb, ◌==◌, if◌then◌else◌, Bool-cases, arith,
}
use maybenot.Simulator.Network.{
  PendingAggregateDelay, sum_of, DelayHeap, NetworkBottleneck, u32_mod, add, push_aggregate_delay,
  pop_aggregate_delay, sample_bottleneck, limit_delay, with_delay, WindowCount, new_window,
}
use maybenot.Simulator.Network.Window.{Ascending, UpTo, recent, add_all, add_all-recent}

module _ {D : Type 0} ⦃delays : DelayHeap D⦄ where
  -- The base delay in effect with all that waits.
  unfoldable pub total_delay : NetworkBottleneck D → ℕ
  total_delay n =
      n.aggregate_base_delay + sum_of (λ d. d.delay) (delays.contents n.aggregate_delay_queue)

  -- What `pop_aggregate_delay` does, by what the queue's peek is.
  pop-total :
      (n : NetworkBottleneck D) (o : Option PendingAggregateDelay)
      → delays.peek n.aggregate_delay_queue ≡ o
      → (total_delay (pop_aggregate_delay n) ≡ total_delay n)
        × (n.aggregate_base_delay ≤ (pop_aggregate_delay n).aggregate_base_delay)
  unfolding total_delay pop_aggregate_delay sum_of
  pop-total n none e =
      let q = n.aggregate_delay_queue in
      rw (delays.pop_peek q ∙ e, delays.pop_empty q e, delays.peek_none q e) (refl, omega arith)
  pop-total n (some p) e =
      let q = n.aggregate_delay_queue in
      rw (delays.pop_peek q ∙ e) (omega (arith, delays.pop_sum q p (λ d. d.delay) e), omega arith)

  -- Delays are neither lost nor made up: `push_aggregate_delay` adds its delay to what waits and leaves
  -- the delay in effect alone; `pop_aggregate_delay` adds to the delay in effect what it takes out of
  -- the queue, so the sum of both stays the same, and the delay in effect does not fall.
  pub pop_aggregate_delay-total_delay :
      (n : NetworkBottleneck D) (delay now : ℕ) (reached_client : Bool)
      → (total_delay (push_aggregate_delay n delay now reached_client) ≡ total_delay n + delay)
        × ((push_aggregate_delay n delay now reached_client).aggregate_base_delay
            ≡ n.aggregate_base_delay)
        × (total_delay (pop_aggregate_delay n) ≡ total_delay n)
        × (n.aggregate_base_delay ≤ (pop_aggregate_delay n).aggregate_base_delay)
  unfolding total_delay push_aggregate_delay pop_aggregate_delay
  pop_aggregate_delay-total_delay n delay now reached_client =
      let pushed =
        delays.push_sum n.aggregate_delay_queue
          (record {
            time = now + (if reached_client then 0 else n.network.delay + n.network.delay);
            delay = delay;
          })
          (λ d. d.delay) in
      let popped = pop-total n (delays.peek n.aggregate_delay_queue) refl in
      (omega (arith, pushed), refl, popped.0, popped.1)

split_delay :
    {D : Type 0} (n : NetworkBottleneck D) (extra : ℕ)
    → ((with_delay n extra).0 ≡ extra + n.network.delay)
      × ((with_delay n extra).1 ≡ (if extra == 0 then none else some extra))
split_delay n extra = elim (Bool-cases (ltb 0 extra)) [
  | inl e ↦ let positive : (extra == 0) ≡ false = ground arith in rw (e, positive) (refl, refl)
  | inr e ↦ let zero_extra : extra ≡ 0 = ground arith in rw zero_extra (omega arith, refl)
]

module _ {D : Type 0} where
  with_delay_lem :
      (n : NetworkBottleneck D) (count : ℕ)
      → count < n.pps_limit + u32_mod
      → let extra = n.pps_added_delay * (count - n.pps_limit) in
        ((with_delay n (limit_delay n count)).0 ≡ extra + n.network.delay)
        × ((with_delay n (limit_delay n count)).1 ≡ (if extra == 0 then none else some extra))
  with_delay_lem n count h = elim (Bool-cases (ltb n.pps_limit count)) [
    | inl e ↦
        let kept : (count - n.pps_limit) % u32_mod ≡ count - n.pps_limit = omega arith in
        rw (e, kept) (split_delay n (n.pps_added_delay * (count - n.pps_limit)))
    | inr e ↦
        let below : count - n.pps_limit ≡ 0 = ground arith in
        let nothing : n.pps_added_delay * (count - n.pps_limit) ≡ 0 =
          omega (arith, ap (λ (t : ℕ). n.pps_added_delay * t) below) in
        rw (e, nothing) (omega arith, refl)
  ]

add_all-append :
    (w : WindowCount) (times : List ℕ) (now : ℕ)
    → add_all w (times ++ now ∷ []) ≡ (add (add_all w times) now).1
unfolding add_all
add_all-append w [] now = refl
add_all-append w (t ∷ rest) now = add_all-append (add w t).1 rest now

-- The window of a side.
abbrev pub window_of : {D : Type 0} → NetworkBottleneck D → Bool → WindowCount
window_of n true = n.client_window
window_of n false = n.server_window

-- What `sample` yields for a packet when `count` are in the window of its side.
pub record IsSampled {D : Type 0} (n : NetworkBottleneck D) (is_client : Bool) (count : ℕ)
    (window : WindowCount) (r : ℕ × Option ℕ × NetworkBottleneck D) : Type 0 where
  pub delay : r.0 ≡ n.pps_added_delay * (count - n.pps_limit) + n.network.delay
  pub reported : r.1 ≡ (
      if n.pps_added_delay * (count - n.pps_limit) == 0
      then none
      else some (n.pps_added_delay * (count - n.pps_limit)))
  pub counted : window_of r.2 is_client ≡ window
  pub other_side : window_of r.2 (not is_client) ≡ window_of n (not is_client)
  pub base_delay : r.2.aggregate_base_delay ≡ n.aggregate_base_delay
  pub waiting : r.2.aggregate_delay_queue ≡ n.aggregate_delay_queue
  pub network : r.2.network ≡ n.network
  pub added_delay : r.2.pps_added_delay ≡ n.pps_added_delay
  pub limit : r.2.pps_limit ≡ n.pps_limit

sample-IsSampled :
    {D : Type 0} (n : NetworkBottleneck D) (now : ℕ) (is_client : Bool)
    → (add (window_of n is_client) now).0 < n.pps_limit + u32_mod
    → IsSampled n is_client
        (add (window_of n is_client) now).0
        (add (window_of n is_client) now).1
        (sample_bottleneck n now is_client)
unfolding sample_bottleneck
sample-IsSampled n now true h =
    let lem = with_delay_lem n (add n.client_window now).0 h in
    record {
      delay = lem.0;
      reported = lem.1;
      counted = refl;
      other_side = refl;
      base_delay = refl;
      waiting = refl;
      network = refl;
      added_delay = refl;
      limit = refl;
    }
sample-IsSampled n now false h =
    let lem = with_delay_lem n (add n.server_window now).0 h in
    record {
      delay = lem.0;
      reported = lem.1;
      counted = refl;
      other_side = refl;
      base_delay = refl;
      waiting = refl;
      network = refl;
      added_delay = refl;
      limit = refl;
    }

-- The delay of a packet by the whole history of its side. If the packets of the side so far were at
-- `times`, in ascending order and none after `now`, and if fewer than 2^32 above the limit are no longer
-- ago than the window, then a packet now is delayed by the network's delay and the added delay once for
-- each packet above the limit that is no longer ago than the window, this one included. That second
-- part is also reported, unless it is zero. The window of the side has the history with this packet;
-- the other side's window, the base delay in effect, what waits, and the network with its limit stay.
pub sample_bottleneck-delay :
    {D : Type 0} (n : NetworkBottleneck D) (window now : ℕ) (times : List ℕ) (is_client : Bool)
    → Ascending times
    → UpTo now times
    → window_of n is_client ≡ add_all (new_window window) times
    → length (recent now window (times ++ now ∷ [])) < n.pps_limit + u32_mod
    → IsSampled n is_client
        (length (recent now window (times ++ now ∷ [])))
        (add_all (new_window window) (times ++ now ∷ []))
        (sample_bottleneck n now is_client)
sample_bottleneck-delay n window now times is_client asc up held few =
    let counts : (add (window_of n is_client) now).0
        ≡ length (recent now window (times ++ now ∷ [])) =
      ap (λ w. (add w now).0) held ∙ (add_all-recent window now times asc up).1 in
    let keeps : (add (window_of n is_client) now).1
        ≡ add_all (new_window window) (times ++ now ∷ []) =
      ap (λ w. (add w now).1) held ∙ sym (add_all-append (new_window window) times now) in
    subst
      (λ w.
        IsSampled n is_client (length (recent now window (times ++ now ∷ []))) w
          (sample_bottleneck n now is_client))
      keeps
      (subst
        (λ c.
          IsSampled n is_client c (add (window_of n is_client) now).1
            (sample_bottleneck n now is_client))
        counts (sample-IsSampled n now is_client (omega (arith, counts, few))))

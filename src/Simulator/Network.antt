-- ===== src/Simulator/Network.antt =====
-- crates/maybenot-simulator/src/network.rs: the network between client and server, with its limit of
-- packets per second and the delays that wait to be added to the base trace. An instant counts
-- nanoseconds from the earliest that can be represented.
pub mod Window
pub mod Delays
use maybenot.Prelude.{
  ℕ, ◌+◌, ◌-◌, ◌*◌, ◌%◌, ◌≤◌, ◌≡◌, Bool, true, false, Option, none, some, List, [], ◌∷◌, ◌++◌, All,
  length, Outcome, ok, panic, ltb, ◌==◌, if◌then◌else◌,
}
use Prim.Native.Nat.{◌/◌}
use maybenot.Constants.{u64_mod}
use maybenot.Time.{duration_max, duration_since}

abbrev pub u32_mod : ℕ
u32_mod = 0x1_0000_0000

pub record Network : Type 0 where
  pub delay : ℕ
  pub pps : Option ℕ

-- `Network::sample`
abbrev pub sample_network : Network → ℕ
sample_network n = n.delay

pub record WindowCount : Type 0 where
  pub window : ℕ
  -- the oldest first
  pub timestamps : List ℕ

abbrev pub new_window : ℕ → WindowCount
new_window window = record { window = window; timestamps = [] }

-- The loop of `add`.
unfoldable pub prune : ℕ → ℕ → List ℕ → List ℕ
prune now window [] = []
prune now window (oldest ∷ rest) =
    if ltb window (now - oldest) then prune now window rest else oldest ∷ rest

unfoldable pub add : WindowCount → ℕ → ℕ × WindowCount
unfolding prune
add w now =
    let kept = prune now w.window (w.timestamps ++ now ∷ []) in
    (length kept, record w { timestamps = kept })

pub record PendingAggregateDelay : Type 0 where
  pub time : ℕ
  pub delay : ℕ

-- The sum of what `f` reads from each.
unfoldable pub sum_of : (PendingAggregateDelay → ℕ) → List PendingAggregateDelay → ℕ
sum_of f [] = 0
sum_of f (p ∷ rest) = f p + sum_of f rest

-- The binary heap of the standard library, at the order of `PendingAggregateDelay`: by time, the
-- earliest first.
pub record DelayHeap (D : Type 0) : Type 0 where
  pub contents : D → List PendingAggregateDelay
  pub empty : D
  pub push : D → PendingAggregateDelay → D
  pub peek : D → Option PendingAggregateDelay
  pub pop : D → Option PendingAggregateDelay × D
  -- the documentation of std::collections::BinaryHeap; what a heap holds is told by sums over it
  pub contents_empty : contents empty ≡ []
  pub peek_none : (h : D) → peek h ≡ none → contents h ≡ []
  pub peek_first :
      (h : D) (p : PendingAggregateDelay)
      → peek h ≡ some p
      → All (λ x. p.time ≤ x.time) (contents h)
  pub pop_peek : (h : D) → (pop h).0 ≡ peek h
  pub pop_empty : (h : D) → peek h ≡ none → contents (pop h).1 ≡ []
  pub pop_sum :
      (h : D) (p : PendingAggregateDelay) (f : PendingAggregateDelay → ℕ)
      → peek h ≡ some p
      → sum_of f (contents h) ≡ f p + sum_of f (contents (pop h).1)
  pub push_sum :
      (h : D) (p : PendingAggregateDelay) (f : PendingAggregateDelay → ℕ)
      → sum_of f (contents (push h p)) ≡ f p + sum_of f (contents h)

pub record NetworkBottleneck (D : Type 0) : Type 0 where
  pub aggregate_base_delay : ℕ
  pub aggregate_delay_queue : D
  pub network : Network
  pub client_window : WindowCount
  pub server_window : WindowCount
  pub pps_added_delay : ℕ
  pub pps_limit : ℕ

abbrev pub unwrap_or : Option ℕ → ℕ → ℕ
unwrap_or none d = d
unwrap_or (some n) d = n

-- `network.pps.unwrap_or(queue_pps.unwrap_or(usize::MAX))`
abbrev pub limit_from : Network → Option ℕ → ℕ
limit_from network queue_pps = unwrap_or network.pps (unwrap_or queue_pps (u64_mod - 1))

abbrev pub peeked_delay : Option PendingAggregateDelay → ℕ → ℕ
peeked_delay none now = duration_max
peeked_delay (some d) now = duration_since d.time now

-- The network after `pop`, with the delay that was popped in effect.
abbrev pub add_popped :
    {D : Type 0} → Option PendingAggregateDelay → NetworkBottleneck D → D → NetworkBottleneck D
add_popped none n rest = record n { aggregate_delay_queue = rest }
add_popped (some d) n rest = record n {
  aggregate_delay_queue = rest;
  aggregate_base_delay = n.aggregate_base_delay + d.delay;
}

module _ {D : Type 0} ⦃delays : DelayHeap D⦄ where
  -- A division by zero panics.
  unfoldable pub new_bottleneck : Network → ℕ → Option ℕ → Outcome (NetworkBottleneck D)
  new_bottleneck network window queue_pps =
      let pps = limit_from network queue_pps in
      if pps % u32_mod == 0
      then panic
      else ok (record {
        aggregate_base_delay = 0;
        aggregate_delay_queue = delays.empty;
        network = network;
        client_window = new_window window;
        server_window = new_window window;
        pps_added_delay = window / (pps % u32_mod);
        pps_limit = pps;
      })

  abbrev pub peek_aggregate_delay : NetworkBottleneck D → ℕ → ℕ
  peek_aggregate_delay n now = peeked_delay (delays.peek n.aggregate_delay_queue) now

  unfoldable pub push_aggregate_delay : NetworkBottleneck D → ℕ → ℕ → Bool → NetworkBottleneck D
  push_aggregate_delay n delay now reached_client =
      let active_delay =
        if reached_client then 0 else sample_network n.network + sample_network n.network in
      record n {
        aggregate_delay_queue =
            delays.push n.aggregate_delay_queue
              (record { time = now + active_delay; delay = delay });
      }

  unfoldable pub pop_aggregate_delay : NetworkBottleneck D → NetworkBottleneck D
  pop_aggregate_delay n = let (a, rest) = delays.pop n.aggregate_delay_queue in add_popped a n rest

module _ {D : Type 0} where
  -- The delay due to the limit, for a count of packets in the window; `as u32` drops high bits.
  abbrev pub limit_delay : NetworkBottleneck D → ℕ → ℕ
  limit_delay n count =
      if ltb n.pps_limit count then n.pps_added_delay * ((count - n.pps_limit) % u32_mod) else 0

  abbrev pub with_delay : NetworkBottleneck D → ℕ → ℕ × Option ℕ
  with_delay n delay =
      if ltb 0 delay
      then (delay + sample_network n.network, some delay)
      else (sample_network n.network, none)

  unfoldable pub sample_bottleneck :
      NetworkBottleneck D → ℕ → Bool → ℕ × Option ℕ × NetworkBottleneck D
  unfolding add
  sample_bottleneck n now true =
      let (count, w) = add n.client_window now in
      let (d, b) = with_delay n (limit_delay n count) in (d, b, record n { client_window = w })
  sample_bottleneck n now false =
      let (count, w) = add n.server_window now in
      let (d, b) = with_delay n (limit_delay n count) in (d, b, record n { server_window = w })

-- ===== src/Simulator/Stack/Arrival.antt =====
-- crates/maybenot-simulator/src/network.rs: where and when a packet arrives that enters the tunnel.
use maybenot.Prelude.{
  ℕ, ◌+◌, ◌-◌, ◌≤◌, ◌≡◌, Bool, true, false, not, Option, none, some, if◌then◌else◌,
}
use maybenot.Prelude.{◌&&◌}
use maybenot.Event.{TriggerEvent}
use maybenot.Simulator.Event.{SimEvent}
use maybenot.Simulator.Network.{unwrap_or}

abbrev pub carries_none : Option ℕ → Bool
carries_none none = true
carries_none (some d) = false

-- The packet that arrives for one that was sent; `least` is the delay of the bottleneck, and `added` the
-- part of it that is due to the limit, if any.
pub record IsArrival (next : SimEvent) (now least : ℕ) (added : Option ℕ) (e : SimEvent)
    : Type 0 where
  pub event : e.event ≡ TriggerEvent.tunnel_recv
  pub other_side : e.client ≡ not next.client
  pub padding : e.contains_padding ≡ next.contains_padding
  -- not before it was reported, and for padding not before it was sent
  pub in_time : next.contains_padding ≡ false → now ≤ e.time
  -- the integration delay of the sender is part of the time of a normal packet, and not yet of padding
  pub travelled :
      (if next.contains_padding
          then next.time + next.integration_delay
          else next.time - next.integration_delay)
        + least
        + e.integration_delay
      ≤ e.time
  -- the base delay on the packet is the sum of what was on it and what is added
  pub base_delay :
      unwrap_or e.propagate_base_delay 0 ≡ unwrap_or next.propagate_base_delay 0 + unwrap_or added 0
  -- and there is one unless there was none and none is added
  pub no_base_delay :
      carries_none e.propagate_base_delay
      ≡ (carries_none next.propagate_base_delay && carries_none added)

-- The time at which the recipient is told.
IsReported : SimEvent → ℕ → ℕ → ℕ → Type 0
IsReported next travel now t =
    (next.contains_padding ≡ false → now ≤ t)
    × ((if next.contains_padding
            then next.time + next.integration_delay
            else next.time - next.integration_delay)
          + travel
        ≤ t)

-- ===== src/Simulator/Peek.antt =====
-- crates/maybenot-simulator/src/peek.rs: the next scheduled action, internal timer and end of a
-- blocking. A duration is a number of nanoseconds.
use maybenot.Prelude.{
  ℕ, ◌-◌, Bool, true, false, ◌&&◌, Option, none, some, List, [], ◌∷◌, ltb, leb, if◌then◌else◌,
}
use maybenot.Action.{TriggerAction}
use maybenot.Time.{duration_max, duration_since}
pub mod Soonest

-- `ScheduledAction` of lib.rs.
pub record ScheduledAction : Type 0 where
  pub action : TriggerAction
  pub time : ℕ

-- One round of the loops: the earliest so far, and a time.
abbrev pub earlier_of : ℕ → ℕ → ℕ → ℕ
earlier_of now earliest t = if leb now t && ltb (t - now) earliest then t - now else earliest

unfoldable pub earliest_action : ℕ → ℕ → List (Option ScheduledAction) → ℕ
earliest_action now earliest [] = earliest
earliest_action now earliest (none ∷ rest) = earliest_action now earliest rest
earliest_action now earliest (some a ∷ rest) =
    earliest_action now (earlier_of now earliest a.time) rest

unfoldable pub peek_scheduled_action :
    List (Option ScheduledAction) → List (Option ScheduledAction) → ℕ → ℕ
unfolding earliest_action
peek_scheduled_action scheduled_c scheduled_s current_time =
    earliest_action current_time (earliest_action current_time duration_max scheduled_c) scheduled_s

unfoldable pub earliest_timer : ℕ → ℕ → List (Option ℕ) → ℕ
earliest_timer now earliest [] = earliest
earliest_timer now earliest (none ∷ rest) = earliest_timer now earliest rest
earliest_timer now earliest (some t ∷ rest) = earliest_timer now (earlier_of now earliest t) rest

unfoldable pub peek_scheduled_internal_timer : List (Option ℕ) → List (Option ℕ) → ℕ → ℕ
unfolding earliest_timer
peek_scheduled_internal_timer internal_c internal_s current_time =
    earliest_timer current_time (earliest_timer current_time duration_max internal_c) internal_s

-- The time until the first end of a blocking, and whether it is the client's.
unfoldable pub peek_blocked_exp : Option ℕ → Option ℕ → ℕ → ℕ × Bool
peek_blocked_exp (some c) (some s) now =
    if ltb c s then (duration_since c now, true) else (duration_since s now, false)
peek_blocked_exp (some c) none now = (duration_since c now, true)
peek_blocked_exp none (some s) now = (duration_since s now, false)
peek_blocked_exp none none now = (duration_max, true)

-- ===== src/Simulator/Trace.antt =====
-- crates/maybenot-simulator/src/lib.rs: `parse_trace` and `parse_trace_advanced`. The instant that the
-- code takes from the clock is an argument.
pub mod Strings
pub mod Parsed
pub mod Cut
pub mod Printed
pub mod RoundTrip
pub mod Simulated
use maybenot.Prelude.{
  ℕ, ◌+◌, Bool, true, false, ◌||◌, Option, none, some, List, [], ◌∷◌, Outcome, ok, panic, ◌>>=◌,
  ltb, if◌then◌else◌,
}
use maybenot.Platform.{Floats}
use maybenot.Event.{TriggerEvent}
use maybenot.Simulator.Queue.{Heap, SimQueue}
use maybenot.Simulator.Sides.{new_sim, push}
use maybenot.Simulator.Integration.{Integration, Thread, reporting_delay}
use maybenot.Simulator.Network.{Network, WindowCount, new_window, add}
use maybenot.Simulator.Sim.{unwrap_some, sub_instant}
use maybenot.Simulator.Run.{one_second}
use maybenot.Simulator.Trace.Strings.{Text, same_text, lines, split, trim, parse_u64, comma}

-- The local variables of the loop, and the state of the thread's generator.
pub record Reading (H T : Type 0) : Type 0 where
  pub sq : SimQueue H
  pub sent_window : WindowCount
  pub recv_window : WindowCount
  pub sent_max_pps : ℕ
  pub recv_max_pps : ℕ
  pub thread : T

-- `if m > max { max = m }`
abbrev pub greater_of : ℕ → ℕ → ℕ
greater_of m most = if ltb most m then m else most

pub data Direction : Type 0 where
  sent received padding invalid : Direction

-- The arms of the match on the direction.
unfoldable pub direction : Text → Direction
unfolding same_text
direction s =
    if same_text s (b's' ∷ []) || same_text s (b's' ∷ b'n' ∷ [])
    then Direction.sent
    else (if same_text s (b'r' ∷ []) || same_text s (b'r' ∷ b'n' ∷ [])
        then Direction.received
        else (if same_text s (b's' ∷ b'p' ∷ []) || same_text s (b'r' ∷ b'p' ∷ [])
            then Direction.padding
            else Direction.invalid))

module _ {H T : Type 0} ⦃heap : Heap H⦄ ⦃fl : Floats⦄ ⦃th : Thread T⦄ where
  abbrev pub new_reading : T → Reading H T
  new_reading thread = record {
    sq = new_sim;
    sent_window = new_window one_second;
    recv_window = new_window one_second;
    sent_max_pps = 0;
    recv_max_pps = 0;
    thread = thread;
  }

  -- A packet at `timestamp` in the direction.
  unfoldable pub read_packet :
      Network
      → Option Integration
      → Option Integration
      → Direction
      → ℕ
      → Reading H T
      → Outcome (Reading H T)
  unfolding add push
  read_packet network client server Direction.sent timestamp r = do
    (delay, thread) ← reporting_delay client r.thread
    let sq = push r.sq TriggerEvent.normal_sent true false (timestamp + delay) delay
    let (m, window) = add r.sent_window timestamp
    ok (record r {
      sq = sq;
      sent_window = window;
      sent_max_pps = greater_of m r.sent_max_pps;
      thread = thread;
    })
  read_packet network client server Direction.received timestamp r = do
    time ← sub_instant timestamp network.delay
    (delay, thread) ← reporting_delay server r.thread
    let sq = push r.sq TriggerEvent.normal_sent false false (time + delay) delay
    let (m, window) = add r.recv_window timestamp
    ok (record r {
      sq = sq;
      recv_window = window;
      recv_max_pps = greater_of m r.recv_max_pps;
      thread = thread;
    })
  read_packet network client server Direction.padding timestamp r = ok r
  read_packet network client server Direction.invalid timestamp r = panic

  -- The parts of a line; fewer than two are skipped.
  unfoldable pub read_parts :
      Network
      → Option Integration
      → Option Integration
      → ℕ
      → List Text
      → Reading H T
      → Outcome (Reading H T)
  unfolding direction read_packet parse_u64
  read_parts network client server start (time ∷ way ∷ rest) r = do
    nanos ← unwrap_some (parse_u64 (trim time))
    read_packet network client server (direction way) (start + nanos) r
  read_parts network client server start _ r = ok r

  -- `for l in trace.lines()`
  unfoldable pub read_lines :
      Network
      → Option Integration
      → Option Integration
      → ℕ
      → List Text
      → Reading H T
      → Outcome (Reading H T)
  unfolding read_parts
  read_lines network client server start [] r = ok r
  read_lines network client server start (l ∷ rest) r = do
    r' ← read_parts network client server start (split comma l) r
    read_lines network client server start rest r'

  unfoldable pub parse_trace_advanced :
      Text → Network → Option Integration → Option Integration → ℕ → T → Outcome (SimQueue H × T)
  unfolding read_lines lines
  parse_trace_advanced trace network client server start thread = do
    r ← read_lines network client server start (lines trace) (new_reading thread)
    ok (record r.sq { max_pps = some (greater_of r.recv_max_pps r.sent_max_pps) }, r.thread)

  unfoldable pub parse_trace : Text → Network → ℕ → T → Outcome (SimQueue H × T)
  unfolding parse_trace_advanced
  parse_trace trace network start thread = parse_trace_advanced trace network none none start thread

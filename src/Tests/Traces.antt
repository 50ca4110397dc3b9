-- ===== src/Tests/Traces.antt =====
-- The traces that `parse_trace` reads, and the theorems on it at these.
use Prim.Native.Char.{code}
use Prim.Native.String.{String}
use maybenot.Prelude.{
  ℕ, ◌≡◌, refl, true, false, none, List, [], ◌∷◌, All, length, Returns, Ensures, ◌>>=◌, arith,
}
use maybenot.Simulator.Event.{SimEvent}
use maybenot.Simulator.Queue.{SimQueue}
use maybenot.Simulator.Network.{Network, PendingAggregateDelay}
use maybenot.Simulator.Run.{sim_advanced}
use maybenot.Simulator.Run.Sorting.{IsSorted}
use maybenot.Simulator.Run.Total.{IsTrace}
use maybenot.Simulator.Trace.{parse_trace, parse_trace_advanced}
use maybenot.Simulator.Trace.Strings.{Text, lines}
use maybenot.Simulator.Trace.Cut.{value}
use maybenot.Simulator.Trace.Parsed.{IsParsed, parse_trace_advanced-IsParsed}
use maybenot.Simulator.Trace.Printed.{Packet, IsWritten, print_trace}
use maybenot.Simulator.Trace.RoundTrip.{IsTraceOf, parse_trace-print_trace}
use maybenot.Simulator.Trace.Simulated.{CanSimulate, parse_trace-sim_advanced}
use maybenot.Tests.Heaps.{list_heap}
use maybenot.Tests.Delays.{list_delays}
use maybenot.Tests.Simulations.{still, twenty_rounds, unseeded, no_delays}
use maybenot.Tests.Fixture.{flat, counting, pad_once, pad_once-validated, draws}

abbrev characters : String → Text
characters String.[] = []
characters (String.◌∷◌ c s) = code c ∷ characters s

abbrev wire : Network
wire = record { delay = 10; pps = none }

abbrev three_lines : Text
three_lines = characters "0,s,100\n 55 ,rn\r\n\n70,sp\n+80,r,1"

-- The client sends at 500, and receives at 12000.
abbrev two_packets : List Packet
two_packets =
    record {
      first_digit = b'5';
      digits = b'0' ∷ b'0' ∷ [];
      sent = true;
      normal = false;
      size = b'9' ∷ [];
    }
    ∷ record {
      first_digit = b'1';
      digits = b'2' ∷ b'0' ∷ b'0' ∷ b'0' ∷ [];
      sent = false;
      normal = true;
      size = [];
    }
    ∷ []

two_packets-IsWritten : All (IsWritten 1000 wire) two_packets
unfolding value
two_packets-IsWritten = (
  record {
    digits = (refl, (refl, (refl, tt)));
    small = omega arith;
    size = ((omega arith, tt), (omega arith, tt));
    late = omega arith;
  },
  (
    record {
      digits = (refl, (refl, (refl, (refl, (refl, tt)))));
      small = omega arith;
      size = (tt, tt);
      late = omega arith;
    },
    tt,
  ),
)

can_pad : CanSimulate ℕ 1000 2 (pad_once ∷ []) [] twenty_rounds
can_pad = record {
  client = record {
    padding_limit = refl;
    blocking_limit = refl;
    validated = (pad_once-validated, tt);
    draws = draws;
  };
  server = record { padding_limit = refl; blocking_limit = refl; validated = tt; draws = tt };
  client_answers = no_delays;
  server_answers = no_delays;
  capacity = omega arith;
  no_limit = refl;
}

parse_trace_advanced-IsParsed_example :
    Ensures {A = SimQueue (List SimEvent) × ℕ}
      (λ r. IsParsed (length (lines three_lines)) r.0)
      (parse_trace_advanced three_lines wire none none 1000 0)
parse_trace_advanced-IsParsed_example =
    parse_trace_advanced-IsParsed (List SimEvent) three_lines wire none none 1000 0

parse_trace-print_trace_example :
    Returns {A = SimQueue (List SimEvent) × ℕ}
      (λ r. IsTraceOf 1000 wire two_packets r.0 × (r.1 ≡ 0))
      (parse_trace (print_trace two_packets) wire 1000 0)
parse_trace-print_trace_example =
    parse_trace-print_trace (List SimEvent) 1000 wire two_packets 0 two_packets-IsWritten

parse_trace-sim_advanced_example :
    Returns
      (λ trace. IsTrace twenty_rounds trace × IsSorted trace)
      (parse_trace {H = List SimEvent} {T = ℕ} (print_trace two_packets) wire 1000 0 >>= λ r.
        sim_advanced
          (List PendingAggregateDelay)
          20
          1000
          (pad_once ∷ [])
          []
          r.0
          twenty_rounds
          unseeded
          r.1)
parse_trace-sim_advanced_example =
    parse_trace-sim_advanced (List PendingAggregateDelay) (List SimEvent) 20 1000 (pad_once ∷ []) []
      twenty_rounds 1000 two_packets unseeded 0 (omega arith) (omega arith) two_packets-IsWritten
      (omega arith) (omega arith) can_pad

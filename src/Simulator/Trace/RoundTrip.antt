-- ===== src/Simulator/Trace/RoundTrip.antt =====
-- crates/maybenot-simulator/src/lib.rs: `parse_trace` of a trace that is written as its documentation
-- says.
use maybenot.Prelude.{
  ℕ, ◌+◌, ◌-◌, ◌≤◌, ◌≡◌, refl, subst, ap, ◌∙◌, Bool, true, false, none, some, List, [], ◌∷◌, map,
  All, Outcome, ltb, length, length-map, Returns, Returns-bind, Returns-mono, Returns-both,
  Returns-Ensures, Ensures, arith, if◌then◌else◌,
}
use maybenot.Platform.{Floats}
use maybenot.Simulator.Event.{SimEvent}
use maybenot.Simulator.Queue.{Heap, SimQueue, push_sim}
use maybenot.Simulator.Sides.{new_sim, push}
use maybenot.Simulator.Integration.{Thread}
use maybenot.Simulator.Network.{Network}
use maybenot.Simulator.Trace.{
  Reading, greater_of, new_reading, read_packet, read_parts, read_lines, parse_trace_advanced,
  parse_trace,
}
use maybenot.Simulator.Trace.Strings.{comma, split, lines}
use maybenot.Simulator.Trace.Parsed.{IsParsed, parse_trace_advanced-IsParsed}
use maybenot.Simulator.Trace.Cut.{parse_u64-value}
use maybenot.Simulator.Trace.Printed.{
  Packet, way, nanos, print_line, print_trace, sent_time, sent_event, event_of, IsWritten,
  direction-mark, split-print_line, lines-print_trace,
}

module _ {H : Type 0} ⦃heap : Heap H⦄ where
  unfoldable pub push_all : SimQueue H → List SimEvent → SimQueue H
  push_all sq [] = sq
  push_all sq (e ∷ rest) = push_all (push_sim sq e) rest

  -- But for the limit, the queue to which the events were pushed.
  abbrev IsPushedTrace : ℕ → Network → List Packet → SimQueue H → Type 0
  IsPushedTrace start network ps sq =
      sq ≡ record (push_all new_sim (map (event_of start network) ps)) { max_pps = sq.max_pps }

  -- The queue of the packets, as it was made from none.
  pub record IsTraceOf (start : ℕ) (network : Network) (ps : List Packet) (sq : SimQueue H)
      : Type 0 where
    pub parsed : IsParsed (length ps) sq
    pub events : IsPushedTrace start network ps sq

module _ {H T : Type 0} ⦃heap : Heap H⦄ ⦃fl : Floats⦄ ⦃th : Thread T⦄ where
  -- The events are pushed, and the generator is not used.
  abbrev Pushed : List SimEvent → Reading H T → Reading H T → Type 0
  Pushed es r r' = (r'.sq ≡ push_all r.sq es) × (r'.thread ≡ r.thread)

  read_packet-Pushed :
      (start : ℕ) (network : Network) (sent : Bool) (n : ℕ) (r : Reading H T)
      → (if sent then 0 else network.delay) ≤ start + n
      → Returns
          (Pushed (sent_event sent (sent_time start network sent n) ∷ []) r)
          (read_packet network none none (way sent) (start + n) r)
  unfolding read_packet push push_all
  read_packet-Pushed start network true n r late =
      let same : start + n + 0 ≡ start + n = omega arith in
      (ap (λ t. push_sim r.sq (sent_event true t)) same, refl)
  read_packet-Pushed start network false n r late =
      let in_time : ltb (start + n) network.delay ≡ false = ground (arith, late) in
      let same : start + n - network.delay + 0 ≡ start + n - network.delay = omega arith in
      rw in_time (ap (λ t. push_sim r.sq (sent_event false t)) same, refl)

  read_line :
      (start : ℕ) (network : Network) (p : Packet) (r : Reading H T)
      → IsWritten start network p
      → read_parts network none none start (split comma (print_line p)) r
        ≡ read_packet network none none (way p.sent) (start + nanos p) r
  unfolding read_parts
  read_line start network p r h = rw (split-print_line start network p h) (
      rw (parse_u64-value p.first_digit p.digits h.digits h.small)
        (rw (direction-mark p.sent p.normal) refl))

  read_lines-Pushed :
      (start : ℕ) (network : Network) (ps : List Packet) (r : Reading H T)
      → All (IsWritten start network) ps
      → Returns
          (Pushed (map (event_of start network) ps) r)
          (read_lines network none none start (map print_line ps) r)
  unfolding read_lines push_all
  read_lines-Pushed start network [] r h = (refl, refl)
  read_lines-Pushed start network (p ∷ ps) r h =
      let es = map (event_of start network) (p ∷ ps) in
      rw (read_line start network p r h.0) (
        Returns-bind (Pushed (event_of start network p ∷ []) r) (Pushed es r)
          (read_packet network none none (way p.sent) (start + nanos p) r) _
          (read_packet-Pushed start network p.sent (nanos p) r h.0.late)
          λ r' e k.
            Returns-mono (Pushed (map (event_of start network) ps) r') (Pushed es r)
              (read_lines network none none start (map print_line ps) r')
              (λ q m.
                (m.0 ∙ ap (λ sq. push_all sq (map (event_of start network) ps)) k.0, m.1 ∙ k.1))
              (read_lines-Pushed start network ps r' h.1))

module _ (H : Type 0) {T : Type 0} ⦃heap : Heap H⦄ ⦃fl : Floats⦄ ⦃th : Thread T⦄ where
  print_trace-Pushed :
      (start : ℕ) (network : Network) (ps : List Packet) (thread : T)
      → All (IsWritten start network) ps
      → Returns
          (Pushed (map (event_of start network) ps) (new_reading {H = H} thread))
          (read_lines network none none start (lines (print_trace ps)) (new_reading {H = H} thread))
  print_trace-Pushed start network ps thread h =
      rw (lines-print_trace start network ps h)
        (read_lines-Pushed start network ps (new_reading {H = H} thread) h)

  print_trace-IsParsed :
      (start : ℕ) (network : Network) (ps : List Packet) (thread : T)
      → All (IsWritten start network) ps
      → Ensures {A = SimQueue H × T}
          (λ r. IsParsed (length ps) r.0)
          (parse_trace_advanced (print_trace ps) network none none start thread)
  print_trace-IsParsed start network ps thread h =
      let count : length (lines (print_trace ps)) ≡ length ps =
        ap (λ ls. length ls) (lines-print_trace start network ps h) ∙ length-map print_line ps in
      subst
        (λ n.
          Ensures {A = SimQueue H × T} (λ r. IsParsed n r.0)
            (parse_trace_advanced (print_trace ps) network none none start thread))
        count (parse_trace_advanced-IsParsed H (print_trace ps) network none none start thread)

  print_trace-IsPushedTrace :
      (start : ℕ) (network : Network) (ps : List Packet) (thread : T)
      → All (IsWritten start network) ps
      → Returns {A = SimQueue H × T}
          (λ r. IsPushedTrace start network ps r.0 × (r.1 ≡ thread))
          (parse_trace_advanced (print_trace ps) network none none start thread)
  unfolding parse_trace_advanced
  print_trace-IsPushedTrace start network ps thread h =
      Returns-bind (Pushed (map (event_of start network) ps) (new_reading {H = H} thread))
        (λ r. IsPushedTrace start network ps r.0 × (r.1 ≡ thread))
        (read_lines network none none start (lines (print_trace ps)) (new_reading {H = H} thread)) _
        (print_trace-Pushed start network ps thread h)
        λ r e k. (
          ap
              (λ (q : SimQueue H). record q {
                max_pps = some (greater_of r.recv_max_pps r.sent_max_pps);
              })
              k.0,
          k.1,
        )

  -- `parse_trace` reads a trace that is written as documented: times in digits that stand for a number
  -- below 2^64, `s`, `sn`, `r` or `rn`, and any size on one line. Instants have no upper bound here, and
  -- the client receives no packet sooner than the network's delay after the earliest instant. Then it
  -- does not panic, and yields the queue to which one event for each line was pushed: sent by the client
  -- at the time, or by the server the network's delay before it. The maximum of packets per second is at
  -- most the number of packets, and positive if there is one.
  pub parse_trace-print_trace :
      (start : ℕ) (network : Network) (ps : List Packet) (thread : T)
      → All (IsWritten start network) ps
      → Returns {A = SimQueue H × T}
          (λ r. IsTraceOf start network ps r.0 × (r.1 ≡ thread))
          (parse_trace (print_trace ps) network start thread)
  unfolding parse_trace
  parse_trace-print_trace start network ps thread h =
      let call : Outcome (SimQueue H × T) =
        parse_trace_advanced (print_trace ps) network none none start thread in
      let P : SimQueue H × T → Type 0 = λ r. IsParsed (length ps) r.0 in
      let E : SimQueue H × T → Type 0 = λ r. IsPushedTrace start network ps r.0 × (r.1 ≡ thread) in
      let events = print_trace-IsPushedTrace start network ps thread h in
      Returns-mono (λ r. P r × E r) (λ r. IsTraceOf start network ps r.0 × (r.1 ≡ thread)) call
        (λ r k. (record { parsed = k.0; events = k.1.0 }, k.1.1))
        (Returns-both P E call
          (Returns-Ensures E P call events (print_trace-IsParsed start network ps thread h)) events)

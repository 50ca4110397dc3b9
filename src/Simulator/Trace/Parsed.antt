-- ===== src/Simulator/Trace/Parsed.antt =====
-- crates/maybenot-simulator/src/lib.rs: the queue that `parse_trace_advanced` makes of any text.
use maybenot.Prelude.{
  ℕ, suc, ◌+◌, ◌-◌, ◌≤◌, ◌<◌, ◌≡◌, refl, ap, Bool, true, false, ◌⊎◌, inl, inr, Option, none, some,
  List, [], ◌∷◌, ◌++◌, length, ltb, if-both, Ensures, Ensures-bind, Ensures-after, arith,
}
use maybenot.Platform.{Floats}
use maybenot.Event.{TriggerEvent}
use maybenot.Simulator.Event.{SimEvent}
use maybenot.Simulator.Queue.{Heap, SimQueue}
use maybenot.Simulator.Queue.Sided.{IsSided, Belongs, push_sim-IsSided}
use maybenot.Simulator.Sides.{new_sim, push}
use maybenot.Simulator.Integration.{Integration, Thread, reporting_delay}
use maybenot.Simulator.Network.{Network, WindowCount, prune, add}
use maybenot.Simulator.Sim.{unwrap_some, sub_instant}
use maybenot.Simulator.Trace.{
  Reading, Direction, greater_of, new_reading, direction, read_packet, read_parts, read_lines,
  parse_trace_advanced,
}
use maybenot.Simulator.Trace.Strings.{Text, lines, split, comma, trim, parse_u64}

-- A window with one more packet counts it, and at most one packet more.
prune-bounds :
    (now window : ℕ) (xs : List ℕ)
    → (0 < length (prune now window (xs ++ now ∷ [])))
      × (length (prune now window (xs ++ now ∷ [])) ≤ suc (length xs))
unfolding prune
prune-bounds now window [] =
    if-both (λ (ys : List ℕ). (0 < length ys) × (length ys ≤ 1)) (ltb window (now - now)) _ _
      (λ e. absurd (ground arith)) (λ e. (omega arith, omega arith))
prune-bounds now window (x ∷ xs) =
    let rest = prune-bounds now window xs in
    if-both (λ (ys : List ℕ). (0 < length ys) × (length ys ≤ suc (suc (length xs))))
      (ltb window (now - x)) _ _ (λ e. (rest.0, omega (arith, rest.1)))
      (λ e. (omega arith, omega (arith, length_snoc xs)))
  where
    length_snoc : (ys : List ℕ) → length (ys ++ now ∷ []) ≡ suc (length ys)
    length_snoc [] = refl
    length_snoc (y ∷ ys) = omega (arith, length_snoc ys)

-- A window after at most `count` packets, and the greatest of its counts.
pub record IsCounted (count : ℕ) (w : WindowCount) (most : ℕ) : Type 0 where
  pub size : length w.timestamps ≤ count
  pub bound : most ≤ count

add-IsCounted :
    (count : ℕ) (w : WindowCount) (most now : ℕ)
    → IsCounted count w most
    → IsCounted (suc count) (add w now).1 (greater_of (add w now).0 most)
      × (0 < greater_of (add w now).0 most)
unfolding add
add-IsCounted count w most now h =
    let b = prune-bounds now w.window w.timestamps in
    let m = length (prune now w.window (w.timestamps ++ now ∷ [])) in
    if-both
      (λ x.
        IsCounted (suc count)
          (record w { timestamps = prune now w.window (w.timestamps ++ now ∷ []) }) x
        × (0 < x))
      (ltb most m) _ _
      (λ e. (record { size = omega (arith, h.size, b.1); bound = omega (arith, h.size, b.1) }, b.0))
      (λ e. (
        record { size = omega (arith, h.size, b.1); bound = omega (arith, h.bound) },
        ground (arith, b.0, e),
      ))

IsCounted-le :
    (count total : ℕ) (w : WindowCount) (most : ℕ)
    → count ≤ total
    → IsCounted count w most
    → IsCounted total w most
IsCounted-le count total w most le h = record {
  size = omega (arith, h.size);
  bound = omega (arith, h.bound);
}

module _ {H : Type 0} ⦃heap : Heap H⦄ where
  -- The queue of a trace with so many lines.
  pub record IsParsed (count : ℕ) (sq : SimQueue H) : Type 0 where
    pub sided : IsSided sq
    pub pps : ℕ
    pub max_pps : sq.max_pps ≡ some pps
    pub bound : pps ≤ count
    pub counted : (sq ≡ record new_sim { max_pps = some pps }) ⊎ (0 < pps)

  new_sim-IsSided : IsSided {H = H} new_sim
  new_sim-IsSided = record {
    client = record {
      base = heap.empty_all (Belongs true);
      blocking = heap.empty_all (Belongs true);
      bypassable = heap.empty_all (Belongs true);
      internal = heap.empty_all (Belongs true);
    };
    server = record {
      base = heap.empty_all (Belongs false);
      blocking = heap.empty_all (Belongs false);
      bypassable = heap.empty_all (Belongs false);
      internal = heap.empty_all (Belongs false);
    };
  }

  push_sent-IsSided :
      (sq : SimQueue H) (is_client : Bool) (time delay : ℕ)
      → IsSided sq
      → IsSided (push sq TriggerEvent.normal_sent is_client false (time + delay) delay)
  unfolding push
  push_sent-IsSided sq is_client time delay h =
      let e : SimEvent = record {
        event = TriggerEvent.normal_sent;
        time = time + delay;
        integration_delay = delay;
        client = is_client;
        contains_padding = false;
        bypass = false;
        replace = false;
        propagate_base_delay = none;
      } in
      push_sim-IsSided sq e (omega arith) h

module _ {H T : Type 0} ⦃heap : Heap H⦄ ⦃fl : Floats⦄ ⦃th : Thread T⦄ where
  -- What holds after `count` lines: the counts are positive from the first packet on.
  pub record IsRead (count : ℕ) (r : Reading H T) : Type 0 where
    pub sided : IsSided r.sq
    pub sent : IsCounted count r.sent_window r.sent_max_pps
    pub recv : IsCounted count r.recv_window r.recv_max_pps
    pub counted : (r.sq ≡ new_sim) ⊎ (0 < greater_of r.recv_max_pps r.sent_max_pps)

  IsRead-le : (count total : ℕ) (r : Reading H T) → count ≤ total → IsRead count r → IsRead total r
  IsRead-le count total r le h = record {
    sided = h.sided;
    sent = IsCounted-le count total r.sent_window r.sent_max_pps le h.sent;
    recv = IsCounted-le count total r.recv_window r.recv_max_pps le h.recv;
    counted = h.counted;
  }

  read_packet-IsRead :
      (network : Network) (client server : Option Integration) (way : Direction) (timestamp : ℕ)
      (r : Reading H T) (count : ℕ)
      → IsRead count r
      → Ensures (IsRead (suc count)) (read_packet network client server way timestamp r)
  unfolding read_packet
  read_packet-IsRead network client server Direction.sent timestamp r count h =
      Ensures-after (IsRead (suc count)) (reporting_delay client r.thread) _ λ d e.
        let c = add-IsCounted count r.sent_window r.sent_max_pps timestamp h.sent in
        record {
          sided = push_sent-IsSided r.sq true timestamp d.0 h.sided;
          sent = c.0;
          recv = IsCounted-le count (suc count) r.recv_window r.recv_max_pps (omega arith) h.recv;
          counted = inr (ground (arith, c.1));
        }
  read_packet-IsRead network client server Direction.received timestamp r count h =
      Ensures-after (IsRead (suc count)) (sub_instant timestamp network.delay) _ λ t et.
        Ensures-after (IsRead (suc count)) (reporting_delay server r.thread) _ λ d e.
          let c = add-IsCounted count r.recv_window r.recv_max_pps timestamp h.recv in
          record {
            sided = push_sent-IsSided r.sq false t d.0 h.sided;
            sent = IsCounted-le count (suc count) r.sent_window r.sent_max_pps (omega arith) h.sent;
            recv = c.0;
            counted = inr (ground (arith, c.1));
          }
  read_packet-IsRead network client server Direction.padding timestamp r count h =
      IsRead-le count (suc count) r (omega arith) h
  read_packet-IsRead network client server Direction.invalid timestamp r count h = tt

  read_parts-IsRead :
      (network : Network) (client server : Option Integration) (start : ℕ) (parts : List Text)
      (r : Reading H T) (count : ℕ)
      → IsRead count r
      → Ensures (IsRead (suc count)) (read_parts network client server start parts r)
  unfolding read_parts
  read_parts-IsRead network client server start [] r count h =
      IsRead-le count (suc count) r (omega arith) h
  read_parts-IsRead network client server start (time ∷ []) r count h =
      IsRead-le count (suc count) r (omega arith) h
  read_parts-IsRead network client server start (time ∷ way ∷ rest) r count h =
      Ensures-after (IsRead (suc count)) (unwrap_some (parse_u64 (trim time))) _
        λ n e. read_packet-IsRead network client server (direction way) (start + n) r count h

  read_lines-IsRead :
      (network : Network) (client server : Option Integration) (start : ℕ) (ls : List Text)
      (r : Reading H T) (count total : ℕ)
      → count + length ls ≤ total
      → IsRead count r
      → Ensures (IsRead total) (read_lines network client server start ls r)
  unfolding read_lines
  read_lines-IsRead network client server start [] r count total le h =
      IsRead-le count total r (omega (arith, le)) h
  read_lines-IsRead network client server start (l ∷ rest) r count total le h =
      Ensures-bind (IsRead (suc count)) (IsRead total)
        (read_parts network client server start (split comma l) r) _
        (read_parts-IsRead network client server start (split comma l) r count h)
        λ r' e k.
          read_lines-IsRead network client server start rest r' (suc count) total
            (omega (arith, le)) k

  new_reading-IsRead : (thread : T) → IsRead 0 (new_reading thread)
  new_reading-IsRead thread = record {
    sided = new_sim-IsSided;
    sent = record { size = omega arith; bound = omega arith };
    recv = record { size = omega arith; bound = omega arith };
    counted = inl refl;
  }

module _ (H : Type 0) {T : Type 0} ⦃heap : Heap H⦄ ⦃fl : Floats⦄ ⦃th : Thread T⦄ where
  -- A queue that `parse_trace_advanced` returns, for any text, has each event in the queues of its
  -- side and not before its own delay. Its maximum of packets per second is at most the number of
  -- lines, and it is zero only if the queue is empty.
  pub parse_trace_advanced-IsParsed :
      (trace : Text) (network : Network) (client server : Option Integration) (start : ℕ)
      (thread : T)
      → Ensures {A = SimQueue H × T}
          (λ r. IsParsed (length (lines trace)) r.0)
          (parse_trace_advanced trace network client server start thread)
  unfolding parse_trace_advanced
  parse_trace_advanced-IsParsed trace network client server start thread =
      Ensures-bind (IsRead (length (lines trace))) (λ r. IsParsed (length (lines trace)) r.0)
        (read_lines network client server start (lines trace) (new_reading thread)) _
        (read_lines-IsRead network client server start (lines trace) (new_reading thread) 0
          (length (lines trace)) (omega arith) (new_reading-IsRead thread))
        λ r e h. record {
          sided = record { client = h.sided.client; server = h.sided.server };
          pps = greater_of r.recv_max_pps r.sent_max_pps;
          max_pps = refl;
          bound = ground (arith, h.sent.bound, h.recv.bound);
          counted = elim h.counted [
            | inl same ↦ inl (
                ap
                  (λ (q : SimQueue H). record q {
                    max_pps = some (greater_of r.recv_max_pps r.sent_max_pps);
                  })
                  same)
            | inr lt ↦ inr lt
          ];
        }

-- ===== src/Simulator/Trace/Printed.antt =====
-- crates/maybenot-simulator/src/lib.rs: a trace that is written as the documentation of `parse_trace`
-- says.
use maybenot.Prelude.{
  ℕ, ◌+◌, ◌-◌, ◌≤◌, ◌<◌, ◌≡◌, refl, ap, ◌∙◌, Bool, true, false, none, List, [], ◌∷◌, ◌++◌, map, All,
  arith, if◌then◌else◌,
}
use maybenot.Constants.{u64_mod}
use maybenot.Event.{TriggerEvent}
use maybenot.Simulator.Event.{SimEvent}
use maybenot.Simulator.Network.{Network}
use maybenot.Simulator.Trace.{Direction, direction}
use maybenot.Simulator.Trace.Strings.{Text, newline, carriage_return, comma, split, lines}
use maybenot.Simulator.Trace.Cut.{
  Lacks, OneLine, AllDigits, unlines, lines-unlines, split-append, value,
}

-- A line of a trace: the digits of its time, its direction with or without an `n`, and its size.
pub record Packet : Type 0 where
  pub first_digit : ℕ
  pub digits : Text
  pub sent : Bool
  pub normal : Bool
  pub size : Text

abbrev pub mark : Bool → Bool → Text
mark true true = b's' ∷ b'n' ∷ []
mark true false = b's' ∷ []
mark false true = b'r' ∷ b'n' ∷ []
mark false false = b'r' ∷ []

abbrev pub way : Bool → Direction
way true = Direction.sent
way false = Direction.received

abbrev pub time_text : Packet → Text
time_text p = p.first_digit ∷ p.digits

abbrev pub nanos : Packet → ℕ
nanos p = value 0 (time_text p)

abbrev pub after_time : Packet → Text
after_time p = mark p.sent p.normal ++ (comma ∷ p.size)

abbrev pub print_line : Packet → Text
print_line p = time_text p ++ (comma ∷ after_time p)

unfoldable pub print_trace : List Packet → Text
unfolding unlines
print_trace ps = unlines (map print_line ps)

-- The time of the event: when the client sent, or when the server did, the network's delay ago.
abbrev pub sent_time : ℕ → Network → Bool → ℕ → ℕ
sent_time start network true n = start + n
sent_time start network false n = start + n - network.delay

abbrev pub sent_event : Bool → ℕ → SimEvent
sent_event is_client time = record {
  event = TriggerEvent.normal_sent;
  time = time;
  integration_delay = 0;
  client = is_client;
  contains_padding = false;
  bypass = false;
  replace = false;
  propagate_base_delay = none;
}

abbrev pub event_of : ℕ → Network → Packet → SimEvent
event_of start network p = sent_event p.sent (sent_time start network p.sent (nanos p))

-- Its time is a number below 2^64, and what the client receives was sent after the earliest instant.
pub record IsWritten (start : ℕ) (network : Network) (p : Packet) : Type 0 where
  pub digits : AllDigits (time_text p)
  pub small : nanos p < u64_mod
  pub size : OneLine p.size
  pub late : (if p.sent then 0 else network.delay) ≤ start + nanos p

Lacks-append : (sep : ℕ) (s t : Text) → Lacks sep s → Lacks sep t → Lacks sep (s ++ t)
Lacks-append sep [] t h k = k
Lacks-append sep (c ∷ s) t h k = (h.0, Lacks-append sep s t h.1 k)

-- A digit is none of the separators.
digits-Lacks : (sep : ℕ) (s : Text) → sep < b'0' → AllDigits s → Lacks sep s
digits-Lacks sep [] lt h = tt
digits-Lacks sep (c ∷ s) lt h = (ground (arith, h.0, lt), digits-Lacks sep s lt h.1)

mark-Lacks : (sep : ℕ) (sent normal : Bool) → sep < b'n' → Lacks sep (mark sent normal)
mark-Lacks sep true true lt = (omega arith, (omega arith, tt))
mark-Lacks sep true false lt = (omega arith, tt)
mark-Lacks sep false true lt = (omega arith, (omega arith, tt))
mark-Lacks sep false false lt = (omega arith, tt)

pub direction-mark : (sent normal : Bool) → direction (mark sent normal) ≡ way sent
unfolding direction
direction-mark true true = refl
direction-mark true false = refl
direction-mark false true = refl
direction-mark false false = refl

module _ (start : ℕ) (network : Network) where
  line-Lacks :
      (sep : ℕ) (p : Packet)
      → sep < b','
      → IsWritten start network p
      → Lacks sep p.size
      → Lacks sep (print_line p)
  line-Lacks sep p lt h k =
      Lacks-append sep (time_text p) (comma ∷ after_time p)
        (digits-Lacks sep (time_text p) (omega arith) h.digits)
        (
          omega arith,
          Lacks-append sep (mark p.sent p.normal) (comma ∷ p.size)
              (mark-Lacks sep p.sent p.normal (omega arith)) (omega arith, k),
        )

  lines-OneLine :
      (ps : List Packet) → All (IsWritten start network) ps → All OneLine (map print_line ps)
  lines-OneLine [] h = tt
  lines-OneLine (p ∷ ps) h = (
    (
      line-Lacks newline p (omega arith) h.0 h.0.size.0,
      line-Lacks carriage_return p (omega arith) h.0 h.0.size.1,
    ),
    lines-OneLine ps h.1,
  )

  pub split-print_line :
      (p : Packet)
      → IsWritten start network p
      → split comma (print_line p) ≡ time_text p ∷ mark p.sent p.normal ∷ split comma p.size
  split-print_line p h =
      split-append comma (time_text p) (after_time p)
        (digits-Lacks comma (time_text p) (omega arith) h.digits)
      ∙ ap (λ parts. time_text p ∷ parts)
          (split-append comma (mark p.sent p.normal) p.size
            (mark-Lacks comma p.sent p.normal (omega arith)))

pub lines-print_trace :
    (start : ℕ) (network : Network) (ps : List Packet)
    → All (IsWritten start network) ps
    → lines (print_trace ps) ≡ map print_line ps
unfolding print_trace
lines-print_trace start network ps h =
    lines-unlines (map print_line ps) (lines-OneLine start network ps h)

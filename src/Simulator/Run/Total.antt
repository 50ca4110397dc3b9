-- ===== src/Simulator/Run/Total.antt =====
-- crates/maybenot-simulator/src/lib.rs: `sim_advanced` returns.
use maybenot.Prelude.{
  ℕ, zero, suc, ◌+◌, ◌≤◌, ◌<◌, ◌≡◌, refl, ap, inl, inr, true, false, Option, none, some, List, [],
  ◌∷◌, ◌++◌, Outcome, if-both, Returns, Returns-bind, All, length, arith,
}
use maybenot.Platform.{Floats, Rng}
use maybenot.Simulator.Event.{SimEvent}
use maybenot.Simulator.Queue.{Heap}
use maybenot.Simulator.Integration.{Thread}
use maybenot.Simulator.Network.{DelayHeap}
use maybenot.Simulator.Sim.{Sim}
use maybenot.Simulator.Pick.{pick_next}
use maybenot.Simulator.Pick.Step.{NotBefore}
use maybenot.Simulator.Pick.Total.{IsPick, pick_next-IsPick}
use maybenot.Simulator.Run.{SimulatorArgs, is_last, while_some, round, main_loop}
use maybenot.Simulator.Run.Round.{
  IsSaved, IsSoundSim, IsSoundSim-IsReady, IsPick-IsSoundSim, IsRound, round-IsRound,
}

-- What the arguments ask of a trace.
pub record IsTrace (args : SimulatorArgs) (trace : List SimEvent) : Type 0 where
  pub iterations : length trace ≤ args.max_sim_iterations
  pub bounded : 0 < args.max_trace_length → length trace ≤ args.max_trace_length
  pub side : args.only_client_events ≡ true → All (λ e. e.client ≡ true) trace

-- The trace before a round.
pub record InBounds (args : SimulatorArgs) (trace : List SimEvent) (iterations : ℕ) : Type 0 where
  pub grown : length trace ≤ iterations
  pub more : iterations < args.max_sim_iterations
  pub room : 0 < args.max_trace_length → length trace < args.max_trace_length
  pub side : args.only_client_events ≡ true → All (λ e. e.client ≡ true) trace

length-snoc : (xs : List SimEvent) (e : SimEvent) → length (xs ++ e ∷ []) ≡ suc (length xs)
length-snoc [] e = refl
length-snoc (x ∷ xs) e = ap suc (length-snoc xs e)

All-snoc :
    (P : SimEvent → Type 0) (xs : List SimEvent) (e : SimEvent)
    → All P xs
    → P e
    → All P (xs ++ e ∷ [])
All-snoc P [] e h k = (k, tt)
All-snoc P (x ∷ xs) e h k = (h.0, All-snoc P xs e h.1 k)

-- A round adds one event at most, and keeps what the arguments ask for.
saved_size :
    (args : SimulatorArgs) (trace trace' : List SimEvent)
    → IsSaved args trace trace'
    → (length trace' ≤ suc (length trace))
      × (args.only_client_events ≡ true
          → All (λ e. e.client ≡ true) trace
          → All (λ e. e.client ≡ true) trace')
saved_size args trace trace' (inl e) = rw e (omega arith, (λ o h. h))
saved_size args trace trace' (inr (x, e, side)) = rw e (
  omega (arith, length-snoc trace x),
  (λ o h. All-snoc (λ y. y.client ≡ true) trace x h (side o)),
)

not_last :
    (args : SimulatorArgs) (trace : List SimEvent) (iterations : ℕ)
    → is_last args trace iterations ≡ false
    → (0 < args.max_sim_iterations → iterations < args.max_sim_iterations)
      × (0 < args.max_trace_length → length trace < args.max_trace_length)
not_last args trace iterations h = (λ k. ground arith, λ k. ground arith)

while_some-IsTrace :
    (args : SimulatorArgs) (now : ℕ) (picked : Option SimEvent) (trace : List SimEvent)
    (body : SimEvent → Outcome (List SimEvent))
    → NotBefore now picked
    → IsTrace args trace
    → ((e : SimEvent) → NotBefore now (some e) → Returns (IsTrace args) (body e))
    → Returns (IsTrace args) (while_some picked trace body)
while_some-IsTrace args now none trace body h k rest = k
while_some-IsTrace args now (some e) trace body h k rest = rest e h

module _ {H D R T : Type 0} ⦃heap : Heap H⦄ ⦃delays : DelayHeap D⦄ ⦃fl : Floats⦄ ⦃g : Rng R⦄
    ⦃th : Thread T⦄ where
  -- With a bound on the iterations, the main loop ends by it or before, from a sound state.
  pub main_loop-IsTrace :
      (k : ℕ) (args : SimulatorArgs) (sim : Sim H D R T) (now : ℕ) (trace : List SimEvent)
      (iterations : ℕ)
      → args.max_sim_iterations ≤ iterations + k
      → InBounds args trace iterations
      → IsSoundSim sim
      → Returns (IsTrace args) (main_loop k args sim now trace iterations)
  unfolding main_loop
  main_loop-IsTrace zero args sim now trace iterations enough b h = absurd (omega (arith, b.more))
  main_loop-IsTrace (suc k) args sim now trace iterations enough b h =
      Returns-bind (IsPick sim now) (IsTrace args) (pick_next sim now) _
        (pick_next-IsPick sim now (IsSoundSim-IsReady sim h))
        λ r er p.
          while_some-IsTrace args now r.0 trace _ p.not_before
            (record {
              iterations = omega (arith, b.grown, b.more);
              bounded = λ lt. omega (arith, b.room lt);
              side = b.side;
            })
            λ next fit.
              Returns-bind (IsRound args next trace) (IsTrace args) (round args next r.1 now trace)
                _
                (round-IsRound args next r.1 now trace fit.0 fit.1
                  (IsPick-IsSoundSim sim now r p h))
                λ q eq s.
                  let grown = saved_size args trace q.2 s.saved in
                  if-both (Returns (IsTrace args)) (is_last args q.2 (suc iterations)) _ _
                    (λ e. record {
                      iterations = omega (arith, grown.0, b.grown, b.more);
                      bounded = λ lt. omega (arith, grown.0, b.room lt);
                      side = λ o. grown.1 o (b.side o);
                    })
                    (λ e.
                      main_loop-IsTrace k args q.1 q.0 q.2 (suc iterations) (omega arith)
                        (record {
                          grown = omega (arith, grown.0, b.grown);
                          more = (not_last args q.2 (suc iterations) e).0 (omega (arith, b.more));
                          room = (not_last args q.2 (suc iterations) e).1;
                          side = λ o. grown.1 o (b.side o);
                        })
                        s.sound)

-- ===== src/Simulator/Run/Start.antt =====
-- crates/maybenot-simulator/src/lib.rs: `sim_advanced` from its arguments.
use maybenot.Prelude.{ltb, false}
use maybenot.Prelude.{
  ℕ, zero, suc, ◌%◌, ◌≤◌, ◌<◌, ◌≡◌, ◌≢◌, sym, ap, ◌∙◌, true, Option, none, some, List, [], length,
  length-map, length-replicate, replicate, Outcome, ok, err, panic, unfinished, ne→==_false,
  Returns, Returns-bind, arith,
}
use maybenot.Platform.{F64, Floats, Rng}
use maybenot.Machine.{Machine}
use maybenot.Framework.Create.{is_fraction, new}
use maybenot.Framework.Rows.{IsValid}
use maybenot.Framework.Ledger.{Ledger, account, ledger}
use maybenot.Framework.Start.{Validated, Draws, start_ledger, new-IsValid}
use maybenot.Simulator.Event.{SimEvent}
use maybenot.Simulator.Queue.{Heap, SimQueue}
use maybenot.Simulator.Queue.Sided.{IsSided}
use maybenot.Simulator.Sides.{get_first_time}
use maybenot.Simulator.Integration.{Integration, Thread}
use maybenot.Simulator.Network.{DelayHeap, Network, u32_mod, limit_from, new_bottleneck}
use maybenot.Simulator.Sim.{Sim, unwrap, new_state}
use maybenot.Simulator.Slots.Found.{InSlots, IsTimed}
use maybenot.Simulator.Slots.Actions.{Answers}
use maybenot.Simulator.Update.Safe.{IsSound}
use maybenot.Simulator.Run.{
  SimulatorArgs, Sources, rng_source, expected_trace_len, one_second, sort_by_time, main_loop,
  sim_advanced,
}
use maybenot.Simulator.Run.Sorting.{
  IsSorted, sort_by_time-IsSorted, All-sort_by_time, length-sort_by_time,
}
use maybenot.Simulator.Run.Total.{IsTrace, main_loop-IsTrace}

unwrap-Returns {ℓ} :
    {A : Type ℓ} (P : A → Type 0) (m : Outcome A) → Returns P m → Returns P (unwrap m)
unwrap-Returns P (ok a) h = h
unwrap-Returns P (err e) h = absurd h
unwrap-Returns P panic h = absurd h
unwrap-Returns P unfinished h = absurd h

replicate-InSlots : {A : Type 0} (P : A → Type 0) (n : ℕ) → InSlots P (replicate n none)
replicate-InSlots P zero = tt
replicate-InSlots P (suc n) = replicate-InSlots P n

-- A side's machines and limits that `Framework::new` accepts, and whose distributions rand accepts.
pub record Accepted ⦃fl : Floats⦄ (machines : List Machine) (padding blocking : F64) : Type 0 where
  pub padding_limit : is_fraction padding ≡ true
  pub blocking_limit : is_fraction blocking ≡ true
  pub validated : Validated machines
  pub draws : Draws machines

module _ {R T : Type 0} ⦃fl : Floats⦄ ⦃g : Rng R⦄ ⦃th : Thread T⦄ where
  new_state-IsSound :
      (machines : List Machine) (now : ℕ) (padding blocking : F64)
      (integration : Option Integration) (rng : R)
      → Accepted machines padding blocking
      → Answers T integration
      → Returns (IsSound T) (new_state machines now padding blocking integration rng)
  unfolding new_state
  new_state-IsSound machines now padding blocking integration rng h k =
      let call = new machines padding blocking now rng in
      Returns-bind (λ fw. IsValid fw × (ledger fw ≡ start_ledger machines padding blocking now))
        (IsSound T) (unwrap call) _
        (unwrap-Returns _ call (
          new-IsValid machines padding blocking now rng h.padding_limit h.blocking_limit h.validated
            h.draws))
        λ fw e v.
          let count : length fw.runtime ≡ length machines =
            sym (length-map account fw.runtime)
            ∙ ap (λ (l : Ledger). length l.accounts) v.1
            ∙ length-map _ machines in
          record {
            valid = v.0;
            actions = length-replicate (length machines) none ∙ sym count;
            timers = length-replicate (length machines) none ∙ sym count;
            timed = replicate-InSlots IsTimed (length machines);
            answers = k;
          }

-- What `sim_advanced` needs of its arguments: machines and limits that are accepted, integrations
-- whose delays can be drawn, a limit of packets per second that is not zero as a u32, a trace that a
-- vector can hold, and a queue with a base event, each event in the queues of its side and not before its own delay.
pub record CanRun (T : Type 0) {H : Type 0} ⦃heap : Heap H⦄ ⦃fl : Floats⦄ ⦃th : Thread T⦄
    (max_capacity : ℕ) (machines_client machines_server : List Machine) (sq : SimQueue H)
    (args : SimulatorArgs) : Type 0 where
  pub first : ℕ
  pub starts : get_first_time sq ≡ some first
  pub sided : IsSided sq
  pub client : Accepted machines_client args.max_padding_frac_client args.max_blocking_frac_client
  pub server : Accepted machines_server args.max_padding_frac_server args.max_blocking_frac_server
  pub client_answers : Answers T args.client_integration
  pub server_answers : Answers T args.server_integration
  pub capacity : expected_trace_len sq args ≤ max_capacity
  pub limit : limit_from args.network sq.max_pps % u32_mod ≢ 0

le→ltb_false : (a b : ℕ) → b ≤ a → ltb a b ≡ false
le→ltb_false a b h = ground arith

sort-IsTrace :
    (args : SimulatorArgs) (trace : List SimEvent)
    → IsTrace args trace
    → IsTrace args (sort_by_time trace) × IsSorted (sort_by_time trace)
sort-IsTrace args trace h =
    let same = length-sort_by_time trace in
    (
      record {
        iterations = omega (arith, same, h.iterations);
        bounded = λ lt. omega (arith, same, h.bounded lt);
        side = λ o. All-sort_by_time (λ e. e.client ≡ true) trace (h.side o);
      },
      sort_by_time-IsSorted trace,
    )

module _ (D : Type 0) ⦃delays : DelayHeap D⦄ where
  new_bottleneck-Returns :
      (network : Network) (window : ℕ) (pps : Option ℕ)
      → limit_from network pps % u32_mod ≢ 0
      → Returns (λ n. Unit {0}) (new_bottleneck {D = D} network window pps)
  unfolding new_bottleneck
  new_bottleneck-Returns network window pps h =
      rw (ne→==_false (limit_from network pps % u32_mod) 0 h) tt

module _ (D : Type 0) {H R T : Type 0} ⦃heap : Heap H⦄ ⦃delays : DelayHeap D⦄ ⦃fl : Floats⦄
    ⦃g : Rng R⦄ ⦃th : Thread T⦄ where
  -- With a maximum of iterations, `sim_advanced` returns: its main loop ends, whatever the machines do
  -- and the generators draw, and it does not panic, where instants and durations have no upper bound and
  -- memory is not exhausted. It needs machines and limits that `Framework::new` accepts, uniform
  -- distributions that rand accepts, integration delays that can be drawn, a limit of packets per second
  -- that is not a multiple of 2^32, an expected length of the trace that a vector can be made for, and a
  -- queue with a base event and with each event on its side and, padding that is sent apart, not before
  -- its own delay. The trace is sorted by time, has at most as many events as the maximum of iterations
  -- and as the maximum length, if there is one, and has only events of the client, if only these are
  -- asked for.
  pub sim_advanced-IsTrace :
      (bound max_capacity : ℕ) (machines_client machines_server : List Machine) (sq : SimQueue H)
      (args : SimulatorArgs) (sources : Sources R) (thread : T)
      → 0 < args.max_sim_iterations
      → args.max_sim_iterations ≤ bound
      → CanRun T max_capacity machines_client machines_server sq args
      → Returns
          (λ trace. IsTrace args trace × IsSorted trace)
          (sim_advanced D bound max_capacity machines_client machines_server sq args sources thread)
  unfolding sim_advanced
  sim_advanced-IsTrace bound max_capacity mc ms sq args sources thread some_rounds enough h =
      let P : List SimEvent → Type 0 = λ trace. IsTrace args trace × IsSorted trace in
      let client_rng = rng_source sources.seeded sources.client_thread args.insecure_rng_seed in
      let server_rng = rng_source sources.seeded sources.server_thread args.insecure_rng_seed in
      let fits : ltb max_capacity (expected_trace_len sq args) ≡ false =
        le→ltb_false max_capacity (expected_trace_len sq args) h.capacity in
      rw fits (
        rw h.starts (
          Returns-bind (IsSound T) P
            (new_state mc h.first args.max_padding_frac_client args.max_blocking_frac_client
              args.client_integration client_rng)
            _
            (new_state-IsSound mc h.first args.max_padding_frac_client args.max_blocking_frac_client
              args.client_integration client_rng h.client h.client_answers)
            λ client ec sc.
              Returns-bind (IsSound T) P
                (new_state ms h.first args.max_padding_frac_server args.max_blocking_frac_server
                  args.server_integration server_rng)
                _
                (new_state-IsSound ms h.first args.max_padding_frac_server
                  args.max_blocking_frac_server args.server_integration server_rng h.server
                  h.server_answers)
                λ server es ss.
                  Returns-bind (λ n. Unit {0}) P
                    (new_bottleneck {D = D} args.network one_second sq.max_pps) _
                    (new_bottleneck-Returns D args.network one_second sq.max_pps h.limit)
                    λ network en u.
                      let start : Sim H D R T = record {
                        sq = sq;
                        client = client;
                        server = server;
                        network = network;
                        thread = thread;
                      } in
                      Returns-bind (IsTrace args) P (main_loop bound args start h.first [] 0) _
                        (main_loop-IsTrace bound args start h.first [] 0 (omega arith)
                          (record {
                            grown = omega arith;
                            more = some_rounds;
                            room = λ lt. lt;
                            side = λ o. tt;
                          })
                          (record { sided = h.sided; client = sc; server = ss }))
                        λ trace et it. sort-IsTrace args trace it))

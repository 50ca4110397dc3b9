-- ===== src/Framework/Safety.antt =====
-- crates/maybenot/src/framework.rs: what holds of `trigger_events`.
use maybenot.Prelude.{
  ℕ, zero, suc, ◌<◌, ◌≡◌, refl, ◌∙◌, ap, Option, none, some, List, [], ◌∷◌, map, ok, Returns,
  Returns-bind, Returns-mono, index, index_lt, length, arith,
}
use maybenot.Constants.{state_end}
use maybenot.Platform.{Floats, Rng}
use maybenot.Event.{Event, TriggerEvent}
use maybenot.Action.{TriggerAction}
use maybenot.Framework.Types.{MachineRuntime, SignalTarget, Framework}
use maybenot.Framework.Events.{
  notify, for_all_machines, process_events, excluded_by, signal_one, signal_excluded, send_signal,
  reset, run_events, present, trigger_events,
}
use maybenot.Framework.Ledger.{ledger, book_all}
use maybenot.Framework.Rows.{IsValid, SignalIn, Rows-length, Rows-reset}
use maybenot.Framework.Actions.{NoneFor, OnePerMachine, present-NoneFor, present-OnePerMachine}
use maybenot.Framework.Kept.{IsQuiet, notify-Kept}
use maybenot.Framework.Trigger.{Booked, notify_all-Booked, process_events-Booked, signal_one-Books}

abbrev ExcludedIn : ℕ → Option ℕ → Type 0
ExcludedIn n none = Unit
ExcludedIn n (some k) = k < n

excluded_in :
    (target : SignalTarget) (n n' : ℕ)
    → n' ≡ n
    → SignalIn n (some target)
    → ExcludedIn n' (excluded_by target)
excluded_in SignalTarget.all n n' e h = tt
excluded_in (SignalTarget.all_except k) n n' e h = omega arith

index-map-none :
    (xs : List (Option TriggerAction)) (j : ℕ)
    → j < length xs
    → index {A = Option TriggerAction} (map (λ _. none) xs) j ≡ ok none
unfolding index
index-map-none [] j h = absurd (omega arith)
index-map-none (x ∷ xs) zero h = refl
index-map-none (x ∷ xs) (suc j) h = index-map-none xs j (omega arith)

module _ {R : Type 0} where
  IsQuiet-again :
      (j : ℕ) (fw fw' : Framework R)
      → fw'.runtime ≡ fw.runtime
      → fw'.actions ≡ fw.actions
      → IsQuiet j fw
      → IsQuiet j fw'
  IsQuiet-again j fw fw' er ea q = record {
    rt = q.rt;
    at_runtime = ap (λ xs. index xs j) er ∙ q.at_runtime;
    ended = q.ended;
    no_action = ap (λ xs. index xs j) ea ∙ q.no_action;
  }

module _ {R : Type 0} ⦃fl : Floats⦄ ⦃g : Rng R⦄ where
  Booked-refl : (fw : Framework R) → IsValid fw → Booked (ledger fw) fw fw
  Booked-refl fw v = record { valid = v; books = refl; count = refl; quiet = λ j q. q }

  signal_excluded-Booked :
      (excluded : Option ℕ) (again : Option SignalTarget) (fw : Framework R)
      → IsValid fw
      → ExcludedIn (length fw.runtime) excluded
      → Returns (Booked (ledger fw) fw) (signal_excluded excluded again fw)
  unfolding signal_excluded
  signal_excluded-Booked none none fw v h = Booked-refl fw v
  signal_excluded-Booked none (some t) fw v h = Booked-refl fw v
  signal_excluded-Booked (some k) none fw v h = Booked-refl fw v
  signal_excluded-Booked (some k) (some t) fw v h =
      Returns-mono _ (Booked (ledger fw) fw) (notify Event.signal fw k)
        (λ fw' k'. record {
          valid = k'.here.valid;
          books = k'.here.accounts;
          count = k'.here.count;
          quiet = k'.quiet;
        })
        (notify-Kept Event.signal fw k v h)

  send_signal-Booked :
      (pending : Option SignalTarget) (fw : Framework R)
      → IsValid fw
      → SignalIn (length fw.runtime) pending
      → Returns (Booked (ledger fw) fw) (send_signal pending fw)
  unfolding send_signal
  send_signal-Booked none fw v h = Booked-refl fw v
  send_signal-Booked (some target) fw v h =
      let fw0 : Framework R = record fw { signal_pending = none } in
      Returns-bind (Booked (ledger fw) fw0) (Booked (ledger fw) fw)
        (for_all_machines (signal_one (excluded_by target)) fw0) _
        (notify_all-Booked (signal_one (excluded_by target)) fw0
          (signal_one-Books (excluded_by target)) (v.0, tt))
        λ fw1 e b.
          let fw2 : Framework R = record fw1 { signal_pending = none } in
          Returns-mono (Booked (ledger fw2) fw2) (Booked (ledger fw) fw)
            (signal_excluded (excluded_by target) fw1.signal_pending fw2)
            (λ fw3 c. record {
              valid = c.valid;
              books = c.books ∙ b.books;
              count = c.count ∙ b.count;
              quiet = λ j q. c.quiet j (
                  IsQuiet-again j fw1 fw2 refl refl
                    (b.quiet j (IsQuiet-again j fw fw0 refl refl q)));
            })
            (signal_excluded-Booked (excluded_by target) fw1.signal_pending fw2 (b.valid.0, tt)
              (excluded_in target (length fw.runtime) (length fw1.runtime) b.count h))

  -- A machine that has ended is quiet once the actions are reset.
  IsQuiet-reset :
      (j now : ℕ) (fw : Framework R) {rt : MachineRuntime}
      → IsValid fw
      → index fw.runtime j ≡ ok rt
      → rt.current_state ≡ state_end
      → IsQuiet j (reset fw now)
  IsQuiet-reset j now fw {rt} v at ended = record {
    rt = rt;
    at_runtime = at;
    ended = ended;
    no_action = index-map-none fw.actions j (
        omega (
          arith,
          index_lt fw.runtime j at,
          (Rows-length 0 fw.machines fw.runtime fw.actions v.0).1,
        ));
  }

  -- The state after `trigger_events`.
  run_events-Booked :
      (fw : Framework R) (es : List TriggerEvent) (now : ℕ)
      → IsValid fw
      → Returns (Booked (book_all (ledger (reset fw now)) es) (reset fw now)) (run_events fw es now)
  unfolding run_events
  run_events-Booked fw es now v =
      let l = book_all (ledger (reset fw now)) es in
      Returns-bind (Booked l (reset fw now)) (Booked l (reset fw now))
        (process_events (reset fw now) es) _
        (process_events-Booked (reset fw now) es
          (Rows-reset 0 fw.machines fw.runtime fw.actions v.0, v.1))
        λ fw1 e b.
          Returns-mono (Booked (ledger fw1) fw1) (Booked l (reset fw now))
            (send_signal fw1.signal_pending fw1)
            (λ fw2 c. record {
              valid = c.valid;
              books = c.books ∙ b.books;
              count = c.count ∙ b.count;
              quiet = λ j q. c.quiet j (b.quiet j q);
            })
            (send_signal-Booked fw1.signal_pending fw1 b.valid b.valid.1)

  from_run_events :
      (P : List TriggerAction × Framework R → Type 0) (fw : Framework R) (es : List TriggerEvent)
      (now : ℕ)
      → IsValid fw
      → ((fw' : Framework R)
          → Booked (book_all (ledger (reset fw now)) es) (reset fw now) fw'
          → P (present fw'.actions, fw'))
      → Returns P (trigger_events fw es now)
  unfolding trigger_events
  from_run_events P fw es now v k =
      Returns-bind (Booked (book_all (ledger (reset fw now)) es) (reset fw now)) P
        (run_events fw es now) _ (run_events-Booked fw es now v) λ fw' e b. k fw' b

  -- In a valid framework `trigger_events` returns, whatever the events and the random draws: it does
  -- not panic, its calls nest at most three deep, and the framework is valid after it.
  pub trigger_events-IsValid :
      (fw : Framework R) (es : List TriggerEvent) (now : ℕ)
      → IsValid fw
      → Returns (λ r. IsValid r.1) (trigger_events fw es now)
  trigger_events-IsValid fw es now v =
      from_run_events (λ r. IsValid r.1) fw es now v (λ fw' b. b.valid)

  -- The accounts after `trigger_events` in a valid framework are those of the abstract accounting: the
  -- events decide them alone, in order, and no machine's transitions have a part in them.
  pub ledger-trigger_events :
      (fw : Framework R) (es : List TriggerEvent) (now : ℕ)
      → IsValid fw
      → Returns
          (λ r. ledger r.1 ≡ book_all (record (ledger fw) { current_time = now }) es)
          (trigger_events fw es now)
  ledger-trigger_events fw es now v =
      from_run_events (λ r. ledger r.1 ≡ book_all (record (ledger fw) { current_time = now }) es) fw
        es now v (λ fw' b. b.books)

  -- A machine that has reached the end state in a valid framework is still there after a call of
  -- `trigger_events`, with no action in its slot, and the call returns no action for it.
  pub trigger_events_ended :
      (fw : Framework R) (es : List TriggerEvent) (now j : ℕ) (rt : MachineRuntime)
      → IsValid fw
      → index fw.runtime j ≡ ok rt
      → rt.current_state ≡ state_end
      → Returns (λ r. IsQuiet j r.1 × NoneFor j r.0) (trigger_events fw es now)
  trigger_events_ended fw es now j rt v at ended =
      from_run_events (λ r. IsQuiet j r.1 × NoneFor j r.0) fw es now v
        (λ fw' b.
          let q = b.quiet j (IsQuiet-reset j now fw {rt = rt} v at ended) in
          (
            q,
            present-NoneFor 0 j j fw'.machines fw'.runtime fw'.actions b.valid.0 q.no_action
                (omega arith),
          ))

  -- `trigger_events` in a valid framework returns at most one action for each machine, in the order of
  -- the machines, each for a machine that exists, and with no time in it longer than a day.
  pub trigger_events-OnePerMachine :
      (fw : Framework R) (es : List TriggerEvent) (now : ℕ)
      → IsValid fw
      → Returns (λ r. OnePerMachine 0 (length fw.runtime) r.0) (trigger_events fw es now)
  trigger_events-OnePerMachine fw es now v =
      from_run_events (λ r. OnePerMachine 0 (length fw.runtime) r.0) fw es now v
        (λ fw' b.
          present-OnePerMachine 0 (length fw.runtime) fw'.machines fw'.runtime fw'.actions b.valid.0
            (omega (arith, b.count)))

  -- The three together, as a caller needs them that keeps a slot for each machine.
  pub trigger_events-Sound :
      (fw : Framework R) (es : List TriggerEvent) (now : ℕ)
      → IsValid fw
      → Returns
          (λ r.
            OnePerMachine 0 (length fw.runtime) r.0
            × IsValid r.1
            × (length r.1.runtime ≡ length fw.runtime))
          (trigger_events fw es now)
  trigger_events-Sound fw es now v =
      from_run_events
        (λ r.
          OnePerMachine 0 (length fw.runtime) r.0
          × IsValid r.1
          × (length r.1.runtime ≡ length fw.runtime))
        fw es now v
        (λ fw' b. (
          present-OnePerMachine 0 (length fw.runtime) fw'.machines fw'.runtime fw'.actions b.valid.0
              (omega (arith, b.count)),
          b.valid,
          b.count,
        ))

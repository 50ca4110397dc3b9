-- ===== src/Framework/Start.antt =====
-- crates/maybenot/src/framework.rs: what `new` accepts, and what holds of a framework from then on.
use maybenot.Prelude.{
  ℕ, suc, ◌<◌, ◌≡◌, refl, ap, true, false, not, Option, none, some, List, [], ◌∷◌, map, Outcome, ok,
  ◌>>=◌, Returns, Returns-bind, Returns-eq, >>=-eq-ok, inl, index, length, arith, All, All-index,
  replicate, reject_if,
}
use maybenot.Constants.{u64_mod}
use maybenot.Errors.{Error}
use maybenot.Platform.{F64, Floats, Rng}
use maybenot.Event.{TriggerEvent}
use maybenot.Action.{Action, sample_limit}
use maybenot.Action.Bounds.{sample_limit-Returns}
use maybenot.State.Targets.{SoundState, StateDraws, ActionOk}
use maybenot.Machine.{Machine, validate}
use maybenot.Machine.Sound.{IsSound, validate-IsSound}
use maybenot.Framework.Types.{MachineRuntime, Framework}
use maybenot.Framework.Create.{
  start_runtime, is_fraction, start_runtimes, first_limit, sample_limits, new,
}
use maybenot.Framework.Events.{trigger_events}
use maybenot.Framework.Ledger.{account, Ledger, ledger}
use maybenot.Framework.Rows.{IsLive, Rows, IsValid}
use maybenot.Framework.Safety.{trigger_events-IsValid}

-- The books of a new framework.
abbrev pub start_ledger : List Machine → F64 → F64 → ℕ → Ledger
start_ledger machines max_padding_frac max_blocking_frac now = record {
  current_time = now;
  machines = machines;
  accounts = map (λ m. account (start_runtime now m)) machines;
  max_padding_frac = max_padding_frac;
  normal_sent_packets = 0;
  padding_sent_packets = 0;
  max_blocking_frac = max_blocking_frac;
  blocking_duration = 0;
  blocking_started = now;
  blocking_active = false;
  framework_start = now;
}

module _ ⦃fl : Floats⦄ where
  abbrev pub Validated : List Machine → Type 0
  Validated machines = All (λ m. validate m ≡ ok tt) machines

  -- What validation leaves open for the machines: rand accepts the bounds of their uniform
  -- distributions.
  abbrev pub Draws : List Machine → Type 0
  Draws machines = All (λ m. All StateDraws m.states) machines

  start_runtimes-eq :
      (now : ℕ) (ms : List Machine)
      → Validated ms
      → start_runtimes now ms ≡ ok (map (start_runtime now) ms)
  unfolding start_runtimes
  start_runtimes-eq now [] h = refl
  start_runtimes-eq now (m ∷ rest) h = rw (h.0, start_runtimes-eq now rest h.1)

  start_runtimes-Validated :
      (now : ℕ) (ms : List Machine) {rts : List MachineRuntime}
      → start_runtimes now ms ≡ ok rts
      → Validated ms
  unfolding start_runtimes
  start_runtimes-Validated now [] h = tt
  start_runtimes-Validated now (m ∷ rest) h =
      let (_, e, h1) = >>=-eq-ok (validate m) _ h in
      let (rts, e', _) = >>=-eq-ok (start_runtimes now rest) _ h1 in
      (e, start_runtimes-Validated now rest e')

  All-IsSound : (ms : List Machine) → Validated ms → Draws ms → All IsSound ms
  All-IsSound [] h u = tt
  All-IsSound (m ∷ rest) h u = (validate-IsSound m h.0 u.0, All-IsSound rest h.1 u.1)

module _ {R : Type 0} ⦃fl : Floats⦄ ⦃g : Rng R⦄ where
  first_limit-IsLive :
      (now : ℕ) (m : Machine) (o : Option Action) (rng : R)
      → IsSound m
      → ActionOk o
      → Returns
          (λ r. IsLive m r.0 × (account r.0 ≡ account (start_runtime now m)))
          (first_limit (start_runtime now m) o rng)
  first_limit-IsLive now m none rng s h = (
    record {
      in_range = inl s.some_state;
      limit = omega arith;
      counter_a = omega arith;
      counter_b = omega arith;
    },
    refl,
  )
  first_limit-IsLive now m (some a) rng s h =
      Returns-bind (λ r. r.0 < u64_mod)
        (λ r. IsLive m r.0 × (account r.0 ≡ account (start_runtime now m))) (sample_limit a rng) _
        (sample_limit-Returns a rng h)
        λ r e lt. (
          record {
            in_range = inl s.some_state;
            limit = lt;
            counter_a = omega arith;
            counter_b = omega arith;
          },
          refl,
        )

  abbrev Started : ℕ → ℕ → List Machine → List MachineRuntime × R → Type 0
  Started now mi ms r =
      Rows mi ms r.0 (replicate (length ms) none)
      × (map account r.0 ≡ map (λ m. account (start_runtime now m)) ms)

  sample_limits-Started :
      (now mi : ℕ) (ms : List Machine) (rng : R)
      → All IsSound ms
      → Returns (Started now mi ms) (sample_limits (map (start_runtime now) ms) ms rng)
  unfolding sample_limits
  sample_limits-Started now mi [] rng s = (tt, refl)
  sample_limits-Started now mi (m ∷ rest) rng s =
      Returns-bind (SoundState (length m.states)) (Started now mi (m ∷ rest)) (index m.states 0) _
        (All-index (SoundState (length m.states)) m.states 0 s.0.states s.0.some_state)
        λ st e ok_st.
          Returns-bind (λ r. IsLive m r.0 × (account r.0 ≡ account (start_runtime now m)))
            (Started now mi (m ∷ rest)) (first_limit (start_runtime now m) st.action rng) _
            (first_limit-IsLive now m st.action rng s.0 ok_st.action)
            λ r e' (live, acc).
              Returns-bind (Started now (suc mi) rest) (Started now mi (m ∷ rest))
                (sample_limits (map (start_runtime now) rest) rest r.1) _
                (sample_limits-Started now (suc mi) rest r.1 s.1)
                λ q e'' (rows, accs). (
                  (record { sound = s.0; live = live; action_for = tt }, rows),
                  λ i. acc i ∷ accs i,
                )

  -- With both limits fractions and every machine validated, bounds of uniform distributions that rand
  -- accepts, and one slot of transitions for each event in every state, as its type says, `new`
  -- returns a valid framework whose books are empty.
  pub new-IsValid :
      (machines : List Machine) (p b : F64) (now : ℕ) (rng : R)
      → is_fraction p ≡ true
      → is_fraction b ≡ true
      → Validated machines
      → Draws machines
      → Returns
          (λ fw. IsValid fw × (ledger fw ≡ start_ledger machines p b now))
          (new machines p b now rng)
  unfolding new
  new-IsValid machines p b now rng hp hb h u =
      rw (hp, hb, start_runtimes-eq now machines h)
        (Returns-bind (Started now 0 machines)
          (λ fw. IsValid fw × (ledger fw ≡ start_ledger machines p b now))
          (sample_limits (map (start_runtime now) machines) machines rng) _
          (sample_limits-Started now 0 machines rng (All-IsSound machines h u))
          λ r e (rows, accs).
            ((rows, tt), ap (λ a. record (start_ledger machines p b now) { accounts = a }) accs))

  -- `new` succeeds only if both limits are fractions and every machine passes validation.
  pub new-Validated :
      (machines : List Machine) (p b : F64) (now : ℕ) (rng : R) (fw : Framework R)
      → new machines p b now rng ≡ ok fw
      → (is_fraction p ≡ true) × (is_fraction b ≡ true) × Validated machines
  unfolding new
  new-Validated machines p b now rng fw h =
      let (_, e1, h1) = >>=-eq-ok (reject_if (not (is_fraction p)) Error.padding_limit) _ h in
      let (_, e2, h2) = >>=-eq-ok (reject_if (not (is_fraction b)) Error.blocking_limit) _ h1 in
      let (rts, e3, h3) = >>=-eq-ok (start_runtimes now machines) _ h2 in
      (ground arith, ground arith, start_runtimes-Validated now machines e3)

  -- A history of calls of `trigger_events`, each with its time.
  unfoldable pub run_calls : Framework R → List (List TriggerEvent × ℕ) → Outcome (Framework R)
  run_calls fw [] = ok fw
  run_calls fw ((events, now) ∷ rest) = do
    (_, fw') ← trigger_events fw events now
    run_calls fw' rest

  run_calls-IsValid :
      (fw : Framework R) (calls : List (List TriggerEvent × ℕ))
      → IsValid fw
      → Returns IsValid (run_calls fw calls)
  unfolding run_calls
  run_calls-IsValid fw [] v = v
  run_calls-IsValid fw ((events, now) ∷ rest) v =
      Returns-bind (λ r. IsValid r.1) IsValid (trigger_events fw events now) _
        (trigger_events-IsValid fw events now v) λ r e v'. run_calls-IsValid r.1 rest v'

  -- A framework that `new` returned never panics: every history of calls of `trigger_events`, whatever
  -- the events, the times and the random draws, returns with the framework valid, if rand accepts the
  -- bounds of the uniform distributions of its machines, and every state has one slot of transitions
  -- for each event, as its type says.
  pub new-run_calls :
      (machines : List Machine) (p b : F64) (start : ℕ) (rng : R) (fw : Framework R)
      (calls : List (List TriggerEvent × ℕ))
      → Draws machines
      → new machines p b start rng ≡ ok fw
      → Returns IsValid (run_calls fw calls)
  new-run_calls machines p b start rng fw calls u e =
      let (hp, hb, h) = new-Validated machines p b start rng fw e in
      run_calls-IsValid fw calls
        (Returns-eq (λ fw. IsValid fw × (ledger fw ≡ start_ledger machines p b start))
          (new machines p b start rng) e (new-IsValid machines p b start rng hp hb h u)).0

-- ===== src/Framework/Bookkeeping.antt =====
-- crates/maybenot/src/framework.rs: the counts and durations after a history of calls.
use maybenot.Prelude.{
  ℕ, zero, suc, ◌+◌, ◌%◌, ◌<◌, ◌≡◌, refl, ◌∙◌, sym, ap, subst, List, [], ◌∷◌, map, ok, Returns,
  Returns-bind, Returns-mono, Returns-eq, Returns-both, All, modify, arith,
}
use maybenot.Constants.{u64_mod}
use maybenot.Platform.{F64, Floats, Rng}
use maybenot.Event.{TriggerEvent}
use maybenot.Machine.{Machine}
use maybenot.Framework.Types.{Framework, increment}
use maybenot.Framework.Create.{new}
use maybenot.Framework.Events.{trigger_events}
use maybenot.Framework.Ledger.{
  Account, account, Ledger, ledger, count_normal, count_padding, add_blocked, blocking_lasted, book,
  book_all,
}
use maybenot.Framework.Rows.{IsValid}
use maybenot.Framework.Safety.{trigger_events-IsValid, ledger-trigger_events}
use maybenot.Framework.Start.{Draws, run_calls, new-IsValid, new-Validated, start_ledger}

-- How many of the events are of a normal packet that was sent, and of a padding packet.
unfoldable pub normals : List TriggerEvent → ℕ
normals [] = 0
normals (TriggerEvent.normal_sent ∷ rest) = suc (normals rest)
normals (_ ∷ rest) = normals rest

unfoldable pub paddings : List TriggerEvent → ℕ
paddings [] = 0
paddings (TriggerEvent.padding_sent machine ∷ rest) = suc (paddings rest)
paddings (_ ∷ rest) = paddings rest

-- The same over a history of calls.
unfoldable pub total : (List TriggerEvent → ℕ) → List (List TriggerEvent × ℕ) → ℕ
total count [] = 0
total count ((events, now) ∷ rest) = count events + total count rest

book_all-normals :
    (l : Ledger) (es : List TriggerEvent)
    → l.normal_sent_packets < u64_mod
    → (book_all l es).normal_sent_packets ≡ (l.normal_sent_packets + normals es) % u64_mod
unfolding book_all book normals
book_all-normals l [] h = omega arith
book_all-normals l (TriggerEvent.normal_sent ∷ rest) h =
    book_all-normals (book l TriggerEvent.normal_sent) rest (omega arith) ∙ omega arith
book_all-normals l (e ∷ rest) h = book_all-normals (book l e) rest h

book_all-paddings :
    (l : Ledger) (es : List TriggerEvent)
    → l.padding_sent_packets < u64_mod
    → (book_all l es).padding_sent_packets ≡ (l.padding_sent_packets + paddings es) % u64_mod
unfolding book_all book paddings
book_all-paddings l [] h = omega arith
book_all-paddings l (TriggerEvent.padding_sent machine ∷ rest) h =
    book_all-paddings (book l (TriggerEvent.padding_sent machine)) rest (omega arith) ∙ omega arith
book_all-paddings l (e ∷ rest) h = book_all-paddings (book l e) rest h

-- The accounts of each machine are in step with those of the framework.
abbrev pub InStep : ℕ → ℕ → List Account → Type 0
InStep sent blocked xs = All (λ a. (a.normal_sent ≡ sent) × (a.blocking_duration ≡ blocked)) xs

abbrev LedgerInStep : Ledger → Type 0
LedgerInStep l = InStep l.normal_sent_packets l.blocking_duration l.accounts

InStep-count_padding :
    (sent blocked i : ℕ) (xs : List Account)
    → InStep sent blocked xs
    → InStep sent blocked (modify i count_padding xs)
InStep-count_padding sent blocked i [] h = tt
InStep-count_padding sent blocked zero (a ∷ xs) h = (h.0, h.1)
InStep-count_padding sent blocked (suc i) (a ∷ xs) h =
    (h.0, InStep-count_padding sent blocked i xs h.1)

InStep-count_normal :
    (sent blocked : ℕ) (xs : List Account)
    → InStep sent blocked xs
    → InStep (increment sent) blocked (map count_normal xs)
InStep-count_normal sent blocked [] h = tt
InStep-count_normal sent blocked (a ∷ xs) h =
    ((ap increment h.0.0, h.0.1), InStep-count_normal sent blocked xs h.1)

InStep-add_blocked :
    (sent blocked more : ℕ) (xs : List Account)
    → InStep sent blocked xs
    → InStep sent (blocked + more) (map (add_blocked more) xs)
InStep-add_blocked sent blocked more [] h = tt
InStep-add_blocked sent blocked more (a ∷ xs) h =
    ((h.0.0, ap (λ d. d + more) h.0.1), InStep-add_blocked sent blocked more xs h.1)

book-LedgerInStep : (l : Ledger) (e : TriggerEvent) → LedgerInStep l → LedgerInStep (book l e)
unfolding book
book-LedgerInStep l TriggerEvent.normal_sent h =
    InStep-count_normal l.normal_sent_packets l.blocking_duration l.accounts h
book-LedgerInStep l (TriggerEvent.padding_sent machine) h =
    InStep-count_padding l.normal_sent_packets l.blocking_duration machine l.accounts h
book-LedgerInStep l TriggerEvent.blocking_end h =
    InStep-add_blocked l.normal_sent_packets l.blocking_duration (blocking_lasted l) l.accounts h
book-LedgerInStep l e h = h

book_all-LedgerInStep :
    (l : Ledger) (es : List TriggerEvent) → LedgerInStep l → LedgerInStep (book_all l es)
unfolding book_all
book_all-LedgerInStep l [] h = h
book_all-LedgerInStep l (e ∷ rest) h =
    book_all-LedgerInStep (book l e) rest (book-LedgerInStep l e h)

-- The books after a history of calls.
unfoldable book_calls : Ledger → List (List TriggerEvent × ℕ) → Ledger
book_calls l [] = l
book_calls l ((events, now) ∷ rest) =
    book_calls (book_all (record l { current_time = now }) events) rest

book_calls-normals :
    (l : Ledger) (calls : List (List TriggerEvent × ℕ))
    → l.normal_sent_packets < u64_mod
    → (book_calls l calls).normal_sent_packets
      ≡ (l.normal_sent_packets + total normals calls) % u64_mod
unfolding book_calls total
book_calls-normals l [] h = omega arith
book_calls-normals l ((events, now) ∷ rest) h =
    let e = book_all-normals (record l { current_time = now }) events h in
    book_calls-normals (book_all (record l { current_time = now }) events) rest (omega arith)
    ∙ omega arith

book_calls-paddings :
    (l : Ledger) (calls : List (List TriggerEvent × ℕ))
    → l.padding_sent_packets < u64_mod
    → (book_calls l calls).padding_sent_packets
      ≡ (l.padding_sent_packets + total paddings calls) % u64_mod
unfolding book_calls total
book_calls-paddings l [] h = omega arith
book_calls-paddings l ((events, now) ∷ rest) h =
    let e = book_all-paddings (record l { current_time = now }) events h in
    book_calls-paddings (book_all (record l { current_time = now }) events) rest (omega arith)
    ∙ omega arith

book_calls-LedgerInStep :
    (l : Ledger) (calls : List (List TriggerEvent × ℕ))
    → LedgerInStep l
    → LedgerInStep (book_calls l calls)
unfolding book_calls
book_calls-LedgerInStep l [] h = h
book_calls-LedgerInStep l ((events, now) ∷ rest) h =
    book_calls-LedgerInStep (book_all (record l { current_time = now }) events) rest
      (book_all-LedgerInStep (record l { current_time = now }) events h)

start_ledger-LedgerInStep :
    (machines : List Machine) (p b : F64) (now : ℕ) → LedgerInStep (start_ledger machines p b now)
start_ledger-LedgerInStep [] p b now = tt
start_ledger-LedgerInStep (m ∷ rest) p b now =
    ((refl, refl), start_ledger-LedgerInStep rest p b now)

module _ {R : Type 0} ⦃fl : Floats⦄ ⦃g : Rng R⦄ where
  ledger-run_calls :
      (fw : Framework R) (calls : List (List TriggerEvent × ℕ))
      → IsValid fw
      → Returns (λ fw'. ledger fw' ≡ book_calls (ledger fw) calls) (run_calls fw calls)
  unfolding run_calls book_calls
  ledger-run_calls fw [] v = refl
  ledger-run_calls fw ((events, now) ∷ rest) v =
      let booked = book_all (record (ledger fw) { current_time = now }) events in
      Returns-bind (λ r. IsValid r.1 × (ledger r.1 ≡ booked))
        (λ fw'. ledger fw' ≡ book_calls booked rest) (trigger_events fw events now) _
        (Returns-both (λ r. IsValid r.1) (λ r. ledger r.1 ≡ booked) (trigger_events fw events now)
          (trigger_events-IsValid fw events now v) (ledger-trigger_events fw events now v))
        λ r e (v', b).
          Returns-mono (λ fw'. ledger fw' ≡ book_calls (ledger r.1) rest)
            (λ fw'. ledger fw' ≡ book_calls booked rest) (run_calls r.1 rest)
            (λ fw' e'. e' ∙ ap (λ l. book_calls l rest) b) (ledger-run_calls r.1 rest v')

  -- What the counts and the durations of a framework are after a history of calls.
  pub record Counted (calls : List (List TriggerEvent × ℕ)) (fw : Framework R) : Type 0 where
    pub normal : fw.normal_sent_packets ≡ total normals calls % u64_mod
    pub padding : fw.padding_sent_packets ≡ total paddings calls % u64_mod
    pub machines : InStep fw.normal_sent_packets fw.blocking_duration (map account fw.runtime)

  -- After any history of calls of a framework that `new` returned, the framework's packet counts are
  -- the numbers of normal and padding packets that the events report, modulo 2^64; and every machine
  -- has counted the same normal packets and the same time of blocking as the framework. The bounds of
  -- the machines' uniform distributions are to be accepted by rand, and their states are to have one
  -- slot of transitions for each event, as their type says.
  pub run_calls-Counted :
      (machines : List Machine) (p b : F64) (start : ℕ) (rng : R) (fw : Framework R)
      (calls : List (List TriggerEvent × ℕ))
      → Draws machines
      → new machines p b start rng ≡ ok fw
      → Returns (Counted calls) (run_calls fw calls)
  run_calls-Counted machines p b start rng fw calls u e =
      let (hp, hb, h) = new-Validated machines p b start rng fw e in
      let (v, s) =
        Returns-eq (λ fw. IsValid fw × (ledger fw ≡ start_ledger machines p b start))
          (new machines p b start rng) e (new-IsValid machines p b start rng hp hb h u) in
      let l = start_ledger machines p b start in
      Returns-mono (λ fw'. ledger fw' ≡ book_calls (ledger fw) calls) (Counted calls)
        (run_calls fw calls)
        (λ fw' e'.
          let q : ledger fw' ≡ book_calls l calls = e' ∙ ap (λ l. book_calls l calls) s in
          record {
            normal =
                ap (λ l. l.normal_sent_packets) q
                ∙ book_calls-normals l calls (omega arith)
                ∙ omega arith;
            padding =
                ap (λ l. l.padding_sent_packets) q
                ∙ book_calls-paddings l calls (omega arith)
                ∙ omega arith;
            machines =
                subst LedgerInStep (sym q)
                  (book_calls-LedgerInStep l calls (start_ledger-LedgerInStep machines p b start));
          })
        (ledger-run_calls fw calls v)

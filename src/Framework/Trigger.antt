-- ===== src/Framework/Trigger.antt =====
-- crates/maybenot/src/framework.rs: `process_event` and `trigger_events` return and do the books.
use maybenot.Prelude.{
  ℕ, ◌+◌, ◌<◌, ◌≡◌, refl, ◌∙◌, sym, ap, true, false, Option, List, [], ◌∷◌, map, Outcome, Returns,
  Returns-bind, Returns-mono, index, length, Bool-cases, if◌then◌else◌, modify, modify-id, map-id,
  inl, inr,
}
use maybenot.Platform.{Floats, Rng}
use maybenot.Event.{Event, TriggerEvent}
use maybenot.Framework.Types.{Framework, increment}
use maybenot.Framework.Events.{
  notify, notify_limited, on_normal_sent, on_padding_sent, on_blocking_begin, on_blocking_end,
  for_all_machines, if_running, process_event, process_events, is_excluded, signal_one, blocked_for,
}
use maybenot.Framework.Ledger.{
  Account, Ledger, ledger, count_normal, count_padding, add_blocked, book, book_all,
}
use maybenot.Framework.Rows.{IsValid}
use maybenot.Framework.Kept.{IsQuiet, notify_limited-Kept}
use maybenot.Framework.Loops.{with_accounts, Books, Books-eq, Kept-Books, for_all_machines-Books}
use maybenot.Framework.Bodies.{
  notify-Books, on_blocking_begin-Books, on_normal_sent-Books, on_padding_sent-Books,
  on_blocking_end-Books, if_running-Books,
}

module _ {R : Type 0} ⦃fl : Floats⦄ ⦃g : Rng R⦄ where
  -- The invariant and the quiet machines are kept, and the books are `l`.
  pub record Booked (l : Ledger) (fw fw' : Framework R) : Type 0 where
    pub valid : IsValid fw'
    pub books : ledger fw' ≡ l
    pub count : length fw'.runtime ≡ length fw.runtime
    pub quiet : (j : ℕ) → IsQuiet j fw → IsQuiet j fw'

  -- Notifying every machine of an event leaves the books alone.
  pub notify_all-Booked :
      (body : Framework R → ℕ → Outcome (Framework R)) (fw : Framework R)
      → ((fw : Framework R) (mi : ℕ)
          → IsValid fw
          → mi < length fw.runtime
          → Returns (Books (modify mi (λ a. a)) fw) (body fw mi))
      → IsValid fw
      → Returns (Booked (ledger fw) fw) (for_all_machines body fw)
  notify_all-Booked body fw keep v =
      Returns-mono (Books (map (λ a. a)) fw) (Booked (ledger fw) fw) (for_all_machines body fw)
        (λ fw' b. record {
          valid = b.valid;
          books = b.books ∙ ap (with_accounts (ledger fw)) (map-id (ledger fw).accounts);
          count = b.count;
          quiet = b.quiet;
        })
        (for_all_machines-Books (λ a. a) body keep fw v)

  notify_one-Booked :
      (body : Framework R → ℕ → Outcome (Framework R)) (fw : Framework R) (mi : ℕ)
      → ((lt : mi < length fw.runtime) → Returns (Books (modify mi (λ a. a)) fw) (body fw mi))
      → IsValid fw
      → Returns (Booked (ledger fw) fw) (if_running body fw mi)
  notify_one-Booked body fw mi keep v =
      Returns-mono (Books (modify mi (λ a. a)) fw) (Booked (ledger fw) fw) (if_running body fw mi)
        (λ fw' b. record {
          valid = b.valid;
          books = b.books ∙ ap (with_accounts (ledger fw)) (modify-id mi (ledger fw).accounts);
          count = b.count;
          quiet = b.quiet;
        })
        (if_running-Books (λ a. a) body fw mi keep v)

  limited-Books :
      (event : Event) (fw : Framework R) (mi : ℕ)
      → IsValid fw
      → mi < length fw.runtime
      → Returns (Books (modify mi (λ a. a)) fw) (notify_limited event true fw mi)
  limited-Books event fw mi v lt =
      Returns-mono _ (Books (modify mi (λ a. a)) fw) (notify_limited event true fw mi)
        (λ fw' k.
          Books-eq (λ xs. xs) (modify mi (λ a. a)) fw fw' (sym (modify-id mi (ledger fw).accounts))
            (Kept-Books mi fw fw' k))
        (notify_limited-Kept event true fw mi v lt)

  -- A change of the framework's own accounts, and then calls for the machines.
  pub opened-Booked :
      (f : List Account → List Account) (fw fw0 : Framework R) (call : Outcome (Framework R))
      → fw0.runtime ≡ fw.runtime
      → fw0.actions ≡ fw.actions
      → Returns (Books f fw0) call
      → Returns (Booked (with_accounts (ledger fw0) (f (ledger fw0).accounts)) fw) call
  opened-Booked f fw fw0 call er ea h =
      Returns-mono (Books f fw0) (Booked (with_accounts (ledger fw0) (f (ledger fw0).accounts)) fw)
        call
        (λ fw' b. record {
          valid = b.valid;
          books = b.books;
          count = b.count ∙ ap length er;
          quiet = λ j q. b.quiet j (record {
            rt = q.rt;
            at_runtime = ap (λ xs. index xs j) er ∙ q.at_runtime;
            ended = q.ended;
            no_action = ap (λ xs. index xs j) ea ∙ q.no_action;
          });
        })
        h

  pub process_event-Booked :
      (fw : Framework R) (e : TriggerEvent)
      → IsValid fw
      → Returns (Booked (book (ledger fw) e) fw) (process_event fw e)
  unfolding process_event book
  process_event-Booked fw TriggerEvent.normal_recv v =
      notify_all-Booked (notify Event.normal_recv) fw (notify-Books Event.normal_recv) v
  process_event-Booked fw TriggerEvent.padding_recv v =
      notify_all-Booked (notify Event.padding_recv) fw (notify-Books Event.padding_recv) v
  process_event-Booked fw TriggerEvent.tunnel_recv v =
      notify_all-Booked (notify Event.tunnel_recv) fw (notify-Books Event.tunnel_recv) v
  process_event-Booked fw TriggerEvent.normal_sent v =
      let fw0 : Framework R = record fw {
        normal_sent_packets = increment fw.normal_sent_packets;
      } in
      opened-Booked (map count_normal) fw fw0 (for_all_machines on_normal_sent fw0) refl refl
        (for_all_machines-Books count_normal on_normal_sent on_normal_sent-Books fw0 v)
  process_event-Booked fw (TriggerEvent.padding_sent machine) v =
      let fw0 : Framework R = record fw {
        padding_sent_packets = increment fw.padding_sent_packets;
      } in
      opened-Booked (modify machine count_padding) fw fw0 (if_running on_padding_sent fw0 machine)
        refl refl
        (if_running-Books count_padding on_padding_sent fw0 machine
          (on_padding_sent-Books fw0 machine v) v)
  process_event-Booked fw TriggerEvent.tunnel_sent v =
      notify_all-Booked (notify Event.tunnel_sent) fw (notify-Books Event.tunnel_sent) v
  process_event-Booked fw (TriggerEvent.blocking_begin machine) v =
      let fw0 : Framework R = record fw {
        blocking_active = true;
        blocking_started = if fw.blocking_active then fw.blocking_started else fw.current_time;
      } in
      Returns-mono _ (Booked (book (ledger fw) (TriggerEvent.blocking_begin machine)) fw)
        (for_all_machines (on_blocking_begin machine) fw0)
        (λ fw' b. record {
          valid = b.valid;
          books = b.books ∙ ap (with_accounts (ledger fw0)) (map-id (ledger fw).accounts);
          count = b.count;
          quiet = b.quiet;
        })
        (opened-Booked (map (λ a. a)) fw fw0 (for_all_machines (on_blocking_begin machine) fw0) refl
          refl
          (for_all_machines-Books (λ a. a) (on_blocking_begin machine)
            (on_blocking_begin-Books machine) fw0 v))
  process_event-Booked fw TriggerEvent.blocking_end v =
      let fw0 : Framework R = record fw {
        blocking_duration = fw.blocking_duration + blocked_for fw;
        blocking_active = false;
      } in
      opened-Booked (map (add_blocked (blocked_for fw))) fw fw0
        (for_all_machines (on_blocking_end (blocked_for fw)) fw0) refl refl
        (for_all_machines-Books (add_blocked (blocked_for fw)) (on_blocking_end (blocked_for fw))
          (on_blocking_end-Books (blocked_for fw)) fw0 v)
  process_event-Booked fw (TriggerEvent.timer_begin machine) v =
      notify_one-Booked (notify_limited Event.timer_begin true) fw machine
        (limited-Books Event.timer_begin fw machine v) v
  process_event-Booked fw (TriggerEvent.timer_end machine) v =
      notify_one-Booked (notify Event.timer_end) fw machine
        (notify-Books Event.timer_end fw machine v) v

  Booked-trans :
      (l l' : Ledger) (fw fw1 fw2 : Framework R)
      → Booked l fw fw1
      → Booked l' fw1 fw2
      → Booked l' fw fw2
  Booked-trans l l' fw fw1 fw2 a b = record {
    valid = b.valid;
    books = b.books;
    count = b.count ∙ a.count;
    quiet = λ j q. b.quiet j (a.quiet j q);
  }

  pub process_events-Booked :
      (fw : Framework R) (es : List TriggerEvent)
      → IsValid fw
      → Returns (Booked (book_all (ledger fw) es) fw) (process_events fw es)
  unfolding process_events book_all
  process_events-Booked fw [] v = record { valid = v; books = refl; count = refl; quiet = λ j q. q }
  process_events-Booked fw (e ∷ rest) v =
      Returns-bind (Booked (book (ledger fw) e) fw) (Booked (book_all (book (ledger fw) e) rest) fw)
        (process_event fw e) _ (process_event-Booked fw e v)
        λ fw1 e1 b1.
          Returns-mono (Booked (book_all (ledger fw1) rest) fw1)
            (Booked (book_all (book (ledger fw) e) rest) fw) (process_events fw1 rest)
            (λ fw2 b2.
              Booked-trans (book (ledger fw) e) (book_all (book (ledger fw) e) rest) fw fw1 fw2 b1
                (record {
                  valid = b2.valid;
                  books = b2.books ∙ ap (λ l. book_all l rest) b1.books;
                  count = b2.count;
                  quiet = b2.quiet;
                }))
            (process_events-Booked fw1 rest b1.valid)

  pub signal_one-Books :
      (excluded : Option ℕ) (fw : Framework R) (mi : ℕ)
      → IsValid fw
      → mi < length fw.runtime
      → Returns (Books (modify mi (λ a. a)) fw) (signal_one excluded fw mi)
  unfolding signal_one
  signal_one-Books excluded fw mi v lt = elim (Bool-cases (is_excluded excluded mi)) [
    | inl e ↦ rw e (
        Books-eq (λ xs. xs) (modify mi (λ a. a)) fw fw (sym (modify-id mi (ledger fw).accounts))
          (record { valid = v; books = refl; count = refl; quiet = λ j q. q }))
    | inr e ↦ rw e (notify-Books Event.signal fw mi v lt)
  ]

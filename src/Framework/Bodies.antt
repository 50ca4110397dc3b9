-- ===== src/Framework/Bodies.antt =====
-- crates/maybenot/src/framework.rs: what `process_event` does for one machine, on the books.
use maybenot.Prelude.{
  ℕ, ◌+◌, ◌<◌, ◌≡◌, refl, sym, true, not, map, Outcome, Returns, Returns-mono, length, Bool-cases,
  if◌then◌else◌, arith, modify, modify-id, modify-out, length-map, ◌==◌, inl, inr, leb,
}
use maybenot.Platform.{Floats, Rng}
use maybenot.Time.{is_zero}
use maybenot.Event.{Event}
use maybenot.Framework.Types.{MachineRuntime, Framework, increment, set_runtime}
use maybenot.Framework.Events.{
  notify, on_normal_sent, on_padding_sent, on_blocking_begin, on_blocking_end, if_running,
}
use maybenot.Framework.Ledger.{Account, account, ledger, count_normal, count_padding, add_blocked}
use maybenot.Framework.Rows.{IsValid}
use maybenot.Framework.Local.{row_of}
use maybenot.Framework.Kept.{Kept, notify-Kept, notify_limited-Kept}
use maybenot.Framework.Loops.{Books, Books-trans, Books-eq, Kept-Books, account_edit}

-- The runtime that `on_blocking_end` writes.
abbrev blocked_runtime : ℕ → MachineRuntime → MachineRuntime
blocked_runtime blocked rt =
    if not (is_zero blocked)
    then record rt { blocking_duration = rt.blocking_duration + blocked }
    else rt

blocked_runtime-account :
    (blocked : ℕ) (rt : MachineRuntime)
    → (account (blocked_runtime blocked rt) ≡ add_blocked blocked (account rt))
      × ((blocked_runtime blocked rt).current_state ≡ rt.current_state)
      × ((blocked_runtime blocked rt).state_limit ≡ rt.state_limit)
      × ((blocked_runtime blocked rt).counter_a ≡ rt.counter_a)
      × ((blocked_runtime blocked rt).counter_b ≡ rt.counter_b)
blocked_runtime-account blocked rt =
    (ground arith, ground arith, ground arith, ground arith, ground arith)

module _ {R : Type 0} ⦃fl : Floats⦄ ⦃g : Rng R⦄ where
  -- A change of one machine's accounts, and then a call that keeps them.
  edit_then :
      (f : Account → Account) (fw : Framework R) (mi : ℕ) (rt new : MachineRuntime)
      (call : Outcome (Framework R))
      → Books (modify mi f) fw (set_runtime fw mi new)
      → Returns (Kept mi (set_runtime fw mi new)) call
      → Returns (Books (modify mi f) fw) call
  edit_then f fw mi rt new call b k =
      Returns-mono (Kept mi (set_runtime fw mi new)) (Books (modify mi f) fw) call
        (λ fw' k'.
          Books-trans (modify mi f) (λ xs. xs) fw (set_runtime fw mi new) fw' b
            (Kept-Books mi (set_runtime fw mi new) fw' k'))
        k

  Kept-modify :
      (fw : Framework R) (mi : ℕ) (call : Outcome (Framework R))
      → Returns (Kept mi fw) call
      → Returns (Books (modify mi (λ a. a)) fw) call
  Kept-modify fw mi call k =
      Returns-mono (Kept mi fw) (Books (modify mi (λ a. a)) fw) call
        (λ fw' k'.
          Books-eq (λ xs. xs) (modify mi (λ a. a)) fw fw' (sym (modify-id mi (ledger fw).accounts))
            (Kept-Books mi fw fw' k'))
        k

  pub notify-Books :
      (event : Event) (fw : Framework R) (mi : ℕ)
      → IsValid fw
      → mi < length fw.runtime
      → Returns (Books (modify mi (λ a. a)) fw) (notify event fw mi)
  notify-Books event fw mi v lt =
      Kept-modify fw mi (notify event fw mi) (notify-Kept event fw mi v lt)

  pub on_blocking_begin-Books :
      (machine : ℕ) (fw : Framework R) (mi : ℕ)
      → IsValid fw
      → mi < length fw.runtime
      → Returns (Books (modify mi (λ a. a)) fw) (on_blocking_begin machine fw mi)
  unfolding on_blocking_begin
  on_blocking_begin-Books machine fw mi v lt =
      Kept-modify fw mi _ (notify_limited-Kept Event.blocking_begin (mi == machine) fw mi v lt)

  pub on_normal_sent-Books :
      (fw : Framework R) (mi : ℕ)
      → IsValid fw
      → mi < length fw.runtime
      → Returns (Books (modify mi count_normal) fw) (on_normal_sent fw mi)
  unfolding on_normal_sent
  on_normal_sent-Books fw mi v lt =
      let r = row_of fw mi v lt in
      let new : MachineRuntime = record r.rt { normal_sent = increment r.rt.normal_sent } in
      let b = account_edit count_normal fw mi r.rt new v lt r.at_runtime refl refl refl refl refl in
      rw r.at_runtime (
        edit_then count_normal fw mi r.rt new _ b (
          notify-Kept Event.normal_sent (set_runtime fw mi new) mi b.valid
            (omega (arith, b.count))))

  pub on_padding_sent-Books :
      (fw : Framework R) (mi : ℕ)
      → IsValid fw
      → mi < length fw.runtime
      → Returns (Books (modify mi count_padding) fw) (on_padding_sent fw mi)
  unfolding on_padding_sent
  on_padding_sent-Books fw mi v lt =
      let r = row_of fw mi v lt in
      let new : MachineRuntime = record r.rt { padding_sent = increment r.rt.padding_sent } in
      let b =
        account_edit count_padding fw mi r.rt new v lt r.at_runtime refl refl refl refl refl in
      rw r.at_runtime (
        edit_then count_padding fw mi r.rt new _ b (
          notify_limited-Kept Event.padding_sent true (set_runtime fw mi new) mi b.valid
            (omega (arith, b.count))))

  pub on_blocking_end-Books :
      (blocked : ℕ) (fw : Framework R) (mi : ℕ)
      → IsValid fw
      → mi < length fw.runtime
      → Returns (Books (modify mi (add_blocked blocked)) fw) (on_blocking_end blocked fw mi)
  unfolding on_blocking_end
  on_blocking_end-Books blocked fw mi v lt =
      let r = row_of fw mi v lt in
      let new : MachineRuntime = blocked_runtime blocked r.rt in
      let (acc, cs, sl, ca, cb) = blocked_runtime-account blocked r.rt in
      let b = account_edit (add_blocked blocked) fw mi r.rt new v lt r.at_runtime acc cs sl ca cb in
      rw r.at_runtime (
        edit_then (add_blocked blocked) fw mi r.rt new _ b (
          notify-Kept Event.blocking_end (set_runtime fw mi new) mi b.valid
            (omega (arith, b.count))))

  -- A call for one machine, which is skipped if the machine does not exist.
  pub if_running-Books :
      (f : Account → Account) (body : Framework R → ℕ → Outcome (Framework R)) (fw : Framework R)
      (mi : ℕ)
      → ((lt : mi < length fw.runtime) → Returns (Books (modify mi f) fw) (body fw mi))
      → IsValid fw
      → Returns (Books (modify mi f) fw) (if_running body fw mi)
  if_running-Books f body fw mi keep v = elim (Bool-cases (leb (length fw.runtime) mi)) [
    | inl e ↦ rw e (
        Books-eq (λ xs. xs) (modify mi f) fw fw
          (sym (
            modify-out mi f (map account fw.runtime)
              (ground (arith, length-map account fw.runtime))))
          (record { valid = v; books = refl; count = refl; quiet = λ j q. q }))
    | inr e ↦ rw e (keep (ground arith))
  ]

-- ===== src/Framework/Actions.antt =====
-- crates/maybenot/src/framework.rs: the actions that `trigger_events` returns.
use maybenot.Prelude.{
  ℕ, zero, suc, ◌+◌, ◌<◌, ◌≤◌, ◌≡◌, ◌≢◌, refl, Option, none, some, List, [], ◌∷◌, ok, index, length,
  arith, All,
}
use maybenot.Platform.{Floats}
use maybenot.Action.{TriggerAction}
use maybenot.Machine.{Machine}
use maybenot.Framework.Types.{MachineRuntime}
use maybenot.Framework.Events.{present}
use maybenot.Framework.Rows.{IsFor, Rows}

abbrev pub machine_of : TriggerAction → ℕ
machine_of (TriggerAction.cancel machine timer) = machine
machine_of (TriggerAction.send_padding timeout bypass replace machine) = machine
machine_of (TriggerAction.block_outgoing timeout duration bypass replace machine) = machine
machine_of (TriggerAction.update_timer duration replace machine) = machine

-- Every time in the action is at most a day, in nanoseconds.
abbrev pub WithinDay : TriggerAction → Type 0
WithinDay (TriggerAction.cancel machine timer) = Unit
WithinDay (TriggerAction.send_padding timeout bypass replace machine) = timeout ≤ 86_400_000_000_000
WithinDay (TriggerAction.block_outgoing timeout duration bypass replace machine) =
    (timeout ≤ 86_400_000_000_000) × (duration ≤ 86_400_000_000_000)
WithinDay (TriggerAction.update_timer duration replace machine) = duration ≤ 86_400_000_000_000

-- The actions are for machines from `k` up to `n`, in order, one for each machine at most.
abbrev pub OnePerMachine : ℕ → ℕ → List TriggerAction → Type 0
OnePerMachine k n [] = Unit
OnePerMachine k n (a ∷ rest) =
    (k ≤ machine_of a)
    × (machine_of a < n)
    × WithinDay a
    × OnePerMachine (suc (machine_of a)) n rest

IsFor-machine : (mi : ℕ) (a : TriggerAction) → IsFor mi (some a) → (machine_of a ≡ mi) × WithinDay a
IsFor-machine mi (TriggerAction.cancel machine timer) h = (h, tt)
IsFor-machine mi (TriggerAction.send_padding t b r machine) h = (h.0, h.1)
IsFor-machine mi (TriggerAction.block_outgoing t d b r machine) h = (h.0, (h.1, h.2))
IsFor-machine mi (TriggerAction.update_timer d r machine) h = (h.0, h.1)

OnePerMachine-mono :
    (j k n : ℕ) (xs : List TriggerAction) → j ≤ k → OnePerMachine k n xs → OnePerMachine j n xs
OnePerMachine-mono j k n [] le h = tt
OnePerMachine-mono j k n (a ∷ rest) le h = (omega arith, h.1, h.2, h.3)

-- No action is for machine `j`.
abbrev pub NoneFor : ℕ → List TriggerAction → Type 0
NoneFor j xs = All (λ a. machine_of a ≢ j) xs

above-NoneFor : (j k n : ℕ) (xs : List TriggerAction) → j < k → OnePerMachine k n xs → NoneFor j xs
above-NoneFor j k n [] lt h = tt
above-NoneFor j k n (a ∷ rest) lt h =
    ((λ e. omega arith), above-NoneFor j (suc (machine_of a)) n rest (omega arith) h.3)

module _ ⦃fl : Floats⦄ where
  pub present-OnePerMachine :
      (mi n : ℕ) (ms : List Machine) (rts : List MachineRuntime)
      (acts : List (Option TriggerAction))
      → Rows mi ms rts acts
      → mi + length rts ≡ n
      → OnePerMachine mi n (present acts)
  unfolding present
  present-OnePerMachine mi n [] [] [] h e = tt
  present-OnePerMachine mi n [] [] (a ∷ acts) h e = absurd h
  present-OnePerMachine mi n [] (rt ∷ rts) acts h e = absurd h
  present-OnePerMachine mi n (m ∷ ms) [] acts h e = absurd h
  present-OnePerMachine mi n (m ∷ ms) (rt ∷ rts) [] h e = absurd h
  present-OnePerMachine mi n (m ∷ ms) (rt ∷ rts) (none ∷ acts) h e =
      OnePerMachine-mono mi (suc mi) n (present acts) (omega arith)
        (present-OnePerMachine (suc mi) n ms rts acts h.1 (omega arith))
  present-OnePerMachine mi n (m ∷ ms) (rt ∷ rts) (some a ∷ acts) h e =
      let (same, day) = IsFor-machine mi a h.0.action_for in
      (
        omega arith,
        omega arith,
        day,
        rw same (present-OnePerMachine (suc mi) n ms rts acts h.1 (omega arith)),
      )

  pub present-NoneFor :
      (mi k j : ℕ) (ms : List Machine) (rts : List MachineRuntime)
      (acts : List (Option TriggerAction))
      → Rows mi ms rts acts
      → index acts k ≡ ok none
      → mi + k ≡ j
      → NoneFor j (present acts)
  unfolding present index
  present-NoneFor mi k j [] [] [] h e at = tt
  present-NoneFor mi k j [] [] (a ∷ acts) h e at = absurd h
  present-NoneFor mi k j [] (rt ∷ rts) acts h e at = absurd h
  present-NoneFor mi k j (m ∷ ms) [] acts h e at = absurd h
  present-NoneFor mi k j (m ∷ ms) (rt ∷ rts) [] h e at = absurd h
  present-NoneFor mi zero j (m ∷ ms) (rt ∷ rts) (none ∷ acts) h e at =
      above-NoneFor j (suc mi) (suc mi + length rts) (present acts) (omega arith)
        (present-OnePerMachine (suc mi) (suc mi + length rts) ms rts acts h.1 refl)
  present-NoneFor mi zero j (m ∷ ms) (rt ∷ rts) (some a ∷ acts) h e at = cc
  present-NoneFor mi (suc k) j (m ∷ ms) (rt ∷ rts) (none ∷ acts) h e at =
      present-NoneFor (suc mi) k j ms rts acts h.1 e (omega arith)
  present-NoneFor mi (suc k) j (m ∷ ms) (rt ∷ rts) (some a ∷ acts) h e at =
      let (same, day) = IsFor-machine mi a h.0.action_for in
      ((λ eq. omega arith), present-NoneFor (suc mi) k j ms rts acts h.1 e (omega arith))

-- ===== src/Framework/Rows.antt =====
-- crates/maybenot/src/framework.rs: the three vectors `machines`, `runtime` and `actions` run in
-- parallel, and each row is in order.
use maybenot.Prelude.{
  map, ℕ, zero, suc, ◌+◌, ◌<◌, ◌≤◌, ◌≡◌, refl, ◌⊎◌, Option, none, some, List, [], ◌∷◌, ok, index,
  length, set, arith,
}
use maybenot.Constants.{u64_mod, state_end}
use maybenot.Platform.{Floats}
use maybenot.Action.{TriggerAction}
use maybenot.Machine.{Machine}
use maybenot.Machine.Sound.{IsSound}
use maybenot.Framework.Types.{MachineRuntime, SignalTarget, Framework}

-- The action is for machine `mi`, and its times are at most a day (in nanoseconds).
abbrev pub IsFor : ℕ → Option TriggerAction → Type 0
IsFor mi none = Unit
IsFor mi (some (TriggerAction.cancel machine timer)) = machine ≡ mi
IsFor mi (some (TriggerAction.send_padding timeout bypass replace machine)) =
    (machine ≡ mi) × (timeout ≤ 86_400_000_000_000)
IsFor mi (some (TriggerAction.block_outgoing timeout duration bypass replace machine)) =
    (machine ≡ mi) × (timeout ≤ 86_400_000_000_000) × (duration ≤ 86_400_000_000_000)
IsFor mi (some (TriggerAction.update_timer duration replace machine)) =
    (machine ≡ mi) × (duration ≤ 86_400_000_000_000)

-- The machine is in one of its states, or has ended; its limit and counters fit a u64.
pub record IsLive (m : Machine) (rt : MachineRuntime) : Type 0 where
  pub in_range : (rt.current_state < length m.states) ⊎ (rt.current_state ≡ state_end)
  pub limit : rt.state_limit < u64_mod
  pub counter_a : rt.counter_a < u64_mod
  pub counter_b : rt.counter_b < u64_mod

abbrev pub SignalIn : ℕ → Option SignalTarget → Type 0
SignalIn n none = Unit
SignalIn n (some SignalTarget.all) = Unit
SignalIn n (some (SignalTarget.all_except mi)) = mi < n

module _ ⦃fl : Floats⦄ where
  pub record Row (mi : ℕ) (m : Machine) (rt : MachineRuntime) (action : Option TriggerAction)
      : Type 0 where
    pub sound : IsSound m
    pub live : IsLive m rt
    pub action_for : IsFor mi action

  abbrev pub Rows : ℕ → List Machine → List MachineRuntime → List (Option TriggerAction) → Type 0
  Rows mi [] [] [] = Unit
  Rows mi (m ∷ ms) (rt ∷ rts) (a ∷ as') = Row mi m rt a × Rows (suc mi) ms rts as'
  Rows mi _ _ _ = ⊥

  pub Rows-length :
      (mi : ℕ) (ms : List Machine) (rts : List MachineRuntime) (acts : List (Option TriggerAction))
      → Rows mi ms rts acts
      → (length ms ≡ length rts) × (length acts ≡ length rts)
  Rows-length mi [] [] [] h = (refl, refl)
  Rows-length mi [] [] (a ∷ acts) h = absurd h
  Rows-length mi [] (rt ∷ rts) acts h = absurd h
  Rows-length mi (m ∷ ms) [] acts h = absurd h
  Rows-length mi (m ∷ ms) (rt ∷ rts) [] h = absurd h
  Rows-length mi (m ∷ ms) (rt ∷ rts) (a ∷ acts) h =
      let (p, q) = Rows-length (suc mi) ms rts acts h.1 in (omega arith, omega arith)

  -- The row at position `i`.
  pub record RowAt (mi i : ℕ) (ms : List Machine) (rts : List MachineRuntime)
      (acts : List (Option TriggerAction)) : Type 0 where
    pub m : Machine
    pub rt : MachineRuntime
    pub a : Option TriggerAction
    pub at_machine : index ms i ≡ ok m
    pub at_runtime : index rts i ≡ ok rt
    pub at_action : index acts i ≡ ok a
    pub row : Row (mi + i) m rt a

  pub Rows-at :
      (mi i : ℕ) (ms : List Machine) (rts : List MachineRuntime)
      (acts : List (Option TriggerAction))
      → Rows mi ms rts acts
      → i < length rts
      → RowAt mi i ms rts acts
  unfolding index
  Rows-at mi i [] [] [] h lt = absurd (omega arith)
  Rows-at mi i [] [] (a ∷ acts) h lt = absurd h
  Rows-at mi i [] (rt ∷ rts) acts h lt = absurd h
  Rows-at mi i (m ∷ ms) [] acts h lt = absurd h
  Rows-at mi i (m ∷ ms) (rt ∷ rts) [] h lt = absurd h
  Rows-at mi zero (m ∷ ms) (rt ∷ rts) (a ∷ acts) h lt =
      let e : mi + 0 ≡ mi = omega arith in
      record {
        m = m;
        rt = rt;
        a = a;
        at_machine = refl;
        at_runtime = refl;
        at_action = refl;
        row = rw e h.0;
      }
  Rows-at mi (suc i) (m ∷ ms) (rt ∷ rts) (a ∷ acts) h lt =
      let r = Rows-at (suc mi) i ms rts acts h.1 (omega arith) in
      let e : mi + suc i ≡ suc mi + i = omega arith in
      record {
        m = r.m;
        rt = r.rt;
        a = r.a;
        at_machine = r.at_machine;
        at_runtime = r.at_runtime;
        at_action = r.at_action;
        row = rw e r.row;
      }

  pub Rows-set_runtime :
      (mi i : ℕ) (ms : List Machine) (rts : List MachineRuntime)
      (acts : List (Option TriggerAction)) (new : MachineRuntime) {m : Machine}
      → Rows mi ms rts acts
      → index ms i ≡ ok m
      → IsLive m new
      → Rows mi ms (set rts i new) acts
  unfolding index
  Rows-set_runtime mi i [] [] [] new h e live = tt
  Rows-set_runtime mi i [] [] (a ∷ acts) new h e live = absurd h
  Rows-set_runtime mi i [] (rt ∷ rts) acts new h e live = absurd h
  Rows-set_runtime mi i (m ∷ ms) [] acts new h e live = absurd h
  Rows-set_runtime mi i (m ∷ ms) (rt ∷ rts) [] new h e live = absurd h
  Rows-set_runtime mi zero (m ∷ ms) (rt ∷ rts) (a ∷ acts) new {m = m'} h e live =
      let e' : m ≡ m' = cc in
      (record { sound = h.0.sound; live = rw e' live; action_for = h.0.action_for }, h.1)
  Rows-set_runtime mi (suc i) (m ∷ ms) (rt ∷ rts) (a ∷ acts) new h e live =
      (h.0, Rows-set_runtime (suc mi) i ms rts acts new h.1 e live)

  pub Rows-set_action :
      (mi i : ℕ) (ms : List Machine) (rts : List MachineRuntime)
      (acts : List (Option TriggerAction)) (new : Option TriggerAction)
      → Rows mi ms rts acts
      → IsFor (mi + i) new
      → Rows mi ms rts (set acts i new)
  Rows-set_action mi i [] [] [] new h o = tt
  Rows-set_action mi i [] [] (a ∷ acts) new h o = absurd h
  Rows-set_action mi i [] (rt ∷ rts) acts new h o = absurd h
  Rows-set_action mi i (m ∷ ms) [] acts new h o = absurd h
  Rows-set_action mi i (m ∷ ms) (rt ∷ rts) [] new h o = absurd h
  Rows-set_action mi zero (m ∷ ms) (rt ∷ rts) (a ∷ acts) new h o =
      let e : mi + 0 ≡ mi = omega arith in
      (record { sound = h.0.sound; live = h.0.live; action_for = rw e at o }, h.1)
  Rows-set_action mi (suc i) (m ∷ ms) (rt ∷ rts) (a ∷ acts) new h o =
      let e : mi + suc i ≡ suc mi + i = omega arith in
      (h.0, Rows-set_action (suc mi) i ms rts acts new h.1 (rw e at o))

  -- Clearing the actions keeps the rows.
  pub Rows-reset :
      (mi : ℕ) (ms : List Machine) (rts : List MachineRuntime) (acts : List (Option TriggerAction))
      → Rows mi ms rts acts
      → Rows mi ms rts (map (λ _. none) acts)
  Rows-reset mi [] [] [] h = tt
  Rows-reset mi [] [] (a ∷ acts) h = absurd h
  Rows-reset mi [] (rt ∷ rts) acts h = absurd h
  Rows-reset mi (m ∷ ms) [] acts h = absurd h
  Rows-reset mi (m ∷ ms) (rt ∷ rts) [] h = absurd h
  Rows-reset mi (m ∷ ms) (rt ∷ rts) (a ∷ acts) h = (
    record { sound = h.0.sound; live = h.0.live; action_for = tt },
    Rows-reset (suc mi) ms rts acts h.1,
  )

module _ {R : Type 0} ⦃fl : Floats⦄ where
  -- The invariant of the framework: the rows are in order, and a signal that is pending leaves out a
  -- machine that exists.
  abbrev pub IsValid : Framework R → Type 0
  IsValid fw =
      Rows 0 fw.machines fw.runtime fw.actions × SignalIn (length fw.runtime) fw.signal_pending

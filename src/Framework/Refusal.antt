-- ===== src/Framework/Refusal.antt =====
-- crates/maybenot/src/framework.rs: the steps of `transition` that schedule no action of a kind.
use maybenot.Prelude.{
  ℕ, zero, suc, ◌<◌, ◌≡◌, refl, ◌∙◌, sym, ap, ◌⊎◌, inl, inr, Bool, true, false, not, ◌&&◌, ◌||◌,
  Option, none, some, List, ok, Outcome, Returns, Ensures, Ensures-bind, Ensures-after,
  Ensures-mono, index, index-set_self, map-set_same, set, length, if◌then◌else◌, ◌==◌, ==_iff,
  Bool-cases, Option-cases, arith,
}
use maybenot.Constants.{state_end, state_signal}
use maybenot.Platform.{Floats, Rng}
use maybenot.Event.{Event}
use maybenot.Action.{Action, TriggerAction, sample_timeout, sample_duration}
use maybenot.Counter.{Counter}
use maybenot.State.{State, sample_state}
use maybenot.Machine.{Machine}
use maybenot.Framework.Types.{MachineRuntime, StateChange, Framework, set_action}
use maybenot.Framework.Limits.{below_limits_of, below_action_limits}
use maybenot.Framework.Transition.{
  change_of, update_counter_a, update_counter_b, counters_zeroed, update_counter, to_trigger,
  schedule_action, limit_of, enter_state, move_to, act_on, transition_step, nested_transition,
  transition,
}
use maybenot.Framework.Ledger.{account, Ledger, ledger}
pub mod Steps
pub mod Limits

-- The two kinds of actions that the limits on packets and on blocking are for.
pub data Kind : Type 0 where
  pads blocks : Kind

unfoldable pub is_kind : Kind → TriggerAction → Bool
is_kind pads (TriggerAction.send_padding t b r machine) = true
is_kind blocks (TriggerAction.block_outgoing t d b r machine) = true
is_kind _ _ = false

unfoldable pub has_kind : Kind → Action → Bool
has_kind pads (Action.send_padding b r t l) = true
has_kind blocks (Action.block_outgoing b r t d l) = true
has_kind _ _ = false

abbrev pub Other : Kind → Option TriggerAction → Type 0
Other kind none = Unit
Other kind (some a) = is_kind kind a ≡ false

-- The machine's slot is as it was, or holds no action of the kind.
abbrev pub NoNew : Kind → ℕ → List (Option TriggerAction) → List (Option TriggerAction) → Type 0
NoNew kind mi before after =
    (index after mi ≡ index before mi)
    ⊎ ((o : Option TriggerAction) × (index after mi ≡ ok o) × Other kind o)

NoNew-trans :
    (kind : Kind) (mi : ℕ) (xs ys zs : List (Option TriggerAction))
    → NoNew kind mi xs ys
    → NoNew kind mi ys zs
    → NoNew kind mi xs zs
NoNew-trans kind mi xs ys zs (inl e) (inl e') = inl (e' ∙ e)
NoNew-trans kind mi xs ys zs (inr (o, e, h)) (inl e') = inr (o, e' ∙ e, h)
NoNew-trans kind mi xs ys zs h (inr k) = inr k

module _ ⦃fl : Floats⦄ where
  -- With these books the limits refuse the machine every action of the kind.
  abbrev pub Refuses : Type 0 → Kind → ℕ → Ledger → Type 0
  Refuses R kind mi l =
      (fw : Framework R) (m : Machine) (rt : MachineRuntime) (st : State) (a : Action)
      → ledger fw ≡ l
      → index fw.machines mi ≡ ok m
      → index fw.runtime mi ≡ ok rt
      → st.action ≡ some a
      → has_kind kind a ≡ true
      → below_limits_of fw rt m st (some a) ≡ false

-- A state whose action is not of the kind.
abbrev pub StateOther : Kind → State → Type 0
StateOther kind st = (a : Action) → st.action ≡ some a → has_kind kind a ≡ false

module _ {R : Type 0} ⦃fl : Floats⦄ ⦃g : Rng R⦄ where
  -- The action of a state of another kind is scheduled as one of another kind.
  to_trigger-Other :
      (kind : Kind) (mi : ℕ) (a : Action) (rng : R)
      → has_kind kind a ≡ false
      → Ensures (λ r. Other kind r.0) (to_trigger mi (some a) rng)
  unfolding to_trigger has_kind is_kind
  to_trigger-Other pads mi (Action.cancel timer) rng h = refl
  to_trigger-Other blocks mi (Action.cancel timer) rng h = refl
  to_trigger-Other pads mi (Action.send_padding b r t l) rng h = absurd (ground arith)
  to_trigger-Other blocks mi (Action.send_padding b r t l) rng h =
      Ensures-after (λ r. Other blocks r.0) (sample_timeout (Action.send_padding b r t l) rng) _
        λ x e. refl
  to_trigger-Other pads mi (Action.block_outgoing b r t d l) rng h =
      Ensures-after (λ r. Other pads r.0) (sample_timeout (Action.block_outgoing b r t d l) rng) _
        λ x e.
          Ensures-after (λ r. Other pads r.0)
            (sample_duration (Action.block_outgoing b r t d l) x.1) _ λ y e'. refl
  to_trigger-Other blocks mi (Action.block_outgoing b r t d l) rng h = absurd (ground arith)
  to_trigger-Other pads mi (Action.update_timer r d l) rng h =
      Ensures-after (λ r. Other pads r.0) (sample_duration (Action.update_timer r d l) rng) _
        λ x e. refl
  to_trigger-Other blocks mi (Action.update_timer r d l) rng h =
      Ensures-after (λ r. Other blocks r.0) (sample_duration (Action.update_timer r d l) rng) _
        λ x e. refl

  -- The books stay, and so does the machine's slot, or it gets an action that is not of the kind.
  abbrev pub Refused : Kind → ℕ → Framework R → Framework R → Type 0
  Refused kind mi fw fw' = (ledger fw' ≡ ledger fw) × NoNew kind mi fw.actions fw'.actions

  pub Refused-trans :
      (kind : Kind) (mi : ℕ) (fw fw1 fw2 : Framework R)
      → Refused kind mi fw fw1
      → Refused kind mi fw1 fw2
      → Refused kind mi fw fw2
  Refused-trans kind mi fw fw1 fw2 a b =
      (b.0 ∙ a.0, NoNew-trans kind mi fw.actions fw1.actions fw2.actions a.1 b.1)

  pub set_action-Refused :
      (kind : Kind) (mi : ℕ) (fw : Framework R) (rng : R) (o : Option TriggerAction)
      → Other kind o
      → Ensures (Refused kind mi fw) (set_action (record fw { rng = rng }) mi o)
  unfolding set_action
  set_action-Refused kind mi fw rng o h =
      Ensures-after (Refused kind mi fw) (index fw.actions mi) _
        λ old at. (refl, inr (o, index-set_self fw.actions mi o at, h))

  to_trigger_option-Other :
      (kind : Kind) (mi : ℕ) (o : Option Action) (rng : R)
      → ((a : Action) → o ≡ some a → has_kind kind a ≡ false)
      → Ensures (λ r. Other kind r.0) (to_trigger mi o rng)
  unfolding to_trigger
  to_trigger_option-Other kind mi none rng h = tt
  to_trigger_option-Other kind mi (some a) rng h = to_trigger-Other kind mi a rng (h a refl)

  pub schedule_action-Refused :
      (kind : Kind) (mi k : ℕ) (fw : Framework R)
      → ((m : Machine) (st : State)
          → index fw.machines mi ≡ ok m
          → index m.states k ≡ ok st
          → StateOther kind st)
      → Ensures (Refused kind mi fw) (schedule_action fw mi k)
  unfolding schedule_action
  schedule_action-Refused kind mi k fw h =
      Ensures-after (Refused kind mi fw) (index fw.machines mi) _ λ m em.
        Ensures-after (Refused kind mi fw) (index m.states k) _ λ st es.
          Ensures-bind (λ r. Other kind r.0) (Refused kind mi fw) (to_trigger mi st.action fw.rng) _
            (to_trigger_option-Other kind mi st.action fw.rng (h m st em es))
            λ r e o. set_action-Refused kind mi fw r.1 r.0 o

  -- A write of the machine's runtime that leaves its accounts.
  edit-Refused :
      (kind : Kind) (mi : ℕ) (fw : Framework R) (old new : MachineRuntime) (rng : R)
      (flags : Bool × Bool)
      → index fw.runtime mi ≡ ok old
      → account new ≡ account old
      → Refused kind mi fw
          (record fw { rng = rng; runtime = set fw.runtime mi new; counter_zeroed_once = flags })
  edit-Refused kind mi fw old new rng flags er acc = (
    λ i. record (ledger fw) { accounts = map-set_same account fw.runtime mi new er acc i },
    inl refl,
  )

  pub enter_state-Refused :
      (kind : Kind) (fw : Framework R) (mi k : ℕ) (rt : MachineRuntime)
      → index fw.runtime mi ≡ ok rt
      → Ensures
          (λ fw'.
            Refused kind mi fw fw'
            × ((rt' : MachineRuntime) → index fw'.runtime mi ≡ ok rt' → rt'.current_state ≡ k))
          (enter_state fw mi rt k)
  unfolding enter_state
  enter_state-Refused kind fw mi k rt at = elim (Bool-cases (rt.current_state == k)) [
    | inl e ↦ let same = (==_iff rt.current_state k).0 e in rw e ((refl, inl refl), λ rt' at'. cc)
    | inr e ↦ rw e (
        Ensures-after _ (index fw.machines mi) _ λ m em.
          Ensures-after _ (index m.states k) _ λ st es.
            Ensures-after _ (limit_of st.action fw.rng) _ λ r el.
              let new : MachineRuntime = record rt { current_state = k; state_limit = r.0 } in
              (
                edit-Refused kind mi fw rt new r.1 fw.counter_zeroed_once at refl,
                λ rt' at'. let self = index-set_self fw.runtime mi new at in ground arith,
              ))
  ]

  pub update_counter_a-Refused :
      (kind : Kind) (fw : Framework R) (mi : ℕ) (rt : MachineRuntime) (o : Option Counter)
      → index fw.runtime mi ≡ ok rt
      → Ensures (λ r. Refused kind mi fw r.1) (update_counter_a fw mi rt o)
  unfolding update_counter_a
  update_counter_a-Refused kind fw mi rt none at = (refl, inl refl)
  update_counter_a-Refused kind fw mi rt (some c) at =
      Ensures-after _ (change_of c rt.counter_b fw.rng) _
        λ r e. edit-Refused kind mi fw rt _ r.1 fw.counter_zeroed_once at refl

  pub update_counter_b-Refused :
      (kind : Kind) (fw : Framework R) (mi : ℕ) (rt : MachineRuntime) (old : ℕ) (o : Option Counter)
      → index fw.runtime mi ≡ ok rt
      → Ensures (λ r. Refused kind mi fw r.1) (update_counter_b fw mi rt old o)
  unfolding update_counter_b
  update_counter_b-Refused kind fw mi rt old none at = (refl, inl refl)
  update_counter_b-Refused kind fw mi rt old (some c) at =
      Ensures-after _ (change_of c old fw.rng) _
        λ r e. edit-Refused kind mi fw rt _ r.1 fw.counter_zeroed_once at refl

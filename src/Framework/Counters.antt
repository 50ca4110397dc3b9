-- ===== src/Framework/Counters.antt =====
-- crates/maybenot/src/framework.rs: the values of the two counters after `update_counter`.
use maybenot.Prelude.{
  ℕ, ◌+◌, ◌-◌, ◌<◌, ◌≡◌, refl, sym, ap, subst, ◌∙◌, index_lt, Bool, true, false, ◌||◌, Option, none,
  some, Outcome, ok, ◌>>=◌, Returns, Returns-Ensures, Ensures, Ensures-bind, Ensures-after, index,
  index-set_self, if◌then◌else◌, Bool-cases, inl, inr, leb, ltb, arith,
}
use maybenot.Constants.{u64_mod}
use maybenot.Platform.{Floats, Rng}
use maybenot.Event.{Event}
use maybenot.Counter.{Counter, Operation, sample_value}
use maybenot.State.{State}
use maybenot.Machine.{Machine}
use maybenot.Framework.Types.{MachineRuntime, StateChange, Framework}
use maybenot.Framework.Transition.{
  apply_operation, update_counter_a, update_counter_b, counters_zeroed, update_counter,
}
use maybenot.Framework.Rows.{IsLive, IsValid}
use maybenot.Machine.Sound.{IsSound}
use maybenot.Framework.Local.{unset_flags, Local, Local-refl, row_of}
use maybenot.Framework.Steps.{update_counter-Local}

-- An operation on a counter, in 64 bits: an increment stops at the greatest number, a decrement at 0.
abbrev pub applied : Operation → ℕ → ℕ → ℕ
applied Operation.increment own by =
    if ltb (own + by) u64_mod then own + by else 18446744073709551615
applied Operation.decrement own by = if leb by own then own - by else 0
applied Operation.set own by = by

apply_operation-applied :
    (op : Operation) (own by : ℕ) → applied op own by ≡ apply_operation op own by
unfolding apply_operation
apply_operation-applied Operation.increment own by = ground arith
apply_operation-applied Operation.decrement own by = ground arith
apply_operation-applied Operation.set own by = refl

module _ {R : Type 0} ⦃fl : Floats⦄ ⦃g : Rng R⦄ where
  -- The new value of a counter, from its old one and the other's old one.
  abbrev pub new_value : Option Counter → ℕ → ℕ → R → Outcome (ℕ × R)
  new_value none own other rng = ok (own, rng)
  new_value (some c) own other rng =
      if c.copy
      then ok (applied c.operation own other, rng)
      else (do (by, rng') ← sample_value c rng; ok (applied c.operation own by, rng'))

  -- Both counters change at once: each sees the old values, and counter A samples first.
  abbrev pub counters_after : State → ℕ → ℕ → R → Outcome (ℕ × ℕ × R)
  counters_after st a b rng = do
    (a', rng1) ← new_value st.counter.0 a b rng
    (b', rng2) ← new_value st.counter.1 b a rng1
    ok (a', b', rng2)

  -- A transition that does nothing.
  abbrev pub stay : Framework R → ℕ → Event → Outcome (StateChange × Framework R)
  stay fw mi event = ok (StateChange.unchanged, fw)

  -- The first half.
  abbrev HalfA : ℕ → MachineRuntime → Option Counter → Framework R → Bool × Framework R → Type 0
  HalfA mi rt o fw r =
      (rt' : MachineRuntime) × (index r.1.runtime mi ≡ ok rt')
      × (rt'.counter_b ≡ rt.counter_b)
      × (new_value o rt.counter_a rt.counter_b fw.rng ≡ ok (rt'.counter_a, r.1.rng))

  update_counter_a-HalfA :
      (fw : Framework R) (mi : ℕ) (rt : MachineRuntime) (o : Option Counter)
      → index fw.runtime mi ≡ ok rt
      → Ensures (HalfA mi rt o fw) (update_counter_a fw mi rt o)
  unfolding update_counter_a sample_value
  update_counter_a-HalfA fw mi rt none at = (rt, at, refl, refl)
  update_counter_a-HalfA fw mi rt (some c) at = elim (Bool-cases c.copy) [
    | inl e ↦
        let v = apply_operation c.operation rt.counter_a rt.counter_b in
        rw e (
          record rt { counter_a = v },
          index-set_self fw.runtime mi (record rt { counter_a = v }) at,
          refl,
          rw (apply_operation-applied c.operation rt.counter_a rt.counter_b) refl,
        )
    | inr e ↦ rw e (
        Ensures-after _ (sample_value c fw.rng) _ λ r es.
          let v = apply_operation c.operation rt.counter_a r.0 in
          (
            record rt { counter_a = v },
            index-set_self fw.runtime mi (record rt { counter_a = v }) at,
            refl,
            rw (es, apply_operation-applied c.operation rt.counter_a r.0) refl,
          ))
  ]

  -- The second half, after the first, which has left counter B.
  abbrev HalfB : ℕ → MachineRuntime → ℕ → Option Counter → Framework R → Bool × Framework R → Type 0
  HalfB mi rt old_a o fw r =
      (rt' : MachineRuntime) × (index r.1.runtime mi ≡ ok rt')
      × (rt'.counter_a ≡ rt.counter_a)
      × (new_value o rt.counter_b old_a fw.rng ≡ ok (rt'.counter_b, r.1.rng))

  update_counter_b-HalfB :
      (fw : Framework R) (mi : ℕ) (rt : MachineRuntime) (old_a : ℕ) (o : Option Counter)
      → index fw.runtime mi ≡ ok rt
      → Ensures (HalfB mi rt old_a o fw) (update_counter_b fw mi rt old_a o)
  unfolding update_counter_b sample_value
  update_counter_b-HalfB fw mi rt old_a none at = (rt, at, refl, refl)
  update_counter_b-HalfB fw mi rt old_a (some c) at = elim (Bool-cases c.copy) [
    | inl e ↦
        let v = apply_operation c.operation rt.counter_b old_a in
        rw e (
          record rt { counter_b = v },
          index-set_self fw.runtime mi (record rt { counter_b = v }) at,
          refl,
          rw (apply_operation-applied c.operation rt.counter_b old_a) refl,
        )
    | inr e ↦ rw e (
        Ensures-after _ (sample_value c fw.rng) _ λ r es.
          let v = apply_operation c.operation rt.counter_b r.0 in
          (
            record rt { counter_b = v },
            index-set_self fw.runtime mi (record rt { counter_b = v }) at,
            refl,
            rw (es, apply_operation-applied c.operation rt.counter_b r.0) refl,
          ))
  ]

  -- The counters of the machine are the new ones.
  abbrev pub HasCounters : ℕ → State → MachineRuntime → R → Framework R → Type 0
  HasCounters mi st rt rng fw' =
      (rt' : MachineRuntime) × (index fw'.runtime mi ≡ ok rt')
      × (counters_after st rt.counter_a rt.counter_b rng
          ≡ ok (rt'.counter_a, rt'.counter_b, fw'.rng))

  counters_zeroed-stay :
      (fw : Framework R) (mi : ℕ) (zeroed : Bool) (Q : Framework R → Type 0)
      → Q fw
      → Ensures (λ r. Q r.1) (counters_zeroed stay fw mi zeroed)
  unfolding counters_zeroed
  counters_zeroed-stay fw mi false Q h = h
  counters_zeroed-stay fw mi true Q h = Ensures-after (λ r. Q r.1) (index fw.actions mi) _ λ a e. h

  update_counter-HasCounters :
      (fw : Framework R) (mi : ℕ) (m : Machine) (rt : MachineRuntime) (st : State)
      → index fw.machines mi ≡ ok m
      → index fw.runtime mi ≡ ok rt
      → index m.states rt.current_state ≡ ok st
      → Ensures (λ r. HasCounters mi st rt fw.rng r.1) (update_counter stay fw mi)
  unfolding update_counter
  update_counter-HasCounters fw mi m rt st em er es =
      let Q : (Bool × Bool) × Framework R → Type 0 = λ r. HasCounters mi st rt fw.rng r.1 in
      rw (em, er, es)
        (Ensures-bind (HalfA mi rt st.counter.0 fw) Q (update_counter_a fw mi rt st.counter.0) _
          (update_counter_a-HalfA fw mi rt st.counter.0 er)
          λ a ea (rt1, at1, same_b, new_a). rw at1 (
            Ensures-bind (HalfB mi rt1 rt.counter_a st.counter.1 a.1) Q
              (update_counter_b a.1 mi rt1 rt.counter_a st.counter.1) _
              (update_counter_b-HalfB a.1 mi rt1 rt.counter_a st.counter.1 at1)
              λ b eb (rt2, at2, same_a, new_b).
                let next_b : new_value st.counter.1 rt.counter_b rt.counter_a a.1.rng
                    ≡ ok (rt2.counter_b, b.1.rng) =
                  subst
                    (λ v.
                      new_value st.counter.1 v rt.counter_a a.1.rng ≡ ok (rt2.counter_b, b.1.rng))
                    same_b new_b in
                counters_zeroed-stay b.1 mi (a.0 || b.0) (HasCounters mi st rt fw.rng) (
                  rt2,
                  at2,
                  ap (λ x. x >>= second st rt) new_a
                      ∙ ap (λ y. y >>= λ (v, r). ok (rt1.counter_a, v, r)) next_b
                      ∙ ap (λ v. ok (v, rt2.counter_b, b.1.rng)) (sym same_a),
                )))
    where
      second : State → MachineRuntime → ℕ × R → Outcome (ℕ × ℕ × R)
      second st rt x =
          new_value st.counter.1 rt.counter_b rt.counter_a x.1 >>= λ (v, r). ok (x.0, v, r)

  -- `update_counter` for a machine in one of its states, in a valid framework, where the transition on a
  -- counter that reaches zero is left out: it returns, and the machine's counters and the generator
  -- are those that the simultaneous update gives. A copy takes the other counter's old value, an
  -- increment stops at the greatest number of 64 bits, a decrement at 0, and counter A samples first.
  pub update_counter-counters_after :
      (fw : Framework R) (mi : ℕ) (m : Machine) (rt : MachineRuntime) (st : State)
      → IsValid fw
      → index fw.machines mi ≡ ok m
      → index fw.runtime mi ≡ ok rt
      → index m.states rt.current_state ≡ ok st
      → Returns (λ r. HasCounters mi st rt fw.rng r.1) (update_counter stay fw mi)
  update_counter-counters_after fw mi m rt st v em er es =
      let lt = index_lt fw.runtime mi er in
      let row = row_of fw mi v lt in
      let at = row.at_machine in
      let at_rt = row.at_runtime in
      let same : row.m ≡ m = cc in
      let same_rt : row.rt ≡ rt = cc in
      let sound : IsSound m = subst IsSound same row.row.sound in
      let live : IsLive m rt =
        subst (IsLive m) same_rt (subst (λ x. IsLive x row.rt) same row.row.live) in
      Returns-Ensures (λ r. Local mi fw r.1) (λ r. HasCounters mi st rt fw.rng r.1)
        (update_counter stay fw mi)
        (update_counter-Local stay fw mi 3 m rt (λ fw' v' lt' fuel event. Local-refl mi fw' v')
          (record {
            valid = v;
            in_bounds = lt;
            at_machine = em;
            at_runtime = er;
            sound = sound;
            live = live;
          })
          (index_lt m.states rt.current_state es) (flags_bound fw.counter_zeroed_once))
        (update_counter-HasCounters fw mi m rt st em er es)
    where
      flags_bound : (f : Bool × Bool) → unset_flags f < 4
      flags_bound f = ground arith

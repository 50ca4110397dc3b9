-- ===== src/Framework/Updates.antt =====
-- crates/maybenot/src/framework.rs: the two halves of `update_counter` return, and stay local.
use maybenot.Prelude.{
  ℕ, ◌<◌, ◌≤◌, ◌≡◌, refl, inl, inr, Bool, true, false, not, ◌&&◌, ◌||◌, Option, none, some, ok,
  Returns, Returns-bind, index, Bool-cases, ◌==◌, arith,
}
use maybenot.Constants.{u64_mod}
use maybenot.Platform.{Floats, Rng}
use maybenot.Counter.{Counter, Operation, sample_value}
use maybenot.Counter.Draws.{sample_value-Returns}
use maybenot.State.Targets.{CounterOk}
use maybenot.Machine.{Machine}
use maybenot.Framework.Types.{MachineRuntime, Framework}
use maybenot.Framework.Transition.{apply_operation, change_of, update_counter_a, update_counter_b}
use maybenot.Framework.Rows.{IsLive, IsValid}
use maybenot.Framework.Local.{unset_flags, Local, Local-refl, Local-edit}

apply_operation-lt :
    (op : Operation) (value change : ℕ)
    → value < u64_mod
    → change < u64_mod
    → apply_operation op value change < u64_mod
unfolding apply_operation
apply_operation-lt Operation.increment value change h k = omega arith
apply_operation-lt Operation.decrement value change h k = omega arith
apply_operation-lt Operation.set value change h k = k

-- A flag is set only if it was clear.
flag_a :
    (zeroed a b : Bool)
    → (zeroed ≡ true → a ≡ false)
    → (unset_flags (zeroed || a, b) ≤ unset_flags (a, b))
      × (zeroed ≡ true → unset_flags (zeroed || a, b) < unset_flags (a, b))
flag_a zeroed a b h = ground arith

flag_b :
    (zeroed a b : Bool)
    → (zeroed ≡ true → b ≡ false)
    → (unset_flags (a, zeroed || b) ≤ unset_flags (a, b))
      × (zeroed ≡ true → unset_flags (a, zeroed || b) < unset_flags (a, b))
flag_b zeroed a b h = ground arith

module _ {R : Type 0} ⦃fl : Floats⦄ ⦃g : Rng R⦄ where
  change_of-Returns :
      (c : Counter) (other : ℕ) (rng : R)
      → CounterOk (some c)
      → other < u64_mod
      → Returns (λ r. r.0 < u64_mod) (change_of c other rng)
  unfolding sample_value
  change_of-Returns c other rng h lt = elim (Bool-cases c.copy) [
    | inl e ↦ rw e lt
    | inr e ↦ rw e (sample_value-Returns c rng h)
  ]

  -- The result of updating one counter.
  abbrev pub Updated : ℕ → Framework R → Bool × Framework R → Type 0
  Updated mi fw r =
      Local mi fw r.1
      × (r.0 ≡ true → unset_flags r.1.counter_zeroed_once < unset_flags fw.counter_zeroed_once)

  pub update_counter_a-Returns :
      (fw : Framework R) (mi : ℕ) (m : Machine) (rt : MachineRuntime) (o : Option Counter)
      → IsValid fw
      → index fw.machines mi ≡ ok m
      → index fw.runtime mi ≡ ok rt
      → IsLive m rt
      → CounterOk o
      → Returns (Updated mi fw) (update_counter_a fw mi rt o)
  unfolding update_counter_a
  update_counter_a-Returns fw mi m rt none v em er live h =
      (Local-refl mi fw v, λ e. absurd (ground arith))
  update_counter_a-Returns fw mi m rt (some c) v em er live h =
      Returns-bind (λ r. r.0 < u64_mod) (Updated mi fw) (change_of c rt.counter_b fw.rng) _
        (change_of-Returns c rt.counter_b fw.rng h live.counter_b)
        λ r e lt.
          let updated = apply_operation c.operation rt.counter_a r.0 in
          let zeroed = not (rt.counter_a == 0) && updated == 0 && not fw.counter_zeroed_once.0 in
          let f = flag_a zeroed fw.counter_zeroed_once.0 fw.counter_zeroed_once.1 (ground arith) in
          (
            Local-edit mi fw m rt (record rt { counter_a = updated }) r.1
                (zeroed || fw.counter_zeroed_once.0, fw.counter_zeroed_once.1) v em er refl
                (record {
                  in_range = live.in_range;
                  limit = live.limit;
                  counter_a = apply_operation-lt c.operation rt.counter_a r.0 live.counter_a lt;
                  counter_b = live.counter_b;
                })
                f.0,
            f.1,
          )

  pub update_counter_b-Returns :
      (fw : Framework R) (mi : ℕ) (m : Machine) (rt : MachineRuntime) (old_a : ℕ)
      (o : Option Counter)
      → IsValid fw
      → index fw.machines mi ≡ ok m
      → index fw.runtime mi ≡ ok rt
      → IsLive m rt
      → old_a < u64_mod
      → CounterOk o
      → Returns (Updated mi fw) (update_counter_b fw mi rt old_a o)
  unfolding update_counter_b
  update_counter_b-Returns fw mi m rt old_a none v em er live lt h =
      (Local-refl mi fw v, λ e. absurd (ground arith))
  update_counter_b-Returns fw mi m rt old_a (some c) v em er live old_lt h =
      Returns-bind (λ r. r.0 < u64_mod) (Updated mi fw) (change_of c old_a fw.rng) _
        (change_of-Returns c old_a fw.rng h old_lt)
        λ r e lt.
          let updated = apply_operation c.operation rt.counter_b r.0 in
          let zeroed = not (rt.counter_b == 0) && updated == 0 && not fw.counter_zeroed_once.1 in
          let f = flag_b zeroed fw.counter_zeroed_once.0 fw.counter_zeroed_once.1 (ground arith) in
          (
            Local-edit mi fw m rt (record rt { counter_b = updated }) r.1
                (fw.counter_zeroed_once.0, zeroed || fw.counter_zeroed_once.1) v em er refl
                (record {
                  in_range = live.in_range;
                  limit = live.limit;
                  counter_a = live.counter_a;
                  counter_b = apply_operation-lt c.operation rt.counter_b r.0 live.counter_b lt;
                })
                f.0,
            f.1,
          )

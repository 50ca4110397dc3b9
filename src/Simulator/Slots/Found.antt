-- ===== src/Simulator/Slots/Found.antt =====
-- crates/maybenot-simulator/src/lib.rs: `do_internal_timer` and `do_scheduled_action` find what the
-- peeks saw, and empty its slot.
use maybenot.Prelude.{
  ℕ, suc, ◌+◌, ◌≡◌, refl, ap, ◌⊎◌, inl, inr, Bool, Option, none, some, List, [], ◌∷◌, length, ◌==◌,
  Returns, if-both, arith,
}
use maybenot.Action.{TriggerAction}
use maybenot.Simulator.Queue.Sided.{IsAged}
use maybenot.Simulator.Peek.{ScheduledAction}
use maybenot.Simulator.Peek.Soonest.{IsDue, times}
use maybenot.Simulator.Sim.{SimState}
use maybenot.Simulator.Slots.{after, take_first, set_slots, do_internal_timer}

-- `P` holds of what the slots hold.
abbrev pub InSlots : {A : Type 0} → (A → Type 0) → List (Option A) → Type 0
InSlots P [] = Unit
InSlots P (none ∷ rest) = InSlots P rest
InSlots P (some a ∷ rest) = P a × InSlots P rest

-- What is taken out of a slot, and the slots without it.
pub record IsTaken {A : Type 0} (P : A → Type 0) (xs : List (Option A))
    (r : ℕ × A × List (Option A)) : Type 0 where
  pub held : P r.1
  pub fewer : set_slots xs ≡ suc (set_slots r.2)
  pub size : length r.2 ≡ length xs
  pub rest : InSlots P r.2

abbrev pub Took :
    {A : Type 0} → (A → Type 0) → List (Option A) → Option (ℕ × A × List (Option A)) → Type 0
Took P xs none = Unit
Took P xs (some r) = IsTaken P xs r

after-Took :
    {A : Type 0} (P : A → Type 0) (slot : Option A) (xs : List (Option A))
    (o : Option (ℕ × A × List (Option A)))
    → InSlots P (slot ∷ xs)
    → Took P xs o
    → Took P (slot ∷ xs) (after slot o)
unfolding set_slots
after-Took P slot xs none h t = tt
after-Took P none xs (some r) h t = record {
  held = t.held;
  fewer = t.fewer;
  size = ap suc t.size;
  rest = t.rest;
}
after-Took P (some a) xs (some r) h t = record {
  held = t.held;
  fewer = ap suc t.fewer;
  size = ap suc t.size;
  rest = (h.0, t.rest);
}

pub take_first-Took :
    {A : Type 0} (P : A → Type 0) (test : A → Bool) (id : ℕ) (xs : List (Option A))
    → InSlots P xs
    → Took P xs (take_first test id xs)
unfolding take_first set_slots
take_first-Took P test id [] h = tt
take_first-Took P test id (none ∷ rest) h =
    after-Took P none rest (take_first test (suc id) rest) h
      (take_first-Took P test (suc id) rest h)
take_first-Took P test id (some a ∷ rest) h =
    if-both (Took P (some a ∷ rest)) (test a) _ _
      (λ e. record { held = h.0; fewer = refl; size = refl; rest = h.1 })
      (λ e.
        after-Took P (some a) rest (take_first test (suc id) rest) h
          (take_first-Took P test (suc id) rest h.1))

InSlots-any : {A : Type 0} (xs : List (Option A)) → InSlots (λ a. Unit) xs
InSlots-any [] = tt
InSlots-any (none ∷ rest) = InSlots-any rest
InSlots-any (some a ∷ rest) = (tt, InSlots-any rest)

-- Whether something was found.
abbrev pub Finds : {A : Type 0} → Option A → Type 0
Finds none = ⊥
Finds (some a) = Unit

after-Finds :
    {A : Type 0} (slot : Option A) (o : Option (ℕ × A × List (Option A)))
    → Finds o
    → Finds (after slot o)
after-Finds slot (some r) h = h
after-Finds slot none h = h

-- What is due in `d` is found, at the time that the peek tells.
due_timer-Finds :
    (now d id : ℕ) (xs : List (Option ℕ))
    → IsDue now d xs
    → Finds (take_first (λ t. t == now + d) id xs)
unfolding take_first
due_timer-Finds now d id [] h = h
due_timer-Finds now d id (none ∷ rest) h =
    after-Finds none (take_first (λ t. t == now + d) (suc id) rest)
      (due_timer-Finds now d (suc id) rest h)
due_timer-Finds now d id (some t ∷ rest) h =
    if-both Finds (t == now + d) _ _ (λ e. tt)
      (λ e. elim h [
        | inl due ↦ absurd (ground (arith, due.0, due.1))
        | inr later ↦
            after-Finds (some t) (take_first (λ u. u == now + d) (suc id) rest)
              (due_timer-Finds now d (suc id) rest later)
      ])

pub due_action-Finds :
    (now d id : ℕ) (xs : List (Option ScheduledAction))
    → IsDue now d (times xs)
    → Finds (take_first (λ a. a.time == now + d) id xs)
unfolding take_first
due_action-Finds now d id [] h = h
due_action-Finds now d id (none ∷ rest) h =
    after-Finds none (take_first (λ a. a.time == now + d) (suc id) rest)
      (due_action-Finds now d (suc id) rest h)
due_action-Finds now d id (some t ∷ rest) h =
    if-both Finds (t.time == now + d) _ _ (λ e. tt)
      (λ e. elim h [
        | inl due ↦ absurd (ground (arith, due.0, due.1))
        | inr later ↦
            after-Finds (some t) (take_first (λ a. a.time == now + d) (suc id) rest)
              (due_action-Finds now d (suc id) rest later)
      ])

-- Only padding and blocking wait in the slots.
abbrev pub TimedAction : TriggerAction → Type 0
TimedAction (TriggerAction.cancel machine timer) = ⊥
TimedAction (TriggerAction.update_timer duration replace machine) = ⊥
TimedAction _ = Unit

abbrev pub IsTimed : ScheduledAction → Type 0
IsTimed a = TimedAction a.action

module _ {R : Type 0} where
  abbrev pub slots : SimState R → ℕ
  slots state = set_slots state.scheduled_internal_timer + set_slots state.scheduled_action

  -- What the events that the simulator makes leave of a state.
  pub record Keeps (state state' : SimState R) : Type 0 where
    pub framework : state'.framework ≡ state.framework
    pub integration : state'.integration ≡ state.integration
    pub actions : length state'.scheduled_action ≡ length state.scheduled_action
    pub timers : length state'.scheduled_internal_timer ≡ length state.scheduled_internal_timer
    pub timed : InSlots IsTimed state.scheduled_action → InSlots IsTimed state'.scheduled_action

  -- A slot less is set.
  pub record Empties (c s c' s' : SimState R) : Type 0 where
    pub fewer : slots c + slots s ≡ suc (slots c' + slots s')
    pub client : Keeps c c'
    pub server : Keeps s s'

  pub Keeps-refl : (state : SimState R) → Keeps state state
  Keeps-refl state = record {
    framework = refl;
    integration = refl;
    actions = refl;
    timers = refl;
    timed = λ h. h;
  }

  take_timer-cases :
      (client server : SimState R) (target : ℕ) (c s : Option (ℕ × ℕ × List (Option ℕ)))
      → take_first (λ t. t == target) 0 client.scheduled_internal_timer ≡ c
      → take_first (λ t. t == target) 0 server.scheduled_internal_timer ≡ s
      → Took (λ t. Unit) client.scheduled_internal_timer c
      → Took (λ t. Unit) server.scheduled_internal_timer s
      → Finds c ⊎ Finds s
      → Returns
          (λ r. IsAged r.0 × Empties client server r.1 r.2)
          (do_internal_timer client server target)
  unfolding do_internal_timer
  take_timer-cases client server target (some c) s ec es tc ts f =
      rw (ec, do_internal_timer)
        (
          omega arith,
          record {
            fewer = omega (arith, tc.fewer);
            client = record {
              framework = refl;
              integration = refl;
              actions = refl;
              timers = tc.size;
              timed = λ h. h;
            };
            server = Keeps-refl server;
          },
        )
  take_timer-cases client server target none (some s) ec es tc ts f =
      rw (ec, es, do_internal_timer)
        (
          omega arith,
          record {
            fewer = omega (arith, ts.fewer);
            client = Keeps-refl client;
            server = record {
              framework = refl;
              integration = refl;
              actions = refl;
              timers = ts.size;
              timed = λ h. h;
            };
          },
        )
  take_timer-cases client server target none none ec es tc ts (inl f) = absurd f
  take_timer-cases client server target none none ec es tc ts (inr f) = absurd f

  -- `do_internal_timer` finds a timer that is due, empties its slot and leaves the other slots.
  pub do_internal_timer-Empties :
      (client server : SimState R) (now d : ℕ)
      → IsDue now d client.scheduled_internal_timer ⊎ IsDue now d server.scheduled_internal_timer
      → Returns
          (λ r. IsAged r.0 × Empties client server r.1 r.2)
          (do_internal_timer client server (now + d))
  do_internal_timer-Empties client server now d due =
      let c = take_first (λ t. t == now + d) 0 client.scheduled_internal_timer in
      let s = take_first (λ t. t == now + d) 0 server.scheduled_internal_timer in
      take_timer-cases client server (now + d) c s refl refl
        (take_first-Took (λ t. Unit) (λ t. t == now + d) 0 client.scheduled_internal_timer
          (InSlots-any client.scheduled_internal_timer))
        (take_first-Took (λ t. Unit) (λ t. t == now + d) 0 server.scheduled_internal_timer
          (InSlots-any server.scheduled_internal_timer))
        (elim due [
          | inl h ↦ inl (due_timer-Finds now d 0 client.scheduled_internal_timer h)
          | inr h ↦ inr (due_timer-Finds now d 0 server.scheduled_internal_timer h)
        ])

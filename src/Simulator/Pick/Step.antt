-- ===== src/Simulator/Pick/Step.antt =====
-- crates/maybenot-simulator/src/lib.rs: one call of `pick_next`, up to its call of itself.
use maybenot.Prelude.{
  ℕ, suc, ◌+◌, ◌≤◌, ◌<◌, ◌≡◌, refl, subst, inl, inr, Bool, true, false, Option, none, some, ltb,
  if-both, Returns, Returns-bind, Returns-both, Returns-Ensures, arith,
}
use maybenot.Time.{duration_max}
use maybenot.Platform.{Floats}
use maybenot.Simulator.Event.{SimEvent}
use maybenot.Simulator.Queue.{Heap, push_sim}
use maybenot.Simulator.Queue.Sided.{
  IsAged, Aged-later, Belongs, BelongsIfAny, PoppedFrom, IsSided, push_sim-IsSided,
  pop_sim-PoppedFrom, pop_sim-peeked,
}
use maybenot.Simulator.Sides.{pop_sim}
use maybenot.Simulator.Peek.Soonest.{
  peek_scheduled_action-IsSoonest, peek_scheduled_internal_timer-IsSoonest,
}
use maybenot.Simulator.Integration.{Thread, reporting_delay}
use maybenot.Simulator.Network.{DelayHeap}
use maybenot.Simulator.Sim.{SimState, Sim}
use maybenot.Simulator.Next.{Found}
use maybenot.Simulator.Next.Named.{IsNamed}
use maybenot.Simulator.Slots.{do_internal_timer, do_scheduled_action}
use maybenot.Simulator.Slots.Found.{
  InSlots, IsTimed, Keeps, Keeps-refl, Empties, do_internal_timer-Empties,
}
use maybenot.Simulator.Slots.Actions.{Answers, do_scheduled_action-Empties}
use maybenot.Simulator.Pick.{
  Picked, move_forward, pick_queued, pick_blocking_end, pick_timer, pick_action, next_action,
  next_timer, pending,
}

-- An event that was picked is not before the current time, nor before its own delay.
abbrev pub NotBefore : ℕ → Option SimEvent → Type 0
NotBefore now none = Unit
NotBefore now (some e) = (now ≤ e.time) × IsAged e

abbrev pub PickedNotBefore : ℕ → Picked → Type 0
PickedNotBefore now (Picked.done e) = NotBefore now e
PickedNotBefore now Picked.again = Unit

-- A call before another takes out one of what is pending.
abbrev pub Progress : Picked → ℕ → ℕ → Type 0
Progress (Picked.done e) n n' = Unit
Progress Picked.again n n' = n ≡ suc n'

move_forward-NotBefore :
    (e : SimEvent) (now q : ℕ) → IsAged e → NotBefore now (some (move_forward e now q))
unfolding move_forward
move_forward-NotBefore e now q aged =
    if-both (λ (x : SimEvent). (now ≤ x.time) × IsAged x) (ltb e.time (now + q)) _ _
      (λ h. (
        omega arith,
        Aged-later e.event e.contains_padding e.integration_delay e.time (now + q) (ground arith)
            aged,
      ))
      (λ h. (ground arith, aged))

module _ {H D R T : Type 0} ⦃heap : Heap H⦄ ⦃delays : DelayHeap D⦄ ⦃fl : Floats⦄
    ⦃th : Thread T⦄ where
  -- Each event is in the queues of its side, only padding and blocking are scheduled, and the delays of
  -- the integrations can be drawn.
  pub record IsReady (sim : Sim H D R T) : Type 0 where
    pub sided : IsSided sim.sq
    pub client_timed : InSlots IsTimed sim.client.scheduled_action
    pub server_timed : InSlots IsTimed sim.server.scheduled_action
    pub client_answers : Answers T sim.client.integration
    pub server_answers : Answers T sim.server.integration

  pub record IsStep (sim : Sim H D R T) (now : ℕ) (r : Picked × Sim H D R T) : Type 0 where
    pub not_before : PickedNotBefore now r.0
    pub progress : Progress r.0 (pending sim) (pending r.1)
    pub ready : IsReady r.1
    pub client : Keeps sim.client r.1.client
    pub server : Keeps sim.server r.1.server

  pub pick_queued-IsStep :
      (sim : Sim H D R T) (now : ℕ) (found : Found)
      → IsReady sim
      → IsNamed sim.sq found
      → found.0 < duration_max
      → Returns (IsStep sim now) (pick_queued sim now found)
  unfolding pick_queued
  pick_queued-IsStep sim now (q, qid, is_client) h (le, inl none_there) lt = absurd (omega arith)
  pick_queued-IsStep sim now (q, qid, is_client) h (le, inr (e, at)) lt =
      let base = sim.network.aggregate_base_delay in
      Returns-bind (λ r. ((item : SimEvent) × (r.0 ≡ some item)) × PoppedFrom is_client r)
        (IsStep sim now) (pop_sim sim.sq qid is_client base) _
        (Returns-both _ _ (pop_sim sim.sq qid is_client base)
          (pop_sim-peeked sim.sq qid is_client e base at)
          (Returns-Ensures _ _ (pop_sim sim.sq qid is_client base)
            (pop_sim-peeked sim.sq qid is_client e base at)
            (pop_sim-PoppedFrom sim.sq qid is_client base h.sided)))
        λ r er k.
          let (item, some_item) = k.0 in
          let aged : Belongs is_client item = subst (BelongsIfAny is_client) some_item k.1.0 in
          rw some_item (record {
            not_before = move_forward-NotBefore item now q aged.1;
            progress = tt;
            ready = record {
              sided = k.1.1;
              client_timed = h.client_timed;
              server_timed = h.server_timed;
              client_answers = h.client_answers;
              server_answers = h.server_answers;
            };
            client = Keeps-refl sim.client;
            server = Keeps-refl sim.server;
          })

  pub pick_blocking_end-IsStep :
      (sim : Sim H D R T) (now : ℕ) (b : ℕ × Bool)
      → IsReady sim
      → Returns (IsStep sim now) (pick_blocking_end sim now b)
  unfolding pick_blocking_end
  pick_blocking_end-IsStep sim now (b, true) h =
      Returns-bind (λ r. Unit {0}) (IsStep sim now)
        (reporting_delay sim.client.integration sim.thread) _
        (h.client_answers.reporting sim.thread)
        λ r er k. record {
          not_before = (omega arith, omega arith);
          progress = tt;
          ready = record {
            sided = h.sided;
            client_timed = h.client_timed;
            server_timed = h.server_timed;
            client_answers = h.client_answers;
            server_answers = h.server_answers;
          };
          client = record {
            framework = refl;
            integration = refl;
            actions = refl;
            timers = refl;
            timed = λ x. x;
          };
          server = Keeps-refl sim.server;
        }
  pick_blocking_end-IsStep sim now (b, false) h =
      Returns-bind (λ r. Unit {0}) (IsStep sim now)
        (reporting_delay sim.server.integration sim.thread) _
        (h.server_answers.reporting sim.thread)
        λ r er k. record {
          not_before = (omega arith, omega arith);
          progress = tt;
          ready = record {
            sided = h.sided;
            client_timed = h.client_timed;
            server_timed = h.server_timed;
            client_answers = h.client_answers;
            server_answers = h.server_answers;
          };
          client = Keeps-refl sim.client;
          server = record {
            framework = refl;
            integration = refl;
            actions = refl;
            timers = refl;
            timed = λ x. x;
          };
        }

  -- After an event of the simulator's own was pushed and a slot emptied.
  emptied-IsStep :
      (sim : Sim H D R T) (now : ℕ) (e : SimEvent) (c s : SimState R) (t : T)
      → IsAged e
      → IsReady sim
      → Empties sim.client sim.server c s
      → IsStep sim now
          (Picked.again, record sim { sq = push_sim sim.sq e; client = c; server = s; thread = t })
  emptied-IsStep sim now e c s t aged h k = record {
    not_before = tt;
    progress = omega (arith, k.fewer);
    ready = record {
      sided = push_sim-IsSided sim.sq e aged h.sided;
      client_timed = k.client.timed h.client_timed;
      server_timed = k.server.timed h.server_timed;
      client_answers = rw k.client.integration h.client_answers;
      server_answers = rw k.server.integration h.server_answers;
    };
    client = k.client;
    server = k.server;
  }

  pub pick_timer-IsStep :
      (sim : Sim H D R T) (now : ℕ)
      → IsReady sim
      → next_timer sim now < duration_max
      → Returns (IsStep sim now) (pick_timer sim (now + next_timer sim now))
  unfolding pick_timer
  pick_timer-IsStep sim now h lt =
      Returns-bind (λ r. IsAged r.0 × Empties sim.client sim.server r.1 r.2) (IsStep sim now)
        (do_internal_timer sim.client sim.server (now + next_timer sim now)) _
        (do_internal_timer-Empties sim.client sim.server now (next_timer sim now)
          (elim (peek_scheduled_internal_timer-IsSoonest sim.client.scheduled_internal_timer
            sim.server.scheduled_internal_timer now).reached [
              | inl none_there ↦ absurd (omega (arith, lt, none_there))
              | inr due ↦ due
            ]))
        λ r er k. emptied-IsStep sim now r.0 r.1 r.2 sim.thread k.0 h k.1

  pub pick_action-IsStep :
      (sim : Sim H D R T) (now : ℕ)
      → IsReady sim
      → next_action sim now < duration_max
      → Returns (IsStep sim now) (pick_action sim (now + next_action sim now))
  unfolding pick_action
  pick_action-IsStep sim now h lt =
      Returns-bind (λ r. IsAged r.0 × Empties sim.client sim.server r.1 r.2) (IsStep sim now)
        (do_scheduled_action sim.client sim.server (now + next_action sim now) sim.thread) _
        (do_scheduled_action-Empties sim.client sim.server now (next_action sim now) sim.thread
          h.client_timed h.server_timed h.client_answers h.server_answers
          (elim (peek_scheduled_action-IsSoonest sim.client.scheduled_action
            sim.server.scheduled_action now).reached [
              | inl none_there ↦ absurd (omega (arith, lt, none_there))
              | inr due ↦ due
            ]))
        λ r er k. emptied-IsStep sim now r.0 r.1 r.2 r.3 k.0 h k.1

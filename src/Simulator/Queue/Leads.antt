-- ===== src/Simulator/Queue/Leads.antt =====
-- crates/maybenot-simulator/src/queue.rs: the order of events in time, and what leads a list.
use maybenot.Prelude.{
  ℕ, ◌+◌, ◌≤◌, ◌<◌, ◌≡◌, ◌⊎◌, inl, inr, true, false, Option, none, some, List, [], ◌∷◌, All,
  Bool-cases, arith,
}
use maybenot.Event.{TriggerEvent}
use maybenot.Simulator.Event.{SimEvent, event_to_usize, cmp, is_greater}
use maybenot.Simulator.Queue.{Queue, before, better}

-- By time, then by the number of the event.
abbrev pub AtOrBefore : ℕ → TriggerEvent → ℕ → TriggerEvent → Type 0
AtOrBefore t a u b = (t < u) ⊎ ((t ≡ u) × (event_to_usize a ≤ event_to_usize b))

pub AtOrBefore-trans :
    (t u v : ℕ) (a b c : TriggerEvent)
    → AtOrBefore t a u b
    → AtOrBefore u b v c
    → AtOrBefore t a v c
AtOrBefore-trans t u v a b c h k = ground arith

pub not_greater :
    (x e : SimEvent) → is_greater (cmp x e) ≡ false → AtOrBefore e.time e.event x.time x.event
not_greater x e h = ground arith

pub is_greater-AtOrBefore :
    (x e : SimEvent) → is_greater (cmp x e) ≡ true → AtOrBefore x.time x.event e.time e.event
is_greater-AtOrBefore x e h = ground arith

pub All-mono {ℓ} :
    {A : Type ℓ} (P Q : A → Type 0) (xs : List A) → ((x : A) → P x → Q x) → All P xs → All Q xs
All-mono P Q [] k h = tt
All-mono P Q (x ∷ xs) k h = (k x h.0, All-mono P Q xs k h.1)

-- No event of the list is before `e` at time `t`.
abbrev pub Leads : ℕ → TriggerEvent → List SimEvent → Type 0
Leads t a xs = All (λ x. AtOrBefore t a x.time x.event) xs

pub Leads-earlier :
    (t u : ℕ) (a b : TriggerEvent) (xs : List SimEvent)
    → AtOrBefore t a u b
    → Leads u b xs
    → Leads t a xs
Leads-earlier t u a b xs h k =
    All-mono _ _ xs (λ x k'. AtOrBefore-trans t u x.time a b x.event h k') k

-- What an option for the first event says of a list: the first leads, or there is none.
abbrev pub Covers : Option SimEvent → List SimEvent → Type 0
Covers none xs = xs ≡ []
Covers (some e) xs = Leads e.time e.event xs

pub better-Covers :
    (n : Option SimEvent) (which : Queue) (best : Option SimEvent) (w : Queue)
    (xs ys : List SimEvent)
    → Covers best xs
    → Covers n ys
    → Covers (better n which (best, w)).0 xs × Covers (better n which (best, w)).0 ys
better-Covers none which none w xs ys h k = (h, k)
better-Covers none which (some b) w xs ys h k = (h, rw k tt)
better-Covers (some a) which none w xs ys h k = (rw h tt, k)
better-Covers (some a) which (some b) w xs ys h k = elim (Bool-cases (is_greater (cmp a b))) [
  | inl e ↦ rw e (Leads-earlier a.time b.time a.event b.event xs (is_greater-AtOrBefore a b e) h, k)
  | inr e ↦ rw e (h, Leads-earlier b.time a.time b.event a.event ys (not_greater a b e) k)
]

pub before-AtOrBefore :
    (a b : SimEvent) (delay : ℕ)
    → before (some a) (some b) delay ≡ true
    → AtOrBefore (a.time + delay) a.event b.time b.event
unfolding before
before-AtOrBefore a b delay h = ground arith

pub not_before :
    (a b : SimEvent) (delay : ℕ)
    → before (some a) (some b) delay ≡ false
    → AtOrBefore b.time b.event (a.time + delay) a.event
unfolding before
not_before a b delay h = ground arith

-- No event of the list, each later by the delay, is before `e` at time `t`.
abbrev pub LeadsDelayed : ℕ → TriggerEvent → ℕ → List SimEvent → Type 0
LeadsDelayed t a delay xs = All (λ x. AtOrBefore t a (x.time + delay) x.event) xs

pub delay-Leads :
    (t : ℕ) (a : TriggerEvent) (delay : ℕ) (xs : List SimEvent)
    → Leads t a xs
    → LeadsDelayed (t + delay) a delay xs
delay-Leads t a delay xs h = All-mono _ _ xs (λ x k. ground arith) h

pub earlier-LeadsDelayed :
    (t u : ℕ) (a b : TriggerEvent) (delay : ℕ) (xs : List SimEvent)
    → AtOrBefore t a u b
    → LeadsDelayed u b delay xs
    → LeadsDelayed t a delay xs
earlier-LeadsDelayed t u a b delay xs h k =
    All-mono _ _ xs (λ x k'. AtOrBefore-trans t u (x.time + delay) a b x.event h k') k

-- The delay of the queue's events: only those of the base are delayed.
abbrev pub delay_in : Queue → ℕ → ℕ
delay_in Queue.base delay = delay
delay_in _ delay = 0

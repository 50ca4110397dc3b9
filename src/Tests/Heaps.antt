-- ===== src/Tests/Heaps.antt =====
-- A heap that is a list, and the theorems on the simulator's queues at it.
use maybenot.Prelude.{
  ℕ, suc, ◌≡◌, refl, ap, subst, sym, ◌∙◌, true, false, Option, none, some, List, [], ◌∷◌, All,
  length, Returns, Bool-cases, if-both, inl, inr, if◌then◌else◌, arith,
}
use maybenot.Event.{TriggerEvent}
use maybenot.Simulator.Event.{SimEvent, cmp, is_greater}
use maybenot.Simulator.Queue.{Heap, EventQueue, SimQueue, new_queue, peek_queue, pop_queue}
use maybenot.Simulator.Sides.{peek_sim}
use maybenot.Simulator.Sides.First.{IsFirstOfBoth, peek_sim-IsFirstOfBoth}
use maybenot.Action.{TriggerAction, Timer}
use maybenot.Simulator.Peek.{ScheduledAction, peek_scheduled_action, peek_scheduled_internal_timer}
use maybenot.Simulator.Peek.Soonest.{
  IsSoonest, times, peek_scheduled_action-IsSoonest, peek_scheduled_internal_timer-IsSoonest,
}
use maybenot.Simulator.Queue.Leads.{delay_in}
use maybenot.Simulator.Queue.Earliest.{IsEarliest, peek_queue-IsEarliest}
use maybenot.Simulator.Queue.Pop.{IsPopped, pop-peek_queue}

-- The greater of an event and the greatest of the rest.
abbrev pub choose : SimEvent → Option SimEvent → SimEvent
choose x none = x
choose x (some y) = if is_greater (cmp y x) then y else x

abbrev pub list_peek : List SimEvent → Option SimEvent
list_peek [] = none
list_peek (x ∷ xs) = some (choose x (list_peek xs))

abbrev pub take_out :
    SimEvent → List SimEvent → Option SimEvent × List SimEvent → Option SimEvent × List SimEvent
take_out x xs (none, rest) = (some x, xs)
take_out x xs (some y, rest) = if is_greater (cmp y x) then (some y, x ∷ rest) else (some x, xs)

abbrev pub list_pop : List SimEvent → Option SimEvent × List SimEvent
list_pop [] = (none, [])
list_pop (x ∷ xs) = take_out x xs (list_pop xs)

not_greater_trans :
    (x y z : SimEvent)
    → is_greater (cmp x y) ≡ false
    → is_greater (cmp y z) ≡ false
    → is_greater (cmp x z) ≡ false
not_greater_trans x y z h k = ground arith

not_greater_refl : (x : SimEvent) → is_greater (cmp x x) ≡ false
not_greater_refl x = ground arith

greater-not_greater : (x y : SimEvent) → is_greater (cmp y x) ≡ true → is_greater (cmp x y) ≡ false
greater-not_greater x y h = ground arith

abbrev pub NoneGreater : SimEvent → List SimEvent → Type 0
NoneGreater e xs = All (λ x. is_greater (cmp x e) ≡ false) xs

NoneGreater-trans :
    (y e : SimEvent) (xs : List SimEvent)
    → is_greater (cmp y e) ≡ false
    → NoneGreater y xs
    → NoneGreater e xs
NoneGreater-trans y e [] h k = tt
NoneGreater-trans y e (x ∷ xs) h k = (not_greater_trans x y e k.0 h, NoneGreater-trans y e xs h k.1)

some_injective : {x y : SimEvent} → some x ≡ some y → x ≡ y
some_injective e = cc

pub list_peek-none : (xs : List SimEvent) → list_peek xs ≡ none → xs ≡ []
list_peek-none [] e = refl
list_peek-none (x ∷ xs) e = cc

-- The greatest of a list with one event more.
choose-NoneGreater :
    (x : SimEvent) (xs : List SimEvent) (o : Option SimEvent)
    → list_peek xs ≡ o
    → ((e : SimEvent) → list_peek xs ≡ some e → NoneGreater e xs)
    → NoneGreater (choose x o) (x ∷ xs)
choose-NoneGreater x xs none at h = (not_greater_refl x, rw (list_peek-none xs at) tt)
choose-NoneGreater x xs (some y) at h = elim (Bool-cases (is_greater (cmp y x))) [
  | inl e ↦
      let it : y ≡ choose x (some y) = rw e refl in
      subst (λ z. NoneGreater z (x ∷ xs)) it (greater-not_greater x y e, h y at)
  | inr e ↦
      let it : x ≡ choose x (some y) = rw e refl in
      subst (λ z. NoneGreater z (x ∷ xs)) it
        (not_greater_refl x, NoneGreater-trans y x xs e (h y at))
]

pub list_peek-NoneGreater :
    (xs : List SimEvent) (e : SimEvent) → list_peek xs ≡ some e → NoneGreater e xs
list_peek-NoneGreater [] e h = tt
list_peek-NoneGreater (x ∷ xs) e h =
    subst (λ z. NoneGreater z (x ∷ xs)) (some_injective h)
      (choose-NoneGreater x xs (list_peek xs) refl (list_peek-NoneGreater xs))

take_out-choose :
    (x : SimEvent) (xs : List SimEvent) (p : Option SimEvent × List SimEvent)
    → (take_out x xs p).0 ≡ some (choose x p.0)
take_out-choose x xs (none, rest) = refl
take_out-choose x xs (some y, rest) = elim (Bool-cases (is_greater (cmp y x))) [
  | inl e ↦ rw e refl
  | inr e ↦ rw e refl
]

pub list_pop-list_peek : (xs : List SimEvent) → (list_pop xs).0 ≡ list_peek xs
list_pop-list_peek [] = refl
list_pop-list_peek (x ∷ xs) =
    take_out-choose x xs (list_pop xs) ∙ ap (λ o. some (choose x o)) (list_pop-list_peek xs)

length-take_out :
    (x : SimEvent) (xs : List SimEvent) (p : Option SimEvent × List SimEvent)
    → ((y : SimEvent) → p.0 ≡ some y → length xs ≡ suc (length p.1))
    → suc (length xs) ≡ suc (length (take_out x xs p).1)
length-take_out x xs (none, rest) h = refl
length-take_out x xs (some y, rest) h = elim (Bool-cases (is_greater (cmp y x))) [
  | inl e ↦ rw e (ap suc (h y refl))
  | inr e ↦ rw e refl
]

pub length-list_pop :
    (xs : List SimEvent) (e : SimEvent)
    → list_peek xs ≡ some e
    → length xs ≡ suc (length (list_pop xs).1)
length-list_pop [] e h = cc
length-list_pop (x ∷ xs) e h =
    length-take_out x xs (list_pop xs)
      (λ y at. length-list_pop xs y (sym (list_pop-list_peek xs) ∙ at))

choose-All :
    (P : SimEvent → Type 0) (x : SimEvent) (o : Option SimEvent)
    → P x
    → ((y : SimEvent) → o ≡ some y → P y)
    → P (choose x o)
choose-All P x none p k = p
choose-All P x (some y) p k = if-both P (is_greater (cmp y x)) y x (λ e. k y refl) (λ e. p)

pub list_peek-All :
    (P : SimEvent → Type 0) (xs : List SimEvent) (e : SimEvent)
    → list_peek xs ≡ some e
    → All P xs
    → P e
list_peek-All P [] e at h = cc
list_peek-All P (x ∷ xs) e at h =
    subst P (some_injective at)
      (choose-All P x (list_peek xs) h.0 (λ y at'. list_peek-All P xs y at' h.1))

take_out-All :
    (P : SimEvent → Type 0) (x : SimEvent) (xs : List SimEvent)
    (p : Option SimEvent × List SimEvent)
    → P x
    → All P xs
    → All P p.1
    → All P (take_out x xs p).1
take_out-All P x xs (none, rest) h k l = k
take_out-All P x xs (some y, rest) h k l =
    if-both (λ (r : Option SimEvent × List SimEvent). All P r.1) (is_greater (cmp y x)) _ _
      (λ e. (h, l)) (λ e. k)

pub list_pop-All : (P : SimEvent → Type 0) (xs : List SimEvent) → All P xs → All P (list_pop xs).1
list_pop-All P [] h = tt
list_pop-All P (x ∷ xs) h = take_out-All P x xs (list_pop xs) h.0 h.1 (list_pop-All P xs h.1)

instance abbrev pub list_heap : Heap (List SimEvent)
list_heap = record {
  contents = λ xs. xs;
  empty = [];
  len = length;
  push = λ xs x. x ∷ xs;
  peek = list_peek;
  pop = list_pop;
  len_contents = λ xs. refl;
  peek_none = list_peek-none;
  peek_greatest = list_peek-NoneGreater;
  pop_peek = list_pop-list_peek;
  pop_len = length-list_pop;
  push_len = λ xs x. refl;
  empty_all = λ P. tt;
  peek_all = list_peek-All;
  push_all = λ P xs x p h. (p, h);
  pop_all = list_pop-All;
}

-- One base packet, and one packet to send.
abbrev pub sent_at : ℕ → TriggerEvent → SimEvent
sent_at time event = record {
  event = event;
  time = time;
  integration_delay = 0;
  client = true;
  contains_padding = false;
  bypass = false;
  replace = false;
  propagate_base_delay = none;
}

abbrev pub two_packets : EventQueue (List SimEvent)
two_packets = record {
  base = sent_at 5 TriggerEvent.normal_sent ∷ [];
  blocking = sent_at 7 TriggerEvent.tunnel_sent ∷ [];
  bypassable = [];
  internal = [];
}

peek_queue-IsEarliest_example : Returns (IsEarliest two_packets 3 0) (peek_queue two_packets 3 0)
peek_queue-IsEarliest_example = peek_queue-IsEarliest two_packets 3 0 (omega arith)

pop-peek_queue_example :
    Returns
      (λ r.
        (e : SimEvent) × (r.0 ≡ some e)
        × Returns (IsPopped two_packets r.1 e (delay_in r.1 3)) (pop_queue two_packets r.1 3))
      (peek_queue two_packets 3 0)
pop-peek_queue_example = pop-peek_queue two_packets 3 0 (omega arith)

peek_scheduled_internal_timer-IsSoonest_example :
    IsSoonest 5
      (some 3 ∷ some 9 ∷ [])
      (none ∷ [])
      (peek_scheduled_internal_timer (some 3 ∷ some 9 ∷ []) (none ∷ []) 5)
peek_scheduled_internal_timer-IsSoonest_example =
    peek_scheduled_internal_timer-IsSoonest (some 3 ∷ some 9 ∷ []) (none ∷ []) 5

abbrev planned : ScheduledAction
planned = record { action = TriggerAction.cancel 0 Timer.all; time = 8 }

peek_scheduled_action-IsSoonest_example :
    IsSoonest 5
      (times (some planned ∷ []))
      (times [])
      (peek_scheduled_action (some planned ∷ []) [] 5)
peek_scheduled_action-IsSoonest_example = peek_scheduled_action-IsSoonest (some planned ∷ []) [] 5

abbrev pub two_sides : SimQueue (List SimEvent)
two_sides = record { client = two_packets; server = new_queue; max_pps = none }

peek_sim-IsFirstOfBoth_example : Returns (IsFirstOfBoth two_sides 3 0) (peek_sim two_sides 3 0)
peek_sim-IsFirstOfBoth_example = peek_sim-IsFirstOfBoth two_sides 3 0 (omega arith)

-- ===== src/State/RoundTrip.antt =====
-- crates/maybenot/src/state.rs: `get_transitions` reads back what `new` was given.
use maybenot.Prelude.{
  ℕ, suc, ◌≡◌, refl, ◌∙◌, sym, ap, not, Option, none, some, List, [], ◌∷◌, map, set, length, ◌++◌,
  replicate, Bool-cases, inl, inr, ◌⊎◌, arith, if◌then◌else◌, ◌==◌,
}
use maybenot.Event.{Event, events, to_usize}
use maybenot.Event.Order.{to_usize_injective}
use maybenot.State.{Trans, is_empty, fill_slots, new, assign, read_slots, get_transitions}

-- The slot of an event.
abbrev slot_of : List Trans → Option (List Trans)
slot_of [] = none
slot_of (t ∷ rest) = some (t ∷ rest)

-- Writing the vector of an event into an empty slot, unless the vector is empty.
fill_one :
    (slots : List (Option (List Trans))) (i : ℕ) (v : List Trans)
    → set slots i none ≡ slots
    → (if not (is_empty v) then set slots i (some v) else slots) ≡ set slots i (slot_of v)
fill_one slots i [] h = sym h
fill_one slots i (t ∷ rest) h = refl

-- The events are numbered from `k` on.
abbrev Numbered : ℕ → List Event → Type 0
Numbered k [] = Unit
Numbered k (e ∷ rest) = (to_usize e ≡ k) × Numbered (suc k) rest

abbrev slots_of : (Event → List Trans) → List Event → List (Option (List Trans))
slots_of t es = map (λ e. slot_of (t e)) es

set-length_append :
    (done : List (Option (List Trans))) (x y : Option (List Trans))
    (rest : List (Option (List Trans)))
    → set (done ++ x ∷ rest) (length done) y ≡ done ++ y ∷ rest
set-length_append [] x y rest = refl
set-length_append (d ∷ done) x y rest = ap (λ xs. d ∷ xs) (set-length_append done x y rest)

append_one :
    (done : List (Option (List Trans))) (x : Option (List Trans))
    (rest : List (Option (List Trans)))
    → (done ++ x ∷ []) ++ rest ≡ done ++ x ∷ rest
append_one [] x rest = refl
append_one (d ∷ done) x rest = ap (λ xs. d ∷ xs) (append_one done x rest)

length-append_one :
    (done : List (Option (List Trans))) (x : Option (List Trans))
    → length (done ++ x ∷ []) ≡ suc (length done)
length-append_one [] x = refl
length-append_one (d ∷ done) x = ap suc (length-append_one done x)

fill_slots-append :
    (t : Event → List Trans) (es : List Event) (done : List (Option (List Trans)))
    → Numbered (length done) es
    → fill_slots t es (done ++ replicate (length es) none) ≡ done ++ slots_of t es
unfolding fill_slots
fill_slots-append t [] done h = refl
fill_slots-append t (e ∷ rest) done h =
    let empty = replicate (length rest) none in
    let put : (y : Option (List Trans))
        → set (done ++ none ∷ empty) (to_usize e) y ≡ done ++ y ∷ empty =
      λ y. rw h.0 (set-length_append done none y empty) in
    let s = slot_of (t e) in
    ap (fill_slots t rest) (
      fill_one (done ++ none ∷ empty) (to_usize e) (t e) (put none)
      ∙ put s
      ∙ sym (append_one done s empty))
    ∙ fill_slots-append t rest (done ++ s ∷ []) (rw (length-append_one done s) h.1)
    ∙ append_one done s (slots_of t rest)

-- `new` gives each event its slot.
pub new_slots : (t : Event → List Trans) → (new t).transitions ≡ slots_of t events
unfolding new to_usize
new_slots t = fill_slots-append t events [] (
  refl,
  (
    refl,
    (refl, (refl, (refl, (refl, (refl, (refl, (refl, (refl, (refl, (refl, (refl, tt))))))))))),
  ),
)

abbrev Occurs : Event → List Event → Type 0
Occurs e [] = ⊥
Occurs e (x ∷ rest) = (e ≡ x) ⊎ Occurs e rest

events_all : (e : Event) → Occurs e events
events_all Event.normal_recv = inl refl
events_all Event.padding_recv = inr (inl refl)
events_all Event.tunnel_recv = inr (inr (inl refl))
events_all Event.normal_sent = inr (inr (inr (inl refl)))
events_all Event.padding_sent = inr (inr (inr (inr (inl refl))))
events_all Event.tunnel_sent = inr (inr (inr (inr (inr (inl refl)))))
events_all Event.blocking_begin = inr (inr (inr (inr (inr (inr (inl refl))))))
events_all Event.blocking_end = inr (inr (inr (inr (inr (inr (inr (inl refl)))))))
events_all Event.limit_reached = inr (inr (inr (inr (inr (inr (inr (inr (inl refl))))))))
events_all Event.counter_zero = inr (inr (inr (inr (inr (inr (inr (inr (inr (inl refl)))))))))
events_all Event.timer_begin = inr (inr (inr (inr (inr (inr (inr (inr (inr (inr (inl refl))))))))))
events_all Event.timer_end =
    inr (inr (inr (inr (inr (inr (inr (inr (inr (inr (inr (inl refl)))))))))))
events_all Event.signal =
    inr (inr (inr (inr (inr (inr (inr (inr (inr (inr (inr (inr (inl refl))))))))))))

-- The map holds the event's vector, or nothing yet, with the event still to come.
abbrev Filled : (Event → List Trans) → List Event → (Event → List Trans) → Type 0
Filled t es m = (e : Event) → (m e ≡ t e) ⊎ ((m e ≡ []) × Occurs e es)

skip-Filled :
    (t : Event → List Trans) (e : Event) (rest : List Event) (m : Event → List Trans)
    → t e ≡ []
    → Filled t (e ∷ rest) m
    → Filled t rest m
skip-Filled t e rest m empty h x = elim (h x) [
  | inl same ↦ inl same
  | inr (none_yet, inl here) ↦ inl (none_yet ∙ sym (ap t here ∙ empty))
  | inr (none_yet, inr later) ↦ inr (none_yet, later)
]

assign-Filled :
    (t : Event → List Trans) (e : Event) (rest : List Event) (m : Event → List Trans)
    {v : List Trans}
    → t e ≡ v
    → Filled t (e ∷ rest) m
    → Filled t rest (assign m e v)
unfolding assign
assign-Filled t e rest m {v} full h x = elim (Bool-cases (to_usize x == to_usize e)) [
  | inl same ↦ rw same (inl (sym (ap t (to_usize_injective x e (ground arith)) ∙ full)))
  | inr other ↦ rw other (elim (h x) [
    | inl same ↦ inl same
    | inr (none_yet, inl here) ↦
        let number : to_usize x ≡ to_usize e = ap to_usize here in absurd (ground arith)
    | inr (none_yet, inr later) ↦ inr (none_yet, later)
  ])
]

read_slots-Filled :
    (t : Event → List Trans) (es : List Event) (m : Event → List Trans)
    → Filled t es m
    → (e : Event) → read_slots es (slots_of t es) m e ≡ t e
unfolding read_slots
read_slots-Filled t [] m h e = elim (h e) [ inl same ↦ same | inr (_, never) ↦ absurd never ]
read_slots-Filled t (x ∷ rest) m h e = elim (cases_of (t x)) [
  | inl empty ↦ rw empty (read_slots-Filled t rest m (skip-Filled t x rest m empty h) e)
  | inr (v, vs, full) ↦
      rw full (read_slots-Filled t rest (assign m x (v ∷ vs)) (assign-Filled t x rest m full h) e)
]
  where
    cases_of : (v : List Trans) → (v ≡ []) ⊎ ((a : Trans) × (as' : List Trans) × (v ≡ a ∷ as'))
    cases_of [] = inl refl
    cases_of (a ∷ as') = inr (a, as', refl)

-- A state made by `new` gives back by `get_transitions` exactly the vectors it was made of, for every
-- event; an event without transitions has the empty vector.
pub get_transitions-new : (t : Event → List Trans) (e : Event) → get_transitions (new t) e ≡ t e
unfolding get_transitions
get_transitions-new t e =
    ap (λ slots. read_slots events slots (λ _. []) e) (new_slots t)
    ∙ read_slots-Filled t events (λ _. []) (λ x. inr (refl, events_all x)) e

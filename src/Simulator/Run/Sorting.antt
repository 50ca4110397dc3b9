-- ===== src/Simulator/Run/Sorting.antt =====
-- crates/maybenot-simulator/src/lib.rs: the trace is sorted by time at the end.
use maybenot.Prelude.{suc, ◌≤◌, ◌≡◌, refl, ap, ◌∙◌, List, [], ◌∷◌, All, length, ltb, if-both, arith}
use maybenot.Simulator.Event.{SimEvent}
use maybenot.Simulator.Queue.Leads.{All-mono}
use maybenot.Simulator.Run.{insert_by_time, sort_by_time}

-- No event is before an event that it follows.
abbrev pub IsSorted : List SimEvent → Type 0
IsSorted [] = Unit
IsSorted (e ∷ rest) = All (λ x. e.time ≤ x.time) rest × IsSorted rest

pub All-insert_by_time :
    (P : SimEvent → Type 0) (e : SimEvent) (xs : List SimEvent)
    → P e
    → All P xs
    → All P (insert_by_time e xs)
unfolding insert_by_time
All-insert_by_time P e [] h k = (h, tt)
All-insert_by_time P e (x ∷ rest) h k =
    if-both (All P) (ltb x.time e.time) _ _ (λ b. (k.0, All-insert_by_time P e rest h k.1))
      (λ b. (h, (k.0, k.1)))

insert_by_time-IsSorted :
    (e : SimEvent) (xs : List SimEvent) → IsSorted xs → IsSorted (insert_by_time e xs)
unfolding insert_by_time
insert_by_time-IsSorted e [] h = (tt, tt)
insert_by_time-IsSorted e (x ∷ rest) h =
    if-both IsSorted (ltb x.time e.time) _ _
      (λ b. (
        All-insert_by_time (λ y. x.time ≤ y.time) e rest (ground arith) h.0,
        insert_by_time-IsSorted e rest h.1,
      ))
      (λ b.
        let le : e.time ≤ x.time = ground arith in
        (
          (
            le,
            All-mono (λ y. x.time ≤ y.time) (λ y. e.time ≤ y.time) rest
                (λ y k. omega (arith, le, k)) h.0,
          ),
          (h.0, h.1),
        ))

pub sort_by_time-IsSorted : (xs : List SimEvent) → IsSorted (sort_by_time xs)
unfolding sort_by_time
sort_by_time-IsSorted [] = tt
sort_by_time-IsSorted (e ∷ rest) =
    insert_by_time-IsSorted e (sort_by_time rest) (sort_by_time-IsSorted rest)

pub All-sort_by_time :
    (P : SimEvent → Type 0) (xs : List SimEvent) → All P xs → All P (sort_by_time xs)
unfolding sort_by_time
All-sort_by_time P [] h = tt
All-sort_by_time P (e ∷ rest) h =
    All-insert_by_time P e (sort_by_time rest) h.0 (All-sort_by_time P rest h.1)

length-insert_by_time :
    (e : SimEvent) (xs : List SimEvent) → length (insert_by_time e xs) ≡ suc (length xs)
unfolding insert_by_time
length-insert_by_time e [] = refl
length-insert_by_time e (x ∷ rest) =
    if-both (λ (ys : List SimEvent). length ys ≡ suc (length (x ∷ rest))) (ltb x.time e.time) _ _
      (λ b. ap suc (length-insert_by_time e rest)) (λ b. refl)

pub length-sort_by_time : (xs : List SimEvent) → length (sort_by_time xs) ≡ length xs
unfolding sort_by_time
length-sort_by_time [] = refl
length-sort_by_time (e ∷ rest) =
    length-insert_by_time e (sort_by_time rest) ∙ ap suc (length-sort_by_time rest)

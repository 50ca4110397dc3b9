-- ===== src/Simulator/Network/Window.antt =====
-- crates/maybenot-simulator/src/network.rs: what a `WindowCount` counts.
use maybenot.Prelude.{
  ℕ, ◌-◌, ◌≤◌, ◌≡◌, refl, sym, ap, subst, ◌∙◌, inl, inr, true, List, [], ◌∷◌, ◌++◌, All, length,
  ltb, if◌then◌else◌, Bool-cases, arith,
}
use mathlib.Core.List.{append_assoc, append-nil}
use maybenot.Simulator.Network.{WindowCount, new_window, prune, add}

-- The times that are not longer ago than the window.
unfoldable pub recent : ℕ → ℕ → List ℕ → List ℕ
recent now window [] = []
recent now window (t ∷ rest) =
    let later = recent now window rest in if ltb window (now - t) then later else t ∷ later

abbrev pub Ascending : List ℕ → Type 0
Ascending [] = Unit
Ascending (t ∷ rest) = All (λ u. t ≤ u) rest × Ascending rest

-- From a recent time on, all are recent.
recent-all :
    (now window t : ℕ) (xs : List ℕ)
    → now - t ≤ window
    → All (λ u. t ≤ u) xs
    → recent now window xs ≡ xs
unfolding recent
recent-all now window t [] h k = refl
recent-all now window t (x ∷ xs) h k = elim (Bool-cases (ltb window (now - x))) [
  | inl e ↦ absurd (ground (arith, k.0))
  | inr e ↦ rw e (ap (λ ys. x ∷ ys) (recent-all now window t xs h k.1))
]

pub prune-recent :
    (now window : ℕ) (xs : List ℕ) → Ascending xs → prune now window xs ≡ recent now window xs
unfolding prune recent
prune-recent now window [] h = refl
prune-recent now window (x ∷ xs) h = elim (Bool-cases (ltb window (now - x))) [
  | inl e ↦ rw e (prune-recent now window xs h.1)
  | inr e ↦ rw e (ap (λ ys. x ∷ ys) (sym (recent-all now window x xs (ground arith) h.0)))
]

recent-append :
    (now window : ℕ) (xs ys : List ℕ)
    → recent now window (xs ++ ys) ≡ recent now window xs ++ recent now window ys
unfolding recent
recent-append now window [] ys = refl
recent-append now window (x ∷ xs) ys = elim (Bool-cases (ltb window (now - x))) [
  | inl e ↦ rw e (recent-append now window xs ys)
  | inr e ↦ rw e (ap (λ zs. x ∷ zs) (recent-append now window xs ys))
]

-- What is not recent now is not recent later.
recent-recent :
    (now later window : ℕ) (xs : List ℕ)
    → now ≤ later
    → recent later window (recent now window xs) ≡ recent later window xs
unfolding recent
recent-recent now later window [] h = refl
recent-recent now later window (x ∷ xs) h = elim (Bool-cases (ltb window (now - x))) [
  | inl e ↦
      let old : ltb window (later - x) ≡ true = ground arith in
      rw (e, old) (recent-recent now later window xs h)
  | inr e ↦ rw e (elim (Bool-cases (ltb window (later - x))) [
    | inl f ↦ rw f (recent-recent now later window xs h)
    | inr f ↦ rw f (ap (λ ys. x ∷ ys) (recent-recent now later window xs h))
  ])
]

All-recent :
    (t now window : ℕ) (xs : List ℕ) → All (λ u. t ≤ u) xs → All (λ u. t ≤ u) (recent now window xs)
unfolding recent
All-recent t now window [] h = tt
All-recent t now window (x ∷ xs) h = elim (Bool-cases (ltb window (now - x))) [
  | inl e ↦ rw e (All-recent t now window xs h.1)
  | inr e ↦ rw e (h.0, All-recent t now window xs h.1)
]

-- A history whose last time is `now` or before it.
abbrev pub UpTo : ℕ → List ℕ → Type 0
UpTo now xs = All (λ t. t ≤ now) xs

All-snoc : (t u : ℕ) (xs : List ℕ) → t ≤ u → All (λ x. t ≤ x) xs → All (λ x. t ≤ x) (xs ++ u ∷ [])
All-snoc t u [] h k = (h, tt)
All-snoc t u (x ∷ xs) h k = (k.0, All-snoc t u xs h k.1)

Ascending-recent :
    (now window later : ℕ) (xs : List ℕ)
    → Ascending xs
    → UpTo later xs
    → Ascending (recent now window xs ++ later ∷ [])
unfolding recent
Ascending-recent now window later [] h k = (tt, tt)
Ascending-recent now window later (x ∷ xs) h k = elim (Bool-cases (ltb window (now - x))) [
  | inl e ↦ rw e (Ascending-recent now window later xs h.1 k.1)
  | inr e ↦ rw e (
    All-snoc x later (recent now window xs) k.0 (All-recent x now window xs h.0),
    Ascending-recent now window later xs h.1 k.1,
  )
]

-- The times of a history, in their order.
unfoldable pub add_all : WindowCount → List ℕ → WindowCount
add_all w [] = w
add_all w (t ∷ rest) = add_all (add w t).1 rest

-- The window after a history: it holds the recent ones of all the times.
record Holds (w : WindowCount) (window now : ℕ) (history : List ℕ) : Type 0 where
  size : w.window ≡ window
  times : w.timestamps ≡ recent now window history
  ascending : Ascending history
  up_to : UpTo now history

UpTo-snoc :
    (now later : ℕ) (xs : List ℕ) → now ≤ later → UpTo now xs → UpTo later (xs ++ later ∷ [])
UpTo-snoc now later [] h k = (omega arith, tt)
UpTo-snoc now later (x ∷ xs) h k = (omega (arith, k.0, h), UpTo-snoc now later xs h k.1)

UpTo-later : (now later : ℕ) (xs : List ℕ) → now ≤ later → UpTo now xs → UpTo later xs
UpTo-later now later [] h k = tt
UpTo-later now later (x ∷ xs) h k = (omega (arith, k.0, h), UpTo-later now later xs h k.1)

Ascending-snoc :
    (later : ℕ) (xs : List ℕ) → Ascending xs → UpTo later xs → Ascending (xs ++ later ∷ [])
Ascending-snoc later [] h k = (tt, tt)
Ascending-snoc later (x ∷ xs) h k = (All-snoc x later xs k.0 h.0, Ascending-snoc later xs h.1 k.1)

kept-recent :
    (w : WindowCount) (window now later : ℕ) (history : List ℕ)
    → Holds w window now history
    → now ≤ later
    → prune later w.window (w.timestamps ++ later ∷ [])
      ≡ recent later window (history ++ later ∷ [])
kept-recent w window now later history h le =
    let up : UpTo later history = UpTo-later now later history le h.up_to in
    rw (h.size, h.times)
      (prune-recent later window (recent now window history ++ later ∷ [])
          (Ascending-recent now window later history h.ascending up)
        ∙ recent-append later window (recent now window history) (later ∷ [])
        ∙ ap (λ ys. ys ++ recent later window (later ∷ []))
            (recent-recent now later window history le)
        ∙ sym (recent-append later window history (later ∷ [])))

add-Holds :
    (w : WindowCount) (window now later : ℕ) (history : List ℕ)
    → Holds w window now history
    → now ≤ later
    → Holds (add w later).1 window later (history ++ later ∷ [])
unfolding add
add-Holds w window now later history h le = record {
  size = h.size;
  times = kept-recent w window now later history h le;
  ascending = Ascending-snoc later history h.ascending (UpTo-later now later history le h.up_to);
  up_to = UpTo-snoc now later history le h.up_to;
}

-- The last time of the history is not after a time that none of them is after.
abbrev IsLast : ℕ → ℕ → List ℕ → Type 0
IsLast last now times = (later : ℕ) → now ≤ later → UpTo later times → last ≤ later

add_all-Holds :
    (w : WindowCount) (window now : ℕ) (history times : List ℕ)
    → Holds w window now history
    → All (λ t. now ≤ t) times
    → Ascending times
    → (last : ℕ) × Holds (add_all w times) window last (history ++ times) × IsLast last now times
unfolding add_all
add_all-Holds w window now history [] h from asc = (now, rw append-nil h, (λ later le up. le))
add_all-Holds w window now history (t ∷ rest) h from asc =
    let (last, held, is_last) =
      add_all-Holds (add w t).1 window t (history ++ t ∷ []) rest
        (add-Holds w window now t history h from.0) asc.0 asc.1 in
    (
      last,
      subst (λ ys. Holds (add_all (add w t).1 rest) window last ys)
          (append_assoc history (t ∷ []) rest) held,
      (λ later le up. is_last later up.0 up.1),
    )

All-zero : (xs : List ℕ) → All (λ t. 0 ≤ t) xs
All-zero [] = tt
All-zero (x ∷ xs) = (omega arith, All-zero xs)

-- A window to which the times of a history were added in ascending order, the last of them `now`,
-- counts and keeps exactly the times of the whole history that are not longer ago than the window.
pub add_all-recent :
    (window now : ℕ) (times : List ℕ)
    → Ascending times
    → UpTo now times
    → ((add (add_all (new_window window) times) now).1.timestamps
        ≡ recent now window (times ++ now ∷ []))
      × ((add (add_all (new_window window) times) now).0
          ≡ length (recent now window (times ++ now ∷ [])))
unfolding add recent
add_all-recent window now times asc up =
    let start : Holds (new_window window) window 0 [] = record {
      size = refl;
      times = refl;
      ascending = tt;
      up_to = tt;
    } in
    let (last, held, is_last) =
      add_all-Holds (new_window window) window 0 [] times start (All-zero times) asc in
    let w = add_all (new_window window) times in
    let kept : prune now w.window (w.timestamps ++ now ∷ [])
        ≡ recent now window (times ++ now ∷ []) =
      kept-recent w window last now times held (is_last now (omega arith) up) in
    (kept, ap length kept)

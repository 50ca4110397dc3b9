-- ===== src/Simulator/Pick/Order.antt =====
-- crates/maybenot-simulator/src/lib.rs: what `pick_next` finds earliest is there.
use maybenot.Prelude.{
  ℕ, ◌≤◌, ◌<◌, ◌≡◌, ◌≢◌, ◌⊎◌, inl, inr, refl, true, false, ◌&&◌, leb, ◌==◌, if◌then◌else◌, if-both,
  arith,
}
use maybenot.Time.{duration_max}
use maybenot.Simulator.Pick.{Earliest, earliest_of}

-- Each of the peeks is the greatest duration at most.
pub record AreDurations (s i b n q : ℕ) : Type 0 where
  pub action : s ≤ duration_max
  pub timer : i ≤ duration_max
  pub blocking_end : b ≤ duration_max
  pub delay : n ≤ duration_max
  pub queue : q ≤ duration_max

-- The peek of the kind that was chosen.
abbrev pub peek_of : Earliest → ℕ → ℕ → ℕ → ℕ → ℕ → ℕ
peek_of Earliest.nothing s i b n q = 0
peek_of Earliest.aggregate s i b n q = n
peek_of Earliest.queued s i b n q = q
peek_of Earliest.blocking_end s i b n q = b
peek_of Earliest.timer s i b n q = i
peek_of Earliest.action s i b n q = s

-- The kind that is chosen has something, for its peek is less than the greatest duration.
pub earliest_of-lt :
    (s i b n q : ℕ)
    → AreDurations s i b n q
    → peek_of (earliest_of s i b n q) s i b n q < duration_max
unfolding earliest_of
earliest_of-lt s i b n q h = ground arith

-- The place of a kind among those that are equally soon.
abbrev pub place : Earliest → ℕ
place Earliest.nothing = 0
place Earliest.aggregate = 1
place Earliest.queued = 2
place Earliest.blocking_end = 3
place Earliest.timer = 4
place Earliest.action = 5

le_cases : (t u x y : ℕ) → t ≤ u → x ≤ y → (t < u) ⊎ ((t ≡ u) × (x ≤ y))
le_cases t u x y h k = ground arith

-- What the tests say of the peek of the kind that passes.
all_four :
    (n s i b q : ℕ)
    → (leb n s && leb n i && leb n b && leb n q) ≡ true
    → (n ≤ s) × (n ≤ i) × (n ≤ b) × (n ≤ q)
all_four n s i b q h = (ground arith, ground arith, ground arith, ground arith)

all_three : (q s i b : ℕ) → (leb q s && leb q i && leb q b) ≡ true → (q ≤ s) × (q ≤ i) × (q ≤ b)
all_three q s i b h = (ground arith, ground arith, ground arith)

both : (b s i : ℕ) → (leb b s && leb b i) ≡ true → (b ≤ s) × (b ≤ i)
both b s i h = (ground arith, ground arith)

-- And of a kind that fails, against a time that is as soon as the others.
not_four :
    (n s i b q t : ℕ)
    → (leb n s && leb n i && leb n b && leb n q) ≡ false
    → t ≤ s
    → t ≤ i
    → t ≤ b
    → t ≤ q
    → t < n
not_four n s i b q t h hs hi hb hq = ground arith

not_three :
    (q s i b t : ℕ) → (leb q s && leb q i && leb q b) ≡ false → t ≤ s → t ≤ i → t ≤ b → t < q
not_three q s i b t h hs hi hb = ground arith

not_both : (b s i t : ℕ) → (leb b s && leb b i) ≡ false → t ≤ s → t ≤ i → t < b
not_both b s i t h hs hi = ground arith

one : (i s : ℕ) → leb i s ≡ true → i ≤ s
one i s h = ground arith

not_one : (i s : ℕ) → leb i s ≡ false → s < i
not_one i s h = ground arith

lt→le : (t u : ℕ) → t < u → t ≤ u
lt→le t u h = omega arith

-- A kind comes before another or is it.
abbrev pub Ahead : ℕ → ℕ → ℕ → ℕ → ℕ → Earliest → Earliest → Type 0
Ahead s i b n q other chosen =
    (peek_of chosen s i b n q < peek_of other s i b n q)
    ⊎ ((peek_of chosen s i b n q ≡ peek_of other s i b n q) × (place chosen ≤ place other))

-- As soon as those that come later, and sooner than those that come before.
aggregate-Ahead :
    (s i b n q : ℕ) (other : Earliest)
    → (n ≤ s) × (n ≤ i) × (n ≤ b) × (n ≤ q)
    → other ≢ Earliest.nothing
    → Ahead s i b n q other Earliest.aggregate
aggregate-Ahead s i b n q Earliest.nothing h k = absurd (k refl)
aggregate-Ahead s i b n q Earliest.aggregate h k = inr (refl, omega arith)
aggregate-Ahead s i b n q Earliest.queued h k = le_cases n q 1 2 h.3 (omega arith)
aggregate-Ahead s i b n q Earliest.blocking_end h k = le_cases n b 1 3 h.2 (omega arith)
aggregate-Ahead s i b n q Earliest.timer h k = le_cases n i 1 4 h.1 (omega arith)
aggregate-Ahead s i b n q Earliest.action h k = le_cases n s 1 5 h.0 (omega arith)

queued-Ahead :
    (s i b n q : ℕ) (other : Earliest)
    → (q < n) × (q ≤ s) × (q ≤ i) × (q ≤ b)
    → other ≢ Earliest.nothing
    → Ahead s i b n q other Earliest.queued
queued-Ahead s i b n q Earliest.nothing h k = absurd (k refl)
queued-Ahead s i b n q Earliest.aggregate h k = inl h.0
queued-Ahead s i b n q Earliest.queued h k = inr (refl, omega arith)
queued-Ahead s i b n q Earliest.blocking_end h k = le_cases q b 2 3 h.3 (omega arith)
queued-Ahead s i b n q Earliest.timer h k = le_cases q i 2 4 h.2 (omega arith)
queued-Ahead s i b n q Earliest.action h k = le_cases q s 2 5 h.1 (omega arith)

blocking_end-Ahead :
    (s i b n q : ℕ) (other : Earliest)
    → (b < n) × (b < q) × (b ≤ s) × (b ≤ i)
    → other ≢ Earliest.nothing
    → Ahead s i b n q other Earliest.blocking_end
blocking_end-Ahead s i b n q Earliest.nothing h k = absurd (k refl)
blocking_end-Ahead s i b n q Earliest.aggregate h k = inl h.0
blocking_end-Ahead s i b n q Earliest.queued h k = inl h.1
blocking_end-Ahead s i b n q Earliest.blocking_end h k = inr (refl, omega arith)
blocking_end-Ahead s i b n q Earliest.timer h k = le_cases b i 3 4 h.3 (omega arith)
blocking_end-Ahead s i b n q Earliest.action h k = le_cases b s 3 5 h.2 (omega arith)

timer-Ahead :
    (s i b n q : ℕ) (other : Earliest)
    → (i < n) × (i < q) × (i < b) × (i ≤ s)
    → other ≢ Earliest.nothing
    → Ahead s i b n q other Earliest.timer
timer-Ahead s i b n q Earliest.nothing h k = absurd (k refl)
timer-Ahead s i b n q Earliest.aggregate h k = inl h.0
timer-Ahead s i b n q Earliest.queued h k = inl h.1
timer-Ahead s i b n q Earliest.blocking_end h k = inl h.2
timer-Ahead s i b n q Earliest.timer h k = inr (refl, omega arith)
timer-Ahead s i b n q Earliest.action h k = le_cases i s 4 5 h.3 (omega arith)

action-Ahead :
    (s i b n q : ℕ) (other : Earliest)
    → (s < n) × (s < q) × (s < b) × (s < i)
    → other ≢ Earliest.nothing
    → Ahead s i b n q other Earliest.action
action-Ahead s i b n q Earliest.nothing h k = absurd (k refl)
action-Ahead s i b n q Earliest.aggregate h k = inl h.0
action-Ahead s i b n q Earliest.queued h k = inl h.1
action-Ahead s i b n q Earliest.blocking_end h k = inl h.2
action-Ahead s i b n q Earliest.timer h k = inl h.3
action-Ahead s i b n q Earliest.action h k = inr (refl, omega arith)

-- The three last tests, after the first two failed.
last_tests :
    (s i b n q : ℕ) (other : Earliest)
    → (leb n s && leb n i && leb n b && leb n q) ≡ false
    → (leb q s && leb q i && leb q b) ≡ false
    → other ≢ Earliest.nothing
    → Ahead s i b n q other (
        if leb b s && leb b i
        then Earliest.blocking_end
        else (if leb i s then Earliest.timer else Earliest.action))
last_tests s i b n q other e1 e2 k =
    if-both (Ahead s i b n q other) (leb b s && leb b i) _ _
      (λ e3.
        let h = both b s i e3 in
        let before_q = not_three q s i b b e2 h.0 h.1 (omega arith) in
        let before_n = not_four n s i b q b e1 h.0 h.1 (omega arith) (lt→le b q before_q) in
        blocking_end-Ahead s i b n q other (before_n, before_q, h.0, h.1) k)
      (λ e3.
        if-both (Ahead s i b n q other) (leb i s) _ _
          (λ e4.
            let h = one i s e4 in
            let before_b = not_both b s i i e3 h (omega arith) in
            let before_q = not_three q s i b i e2 h (omega arith) (lt→le i b before_b) in
            let before_n =
              not_four n s i b q i e1 h (omega arith) (lt→le i b before_b) (lt→le i q before_q) in
            timer-Ahead s i b n q other (before_n, before_q, before_b, h) k)
          (λ e4.
            let h = not_one i s e4 in
            let before_b = not_both b s i s e3 (omega arith) (lt→le s i h) in
            let before_q =
              not_three q s i b s e2 (omega arith) (lt→le s i h) (lt→le s b before_b) in
            let before_n =
              not_four n s i b q s e1 (omega arith) (lt→le s i h) (lt→le s b before_b)
                (lt→le s q before_q) in
            action-Ahead s i b n q other (before_n, before_q, before_b, h) k))

-- What is chosen, if anything is, comes before or is each kind of the five: its peek is sooner, or it is
-- the same and its place is not later. So on equal times an aggregate delay goes first, then the queue,
-- the end of a blocking, an internal timer, an action.
pub earliest_of-least :
    (s i b n q : ℕ) (other : Earliest)
    → earliest_of s i b n q ≢ Earliest.nothing
    → other ≢ Earliest.nothing
    → let chosen = earliest_of s i b n q in
      (peek_of chosen s i b n q < peek_of other s i b n q)
      ⊎ ((peek_of chosen s i b n q ≡ peek_of other s i b n q) × (place chosen ≤ place other))
unfolding earliest_of
earliest_of-least s i b n q other h k =
    if-both (λ c. c ≢ Earliest.nothing → Ahead s i b n q other c)
      (s == duration_max
        && i == duration_max
        && b == duration_max
        && n == duration_max
        && q == duration_max)
      _ _ (λ e some_kind. absurd (some_kind refl))
      (λ e some_kind.
        if-both (Ahead s i b n q other) (leb n s && leb n i && leb n b && leb n q) _ _
          (λ e1. aggregate-Ahead s i b n q other (all_four n s i b q e1) k)
          (λ e1.
            if-both (Ahead s i b n q other) (leb q s && leb q i && leb q b) _ _
              (λ e2.
                let h2 = all_three q s i b e2 in
                let before_n = not_four n s i b q q e1 h2.0 h2.1 h2.2 (omega arith) in
                queued-Ahead s i b n q other (before_n, h2.0, h2.1, h2.2) k)
              (λ e2. last_tests s i b n q other e1 e2 k)))
      h

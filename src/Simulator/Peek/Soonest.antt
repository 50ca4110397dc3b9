-- ===== src/Simulator/Peek/Soonest.antt =====
-- crates/maybenot-simulator/src/peek.rs: what the peeks find is the soonest.
use maybenot.Prelude.{
  ℕ, ◌-◌, ◌≤◌, ◌≡◌, refl, sym, ap, subst, ◌∙◌, ◌⊎◌, inl, inr, ◌&&◌, Option, none, some, List, [],
  ◌∷◌, All, ltb, leb, Bool-cases, arith,
}
use maybenot.Time.{duration_max}
use maybenot.Simulator.Peek.{
  ScheduledAction, earlier_of, earliest_action, peek_scheduled_action, earliest_timer,
  peek_scheduled_internal_timer,
}

-- A time that is not past is not sooner than in `d`.
abbrev pub NotSooner : ℕ → ℕ → Option ℕ → Type 0
NotSooner now d none = Unit
NotSooner now d (some t) = now ≤ t → d ≤ t - now

-- One of the times is in `d` from now.
abbrev pub IsDue : ℕ → ℕ → List (Option ℕ) → Type 0
IsDue now d [] = ⊥
IsDue now d (none ∷ rest) = IsDue now d rest
IsDue now d (some t ∷ rest) = ((now ≤ t) × (t - now ≡ d)) ⊎ IsDue now d rest

NotSooner-mono :
    (now d d' : ℕ) (xs : List (Option ℕ))
    → d' ≤ d
    → All (NotSooner now d) xs
    → All (NotSooner now d') xs
NotSooner-mono now d d' [] h k = tt
NotSooner-mono now d d' (none ∷ rest) h k = (tt, NotSooner-mono now d d' rest h k.1)
NotSooner-mono now d d' (some t ∷ rest) h k =
    ((λ le. omega (arith, k.0 le, h)), NotSooner-mono now d d' rest h k.1)

-- The result of a loop that starts with `from`.
record IsLoopResult (now from d : ℕ) (xs : List (Option ℕ)) : Type 0 where
  below : d ≤ from
  not_sooner : All (NotSooner now d) xs
  reached : (d ≡ from) ⊎ IsDue now d xs

earliest_timer-IsLoopResult :
    (now from : ℕ) (xs : List (Option ℕ)) → IsLoopResult now from (earliest_timer now from xs) xs
unfolding earliest_timer
earliest_timer-IsLoopResult now from [] = record {
  below = omega arith;
  not_sooner = tt;
  reached = inl refl;
}
earliest_timer-IsLoopResult now from (none ∷ rest) =
    let r = earliest_timer-IsLoopResult now from rest in
    record { below = r.below; not_sooner = (tt, r.not_sooner); reached = r.reached }
earliest_timer-IsLoopResult now from (some t ∷ rest) =
    let r = earliest_timer-IsLoopResult now (earlier_of now from t) rest in
    let round : (earlier_of now from t ≤ from) × (now ≤ t → earlier_of now from t ≤ t - now) =
      (ground arith, λ le. ground arith) in
    record {
      below = omega (arith, r.below, round.0);
      not_sooner = ((λ le. omega (arith, r.below, round.1 le)), r.not_sooner);
      reached = elim r.reached [
        | inl e ↦ elim (Bool-cases (leb now t && ltb (t - now) from)) [
          | inl b ↦ inr (inl (ground arith, ground arith))
          | inr b ↦ inl (ground arith)
        ]
        | inr due ↦ inr (inr due)
      ];
    }

-- `d` is the time until the soonest of the times on both sides that are not past, or the greatest
-- duration if none is within it.
pub record IsSoonest (now : ℕ) (client server : List (Option ℕ)) (d : ℕ) : Type 0 where
  pub below : d ≤ duration_max
  pub client_not_sooner : All (NotSooner now d) client
  pub server_not_sooner : All (NotSooner now d) server
  pub reached : (d ≡ duration_max) ⊎ (IsDue now d client ⊎ IsDue now d server)

-- Over both sides, the internal timers' peek is the time until the soonest timer that is not past, or
-- the greatest duration if there is none within it: no timer that is not past is sooner, and one is
-- due then.
pub peek_scheduled_internal_timer-IsSoonest :
    (client server : List (Option ℕ)) (now : ℕ)
    → IsSoonest now client server (peek_scheduled_internal_timer client server now)
unfolding peek_scheduled_internal_timer
peek_scheduled_internal_timer-IsSoonest client server now =
    let first = earliest_timer now duration_max client in
    let a = earliest_timer-IsLoopResult now duration_max client in
    let b = earliest_timer-IsLoopResult now first server in
    record {
      below = omega (arith, a.below, b.below);
      client_not_sooner =
          NotSooner-mono now first (earliest_timer now first server) client b.below a.not_sooner;
      server_not_sooner = b.not_sooner;
      reached = elim b.reached [
        | inl e ↦ elim a.reached [
          | inl e' ↦ inl (e ∙ e')
          | inr due ↦ inr (inl (subst (λ d. IsDue now d client) (sym e) due))
        ]
        | inr due ↦ inr (inr due)
      ];
    }

-- The times of the scheduled actions.
abbrev pub times : List (Option ScheduledAction) → List (Option ℕ)
times [] = []
times (none ∷ rest) = none ∷ times rest
times (some a ∷ rest) = some a.time ∷ times rest

earliest_action-earliest_timer :
    (now from : ℕ) (xs : List (Option ScheduledAction))
    → earliest_action now from xs ≡ earliest_timer now from (times xs)
unfolding earliest_action earliest_timer
earliest_action-earliest_timer now from [] = refl
earliest_action-earliest_timer now from (none ∷ rest) = earliest_action-earliest_timer now from rest
earliest_action-earliest_timer now from (some a ∷ rest) =
    earliest_action-earliest_timer now (earlier_of now from a.time) rest

-- Over both sides, the scheduled actions' peek is the time until the soonest action that is not past,
-- or the greatest duration if there is none within it.
pub peek_scheduled_action-IsSoonest :
    (client server : List (Option ScheduledAction)) (now : ℕ)
    → IsSoonest now (times client) (times server) (peek_scheduled_action client server now)
unfolding peek_scheduled_action peek_scheduled_internal_timer
peek_scheduled_action-IsSoonest client server now =
    let same : peek_scheduled_internal_timer (times client) (times server) now
        ≡ peek_scheduled_action client server now =
      ap (λ d. earliest_timer now d (times server))
        (sym (earliest_action-earliest_timer now duration_max client))
      ∙ sym (earliest_action-earliest_timer now (earliest_action now duration_max client) server) in
    subst (IsSoonest now (times client) (times server)) same
      (peek_scheduled_internal_timer-IsSoonest (times client) (times server) now)

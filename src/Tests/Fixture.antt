-- ===== src/Tests/Fixture.antt =====
-- A floating-point unit and a generator for the tests, and machines for them to run.
use Prim.Native.Nat.{min, max, ◌/◌}
use maybenot.Prelude.{
  refl, inl, ok, Option, set, replicate, ◌<◌, ℕ, suc, ◌+◌, ◌*◌, ◌≤◌, ◌≡◌, true, false, none, some,
  List, [], ◌∷◌, ltb, leb, ◌==◌, arith,
}
use maybenot.Platform.{Floats, Rng, one32, zero64}
use maybenot.Constants.{state_end, u64_mod}
use maybenot.Dist.{DistType, Dist}
use maybenot.Action.{Action, Timer}
use maybenot.Counter.{Counter, Operation}
use maybenot.State.{State, Trans}
use maybenot.Machine.{Machine, validate}
use maybenot.Framework.Start.{Draws}
use maybenot.Dist
use maybenot.Action
use maybenot.Counter
use maybenot.State

abbrev day_cap : ℕ → ℕ
day_cap x = min x 86_400_000_000

pub flat_max_zero : (x : ℕ) → leb 0 (max 0 x) ≡ true
flat_max_zero x = ground arith

pub flat_min_zero : (x c : ℕ) → leb 0 x ≡ true → ltb 0 c ≡ true → leb 0 (min x c) ≡ true
flat_min_zero x c h k = ground arith

pub flat_min_le : (x c : ℕ) → ltb 0 c ≡ true → leb (min x c) c ≡ true
flat_min_le x c h = ground arith

pub flat_to_u64_mono : (x y : ℕ) → leb x y ≡ true → day_cap x ≤ day_cap y
flat_to_u64_mono x y h = ground arith

pub flat_to_u64_lt : (x : ℕ) → day_cap x < u64_mod
flat_to_u64_lt x = omega arith

-- A bit pattern stands for itself. The order of the positive floats is that of their bit patterns, so
-- the comparisons are the real ones.
instance abbrev pub flat : Floats
flat = record {
  lt64 = ltb;
  le64 = leb;
  eq64 = ◌==◌;
  add64 = ◌+◌;
  div64 = ◌/◌;
  mul64 = ◌*◌;
  min64 = min;
  max64 = max;
  round64 = λ x. x;
  to_u64 = day_cap;
  of_u64 = λ n. n;
  as_secs = λ n. n;
  to_f32 = λ x. x;
  lt32 = ltb;
  le32 = leb;
  add32 = ◌+◌;
  accepts = λ d. true;
  accepts_count = λ d. true;
  max_zero = flat_max_zero;
  min_zero = flat_min_zero;
  min_le = flat_min_le;
  round_mono = λ x y h. h;
  to_u64_mono = flat_to_u64_mono;
  to_u64_lt = flat_to_u64_lt;
  day_positive = refl;
  day_exact = refl;
}

-- Every draw is 0, and the state counts the draws.
instance abbrev pub counting : Rng ℕ
counting = record {
  draw = λ d n. (0, suc n);
  draw_count = λ d n. (0, suc n);
  gen_unit = λ n. (0, suc n);
}

abbrev pub constant : ℕ → Dist
constant x = record { dist = DistType.uniform x x; start = 0; max = 0 }

-- The transitions of a state that moves on one event, which is given by its number.
abbrev pub on : ℕ → ℕ → List (Option (List Trans))
on event target = set (replicate 13 none) event (some ((target, one32) ∷ []))

-- Moves to state 1 when a normal packet is sent.
abbrev pub idle : State
idle = record { action = none; counter = (none, none); transitions = on 3 1 }

-- Pads after 5 microseconds, once; a visit sets counter A to 2. Ends when the padding is sent.
abbrev pub padding : State
padding = record {
  action = some (Action.send_padding false false (constant 5) (some (constant 1)));
  counter =
      (some (record { operation = Operation.set; dist = some (constant 2); copy = false }), none);
  transitions = on 4 state_end;
}

abbrev pub pad_once : Machine
pad_once = record {
  allowed_padding_packets = 3;
  max_padding_frac = zero64;
  allowed_blocked_microsec = 0;
  max_blocking_frac = zero64;
  states = idle ∷ padding ∷ [];
}

-- Its distributions are constant, which rand accepts.
pub draws : Draws (pad_once ∷ [])
draws = (
  (
    record { slots = refl; action = tt; counter_a = tt; counter_b = tt },
    (
      record { slots = refl; action = (inl refl, inl refl); counter_a = inl refl; counter_b = tt },
      tt,
    ),
  ),
  tt,
)

pub pad_once-validated : validate pad_once ≡ ok tt
unfolding validate maybenot.State.validate maybenot.State.check_slots maybenot.Action.validate
    maybenot.Dist.validate maybenot.Counter.validate
pad_once-validated = refl

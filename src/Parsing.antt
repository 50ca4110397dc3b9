-- ===== src/Parsing.antt =====
-- crates/maybenot/src/parsing.rs: machines in the format of version 1. Bytes are numbers; a position is
-- passed along, as the code does with `r`.
pub mod Total
use maybenot.Prelude.{
  ℕ, zero, suc, ◌+◌, ◌-◌, ◌*◌, Bool, true, false, not, Option, none, some, List, [], ◌∷◌, ◌++◌,
  length, index, Outcome, ok, err, panic, ◌>>=◌, ◌>>◌, reject_if, ltb, ◌==◌, if◌then◌else◌,
}
use Prim.Native.Nat.{compare, Ordering}
use maybenot.Constants.{state_end}
use maybenot.Errors.{Error, Reason}
use maybenot.Platform.{F64, zero64, Floats}
use maybenot.Dist.{Dist, DistType}
use maybenot.Event.{Event}
use maybenot.Action.{Action}
use maybenot.State.{State, Trans, assign}
use maybenot.State
use maybenot.Machine.{Machine}
use maybenot.Machine

-- What the code calls of byteorder, hex and flate2. The readers get as many bytes as they read; the
-- decoders yield nothing for an error.
pub record Decoders : Type 0 where
  pub read_u16 : List ℕ → ℕ
  pub read_u64 : List ℕ → ℕ
  pub read_f64 : List ℕ → F64
  pub decode : List ℕ → Option (List ℕ)
  pub read_to_end : List ℕ → Option (List ℕ)

abbrev pub serialized_dist_size : ℕ
serialized_dist_size = 34

-- `v1_events_iter`
abbrev pub v1_events : List Event
v1_events =
    Event.normal_recv ∷ Event.padding_recv ∷ Event.normal_sent ∷ Event.padding_sent
    ∷ Event.blocking_begin ∷ Event.blocking_end ∷ Event.limit_reached ∷ []

-- The first `n` from position `i` on, as far as there are any.
unfoldable pub section : List ℕ → ℕ → ℕ → List ℕ
section [] i n = []
section (x ∷ xs) (suc i) n = section xs i n
section (x ∷ xs) zero zero = []
section (x ∷ xs) zero (suc n) = x ∷ section xs zero n

-- `buf[i..i + n]`
abbrev pub slice : List ℕ → ℕ → ℕ → Outcome (List ℕ)
slice buf i n = if ltb (length buf) (i + n) then panic else ok (section buf i n)

-- `buf[i] == 1`
abbrev pub flag : List ℕ → ℕ → Outcome Bool
flag buf i = do b ← index buf i; ok (b == 1)

abbrev pub machine_err : Reason → Error
machine_err r = Error.machine r

-- The length of a state: three distributions, four flags, and the matrix.
abbrev pub state_len : ℕ → ℕ
state_len num_states = 3 * serialized_dist_size + 4 + (num_states + 2) * 8 * (length v1_events + 1)

-- `ok_or(e)?`
abbrev pub some_or {ℓ} : {A : Type ℓ} → Option A → Reason → Outcome A
some_or none e = err (machine_err e)
some_or (some a) e = ok a

-- The action of the two distributions and the three flags.
unfoldable pub action_from :
    Option Dist → Option Dist → Option Dist → Bool → Bool → Bool → Outcome (Option Action)
action_from none duration limit action_is_block bypass replace = ok none
action_from (some timeout) duration limit true bypass replace = do
  d ← some_or duration Reason.missing_duration
  ok (some (Action.block_outgoing bypass replace timeout d limit))
action_from (some timeout) duration limit false bypass replace =
    ok (some (Action.send_padding bypass replace timeout limit))

module _ ⦃fl : Floats⦄ where
  unfoldable pub buf_to_dist_type : ℕ → F64 → F64 → Option DistType
  buf_to_dist_type buf param1 param2 =
      if buf == 1
      then some (DistType.uniform param1 param2)
      else (if buf == 2
          then some (DistType.normal param1 param2)
          else (if buf == 3
              then some (DistType.log_normal param1 param2)
              else (if buf == 4
                  then some (DistType.binomial (fl.to_u64 param1) param2)
                  else (if buf == 5
                      then some (DistType.geometric zero64)
                      else (if buf == 6
                          then some (DistType.pareto param1 param2)
                          else (if buf == 7
                              then some (DistType.poisson zero64)
                              else (if buf == 8
                                  then some (DistType.weibull param1 param2)
                                  else (if buf == 9
                                      then some (DistType.gamma param1 param2)
                                      else (if buf == 10
                                          then some (DistType.beta param1 param2)
                                          else none)))))))))

  -- A transition to state `i`, if its probability is not zero.
  unfoldable pub push_trans : ℕ → ℕ → F64 → List Trans → Outcome (List Trans)
  push_trans num_states i v vector =
      if fl.eq64 v zero64 then ok vector else elim (compare i num_states) [
        | Ordering.lt ↦ ok (vector ++ (i, fl.to_f32 v) ∷ [])
        | Ordering.eq ↦ err (machine_err Reason.invalid_state)
        | Ordering.gt ↦ ok (vector ++ (state_end, fl.to_f32 v) ∷ [])
      ]

module _ ⦃fl : Floats⦄ ⦃dec : Decoders⦄ where
  abbrev pub f64_at : List ℕ → ℕ → Outcome F64
  f64_at buf r = do b ← slice buf r 8; ok (dec.read_f64 b)

  unfoldable pub parse_dist : List ℕ → Outcome (Option Dist)
  unfolding buf_to_dist_type section
  parse_dist buf = do
    reject_if (ltb (length buf) serialized_dist_size) (machine_err Reason.too_small)
    type_buf ← slice buf 0 2
    param1 ← f64_at buf 2
    param2 ← f64_at buf 10
    start ← f64_at buf 18
    max ← f64_at buf 26
    ok (elim (buf_to_dist_type (dec.read_u16 type_buf) param1 param2) [
      | none ↦ none
      | some d ↦ some (record { dist = d; start = start; max = max })
    ])

  -- `for i in 0..num_states + 2`, the last `k` rounds of it.
  unfoldable pub read_row : ℕ → ℕ → ℕ → List ℕ → ℕ → List Trans → Outcome (List Trans)
  unfolding push_trans section
  read_row zero i num_states buf r vector = ok vector
  read_row (suc k) i num_states buf r vector = do
    v ← f64_at buf r
    next ← push_trans num_states i v vector
    read_row k (suc i) num_states buf (r + 8) next

  -- `for event in v1_events_iter()`
  unfoldable pub read_rows :
      List Event → ℕ → List ℕ → ℕ → (Event → List Trans) → Outcome (Event → List Trans)
  unfolding read_row
  read_rows [] num_states buf r transitions = ok transitions
  read_rows (event ∷ rest) num_states buf r transitions = do
    vector ← read_row (num_states + 2) 0 num_states buf r (transitions event)
    read_rows rest num_states buf (r + (num_states + 2) * 8) (assign transitions event vector)

  abbrev pub dist_at : List ℕ → ℕ → Outcome (Option Dist)
  unfolding parse_dist
  dist_at buf r = do b ← slice buf r serialized_dist_size; parse_dist b

  unfoldable pub parse_state : List ℕ → ℕ → Outcome State
  unfolding parse_dist read_rows action_from
  parse_state buf num_states = do
    reject_if (ltb (length buf) (state_len num_states)) (machine_err Reason.too_small)
    duration ← dist_at buf 0
    limit ← dist_at buf 34
    timeout ← dist_at buf 68
    action_is_block ← flag buf 102
    bypass ← flag buf 103
    replace ← flag buf 104
    action ← action_from timeout duration limit action_is_block bypass replace
    transitions ← read_rows v1_events num_states buf 106 (λ e. [])
    ok (record (State.new transitions) { action = action })

  -- `for _ in 0..num_states`, the last `k` rounds of it.
  unfoldable pub parse_states : ℕ → ℕ → List ℕ → ℕ → Outcome (List State)
  unfolding parse_state
  parse_states zero num_states buf r = ok []
  parse_states (suc k) num_states buf r = do
    b ← slice buf r (state_len num_states)
    s ← parse_state b num_states
    rest ← parse_states k num_states buf (r + state_len num_states)
    ok (s ∷ rest)

  unfoldable pub parse_v1 : List ℕ → Outcome Machine
  unfolding parse_states section
  parse_v1 buf = do
    reject_if (ltb (length buf) 35) (machine_err Reason.not_enough_data)
    padding ← slice buf 0 8
    max_padding_frac ← f64_at buf 8
    blocked ← slice buf 16 8
    max_blocking_frac ← f64_at buf 24
    states ← slice buf 33 2
    let num_states = dec.read_u16 states
    let expected = state_len num_states * num_states
    reject_if (not (length buf - 35 == expected))
        (machine_err (Reason.unexpected_size expected num_states (length buf - 35)))
    parsed ← parse_states num_states num_states buf 35
    Machine.new (dec.read_u64 padding) max_padding_frac (dec.read_u64 blocked) max_blocking_frac
        parsed

  -- `u16::from_le_bytes`, of the first two bytes.
  unfoldable pub parse_version : List ℕ → Outcome Machine
  unfolding parse_v1
  parse_version (low ∷ high ∷ payload) =
      let version = low + 256 * high in
      if version == 1
      then parse_v1 payload
      else err (machine_err (Reason.unsupported_version version))
  parse_version _ = err (machine_err Reason.no_version)

  unfoldable pub parse_v1_machine : List ℕ → Outcome Machine
  unfolding parse_version
  parse_v1_machine s = do
    compressed ← some_or (dec.decode s) Reason.bad_hex
    buf ← some_or (dec.read_to_end compressed) Reason.bad_zlib
    parse_version buf

-- ===== src/Simulator/Integration.antt =====
-- crates/maybenot-simulator/src/integration.rs: the delays of an integration, which are drawn from
-- binned distributions. The thread's random number generator is a state `T`.
use maybenot.Prelude.{
  ℕ, ◌≤◌, not, ◌&&◌, Bool, Option, none, some, List, Outcome, ok, panic, ◌>>=◌, index, length,
  if◌then◌else◌,
}
use maybenot.Platform.{F64, Floats}
use maybenot.Time.{from_micros}

-- 1000.0
abbrev pub thousand64 : F64
thousand64 = 0x408f_4000_0000_0000

-- What the code calls of rand and of the standard library.
pub record Thread (T : Type 0) : Type 0 where
  -- `gen::<f64>()`
  pub gen : T → F64 × T
  -- whether `max - min` is finite, without which `gen_range(min..max)` panics
  pub has_finite_width : F64 → F64 → Bool
  -- `gen_range(min..max)`, for `min < max` and such a width
  pub gen_range : F64 → F64 → T → F64 × T
  -- the index that `binary_search_by` returns, as `Ok` or as `Err`
  pub search : List F64 → F64 → ℕ
  -- The insertion point is a position of the list or its end.
  pub search_le : (xs : List F64) (x : F64) → search xs x ≤ length xs

pub record BinDist : Type 0 where
  pub bins : List (F64 × F64)
  pub cumulative_probabilities : List F64

pub record Integration : Type 0 where
  pub action_delay : BinDist
  pub reporting_delay : BinDist
  pub trigger_delay : BinDist

module _ ⦃fl : Floats⦄ where
  -- `Duration::from_micros((x * 1000.0) as u64)`
  abbrev pub from_millis : F64 → ℕ
  from_millis x = from_micros (fl.to_u64 (fl.mul64 x thousand64))

module _ {T : Type 0} ⦃fl : Floats⦄ ⦃th : Thread T⦄ where
  -- A draw from a bin; a range that is empty or infinite panics.
  unfoldable pub sample_bin : F64 × F64 → T → Outcome (ℕ × T)
  sample_bin (low, high) t =
      if fl.eq64 low high
      then ok (from_millis low, t)
      else (if not (fl.lt64 low high && th.has_finite_width low high)
          then panic
          else (let (x, t') = th.gen_range low high t in ok (from_millis x, t')))

  unfoldable pub sample_bins : BinDist → T → Outcome (ℕ × T)
  unfolding sample_bin
  sample_bins d t =
      let (p, t') = th.gen t in
      do bin ← index d.bins (th.search d.cumulative_probabilities p); sample_bin bin t'

  -- The delays of a state, none without an integration.
  abbrev pub action_delay : Option Integration → T → Outcome (ℕ × T)
  action_delay none t = ok (0, t)
  action_delay (some i) t = sample_bins i.action_delay t

  abbrev pub reporting_delay : Option Integration → T → Outcome (ℕ × T)
  reporting_delay none t = ok (0, t)
  reporting_delay (some i) t = sample_bins i.reporting_delay t

  abbrev pub trigger_delay : Option Integration → T → Outcome (ℕ × T)
  trigger_delay none t = ok (0, t)
  trigger_delay (some i) t = sample_bins i.trigger_delay t

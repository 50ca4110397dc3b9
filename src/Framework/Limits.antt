-- ===== src/Framework/Limits.antt =====
-- crates/maybenot/src/framework.rs: `below_action_limits` and the two functions that it calls.
use maybenot.Prelude.{
  ℕ, ◌+◌, ◌%◌, Bool, true, false, ◌&&◌, Option, none, some, Outcome, ok, ◌>>=◌, index, ltb, ◌==◌,
  if◌then◌else◌,
}
use maybenot.Constants.{u64_mod}
use maybenot.Platform.{F64, zero64, Floats}
use maybenot.Time.{saturating_duration_since, div_duration}
use maybenot.Action.{Action}
use maybenot.State.{State}
use maybenot.Machine.{Machine}
use maybenot.Framework.Types.{MachineRuntime, Framework}

abbrev pub replaces : Option Action → Bool
replaces (some (Action.block_outgoing bypass replace timeout duration limit)) = replace
replaces _ = false

module _ ⦃fl : Floats⦄ where
  -- A limit of 0.0 is no limit.
  abbrev pub frac_reached : F64 → F64 → Bool
  frac_reached limit f = fl.lt64 zero64 limit && fl.le64 limit f

  -- `none`: the limit does not decide. The sum of the counts wraps.
  abbrev pub padding_limit : F64 → ℕ → ℕ → Option Bool
  padding_limit limit padding normal =
      if fl.lt64 zero64 limit
      then (let total = (padding + normal) % u64_mod in
          if total == 0
          then some true
          else (if fl.le64 limit (fl.div64 (fl.of_u64 padding) (fl.of_u64 total))
              then some false
              else none))
      else none

module _ {R : Type 0} ⦃fl : Floats⦄ where
  -- The time spent blocking, with the blocking that is going on.
  abbrev pub blocked_so_far : Framework R → ℕ → ℕ
  blocked_so_far fw duration =
      if fw.blocking_active
      then duration + saturating_duration_since fw.current_time fw.blocking_started
      else duration

  unfoldable pub below_limit_blocking : Framework R → MachineRuntime → Machine → State → Bool
  below_limit_blocking fw rt machine current =
      if replaces current.action && fw.blocking_active
      then ltb 0 rt.state_limit
      else (let m_block_dur = blocked_so_far fw rt.blocking_duration in
          let g_block_dur = blocked_so_far fw fw.blocking_duration in
          if ltb m_block_dur rt.allowed_blocked_microsec
          then ltb 0 rt.state_limit
          else (if frac_reached machine.max_blocking_frac (
                div_duration m_block_dur
                  (saturating_duration_since fw.current_time rt.machine_start))
              then false
              else (if frac_reached fw.max_blocking_frac (
                    div_duration g_block_dur
                      (saturating_duration_since fw.current_time fw.framework_start))
                  then false
                  else ltb 0 rt.state_limit)))

  unfoldable pub below_limit_padding : Framework R → MachineRuntime → Machine → Bool
  below_limit_padding fw rt machine =
      if ltb rt.padding_sent machine.allowed_padding_packets
      then ltb 0 rt.state_limit
      else elim (padding_limit machine.max_padding_frac rt.padding_sent rt.normal_sent) [
        | some b ↦ b
        | none ↦
            elim (padding_limit fw.max_padding_frac fw.padding_sent_packets
              fw.normal_sent_packets) [ some b ↦ b | none ↦ ltb 0 rt.state_limit ]
      ]

  unfoldable pub below_limits_of :
      Framework R → MachineRuntime → Machine → State → Option Action → Bool
  below_limits_of fw rt machine current none = false
  below_limits_of fw rt machine current (some (Action.block_outgoing b r t d l)) =
      below_limit_blocking fw rt machine current
  below_limits_of fw rt machine current (some (Action.send_padding b r t l)) =
      below_limit_padding fw rt machine
  below_limits_of fw rt machine current (some (Action.update_timer r d l)) = ltb 0 rt.state_limit
  below_limits_of fw rt machine current (some (Action.cancel t)) = true

  unfoldable pub below_action_limits : Framework R → MachineRuntime → Machine → Outcome Bool
  unfolding below_limits_of
  below_action_limits fw rt machine = do
    current ← index machine.states rt.current_state
    ok (below_limits_of fw rt machine current current.action)

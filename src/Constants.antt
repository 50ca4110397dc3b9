-- ===== src/Constants.antt =====
-- crates/maybenot/src/constants.rs. An f64 constant is its IEEE bit pattern.
use maybenot.Prelude.{ℕ}

-- `u64` arithmetic wraps at this number, and `u64::MAX` is one below it.
abbrev pub u64_mod : ℕ
u64_mod = 0x1_0000_0000_0000_0000

abbrev pub event_num : ℕ
event_num = 13

-- 24.0 * 60.0 * 60.0 * 1000.0 * 1000.0
abbrev pub max_sampled_timeout : ℕ
max_sampled_timeout = 0x4234_1dd7_6000_0000

abbrev pub max_sampled_timer_duration : ℕ
max_sampled_timer_duration = 0x4234_1dd7_6000_0000

abbrev pub max_sampled_block_duration : ℕ
max_sampled_block_duration = 0x4234_1dd7_6000_0000

abbrev pub state_limit_max : ℕ
state_limit_max = 0xffff_ffff_ffff_ffff

abbrev pub state_end : ℕ
state_end = 0xffff_ffff

abbrev pub state_signal : ℕ
state_signal = 0xffff_fffe

abbrev pub state_max : ℕ
state_max = 0xffff_fffd

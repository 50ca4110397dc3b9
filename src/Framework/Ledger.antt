-- ===== src/Framework/Ledger.antt =====
-- crates/maybenot/src/framework.rs: the accounting of the framework, which no transition of a machine
-- may touch.
use maybenot.Event.{TriggerEvent}
use maybenot.Prelude.{◌+◌, ◌-◌, true, false, if◌then◌else◌, modify, [], ◌∷◌, ℕ, Bool, List, map}
use maybenot.Platform.{F64}
use maybenot.Machine.{Machine}
use maybenot.Framework.Types.{increment, MachineRuntime, Framework}

-- The accounts of one machine.
pub record Account : Type 0 where
  pub padding_sent : ℕ
  pub normal_sent : ℕ
  pub blocking_duration : ℕ
  pub machine_start : ℕ
  pub allowed_blocked_microsec : ℕ

abbrev pub account : MachineRuntime → Account
account rt = record {
  padding_sent = rt.padding_sent;
  normal_sent = rt.normal_sent;
  blocking_duration = rt.blocking_duration;
  machine_start = rt.machine_start;
  allowed_blocked_microsec = rt.allowed_blocked_microsec;
}

pub record Ledger : Type 0 where
  pub current_time : ℕ
  pub machines : List Machine
  pub accounts : List Account
  pub max_padding_frac : F64
  pub normal_sent_packets : ℕ
  pub padding_sent_packets : ℕ
  pub max_blocking_frac : F64
  pub blocking_duration : ℕ
  pub blocking_started : ℕ
  pub blocking_active : Bool
  pub framework_start : ℕ

module _ {R : Type 0} where
  abbrev pub ledger : Framework R → Ledger
  ledger fw = record {
    current_time = fw.current_time;
    machines = fw.machines;
    accounts = map account fw.runtime;
    max_padding_frac = fw.max_padding_frac;
    normal_sent_packets = fw.normal_sent_packets;
    padding_sent_packets = fw.padding_sent_packets;
    max_blocking_frac = fw.max_blocking_frac;
    blocking_duration = fw.blocking_duration;
    blocking_started = fw.blocking_started;
    blocking_active = fw.blocking_active;
    framework_start = fw.framework_start;
  }

-- The abstract accounting: what each event does to the books, whatever the machines do.
abbrev pub count_normal : Account → Account
count_normal a = record a { normal_sent = increment a.normal_sent }

abbrev pub count_padding : Account → Account
count_padding a = record a { padding_sent = increment a.padding_sent }

abbrev pub add_blocked : ℕ → Account → Account
add_blocked blocked a = record a { blocking_duration = a.blocking_duration + blocked }

-- How long the current blocking has lasted, by the books.
abbrev pub blocking_lasted : Ledger → ℕ
blocking_lasted l = if l.blocking_active then l.current_time - l.blocking_started else 0

unfoldable pub book : Ledger → TriggerEvent → Ledger
book l TriggerEvent.normal_sent = record l {
  normal_sent_packets = increment l.normal_sent_packets;
  accounts = map count_normal l.accounts;
}
book l (TriggerEvent.padding_sent machine) = record l {
  padding_sent_packets = increment l.padding_sent_packets;
  accounts = modify machine count_padding l.accounts;
}
book l (TriggerEvent.blocking_begin machine) = record l {
  blocking_active = true;
  blocking_started = if l.blocking_active then l.blocking_started else l.current_time;
}
book l TriggerEvent.blocking_end = record l {
  blocking_duration = l.blocking_duration + blocking_lasted l;
  blocking_active = false;
  accounts = map (add_blocked (blocking_lasted l)) l.accounts;
}
book l _ = l

unfoldable pub book_all : Ledger → List TriggerEvent → Ledger
book_all l [] = l
book_all l (e ∷ rest) = book_all (book l e) rest

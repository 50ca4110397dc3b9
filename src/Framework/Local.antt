-- ===== src/Framework/Local.antt =====
-- crates/maybenot/src/framework.rs: what a call made for one machine may change.
use maybenot.Prelude.{
  ℕ, ◌+◌, ◌<◌, ◌≤◌, ◌≡◌, refl, ◌∙◌, ◌≢◌, Bool, true, false, Option, ok, index, index-set_ne, length,
  length-set, set, map-set_same, arith,
}
use maybenot.Platform.{Floats}
use maybenot.Action.{TriggerAction}
use maybenot.Machine.{Machine}
use maybenot.Framework.Types.{MachineRuntime, SignalTarget, Framework}
use maybenot.Framework.Ledger.{account, ledger}
use maybenot.Framework.Rows.{
  IsFor, IsLive, RowAt, Rows-at, Rows-set_runtime, Rows-set_action, IsValid, SignalIn,
}

abbrev pub unset : Bool → ℕ
unset true = 0
unset false = 1

-- How many of the flags `counter_zeroed_once` are not set.
abbrev pub unset_flags : Bool × Bool → ℕ
unset_flags (a, b) = unset a + unset b

module _ {R : Type 0} ⦃fl : Floats⦄ where
  -- The invariant holds, the accounts stay, the other machines stay, and no flag is cleared.
  pub record Local (mi : ℕ) (fw fw' : Framework R) : Type 0 where
    pub valid : IsValid fw'
    pub accounts : ledger fw' ≡ ledger fw
    pub runtime_others : (j : ℕ) → j ≢ mi → index fw'.runtime j ≡ index fw.runtime j
    pub actions_others : (j : ℕ) → j ≢ mi → index fw'.actions j ≡ index fw.actions j
    pub count : length fw'.runtime ≡ length fw.runtime
    pub flags : unset_flags fw'.counter_zeroed_once ≤ unset_flags fw.counter_zeroed_once

  pub Local-refl : (mi : ℕ) (fw : Framework R) → IsValid fw → Local mi fw fw
  Local-refl mi fw v = record {
    valid = v;
    accounts = refl;
    runtime_others = λ j h. refl;
    actions_others = λ j h. refl;
    count = refl;
    flags = omega arith;
  }

  pub Local-trans :
      (mi : ℕ) (fw fw1 fw2 : Framework R) → Local mi fw fw1 → Local mi fw1 fw2 → Local mi fw fw2
  Local-trans mi fw fw1 fw2 a b = record {
    valid = b.valid;
    accounts = b.accounts ∙ a.accounts;
    runtime_others = λ j h. b.runtime_others j h ∙ a.runtime_others j h;
    actions_others = λ j h. b.actions_others j h ∙ a.actions_others j h;
    count = b.count ∙ a.count;
    flags = omega (arith, a.flags, b.flags);
  }

  -- The row of a machine that is there.
  pub row_of :
      (fw : Framework R) (mi : ℕ)
      → IsValid fw
      → mi < length fw.runtime
      → RowAt 0 mi fw.machines fw.runtime fw.actions
  row_of fw mi v lt = Rows-at 0 mi fw.machines fw.runtime fw.actions v.0 lt

  -- The one way in which the code writes a machine's runtime: the accounts stay, and the generator
  -- and the flags may change too.
  pub Local-edit :
      (mi : ℕ) (fw : Framework R) (m : Machine) (old new : MachineRuntime) (rng : R)
      (flags : Bool × Bool)
      → IsValid fw
      → index fw.machines mi ≡ ok m
      → index fw.runtime mi ≡ ok old
      → account new ≡ account old
      → IsLive m new
      → unset_flags flags ≤ unset_flags fw.counter_zeroed_once
      → Local mi fw
          (record fw { rng = rng; runtime = set fw.runtime mi new; counter_zeroed_once = flags })
  Local-edit mi fw m old new rng flags v em er acc live le = record {
    valid = (
      Rows-set_runtime 0 mi fw.machines fw.runtime fw.actions new v.0 em live,
      rw (length-set fw.runtime mi new) v.1,
    );
    accounts =
        λ i. record (ledger fw) { accounts = map-set_same account fw.runtime mi new er acc i };
    runtime_others = λ j h. index-set_ne fw.runtime mi j new h;
    actions_others = λ j h. refl;
    count = length-set fw.runtime mi new;
    flags = le;
  }

  -- A write to the machine's slot of the actions.
  pub Local-action :
      (mi : ℕ) (fw : Framework R) (rng : R) (action : Option TriggerAction)
      → IsValid fw
      → IsFor mi action
      → Local mi fw (record fw { rng = rng; actions = set fw.actions mi action })
  Local-action mi fw rng action v o = record {
    valid =
        (Rows-set_action 0 mi fw.machines fw.runtime fw.actions action v.0 (rw zero_add o), v.1);
    accounts = refl;
    runtime_others = λ j h. refl;
    actions_others = λ j h. index-set_ne fw.actions mi j action h;
    count = refl;
    flags = omega arith;
  }
    where
      zero_add : 0 + mi ≡ mi
      zero_add = omega arith

  -- A change of the generator or of the pending signal alone.
  pub Local-global :
      (mi : ℕ) (fw : Framework R) (rng : R) (signal : Option SignalTarget)
      → IsValid fw
      → SignalIn (length fw.runtime) signal
      → Local mi fw (record fw { rng = rng; signal_pending = signal })
  Local-global mi fw rng signal v o = record {
    valid = (v.0, o);
    accounts = refl;
    runtime_others = λ j h. refl;
    actions_others = λ j h. refl;
    count = refl;
    flags = omega arith;
  }

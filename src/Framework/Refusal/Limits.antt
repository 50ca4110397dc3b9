-- ===== src/Framework/Refusal/Limits.antt =====
-- crates/maybenot/src/framework.rs: a machine over its limits schedules no padding, or no blocking.
use maybenot.Prelude.{
  ℕ, zero, suc, ◌+◌, ◌-◌, ◌%◌, ◌≤◌, ◌≡◌, sym, ap, subst, ◌⊎◌, inl, inr, true, false, List, [], ◌∷◌,
  map, ok, Returns, index, index_lt, ◌==◌, arith,
}
use maybenot.Constants.{u64_mod}
use maybenot.Platform.{F64, zero64, Floats, Rng}
use maybenot.Time.{div_duration}
use maybenot.Event.{Event}
use maybenot.Action.{Action}
use maybenot.State.{State}
use maybenot.Machine.{Machine}
use maybenot.Framework.Types.{MachineRuntime, Framework}
use maybenot.Framework.Limits.{below_limit_padding, below_limit_blocking, below_limits_of}
use maybenot.Framework.Transition.{transition}
use maybenot.Framework.Ledger.{Account, account, Ledger, ledger}
use maybenot.Framework.Rows.{IsValid}
use maybenot.Framework.Refusal.{Kind, has_kind, NoNew, Refuses}
use maybenot.Framework.Refusal.Steps.{transition-Refused}

index-map {ℓ κ} :
    {A : Type ℓ} {B : Type κ} (f : A → B) (xs : List A) (i : ℕ) {x : A}
    → index xs i ≡ ok x
    → index (map f xs) i ≡ ok (f x)
unfolding index
index-map f [] i h = cc
index-map f (y ∷ ys) zero h = cc
index-map f (y ∷ ys) (suc i) h = index-map f ys i h

module _ ⦃fl : Floats⦄ where
  -- The share of padding among some packets has reached a limit that is set.
  abbrev PaddingReached : F64 → ℕ → ℕ → Type 0
  PaddingReached limit padding normal =
      (fl.lt64 zero64 limit ≡ true)
      × (((padding + normal) % u64_mod == 0) ≡ false)
      × (fl.le64 limit (fl.div64 (fl.of_u64 padding) (fl.of_u64 ((padding + normal) % u64_mod)))
          ≡ true)

  -- The machine has sent the padding it is allowed in any case, and its own limit is reached; or its
  -- own limit is not set, or not the first packet's, and that of the framework is reached.
  abbrev pub PaddingOver : Ledger → Machine → Account → Type 0
  PaddingOver l m a =
      (m.allowed_padding_packets ≤ a.padding_sent)
      × (PaddingReached m.max_padding_frac a.padding_sent a.normal_sent
          ⊎ (((fl.lt64 zero64 m.max_padding_frac ≡ false)
                ⊎ (((a.padding_sent + a.normal_sent) % u64_mod == 0) ≡ false))
              × PaddingReached l.max_padding_frac l.padding_sent_packets l.normal_sent_packets))

  abbrev BlockingReached : F64 → ℕ → ℕ → Type 0
  BlockingReached limit blocked elapsed =
      (fl.lt64 zero64 limit ≡ true) × (fl.le64 limit (div_duration blocked elapsed) ≡ true)

  -- No blocking is going on, the machine has had the blocking it is allowed in any case, and the limit
  -- of the machine or of the framework is reached.
  abbrev pub BlockingOver : Ledger → Machine → Account → Type 0
  BlockingOver l m a =
      (l.blocking_active ≡ false)
      × (a.allowed_blocked_microsec ≤ a.blocking_duration)
      × (BlockingReached m.max_blocking_frac a.blocking_duration (l.current_time - a.machine_start)
          ⊎ BlockingReached l.max_blocking_frac l.blocking_duration
              (l.current_time - l.framework_start))

module _ {R : Type 0} ⦃fl : Floats⦄ where
  below_limit_padding-over :
      (fw : Framework R) (m : Machine) (rt : MachineRuntime)
      → PaddingOver (ledger fw) m (account rt)
      → below_limit_padding fw rt m ≡ false
  unfolding below_limit_padding
  below_limit_padding-over fw m rt (allowed, inl reached) = ground arith
  below_limit_padding-over fw m rt (allowed, inr (inl unset, reached)) = ground arith
  below_limit_padding-over fw m rt (allowed, inr (inr sent, reached)) = ground arith

  below_limit_blocking-over :
      (fw : Framework R) (m : Machine) (rt : MachineRuntime) (st : State)
      → BlockingOver (ledger fw) m (account rt)
      → below_limit_blocking fw rt m st ≡ false
  unfolding below_limit_blocking
  below_limit_blocking-over fw m rt st (idle, allowed, inl reached) = ground arith
  below_limit_blocking-over fw m rt st (idle, allowed, inr reached) = ground arith

  -- Machine and account of position `mi` follow from the books.
  same_place :
      (fw fw' : Framework R) (mi : ℕ) (m m' : Machine) (rt rt' : MachineRuntime)
      → ledger fw' ≡ ledger fw
      → index fw.machines mi ≡ ok m
      → index fw.runtime mi ≡ ok rt
      → index fw'.machines mi ≡ ok m'
      → index fw'.runtime mi ≡ ok rt'
      → (m ≡ m') × (account rt ≡ account rt')
  same_place fw fw' mi m m' rt rt' e em er em' er' =
      let p : index fw'.machines mi ≡ index fw.machines mi = ap (λ l. index l.machines mi) e in
      let q : index (map account fw'.runtime) mi ≡ index (map account fw.runtime) mi =
        ap (λ l. index l.accounts mi) e in
      let a = index-map account fw.runtime mi er in
      let a' = index-map account fw'.runtime mi er' in (cc, cc)

  PaddingOver-Refuses :
      (fw : Framework R) (mi : ℕ) (m : Machine) (rt : MachineRuntime)
      → index fw.machines mi ≡ ok m
      → index fw.runtime mi ≡ ok rt
      → PaddingOver (ledger fw) m (account rt)
      → Refuses R Kind.pads mi (ledger fw)
  unfolding has_kind below_limits_of
  PaddingOver-Refuses fw mi m rt em er over fw' m' rt' st (Action.send_padding b r t l) e em' er' ea
        h =
      let (same_m, same_a) = same_place fw fw' mi m m' rt rt' e em er em' er' in
      let over1 : PaddingOver (ledger fw') m (account rt) =
        subst (λ l. PaddingOver l m (account rt)) (sym e) over in
      let over2 : PaddingOver (ledger fw') m' (account rt) =
        subst (λ x. PaddingOver (ledger fw') x (account rt)) same_m over1 in
      below_limit_padding-over fw' m' rt' (subst (PaddingOver (ledger fw') m') same_a over2)
  PaddingOver-Refuses fw mi m rt em er over fw' m' rt' st a e em' er' ea h = absurd (ground arith)

  BlockingOver-Refuses :
      (fw : Framework R) (mi : ℕ) (m : Machine) (rt : MachineRuntime)
      → index fw.machines mi ≡ ok m
      → index fw.runtime mi ≡ ok rt
      → BlockingOver (ledger fw) m (account rt)
      → Refuses R Kind.blocks mi (ledger fw)
  unfolding has_kind below_limits_of
  BlockingOver-Refuses fw mi m rt em er over fw' m' rt' st (Action.block_outgoing b r t d l) e em'
        er' ea h =
      let (same_m, same_a) = same_place fw fw' mi m m' rt rt' e em er em' er' in
      let over1 : BlockingOver (ledger fw') m (account rt) =
        subst (λ l. BlockingOver l m (account rt)) (sym e) over in
      let over2 : BlockingOver (ledger fw') m' (account rt) =
        subst (λ x. BlockingOver (ledger fw') x (account rt)) same_m over1 in
      below_limit_blocking-over fw' m' rt' st (subst (BlockingOver (ledger fw') m') same_a over2)
  BlockingOver-Refuses fw mi m rt em er over fw' m' rt' st a e em' er' ea h = absurd (ground arith)

module _ {R : Type 0} ⦃fl : Floats⦄ ⦃g : Rng R⦄ where
  -- A transition in a valid framework, with the transitions of counters that it leads to, schedules no
  -- padding for a machine over its padding limits: the machine's slot is as before, or holds an action
  -- that is not padding. Over its limits is a machine that has used up its allowance of packets, and
  -- whose share of padding reaches its own limit, or, where that does not decide, whose framework's
  -- share reaches the framework's limit.
  pub transition-PaddingOver :
      (fw : Framework R) (mi : ℕ) (event : Event) (m : Machine) (rt : MachineRuntime)
      → IsValid fw
      → index fw.machines mi ≡ ok m
      → index fw.runtime mi ≡ ok rt
      → PaddingOver (ledger fw) m (account rt)
      → Returns (λ r. NoNew Kind.pads mi fw.actions r.1.actions) (transition fw mi event)
  transition-PaddingOver fw mi event m rt v em er over =
      transition-Refused Kind.pads fw mi event v (index_lt fw.runtime mi er)
        (PaddingOver-Refuses fw mi m rt em er over)

  -- A transition in a valid framework, with the transitions of counters that it leads to, schedules no
  -- blocking for a machine over its blocking limits while no blocking is going on. Over its limits is
  -- a machine that has used up its allowance of time, and whose share of time blocked reaches its own
  -- limit, or whose framework's share reaches the framework's limit.
  pub transition-BlockingOver :
      (fw : Framework R) (mi : ℕ) (event : Event) (m : Machine) (rt : MachineRuntime)
      → IsValid fw
      → index fw.machines mi ≡ ok m
      → index fw.runtime mi ≡ ok rt
      → BlockingOver (ledger fw) m (account rt)
      → Returns (λ r. NoNew Kind.blocks mi fw.actions r.1.actions) (transition fw mi event)
  transition-BlockingOver fw mi event m rt v em er over =
      transition-Refused Kind.blocks fw mi event v (index_lt fw.runtime mi er)
        (BlockingOver-Refuses fw mi m rt em er over)

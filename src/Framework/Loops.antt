-- ===== src/Framework/Loops.antt =====
-- crates/maybenot/src/framework.rs: the loops over all machines in `process_event` and
-- `trigger_events`, from what they do for one machine.
use maybenot.Prelude.{
  ℕ, zero, suc, ◌+◌, ◌<◌, ◌≡◌, refl, ◌∙◌, sym, ap, List, map, Outcome, ok, Returns, Returns-bind,
  Returns-mono, index, length, Bool-cases, arith, modify, map_from, map_from-modify, map_from-zero,
  map_from-length, length-map, map-set, length-set, index-set_self, index-set_ne, ◌==◌, inl, inr,
}
use maybenot.Platform.{Floats, Rng}
use maybenot.Framework.Types.{MachineRuntime, Framework, set_runtime}
use maybenot.Framework.Events.{for_machines, for_all_machines}
use maybenot.Framework.Ledger.{Account, account, Ledger, ledger}
use maybenot.Framework.Rows.{IsLive, IsValid, Rows-set_runtime}
use maybenot.Framework.Local.{row_of}
use maybenot.Framework.Kept.{IsQuiet, Kept}

abbrev pub with_accounts : Ledger → List Account → Ledger
with_accounts l accounts = record l { accounts = accounts }

module _ {R : Type 0} ⦃fl : Floats⦄ ⦃g : Rng R⦄ where
  -- The call keeps the invariant and the quiet machines, and changes the books as `change` says.
  pub record Books (change : List Account → List Account) (fw fw' : Framework R) : Type 0 where
    pub valid : IsValid fw'
    pub books : ledger fw' ≡ with_accounts (ledger fw) (change (ledger fw).accounts)
    pub count : length fw'.runtime ≡ length fw.runtime
    pub quiet : (j : ℕ) → IsQuiet j fw → IsQuiet j fw'

  pub Books-trans :
      (f h : List Account → List Account) (fw fw1 fw2 : Framework R)
      → Books f fw fw1
      → Books h fw1 fw2
      → Books (λ xs. h (f xs)) fw fw2
  Books-trans f h fw fw1 fw2 a b = record {
    valid = b.valid;
    books = b.books ∙ ap (λ l. with_accounts l (h l.accounts)) a.books;
    count = b.count ∙ a.count;
    quiet = λ j q. b.quiet j (a.quiet j q);
  }

  pub Books-eq :
      (f h : List Account → List Account) (fw fw' : Framework R)
      → f (ledger fw).accounts ≡ h (ledger fw).accounts
      → Books f fw fw'
      → Books h fw fw'
  Books-eq f h fw fw' e b = record {
    valid = b.valid;
    books = b.books ∙ ap (with_accounts (ledger fw)) e;
    count = b.count;
    quiet = b.quiet;
  }

  pub Kept-Books : (mi : ℕ) (fw fw' : Framework R) → Kept mi fw fw' → Books (λ xs. xs) fw fw'
  Kept-Books mi fw fw' k = record {
    valid = k.here.valid;
    books = k.here.accounts;
    count = k.here.count;
    quiet = k.quiet;
  }

  -- A change of the accounts of one machine, before its transition.
  pub account_edit :
      (f : Account → Account) (fw : Framework R) (mi : ℕ) (rt new : MachineRuntime)
      → IsValid fw
      → mi < length fw.runtime
      → index fw.runtime mi ≡ ok rt
      → account new ≡ f (account rt)
      → new.current_state ≡ rt.current_state
      → new.state_limit ≡ rt.state_limit
      → new.counter_a ≡ rt.counter_a
      → new.counter_b ≡ rt.counter_b
      → Books (modify mi f) fw (set_runtime fw mi new)
  account_edit f fw mi rt new v lt at acc cs sl ca cb =
      let r = row_of fw mi v lt in
      let at' = r.at_runtime in
      let same : r.rt ≡ rt = cc in
      let live : IsLive r.m rt = rw same at r.row.live in
      record {
        valid = (
          Rows-set_runtime 0 mi fw.machines fw.runtime fw.actions new v.0 r.at_machine (record {
            in_range = rw cs live.in_range;
            limit = rw sl live.limit;
            counter_a = rw ca live.counter_a;
            counter_b = rw cb live.counter_b;
          }),
          rw (length-set fw.runtime mi new) v.1,
        );
        books = ap (with_accounts (ledger fw)) (map-set account f fw.runtime mi new at acc);
        count = length-set fw.runtime mi new;
        quiet = λ j q. elim (Bool-cases (j == mi)) [
          | inl e ↦
              let e' : j ≡ mi = ground arith in
              let self : IsQuiet mi fw = rw e' at q in
              let self_at = self.at_runtime in
              let rt_same : self.rt ≡ rt = cc in
              let after : IsQuiet mi (set_runtime fw mi new) = record {
                rt = new;
                at_runtime = index-set_self fw.runtime mi new at;
                ended = cs ∙ (ap (λ x. x.current_state) (sym rt_same) ∙ self.ended);
                no_action = self.no_action;
              } in
              rw e' after
          | inr e ↦ record {
            rt = q.rt;
            at_runtime = index-set_ne fw.runtime mi j new (λ e'. ground arith) ∙ q.at_runtime;
            ended = q.ended;
            no_action = q.no_action;
          }
        ];
      }

  -- The loop, from what its body does.
  for_machines-Books :
      (f : Account → Account) (body : Framework R → ℕ → Outcome (Framework R))
      → ((fw : Framework R) (mi : ℕ)
          → IsValid fw
          → mi < length fw.runtime
          → Returns (Books (modify mi f) fw) (body fw mi))
      → (n mi : ℕ) (fw : Framework R) → IsValid fw
      → mi + n ≡ length fw.runtime
      → Returns (Books (map_from mi f) fw) (for_machines body n mi fw)
  unfolding for_machines
  for_machines-Books f body keep zero mi fw v e = record {
    valid = v;
    books =
        let e' : mi ≡ length (map account fw.runtime) =
          omega (arith, length-map account fw.runtime) in
        rw e' (ap (with_accounts (ledger fw)) (sym (map_from-length f (map account fw.runtime))));
    count = refl;
    quiet = λ j q. q;
  }
  for_machines-Books f body keep (suc n) mi fw v e =
      Returns-bind (Books (modify mi f) fw) (Books (map_from mi f) fw) (body fw mi) _
        (keep fw mi v (omega arith))
        λ fw1 e1 b1.
          Returns-mono (Books (map_from (suc mi) f) fw1) (Books (map_from mi f) fw)
            (for_machines body n (suc mi) fw1)
            (λ fw2 b2.
              Books-eq (λ xs. map_from (suc mi) f (modify mi f xs)) (map_from mi f) fw fw2
                (map_from-modify mi f (ledger fw).accounts)
                (Books-trans (modify mi f) (map_from (suc mi) f) fw fw1 fw2 b1 b2))
            (for_machines-Books f body keep n (suc mi) fw1 b1.valid (omega (arith, b1.count)))

  pub for_all_machines-Books :
      (f : Account → Account) (body : Framework R → ℕ → Outcome (Framework R))
      → ((fw : Framework R) (mi : ℕ)
          → IsValid fw
          → mi < length fw.runtime
          → Returns (Books (modify mi f) fw) (body fw mi))
      → (fw : Framework R) → IsValid fw
      → Returns (Books (map f) fw) (for_all_machines body fw)
  for_all_machines-Books f body keep fw v =
      Returns-mono (Books (map_from 0 f) fw) (Books (map f) fw) (for_all_machines body fw)
        (λ fw' b. Books-eq (map_from 0 f) (map f) fw fw' (map_from-zero f (ledger fw).accounts) b)
        (for_machines-Books f body keep (length fw.runtime) 0 fw v (omega arith))

-- ===== src/Parsing/Total.antt =====
-- crates/maybenot/src/parsing.rs: the parser does not panic, whatever the bytes.
use maybenot.Prelude.{
  ℕ, zero, suc, ◌+◌, ◌-◌, ◌*◌, ◌≤◌, ◌<◌, ◌≡◌, refl, ap, ◌∙◌, Bool, true, false, not, Option, none,
  some, List, [], ◌∷◌, ◌++◌, length, set, length-set, length-replicate, replicate, index_ok, All,
  ok, err, ◌>>=◌, ltb, ◌==◌, if-both, Settles, Settles-bind, Settles-reject, Settles-mono,
  reject_if, ◌>>◌, arith,
}
use Prim.Native.Nat.{compare, Ordering}
use native.Mathlib.Nat.{mul-suc}
use maybenot.Constants.{event_num, state_end}
use maybenot.Errors.{Reason}
use maybenot.Platform.{F64, zero64, Floats}
use maybenot.Dist.{Dist}
use maybenot.Event.{Event, events, to_usize}
use maybenot.State.{State, Trans, HasSlots, is_empty, fill_slots, assign}
use maybenot.State
use maybenot.Machine.{Machine}
use maybenot.Machine
use maybenot.Machine.Checked.{new-Settles}
use maybenot.Parsing.{
  Decoders, v1_events, section, slice, flag, machine_err, state_len, some_or, action_from,
  push_trans, f64_at, parse_dist, read_row, read_rows, dist_at, parse_state, parse_states, parse_v1,
  parse_version, parse_v1_machine,
}

abbrev Anything {ℓ} : {A : Type ℓ} → A → Type 0
Anything a = Unit

length-section : (buf : List ℕ) (i n : ℕ) → i + n ≤ length buf → length (section buf i n) ≡ n
unfolding section
length-section [] i n h = omega (arith, h)
length-section (x ∷ xs) (suc i) n h = length-section xs i n (omega (arith, h))
length-section (x ∷ xs) zero zero h = refl
length-section (x ∷ xs) zero (suc n) h = ap suc (length-section xs zero n (omega (arith, h)))

slice-Settles :
    (buf : List ℕ) (i n : ℕ) → i + n ≤ length buf → Settles (λ b. length b ≡ n) (slice buf i n)
slice-Settles buf i n h =
    if-both (Settles (λ b. length b ≡ n)) (ltb (length buf) (i + n)) _ _
      (λ e. absurd (ground (arith, e, h))) (λ e. length-section buf i n h)

flag-Settles : (buf : List ℕ) (i : ℕ) → i < length buf → Settles Anything (flag buf i)
flag-Settles buf i h = let (b, e) = index_ok buf i h in rw e tt

action_from-Settles :
    (timeout duration limit : Option Dist) (block bypass replace : Bool)
    → Settles Anything (action_from timeout duration limit block bypass replace)
unfolding action_from
action_from-Settles none duration limit block bypass replace = tt
action_from-Settles (some timeout) none limit true bypass replace = tt
action_from-Settles (some timeout) (some d) limit true bypass replace = tt
action_from-Settles (some timeout) duration limit false bypass replace = tt

length-fill_slots :
    (t : Event → List Trans) (es : List Event) (slots : List (Option (List Trans)))
    → length (fill_slots t es slots) ≡ length slots
unfolding fill_slots
length-fill_slots t [] slots = refl
length-fill_slots t (e ∷ rest) slots =
    if-both (λ ss. length (fill_slots t rest ss) ≡ length slots) (not (is_empty (t e))) _ _
      (λ b.
        length-fill_slots t rest (set slots (to_usize e) (some (t e)))
        ∙ length-set slots (to_usize e) (some (t e)))
      (λ b. length-fill_slots t rest slots)

new-HasSlots : (t : Event → List Trans) → HasSlots (State.new t)
unfolding State.new
new-HasSlots t =
    let slot : Option (List Trans) = none in
    length-fill_slots t events (replicate event_num slot) ∙ length-replicate event_num slot

-- The size of the rows.
rows : ℕ → List Event → ℕ
rows num_states [] = 0
rows num_states (e ∷ rest) = (num_states + 2) * 8 + rows num_states rest

module _ ⦃fl : Floats⦄ where
  push_trans-Settles :
      (n i : ℕ) (v : F64) (ts : List Trans) → Settles Anything (push_trans n i v ts)
  unfolding push_trans
  push_trans-Settles n i v ts =
      if-both (Settles Anything) (fl.eq64 v zero64) _ _ (λ e. tt) (λ e. by_order (compare i n))
    where
      by_order :
          (o : Ordering)
          → Settles Anything (elim o [
            | Ordering.lt ↦ ok (ts ++ (i, fl.to_f32 v) ∷ [])
            | Ordering.eq ↦ err (machine_err Reason.invalid_state)
            | Ordering.gt ↦ ok (ts ++ (state_end, fl.to_f32 v) ∷ [])
          ])
      by_order Ordering.lt = tt
      by_order Ordering.eq = tt
      by_order Ordering.gt = tt

module _ ⦃fl : Floats⦄ ⦃dec : Decoders⦄ where
  f64_at-Settles : (buf : List ℕ) (r : ℕ) → r + 8 ≤ length buf → Settles Anything (f64_at buf r)
  f64_at-Settles buf r h =
      Settles-bind (λ b. length b ≡ 8) Anything (slice buf r 8) _ (slice-Settles buf r 8 h)
        λ b e k. tt

  parse_dist-Settles : (buf : List ℕ) → Settles Anything (parse_dist buf)
  unfolding parse_dist
  parse_dist-Settles buf =
      Settles-reject Anything (ltb (length buf) 34) (machine_err Reason.too_small) _ λ enough.
        let size : 34 ≤ length buf = ground (arith, enough) in
        Settles-bind (λ b. length b ≡ 2) Anything (slice buf 0 2) _
          (slice-Settles buf 0 2 (omega (arith, size)))
          λ t et kt.
            Settles-bind Anything Anything (f64_at buf 2) _
              (f64_at-Settles buf 2 (omega (arith, size)))
              λ a ea ka.
                Settles-bind Anything Anything (f64_at buf 10) _
                  (f64_at-Settles buf 10 (omega (arith, size)))
                  λ b eb kb.
                    Settles-bind Anything Anything (f64_at buf 18) _
                      (f64_at-Settles buf 18 (omega (arith, size)))
                      λ c ec kc.
                        Settles-bind Anything Anything (f64_at buf 26) _
                          (f64_at-Settles buf 26 (omega (arith, size))) λ d ed kd. tt

  dist_at-Settles : (buf : List ℕ) (r : ℕ) → r + 34 ≤ length buf → Settles Anything (dist_at buf r)
  unfolding dist_at
  dist_at-Settles buf r h =
      Settles-bind (λ b. length b ≡ 34) Anything (slice buf r 34) _ (slice-Settles buf r 34 h)
        λ b e k. parse_dist-Settles b

  read_row-Settles :
      (k i n : ℕ) (buf : List ℕ) (r : ℕ) (ts : List Trans)
      → r + k * 8 ≤ length buf
      → Settles Anything (read_row k i n buf r ts)
  unfolding read_row
  read_row-Settles zero i n buf r ts h = tt
  read_row-Settles (suc k) i n buf r ts h =
      Settles-bind Anything Anything (f64_at buf r) _ (f64_at-Settles buf r (omega (arith, h)))
        λ v ev kv.
          Settles-bind Anything Anything (push_trans n i v ts) _ (push_trans-Settles n i v ts)
            λ ts' et kt. read_row-Settles k (suc i) n buf (r + 8) ts' (omega (arith, h))

  read_rows-Settles :
      (es : List Event) (n : ℕ) (buf : List ℕ) (r : ℕ) (t : Event → List Trans)
      → r + rows n es ≤ length buf
      → Settles Anything (read_rows es n buf r t)
  unfolding read_rows rows
  read_rows-Settles [] n buf r t h = tt
  read_rows-Settles (e ∷ rest) n buf r t h =
      Settles-bind Anything Anything (read_row (n + 2) 0 n buf r (t e)) _
        (read_row-Settles (n + 2) 0 n buf r (t e) (omega (arith, h)))
        λ v ev kv. read_rows-Settles rest n buf (r + (n + 2) * 8) (assign t e v) (omega (arith, h))

  parse_state-Settles : (buf : List ℕ) (n : ℕ) → Settles HasSlots (parse_state buf n)
  unfolding parse_state rows
  parse_state-Settles buf n =
      Settles-reject HasSlots (ltb (length buf) (state_len n)) (machine_err Reason.too_small) _
        λ enough.
          let size : 102 + 4 + (n + 2) * 64 ≤ length buf = ground (arith, enough) in
          Settles-bind Anything HasSlots (dist_at buf 0) _
            (dist_at-Settles buf 0 (omega (arith, size)))
            λ duration e1 k1.
              Settles-bind Anything HasSlots (dist_at buf 34) _
                (dist_at-Settles buf 34 (omega (arith, size)))
                λ limit e2 k2.
                  Settles-bind Anything HasSlots (dist_at buf 68) _
                    (dist_at-Settles buf 68 (omega (arith, size)))
                    λ timeout e3 k3.
                      Settles-bind Anything HasSlots (flag buf 102) _
                        (flag-Settles buf 102 (omega (arith, size)))
                        λ block e4 k4.
                          Settles-bind Anything HasSlots (flag buf 103) _
                            (flag-Settles buf 103 (omega (arith, size)))
                            λ bypass e5 k5.
                              Settles-bind Anything HasSlots (flag buf 104) _
                                (flag-Settles buf 104 (omega (arith, size)))
                                λ replace e6 k6.
                                  Settles-bind Anything HasSlots
                                    (action_from timeout duration limit block bypass replace) _
                                    (action_from-Settles timeout duration limit block bypass
                                      replace)
                                    λ action e7 k7.
                                      Settles-bind Anything HasSlots
                                        (read_rows v1_events n buf 106 (λ e. [])) _
                                        (read_rows-Settles v1_events n buf 106 (λ e. [])
                                          (omega (arith, size)))
                                        λ t e8 k8. new-HasSlots t

  parse_states-Settles :
      (k n : ℕ) (buf : List ℕ) (r : ℕ)
      → r + state_len n * k ≤ length buf
      → Settles (λ ss. All HasSlots ss × (length ss ≡ k)) (parse_states k n buf r)
  unfolding parse_states
  parse_states-Settles zero n buf r h = (tt, refl)
  parse_states-Settles (suc k) n buf r h =
      let Q : List State → Type 0 = λ ss. All HasSlots ss × (length ss ≡ suc k) in
      let step = mul-suc (state_len n) k in
      let room : r + (state_len n * k + state_len n) ≤ length buf = rw step at h in
      Settles-bind (λ b. length b ≡ state_len n) Q (slice buf r (state_len n)) _
        (slice-Settles buf r (state_len n) (omega (arith, room)))
        λ b eb kb. Settles-bind HasSlots Q (parse_state b n) _ (parse_state-Settles b n) λ s es ks.
          Settles-bind (λ ss. All HasSlots ss × (length ss ≡ k)) Q
            (parse_states k n buf (r + state_len n)) _
            (parse_states-Settles k n buf (r + state_len n) (omega (arith, room)))
            λ ss ess kss. ((ks, kss.0), ap suc kss.1)

  -- A validated machine, with an array of 13 slots in each of its states.
  abbrev pub IsParsedMachine : Machine → Type 0
  IsParsedMachine m = (Machine.validate m ≡ ok tt) × All HasSlots m.states

  parse_v1-Settles : (buf : List ℕ) → Settles IsParsedMachine (parse_v1 buf)
  unfolding parse_v1
  parse_v1-Settles buf =
      let P = IsParsedMachine in
      Settles-reject P (ltb (length buf) 35) (machine_err Reason.not_enough_data) _ λ enough.
        let size : 35 ≤ length buf = ground (arith, enough) in
        Settles-bind (λ b. length b ≡ 8) P (slice buf 0 8) _
          (slice-Settles buf 0 8 (omega (arith, size)))
          λ padding e1 k1.
            Settles-bind Anything P (f64_at buf 8) _ (f64_at-Settles buf 8 (omega (arith, size)))
              λ padding_frac e2 k2.
                Settles-bind (λ b. length b ≡ 8) P (slice buf 16 8) _
                  (slice-Settles buf 16 8 (omega (arith, size)))
                  λ blocked e3 k3.
                    Settles-bind Anything P (f64_at buf 24) _
                      (f64_at-Settles buf 24 (omega (arith, size)))
                      λ blocking_frac e4 k4.
                        Settles-bind (λ b. length b ≡ 2) P (slice buf 33 2) _
                          (slice-Settles buf 33 2 (omega (arith, size)))
                          λ count e5 k5.
                            states_of buf padding padding_frac blocked blocking_frac
                              (dec.read_u16 count) size
    where
      states_of :
          (buf padding : List ℕ) (padding_frac : F64) (blocked : List ℕ) (blocking_frac : F64)
          (n : ℕ)
          → 35 ≤ length buf
          → Settles IsParsedMachine (do
            reject_if
                (not (length buf - 35 == state_len n * n))
                (machine_err (Reason.unexpected_size (state_len n * n) n (length buf - 35)))
            parsed ← parse_states n n buf 35
            Machine.new
                (dec.read_u64 padding)
                padding_frac
                (dec.read_u64 blocked)
                blocking_frac
                parsed)
      states_of buf padding padding_frac blocked blocking_frac n size =
          let P = IsParsedMachine in
          Settles-reject P (not (length buf - 35 == state_len n * n)) _ _ λ exact.
            let fits : 35 + state_len n * n ≤ length buf = ground (arith, exact, size) in
            Settles-bind (λ ss. All HasSlots ss × (length ss ≡ n)) P (parse_states n n buf 35) _
              (parse_states-Settles n n buf 35 fits)
              λ ss e k.
                Settles-mono (λ m. (Machine.validate m ≡ ok tt) × (m.states ≡ ss)) P
                  (Machine.new (dec.read_u64 padding) padding_frac (dec.read_u64 blocked)
                    blocking_frac ss)
                  (λ m h. (h.0, rw h.1 k.0))
                  (new-Settles (dec.read_u64 padding) padding_frac (dec.read_u64 blocked)
                    blocking_frac ss)

  parse_version-Settles : (buf : List ℕ) → Settles IsParsedMachine (parse_version buf)
  unfolding parse_version
  parse_version-Settles [] = tt
  parse_version-Settles (low ∷ []) = tt
  parse_version-Settles (low ∷ high ∷ payload) =
      if-both (Settles IsParsedMachine) (low + 256 * high == 1) _ _ (λ e. parse_v1-Settles payload)
        (λ e. tt)

  some_or-Settles : (o : Option (List ℕ)) (e : Reason) → Settles Anything (some_or o e)
  some_or-Settles none e = tt
  some_or-Settles (some b) e = tt

  -- `parse_v1_machine` does not panic, whatever the text and whatever the decoders make of it: it
  -- yields an error, or a machine that passes `Machine::validate`, each state with its array of 13
  -- slots.
  pub parse_v1_machine-Settles : (s : List ℕ) → Settles IsParsedMachine (parse_v1_machine s)
  unfolding parse_v1_machine
  parse_v1_machine-Settles s =
      Settles-bind Anything IsParsedMachine (some_or (dec.decode s) Reason.bad_hex) _
        (some_or-Settles (dec.decode s) Reason.bad_hex)
        λ compressed e1 k1.
          Settles-bind Anything IsParsedMachine
            (some_or (dec.read_to_end compressed) Reason.bad_zlib) _
            (some_or-Settles (dec.read_to_end compressed) Reason.bad_zlib)
            λ buf e2 k2. parse_version-Settles buf

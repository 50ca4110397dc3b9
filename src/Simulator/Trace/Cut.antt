-- ===== src/Simulator/Trace/Cut.antt =====
-- crates/maybenot-simulator/src/lib.rs: the text functions that `parse_trace_advanced` calls, on text
-- of a known form.
use maybenot.Prelude.{
  ℕ, ◌+◌, ◌-◌, ◌*◌, ◌≤◌, ◌<◌, ◌≡◌, ◌≢◌, refl, sym, ap, ◌∙◌, true, false, some, List, [], ◌∷◌, ◌++◌,
  All, ◌==◌, if-both, ne→==_false, lt→ltb, ltb, arith,
}
use maybenot.Constants.{u64_mod}
use maybenot.Simulator.Trace.Strings.{
  Text, newline, carriage_return, join_first, split, strip_return, end_lines, lines, is_whitespace,
  trim_start, before_end, trim_end, trim, is_digit, parse_digits, parse_u64,
}

abbrev pub Lacks : ℕ → Text → Type 0
Lacks sep s = All (λ c. c ≢ sep) s

-- A text is cut at the first separator.
pub split-append :
    (sep : ℕ) (part s : Text) → Lacks sep part → split sep (part ++ sep ∷ s) ≡ part ∷ split sep s
unfolding split join_first
split-append sep [] s h = let same : (sep == sep) ≡ true = ground arith in rw same refl
split-append sep (c ∷ part) s h =
    rw (ne→==_false c sep h.0) (ap (λ parts. join_first c parts) (split-append sep part s h.1))

-- There is a first part.
split_cons : (sep : ℕ) (s : Text) → (part : Text) × (rest : List Text) × (split sep s ≡ part ∷ rest)
unfolding split join_first
split_cons sep [] = ([], [], refl)
split_cons sep (c ∷ s) =
    let (part, rest, e) = split_cons sep s in
    if-both (λ parts. (part' : Text) × (rest' : List Text) × (parts ≡ part' ∷ rest')) (c == sep) _ _
      (λ b. ([], split sep s, refl)) (λ b. (c ∷ part, rest, ap (λ parts. join_first c parts) e))

strip_return_same : (s : Text) → Lacks carriage_return s → strip_return s ≡ s
unfolding strip_return
strip_return_same [] h = refl
strip_return_same (c ∷ []) h = rw (ne→==_false c carriage_return h.0) refl
strip_return_same (c ∷ d ∷ s) h = ap (λ t. c ∷ t) (strip_return_same (d ∷ s) h.1)

end_lines_next :
    (line next : Text) (rest : List Text)
    → end_lines (line ∷ next ∷ rest) ≡ strip_return line ∷ end_lines (next ∷ rest)
unfolding end_lines
end_lines_next [] next rest = refl
end_lines_next (c ∷ line) next rest = refl

-- Each line with a newline after it.
unfoldable pub unlines : List Text → Text
unlines [] = []
unlines (line ∷ rest) = line ++ newline ∷ unlines rest

abbrev pub OneLine : Text → Type 0
OneLine s = Lacks newline s × Lacks carriage_return s

end_lines_nil : end_lines (split newline []) ≡ []
unfolding split end_lines
end_lines_nil = refl

pub lines-unlines : (ls : List Text) → All OneLine ls → lines (unlines ls) ≡ ls
unfolding lines unlines
lines-unlines [] h = end_lines_nil
lines-unlines (line ∷ rest) h =
    let (part, parts, e) = split_cons newline (unlines rest) in
    ap (λ ps. end_lines ps) (split-append newline line (unlines rest) h.0.0)
    ∙ ap (λ ps. end_lines (line ∷ ps)) e
    ∙ end_lines_next line part parts
    ∙ ap (λ l. l ∷ end_lines (part ∷ parts)) (strip_return_same line h.0.1)
    ∙ ap (λ ps. line ∷ end_lines ps) (sym e)
    ∙ ap (λ ls. line ∷ ls) (lines-unlines rest h.1)

abbrev pub AllDigits : Text → Type 0
AllDigits s = All (λ c. is_digit c ≡ true) s

digit_white : (c : ℕ) → is_digit c ≡ true → is_whitespace c ≡ false
unfolding is_whitespace
digit_white c h = ground arith

trim_end_digits : (s : Text) → AllDigits s → trim_end s ≡ s
unfolding trim_end
trim_end_digits [] h = refl
trim_end_digits (c ∷ s) h = ap (λ t. before_end c t) (trim_end_digits s h.1) ∙ at_end c s h.0
  where
    at_end : (c : ℕ) (s : Text) → is_digit c ≡ true → before_end c s ≡ c ∷ s
    at_end c [] h = rw (digit_white c h) refl
    at_end c (d ∷ s) h = refl

trim_digits : (s : Text) → AllDigits s → trim s ≡ s
unfolding trim_start
trim_digits [] h = trim_end_digits [] h
trim_digits (c ∷ s) h = rw (digit_white c h.0) (trim_end_digits (c ∷ s) h)

-- The number that digits after `n` stand for.
unfoldable pub value : ℕ → Text → ℕ
value n [] = n
value n (c ∷ s) = value (n * 10 + (c - b'0')) s

value_ge : (n : ℕ) (s : Text) → n ≤ value n s
unfolding value
value_ge n [] = omega arith
value_ge n (c ∷ s) = omega (arith, value_ge (n * 10 + (c - b'0')) s)

parse_digits-value :
    (n : ℕ) (s : Text) → AllDigits s → value n s < u64_mod → parse_digits n s ≡ some (value n s)
unfolding parse_digits value
parse_digits-value n [] h lt = refl
parse_digits-value n (c ∷ s) h lt =
    let next = n * 10 + (c - b'0') in
    let small : ltb next u64_mod ≡ true =
      lt→ltb next u64_mod (omega (arith, lt, value_ge next s)) in
    rw h.0 (rw small (parse_digits-value next s h.1 lt))

no_sign : (c : ℕ) (s : Text) → AllDigits (c ∷ s) → parse_u64 (c ∷ s) ≡ parse_digits 0 (c ∷ s)
unfolding parse_u64
no_sign c [] h = refl
no_sign c (d ∷ s) h = let plain : (c == b'+') ≡ false = ground (arith, h.0) in rw plain refl

-- Digits are read as the number that they stand for.
pub parse_u64-value :
    (c : ℕ) (s : Text)
    → AllDigits (c ∷ s)
    → value 0 (c ∷ s) < u64_mod
    → parse_u64 (trim (c ∷ s)) ≡ some (value 0 (c ∷ s))
parse_u64-value c s h lt =
    ap (λ t. parse_u64 t) (trim_digits (c ∷ s) h)
    ∙ no_sign c s h
    ∙ parse_digits-value 0 (c ∷ s) h lt

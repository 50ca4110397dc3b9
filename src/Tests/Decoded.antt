-- ===== src/Tests/Decoded.antt =====
-- A machine of version 1, and the theorem on its parser at it.
use maybenot.Prelude.{ℕ, ◌+◌, ◌*◌, some, List, [], ◌∷◌, ◌++◌, replicate, Settles}
use maybenot.Parsing.{Decoders, parse_v1_machine}
use maybenot.Parsing.Total.{IsParsedMachine, parse_v1_machine-Settles}
use maybenot.Tests.Fixture.{flat}

abbrev little_endian : List ℕ → ℕ
little_endian [] = 0
little_endian (b ∷ rest) = b + 256 * little_endian rest

-- The text is not compressed.
instance abbrev plain : Decoders
plain = record {
  read_u16 = little_endian;
  read_u64 = little_endian;
  read_f64 = little_endian;
  decode = λ s. some s;
  read_to_end = λ s. some s;
}

-- One state, without an action and without transitions.
abbrev noop : List ℕ
noop = 1 ∷ 0 ∷ replicate 33 0 ++ 1 ∷ replicate 299 0

parse_v1_machine-Settles_example : Settles IsParsedMachine (parse_v1_machine noop)
parse_v1_machine-Settles_example = parse_v1_machine-Settles noop

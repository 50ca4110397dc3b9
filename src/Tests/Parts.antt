-- ===== src/Tests/Parts.antt =====
-- The theorems on the parts of a machine, each at a concrete input.
use maybenot.Prelude.{ok, ◌≡◌, ◌↔◌, ◌⊎◌, none, some, [], ◌∷◌, ℕ, refl, inl, Returns}
use maybenot.Dist
use maybenot.Dist.Sample.{sample}
use maybenot.Dist.Draws.{InRange, sample-validated}
use maybenot.State.{validate, pick}
use maybenot.State.Exact.{ValidState, validate-ValidState, Passed, Chosen, pick-Chosen}
use maybenot.Machine.Sound.{IsSound, validate-IsSound}
use maybenot.Tests.Fixture.{flat, counting, constant, pad_once, idle, draws, pad_once-validated}

sample-validated_example : Returns (λ r. InRange (constant 5) r.0) (sample {R = ℕ} (constant 5) 0)
unfolding maybenot.Dist.validate
sample-validated_example = sample-validated (constant 5) 0 refl (inl refl)

validate-IsSound_example : IsSound pad_once
validate-IsSound_example = validate-IsSound pad_once pad_once-validated draws.0

validate-ValidState_example : (validate idle 2 ≡ ok tt) ↔ ValidState 2 idle
validate-ValidState_example = validate-ValidState idle 2

pick-Chosen_example :
    ((pick 5 0 ((7, 3) ∷ (8, 4) ∷ []) ≡ none) × Passed 5 0 ((7, 3) ∷ (8, 4) ∷ []))
    ⊎ ((t : ℕ) × (pick 5 0 ((7, 3) ∷ (8, 4) ∷ []) ≡ some t) × Chosen 5 0 ((7, 3) ∷ (8, 4) ∷ []) t)
pick-Chosen_example = pick-Chosen 5 0 ((7, 3) ∷ (8, 4) ∷ [])

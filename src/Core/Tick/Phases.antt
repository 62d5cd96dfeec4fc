-- ===== src/Core/Tick/Phases.antt =====
-- The order of the phases in crates/exoskeleton-core/src/tick.rs.
use exoskeleton.Base.{ℕ, zero, suc, ◌≡◌, refl, Option, none, some, List, [], ◌∷◌}
use exoskeleton.Core.Tick.{TickPhase, sequence, next}

-- The phase that is reached after so many steps of `next`.
pub phase_after : ℕ → TickPhase → Option TickPhase
phase_after zero p = some p
phase_after (suc n) p =
    let later : TickPhase → Option TickPhase = phase_after n in
    elim (next p) [ none ↦ none | some q ↦ later q ]

abbrev pub nth_phase : ℕ → List TickPhase → Option TickPhase
nth_phase n [] = none
nth_phase zero (p ∷ ps) = some p
nth_phase (suc n) (p ∷ ps) = nth_phase n ps

-- Stepping from the first phase goes through the listed sequence: after n steps the phase is the
-- one at place n of the list, and there is none once the list has ended.
pub phase_after-sequence : (n : ℕ) → phase_after n TickPhase.perceive ≡ nth_phase n sequence
unfolding phase_after next sequence
phase_after-sequence zero = refl
phase_after-sequence (suc zero) = refl
phase_after-sequence (suc (suc zero)) = refl
phase_after-sequence (suc (suc (suc zero))) = refl
phase_after-sequence (suc (suc (suc (suc zero)))) = refl
phase_after-sequence (suc (suc (suc (suc (suc zero))))) = refl
phase_after-sequence (suc (suc (suc (suc (suc (suc zero)))))) = refl
phase_after-sequence (suc (suc (suc (suc (suc (suc (suc n))))))) = refl

-- ===== src/Budget/Thrash/Level.antt =====
-- Which level the detector reports, by what the ticks hold.
use exoskeleton.Budget.Thrash.Repetition.{failures}
use exoskeleton.Base.{
  if◌then◌else◌, length, filter, any, ℕ, ◌+◌, ◌≤◌, ◌<◌, String, ◌≡◌, ◌⊎◌, true, false, List, [],
  ◌∷◌,
}
use exoskeleton.Core.Tick.{TickRecord, LlmCallRecord, total_tokens}
use exoskeleton.Budget.Thrash.{is_waste, has_actions, has_successful_action}

-- The ticks after the last one with a successful action.
abbrev pub since_success : {F : Type 0} → List (TickRecord F) → List (TickRecord F)
since_success [] = []
since_success (t ∷ ts) =
    let rest = since_success ts in if any has_successful_action (t ∷ ts) then rest else t ∷ ts

abbrev pub tokens_of : {F : Type 0} → List (LlmCallRecord F) → ℕ
tokens_of [] = 0
tokens_of (c ∷ cs) = total_tokens c + tokens_of cs

-- The tokens of all calls of the ticks.
abbrev pub tokens_spent : {F : Type 0} → List (TickRecord F) → ℕ
tokens_spent [] = 0
tokens_spent (t ∷ ts) = tokens_of t.llm_calls + tokens_spent ts

module _ {F : Type 0} where
  -- Some action type failed so often in the ticks.
  abbrev pub FailedTimes : ℕ → List (TickRecord F) → Type 0
  FailedTimes n ts = (k : String) × (n ≤ failures k ts)

  -- So many ticks took actions since the last success, none of them with success.
  abbrev pub StalledFor : ℕ → List (TickRecord F) → Type 0
  StalledFor n ts = n ≤ length (filter has_actions (since_success ts))

  -- There were actions, none succeeded, and the calls took more than 10000 tokens.
  abbrev pub IsWasted : List (TickRecord F) → Type 0
  IsWasted ts =
      (any has_actions ts ≡ true)
      × (any has_successful_action ts ≡ false)
      × (10000 < tokens_spent ts)

  abbrev pub IsHigh : List (TickRecord F) → Type 0
  IsHigh ts = FailedTimes 5 ts ⊎ StalledFor 10 ts

  abbrev pub IsMedium : List (TickRecord F) → Type 0
  IsMedium ts = FailedTimes 3 ts ⊎ StalledFor 5 ts ⊎ IsWasted ts

-- The level by the three findings of the code.
abbrev HighFinding : ℕ → ℕ → Type 0
HighFinding repetition stagnant = (5 ≤ repetition) ⊎ (10 ≤ stagnant)

abbrev MediumFinding : ℕ → ℕ → ℕ × ℕ × ℕ → Type 0
MediumFinding repetition stagnant efficiency =
    (3 ≤ repetition) ⊎ (5 ≤ stagnant) ⊎ (is_waste efficiency ≡ true)

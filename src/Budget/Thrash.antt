-- ===== src/Budget/Thrash.antt =====
-- crates/exoskeleton-host/src/budget/thrash.rs: signs of thrashing in the recent ticks. A formatted
-- indicator is the values that are printed into it.
pub mod Repetition
pub mod Stagnation
pub mod Level
use exoskeleton.Base.{
  ltb, leb, eqb, if◌then◌else◌, length, any, is_empty, Dict, upsert, saturating_add, ℕ, suc, ◌+◌,
  max, String, Bool, not, ◌&&◌, List, [], ◌∷◌, ◌++◌, nat_eq, string_eq,
}
use exoskeleton.Core.Tick.{
  TickRecord, ActionRecord, is_success, is_failure, total_tokens, LlmCallRecord,
}
use exoskeleton.Budget.Tracker.{ThrashLevel, none, low, medium, high}

pub data Indicator : Type 0 where
  same_action_failed action_repeated no_state_change no_progress : ℕ → Indicator
  tokens_wasted : ℕ → ℕ → Indicator

pub data Recommendation : Type 0 where
  nothing increase_interval escalate_and_reduce suspend_and_alert : Recommendation

pub record ThrashAssessment : Type 0 where
  pub level : ThrashLevel
  pub indicators : List Indicator
  pub recommendation : Recommendation

abbrev rank : ThrashLevel → ℕ
rank none = 0
rank low = 1
rank medium = 2
rank high = 3

-- `Ord::max`, of the order in which the levels are declared.
abbrev pub max_of : ThrashLevel → ThrashLevel → ThrashLevel
max_of a b = if leb (rank a) (rank b) then b else a

abbrev pub recommend : ThrashLevel → Recommendation
recommend none = nothing
recommend low = increase_interval
recommend medium = escalate_and_reduce
recommend high = suspend_and_alert

count_failures : List ActionRecord → Dict String ℕ → Dict String ℕ
count_failures [] counts = counts
count_failures (a ∷ as') counts =
    count_failures as'
      (if is_failure a.outcome then upsert a.action_type 0 (λ n. suc n) counts else counts)

max_count : Dict String ℕ → ℕ
max_count [] = 0
max_count ((k, n) ∷ m) = max n (max_count m)

count_successes : List ActionRecord → ℕ
count_successes [] = 0
count_successes (a ∷ as') = (if is_success a.outcome then 1 else 0) + count_successes as'

by_repetition : ℕ → ThrashLevel × List Indicator
by_repetition n =
    if leb 5 n
    then (high, same_action_failed n ∷ [])
    else if leb 3 n
    then (medium, action_repeated n ∷ [])
    else (none, [])

by_stagnation : ℕ → ThrashLevel × List Indicator
by_stagnation n =
    if leb 10 n
    then (high, no_state_change n ∷ [])
    else if leb 5 n
    then (medium, no_progress n ∷ [])
    else (none, [])

abbrev pub is_waste : ℕ × ℕ × ℕ → Bool
is_waste (tokens, successes, attempts) = ltb 0 attempts && eqb successes 0 && ltb 10000 tokens

by_waste : ℕ × ℕ × ℕ → ThrashLevel × List Indicator
by_waste e = if is_waste e then (medium, tokens_wasted e.0 e.2 ∷ []) else (none, [])

-- The three findings in the order of the code: the level is the greatest, the indicators follow one
-- another.
assess : ℕ → ℕ → ℕ × ℕ × ℕ → ThrashAssessment
unfolding by_repetition by_stagnation by_waste
assess repetition stagnant efficiency =
    let (l₁, i₁) = by_repetition repetition in
    let (l₂, i₂) = by_stagnation stagnant in
    let (l₃, i₃) = by_waste efficiency in
    let level : ThrashLevel = max_of (max_of (max_of none l₁) l₂) l₃ in
    record { level = level; indicators = i₁ ++ i₂ ++ i₃; recommendation = recommend level }

module _ {F : Type 0} where
  count_ticks : List (TickRecord F) → Dict String ℕ → Dict String ℕ
  count_ticks [] counts = counts
  count_ticks (t ∷ ts) counts = count_ticks ts (count_failures t.actions_taken counts)

  pub check_action_repetition : List (TickRecord F) → ℕ
  check_action_repetition ts = max_count (count_ticks ts [])

  abbrev pub has_actions : TickRecord F → Bool
  has_actions t = not (is_empty t.actions_taken)

  abbrev pub has_successful_action : TickRecord F → Bool
  has_successful_action t = any (λ a. is_success a.outcome) t.actions_taken

  pub stagnation_step : ℕ → TickRecord F → ℕ
  stagnation_step stagnant t =
      if has_actions t && has_successful_action t
      then 0
      else if has_actions t && not (has_successful_action t)
      then suc stagnant
      else stagnant

  pub stagnation_from : ℕ → List (TickRecord F) → ℕ
  stagnation_from stagnant [] = stagnant
  stagnation_from stagnant (t ∷ ts) = stagnation_from (stagnation_step stagnant t) ts

  pub check_stagnation : List (TickRecord F) → ℕ
  unfolding stagnation_from
  check_stagnation = stagnation_from 0

  sum_tokens : ℕ → List (LlmCallRecord F) → ℕ
  sum_tokens acc [] = acc
  sum_tokens acc (c ∷ cs) = sum_tokens (saturating_add acc (total_tokens c)) cs

  efficiency_from : ℕ → ℕ → ℕ → List (TickRecord F) → ℕ × ℕ × ℕ
  efficiency_from tokens successes attempts [] = (tokens, successes, attempts)
  efficiency_from tokens successes attempts (t ∷ ts) =
      efficiency_from (sum_tokens tokens t.llm_calls) (successes + count_successes t.actions_taken)
        (attempts + length t.actions_taken) ts

  -- The tokens, the successful actions and all actions of the ticks.
  pub check_efficiency : List (TickRecord F) → ℕ × ℕ × ℕ
  check_efficiency = efficiency_from 0 0 0

  pub check : List (TickRecord F) → ThrashAssessment
  unfolding assess
  check [] = record { level = none; indicators = []; recommendation = nothing }
  check (t ∷ ts) =
      let recent = t ∷ ts in
      assess (check_action_repetition recent) (check_stagnation recent) (check_efficiency recent)

-- ===== src/Budget/Tracker/Status.antt =====
-- The reports of crates/exoskeleton-host/src/budget/tracker.rs.
use exoskeleton.Base.{
  ltb, if◌then◌else◌, ◌==◌, ℕ, ◌-◌, ◌/◌, String, Bool, Option, none, some, List, [], ◌∷◌, nat_eq,
  string_eq,
}
use exoskeleton.Core.Snapshot.{BudgetStatus}
use exoskeleton.Budget.Tracker.{
  Tracker, remaining_local_tokens, remaining_frontier_tokens, remaining_frontier_cost,
  nanos_per_sec, Chrono, window_end,
}

pub record BudgetDimensionState : Type 0 where
  pub dimension : String
  pub limit : ℕ
  pub consumed : ℕ
  pub remaining : ℕ
  pub exhausted : Bool

pub record BudgetState : Type 0 where
  pub dimensions : List BudgetDimensionState
  pub window_start : ℕ
  pub window_secs : ℕ
  pub frontier_calls_this_window : ℕ
  pub consecutive_failures : ℕ

-- The one dimension of the queue's budget that is reported.
pub data BudgetConsumption : Type 0 where
  token : (amount : ℕ) → BudgetConsumption

abbrev dimension_state : String → ℕ → ℕ → ℕ → BudgetDimensionState
dimension_state name limit consumed remaining = record {
  dimension = name;
  limit = limit;
  consumed = consumed;
  remaining = remaining;
  exhausted = remaining == 0;
}

module _ {F S : Type 0} where
  -- What is left of the window in whole seconds, 0 when it has ended, and nothing where the
  -- computation of its end panics.
  abbrev pub time_remaining : Chrono → ℕ → Tracker F S → Option ℕ
  time_remaining c now t = elim (window_end c t.state.window_start t.config.time_window_secs) [
    | none ↦ none
    | some end_time ↦ some ((end_time - now) / nanos_per_sec)
  ]

  abbrev status_with : ℕ → ℕ → Tracker F S → BudgetStatus
  status_with tool_invocations_remaining time_secs_remaining t = record {
    local_tokens_remaining = remaining_local_tokens t;
    frontier_tokens_remaining = remaining_frontier_tokens t;
    frontier_cost_cents_remaining = remaining_frontier_cost t;
    time_secs_remaining = time_secs_remaining;
    thrash_level = t.thrash_level;
    tool_invocations_remaining = tool_invocations_remaining;
  }

  unfoldable budget_status : Chrono → ℕ → ℕ → Tracker F S → Option BudgetStatus
  budget_status c now tool_invocations_remaining t = elim (time_remaining c now t) [
    | none ↦ none
    | some secs ↦ some (status_with tool_invocations_remaining secs t)
  ]

  unfoldable build_consumption : Tracker F S → List BudgetConsumption
  build_consumption t =
      if ltb 0 t.state.tick_tokens_this_tick
      then BudgetConsumption.token t.state.tick_tokens_this_tick ∷ []
      else []

  unfoldable budget_state : Tracker F S → BudgetState
  budget_state t = record {
    dimensions =
        dimension_state "local_tokens" t.config.local_token_budget t.state.local_tokens_consumed
          (remaining_local_tokens t)
        ∷ dimension_state "frontier_tokens" t.config.frontier_token_budget
            t.state.frontier_tokens_consumed (remaining_frontier_tokens t)
        ∷ dimension_state "frontier_cost_cents" t.config.frontier_cost_budget_cents
            t.state.frontier_cost_consumed (remaining_frontier_cost t)
        ∷ [];
    window_start = t.state.window_start;
    window_secs = t.config.time_window_secs;
    frontier_calls_this_window = t.state.frontier_calls;
    consecutive_failures = t.state.consecutive_failures;
  }

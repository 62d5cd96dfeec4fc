-- ===== src/Budget/Config.antt =====
-- crates/exoskeleton-core/src/budget.rs: the configurations and what their `validate` accepts.
use exoskeleton.Base.{
  ◌==◌, ℕ, ◌<◌, String, ◌≡◌, ◌↔◌, ◌⊎◌, Bool, true, not, ◌&&◌, List, arith, nat_eq, string_eq,
}
use exoskeleton.Base.Errors.{config, Result, ok, reject, ◌>>◌}
use exoskeleton.Base.Float.{F64}

pub record EscalationPolicy (F : Type 0) : Type 0 where
  pub escalate_on_uncertainty : F
  pub escalate_on_stakes : List String
  pub escalate_on_consecutive_failures : ℕ
  pub max_frontier_calls_per_window : ℕ

pub record CognitiveBudgetConfig (F : Type 0) : Type 0 where
  pub local_token_budget : ℕ
  pub frontier_token_budget : ℕ
  pub frontier_cost_budget_cents : ℕ
  pub time_window_secs : ℕ
  pub per_tick_token_cap : ℕ
  pub per_thread_token_cap : ℕ
  pub escalation_policy : EscalationPolicy F

pub record ToolBudgetConfig : Type 0 where
  pub max_invocations_per_window : ℕ
  pub time_window_secs : ℕ

module _ {F : Type 0} ⦃f : F64 F⦄ where
  -- `(0.0..=1.0).contains(&u)`
  pub in_unit_range : F → Bool
  in_unit_range u = f.le (f.decimal 0 0) u && f.le u (f.decimal 1 0)

  pub validate_policy : EscalationPolicy F → Result (Unit {0})
  validate_policy p =
      reject (not (in_unit_range p.escalate_on_uncertainty))
        (config "escalate_on_uncertainty must be between 0.0 and 1.0")

  pub validate_cognitive : CognitiveBudgetConfig F → Result (Unit {0})
  validate_cognitive c = do
    reject (c.time_window_secs == 0) (config "time_window_secs must be > 0")
    reject (c.local_token_budget == 0 && c.frontier_token_budget == 0)
        (config "at least one token budget (local or frontier) must be > 0")
    reject (c.per_tick_token_cap == 0) (config "per_tick_token_cap must be > 0")
    reject (c.per_thread_token_cap == 0) (config "per_thread_token_cap must be > 0")
    validate_policy c.escalation_policy

unfoldable validate_tool : ToolBudgetConfig → Result (Unit {0})
validate_tool c = do
  reject (c.time_window_secs == 0) (config "tool budget time_window_secs must be > 0")
  reject (c.max_invocations_per_window == 0) (config "max_invocations_per_window must be > 0")
  ok tt

module _ {F : Type 0} ⦃f : F64 F⦄ where
  abbrev pub IsUsable : CognitiveBudgetConfig F → Type 0
  IsUsable c =
      (0 < c.time_window_secs)
      × ((0 < c.local_token_budget) ⊎ (0 < c.frontier_token_budget))
      × (0 < c.per_tick_token_cap)
      × (0 < c.per_thread_token_cap)
      × (in_unit_range c.escalation_policy.escalate_on_uncertainty ≡ true)

  -- A cognitive budget configuration is accepted exactly when its window, its two caps and one of
  -- its token budgets are positive, and its uncertainty threshold lies between 0.0 and 1.0.
  pub validate_cognitive-iff_IsUsable :
      (c : CognitiveBudgetConfig F) → (validate_cognitive c ≡ ok tt) ↔ IsUsable c
  unfolding validate_cognitive validate_policy
  validate_cognitive-iff_IsUsable c = ground arith

-- ===== src/Budget/Gate.antt =====
-- crates/exoskeleton-host/src/budget/mod.rs: the rate limit on tool invocations at the Act step.
-- `Utc::now()` is the argument `now`.
use exoskeleton.Base.{
  ltb, if◌then◌else◌, u64_max, saturating_add, ℕ, zero, suc, ◌+◌, ◌-◌, ◌≤◌, min, ◌≡◌, Bool, arith,
}
use exoskeleton.Budget.Config.{ToolBudgetConfig}

pub record ToolBudgetGate : Type 0 where
  pub config : ToolBudgetConfig
  pub invocations_this_window : ℕ
  pub window_start : ℕ

unfoldable pub new : ToolBudgetConfig → ℕ → ToolBudgetGate
new c now = record { config = c; invocations_this_window = 0; window_start = now }

unfoldable pub check : ToolBudgetGate → Bool
check g = ltb g.invocations_this_window g.config.max_invocations_per_window

unfoldable pub record_invocation : ToolBudgetGate → ToolBudgetGate
record_invocation g = record g {
  invocations_this_window = saturating_add g.invocations_this_window 1;
}

pub remaining : ToolBudgetGate → ℕ
remaining g = g.config.max_invocations_per_window - g.invocations_this_window

unfoldable pub reset_window : ℕ → ToolBudgetGate → ToolBudgetGate
reset_window now g = record g { invocations_this_window = 0; window_start = now }

unfoldable restore : ℕ → ℕ → ToolBudgetGate → ToolBudgetGate
restore invocations start g = record g {
  invocations_this_window = invocations;
  window_start = start;
}

-- A caller that asks before each of `n` invocations, and how many of them it was allowed.
unfoldable pub attempts : ℕ → ToolBudgetGate → ToolBudgetGate × ℕ
attempts zero g = (g, 0)
attempts (suc n) g =
    let (g', allowed) = attempts n (if check g then record_invocation g else g) in
    (g', if check g then suc allowed else allowed)

-- With a limit that fits in 64 bits, of any number of invocations that are asked for within a
-- window, exactly as many are allowed as remained at its start, or all if they are fewer; the count
-- of the window grows by the ones allowed, so it never passes a limit that it was within, and what
-- remains shrinks by them.
pub attempts_lem :
    (n : ℕ) (g : ToolBudgetGate)
    → g.config.max_invocations_per_window ≤ u64_max
    → let (g', allowed) = attempts n g in
      (allowed ≡ min n (remaining g))
      × (g'.invocations_this_window ≡ g.invocations_this_window + allowed)
      × (remaining g' ≡ remaining g - allowed)
      × (g'.config ≡ g.config)
      × (g'.window_start ≡ g.window_start)
unfolding attempts check record_invocation remaining
attempts_lem zero g h = ground arith
attempts_lem (suc n) g h =
    ground (arith, attempts_lem n g h, attempts_lem n (record_invocation g) h)

-- ===== src/Kernel/Backend/Escalation.antt =====
-- When crates/exoskeleton-host/src/kernel/decide.rs asks the frontier model, and what a call charges.
use exoskeleton.Base.{◌≤◌, ◌<◌, ◌≡◌, ◌↔◌, ◌⊎◌, Bool, true, Option, arith}
use exoskeleton.Base.Float.{F64}
use exoskeleton.Budget.Tracker.{
  Tracker, local, frontier, remaining_frontier_tokens, remaining_frontier_cost,
}
use exoskeleton.Kernel.Backend.{
  CognitiveHandler, check_escalation_triggers, above_threshold, resolve_tracked,
}

module _ {F S : Type 0} ⦃f : F64 F⦄ where
  -- Some trigger fires: failures in a row, the reported thrash, or a severe threat.
  abbrev pub Triggered : Option F → Bool → Tracker F S → Type 0
  Triggered thrash severe t =
      (t.config.escalation_policy.escalate_on_consecutive_failures ≤ t.state.consecutive_failures)
      ⊎ (above_threshold thrash t.config.escalation_policy.escalate_on_uncertainty ≡ true)
      ⊎ (severe ≡ true)

  abbrev pub FrontierAllowed : Tracker F S → Type 0
  FrontierAllowed t =
      (t.state.frontier_tokens_consumed < t.config.frontier_token_budget)
      × (t.state.frontier_cost_consumed < t.config.frontier_cost_budget_cents)
      × (t.state.frontier_calls < t.config.escalation_policy.max_frontier_calls_per_window)

  triggers-iff_Triggered :
      (thrash : Option F) (severe : Bool) (t : Tracker F S)
      → (check_escalation_triggers thrash severe t ≡ true) ↔ Triggered thrash severe t
  unfolding check_escalation_triggers
  triggers-iff_Triggered thrash severe t = ground arith

  -- With the local model as default, the frontier model is asked exactly when it is configured, a
  -- trigger fires, frontier tokens and frontier cost are left, and the window has had fewer frontier
  -- calls than the policy allows, whatever action types the policy lists as stakes.
  pub resolve_tracked-frontier_iff :
      (h : CognitiveHandler) (thrash : Option F) (severe : Bool) (t : Tracker F S)
      → h.default_backend ≡ local
      → (resolve_tracked h thrash severe t ≡ frontier)
        ↔ ((h.has_frontier ≡ true) × Triggered thrash severe t × FrontierAllowed t)
  unfolding resolve_tracked remaining_frontier_tokens remaining_frontier_cost
  resolve_tracked-frontier_iff h thrash severe t d =
      ground (arith, d, triggers-iff_Triggered thrash severe t)

-- ===== src/Budget/Tracker/Check.antt =====
-- What the budget checks decide, in terms of the amounts consumed and their limits.
use exoskeleton.Base.{
  if◌then◌else◌, unwrap_or, lookup, lookup-upsert, saturating_add, ◌==◌, ℕ, ◌≤◌, ◌<◌, ◌≡◌, ◌↔◌,
  false, arith, nat_eq, string_eq,
}
use exoskeleton.Budget.Tracker.{
  Tracker, available, fallback, exhausted, local, frontier, check_cognitive_budget,
  check_thread_budget, record_thread_consumption,
}

module _ {F S : Type 0} (t : Tracker F S) where
  open t use {config, state}

  abbrev pub LocalLeft : Type 0
  LocalLeft = state.local_tokens_consumed < config.local_token_budget

  abbrev pub FrontierLeft : Type 0
  FrontierLeft =
      (state.frontier_tokens_consumed < config.frontier_token_budget)
      × (state.frontier_cost_consumed < config.frontier_cost_budget_cents)

  -- The local model is offered exactly while its tokens last; the frontier model is the fallback
  -- exactly when they are gone and both frontier tokens and frontier cost are left; in every other
  -- case, and in no other, the budget is exhausted.
  pub check_cognitive_budget_cases :
      ((check_cognitive_budget t ≡ available local) ↔ LocalLeft)
      × ((check_cognitive_budget t ≡ fallback frontier) ↔ ((¬ LocalLeft) × FrontierLeft))
      × ((check_cognitive_budget t ≡ exhausted) ↔ ((¬ LocalLeft) × (¬ FrontierLeft)))
  unfolding check_cognitive_budget
  check_cognitive_budget_cases = (ground arith, ground arith, ground arith)

module _ {F S : Type 0} where
  abbrev pub consumed : ℕ → Tracker F S → ℕ
  consumed thread_id t = unwrap_or (lookup thread_id t.state.per_thread_consumed) 0

  -- Recording tokens for one thread adds them to its own total, capped at 2^64 - 1, leaves the
  -- total of every other thread alone, and shuts the thread out exactly when the new total reaches
  -- the cap.
  pub record_thread_consumption_lem :
      (thread_id other tokens : ℕ) (t : Tracker F S)
      → let t' = record_thread_consumption thread_id tokens t in
        (consumed other t' ≡ (
          if thread_id == other
          then saturating_add (consumed other t) tokens
          else consumed other t))
        × ((check_thread_budget thread_id t' ≡ false)
            ↔ (t.config.per_thread_token_cap ≤ saturating_add (consumed thread_id t) tokens))
  unfolding record_thread_consumption check_thread_budget
  record_thread_consumption_lem thread_id other tokens t =
      let m = t.state.per_thread_consumed in
      let add : ℕ → ℕ = λ n. saturating_add n tokens in
      (
        ground (arith, lookup-upsert thread_id other 0 add m),
        ground (arith, lookup-upsert thread_id thread_id 0 add m),
      )

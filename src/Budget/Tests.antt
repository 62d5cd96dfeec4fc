-- ===== src/Budget/Tests.antt =====
-- Runs of the budget's definitions, and its theorems at concrete inputs.
use exoskeleton.Base.{
  ltb, if◌then◌else◌, ℕ, ◌+◌, ◌-◌, ◌*◌, ◌^◌, min, String, ◌≡◌, refl, ◌↔◌, Option, none, some, List,
  [], ◌∷◌, arith,
}
use exoskeleton.Base.Errors.{ok}
use exoskeleton.Samples.{strokes, count_strokes, count_strokes-strokes}
use exoskeleton.Samples.{hundredths}
use exoskeleton.Core.Tick.{TickRecord, ActionRecord, ActionOutcome, TickPhase}
use exoskeleton.Budget.Config.{CognitiveBudgetConfig}
use exoskeleton.Budget.Gate.{
  ToolBudgetGate, attempts, attempts_lem, remaining, check, record_invocation,
}
use exoskeleton.Budget.Tracker.{
  Tracker, CognitiveBudgetCheck, BudgetStore, ThreadIdText, PersistedBudgetState, LlmBackend, new,
  new_state, check_cognitive_budget, ThrashLevel, local, frontier, available, fallback,
  nanos_per_sec, Chrono, window_end,
}
use exoskeleton.Budget.Tracker.Accounting.{Call, Adds, record_calls, record_calls-Adds}
use exoskeleton.Budget.Tracker.Check.{check_cognitive_budget_cases, LocalLeft}
use exoskeleton.Budget.Tracker.Persistence.{
  persisted, load_or_reset, load_or_reset-persist, SameWindow, reset_window,
  load_or_reset-reset_window,
}
use exoskeleton.Budget.Thrash.{check as check_thrash}

abbrev small_config : CognitiveBudgetConfig ℕ
small_config = record {
  local_token_budget = 100;
  frontier_token_budget = 50;
  frontier_cost_budget_cents = 20;
  time_window_secs = 60;
  per_tick_token_cap = 40;
  per_thread_token_cap = 30;
  escalation_policy = record {
    escalate_on_uncertainty = 70;
    escalate_on_stakes = [];
    escalate_on_consecutive_failures = 3;
    max_frontier_calls_per_window = 5;
  };
}

abbrev some_tracker : Tracker ℕ (Option PersistedBudgetState)
some_tracker = record {
  config = small_config;
  state = record (new_state 1000) {
    local_tokens_consumed = 100;
    per_thread_consumed = (7, 10) ∷ [];
  };
  store = none;
  thrash_level = exoskeleton.Budget.Tracker.ThrashLevel.none;
}

local_spent :
    check_cognitive_budget some_tracker ≡ CognitiveBudgetCheck.fallback LlmBackend.frontier
unfolding check_cognitive_budget new_state
local_spent = refl

check_cognitive_budget_cases_example :
    (check_cognitive_budget some_tracker ≡ CognitiveBudgetCheck.available LlmBackend.local)
    ↔ LocalLeft some_tracker
check_cognitive_budget_cases_example = (check_cognitive_budget_cases some_tracker).0

abbrev small_gate : ToolBudgetGate
small_gate = record {
  config = record { max_invocations_per_window = 3; time_window_secs = 60 };
  invocations_this_window = 1;
  window_start = 0;
}

attempts_lem_example : (attempts 5 small_gate).1 ≡ min 5 (remaining small_gate)
attempts_lem_example = (attempts_lem 5 small_gate (omega arith)).0

two_attempts : (attempts 5 small_gate).1 ≡ 2
unfolding attempts check record_invocation
two_attempts = refl

abbrev two_calls : List (Call ℕ)
two_calls =
    record { backend = LlmBackend.local; tokens_in = 10; tokens_out = 5; cost_cents = 0 }
    ∷ record { backend = LlmBackend.frontier; tokens_in = 7; tokens_out = 3; cost_cents = 250 }
    ∷ []

record_calls-Adds_example :
    Adds some_tracker.state (record_calls two_calls some_tracker).state two_calls
unfolding new_state
record_calls-Adds_example = record_calls-Adds two_calls some_tracker (ground arith)

abbrev one_row : BudgetStore (Option PersistedBudgetState)
one_row = record { save = λ p s. ok (some p); load = λ s. ok s }

abbrev stroke_ids : ThreadIdText
stroke_ids = record {
  to_string = strokes;
  parse = count_strokes;
  parse-to_string = count_strokes-strokes;
}

abbrev saved_row : Option PersistedBudgetState
saved_row = some (persisted stroke_ids some_tracker.state)

abbrev restarted : Tracker ℕ (Option PersistedBudgetState)
restarted = new small_config saved_row 5000

some_end : (a b : ℕ) → some b ≡ some a → a ≡ b
some_end a b h = ground (arith, h)

short_end : (a b : ℕ) → (if ltb a (2 ^ 63) then some a else none) ≡ some b → b ≡ a
short_end a b h = ground (arith, h)

-- Times up to the year 2262.
abbrev short_times : Chrono
short_times = record {
  add_seconds = λ start secs.
      if ltb (start + secs * nanos_per_sec) (2 ^ 63)
      then some (start + secs * nanos_per_sec)
      else none;
  sub_seconds = λ start secs. some (start - secs * nanos_per_sec);
  add_seconds-some =
      λ {start} {secs} {end_time} h. short_end (start + secs * nanos_per_sec) end_time h;
  sub_seconds-some = λ {start} {secs} {end_time} h. some_end end_time _ h;
}

load_or_reset-persist_example :
    (t' : Tracker ℕ (Option PersistedBudgetState)) × (load_or_reset one_row stroke_ids short_times
        5000 restarted
      ≡ some (ok t'))
    × SameWindow some_tracker.state t'.state
unfolding new new_state
load_or_reset-persist_example =
    load_or_reset-persist one_row stroke_ids short_times some_tracker restarted 5000
      (some_tracker.state.window_start + small_config.time_window_secs * nanos_per_sec) refl refl
      refl (omega arith) refl (omega arith)

-- A window of u64::MAX seconds has always ended.
load_or_reset-reset_window_example :
    let endless : CognitiveBudgetConfig ℕ = record small_config { time_window_secs = 2 ^ 64 - 1 } in
    (t' : Tracker ℕ (Option PersistedBudgetState)) × (load_or_reset one_row stroke_ids short_times
        5000
        (new endless saved_row 5000)
      ≡ some (ok t'))
    × (t'.state ≡ (reset_window one_row stroke_ids 5000 some_tracker).0.state)
unfolding new new_state window_end
load_or_reset-reset_window_example =
    load_or_reset-reset_window one_row stroke_ids short_times some_tracker
      (new (record small_config { time_window_secs = 2 ^ 64 - 1 }) saved_row 5000) 5000
      (some_tracker.state.window_start - nanos_per_sec) refl refl (omega arith)

abbrev action_of : String → ActionOutcome → ActionRecord
action_of name outcome = record {
  action_type = name;
  target = "t";
  receipt_ref = none;
  outcome = outcome;
  origin_exec_thread_id = none;
  proposal_id = none;
}

abbrev tick_of : List ActionRecord → TickRecord ℕ
tick_of records = record {
  tick_id = 1;
  tick_number = 1;
  phase = TickPhase.act;
  started_at = 0;
  completed_at = none;
  snapshot_before = 0;
  snapshot_after = none;
  thread_contributions = [];
  exec_thread_contributions = [];
  actions_taken = records;
  llm_calls = [];
  decision_rationale = none;
  context_breakdown_ref = none;
}

abbrev won : TickRecord ℕ
won = tick_of (action_of "fs.write" ActionOutcome.success ∷ [])

abbrev lost : TickRecord ℕ
lost = tick_of (action_of "fs.write" ActionOutcome.failure ∷ [])

-- ===== src/Kernel/Decide/Tests.antt =====
-- The theorems on the Decide step at concrete inputs.
use exoskeleton.Base.{
  ltb, if◌then◌else◌, length, ℕ, ◌≤◌, String, ◌≡◌, refl, ◌↔◌, true, false, Option, none, some, [],
  ◌∷◌,
}
use exoskeleton.Base.Errors.{Result, ok, WhenOk}
use exoskeleton.Samples.{hundredths}
use exoskeleton.Budget.Tracker.{
  Tracker, LlmBackend, local, frontier, new_state, record_llm_call, record_tokens,
  remaining_local_tokens, remaining_frontier_tokens, remaining_frontier_cost, ThrashLevel,
}
use exoskeleton.Core.Llm.{
  ContentBlock, LlmRequest, LlmResponse, text_block, tool_use, tool_result, tool_use_stop,
}
use exoskeleton.Kernel.Types.{DecisionResult}
use exoskeleton.Kernel.Tools.{
  Json, CognitiveAccumulator, is_cognitive_tool, is_introspection_tool, process_cognitive_tool,
  accumulate_cognitive_outcome,
}
use exoskeleton.Kernel.Backend.{
  CognitiveHandler, resolve_tracked, resolve_backend, check_escalation_triggers,
  handler_direct_llm_call, resolve_handler_backend,
}
use exoskeleton.Kernel.Backend.Escalation.{Triggered, FrontierAllowed, resolve_tracked-frontier_iff}
use exoskeleton.Kernel.Decide.{
  DecideContext, decide, decide_turns, after_call, build_decision_result, resolve_blocks,
  resolve_block, request,
}
use exoskeleton.Kernel.Decide.Actions.{PlannedOnce, decide-PlannedOnce}
use exoskeleton.Kernel.Decide.Turns.{frontier_calls_of, limit_after, decide-frontier_calls}

abbrev both_models : CognitiveHandler
both_models = record { has_local = true; has_frontier = true; default_backend = local }

-- The window has had four frontier calls, of which the policy allows five.
abbrev nearly_at_limit : Tracker ℕ (Option ℕ)
nearly_at_limit = record {
  config = record {
    local_token_budget = 100;
    frontier_token_budget = 5000;
    frontier_cost_budget_cents = 2000;
    time_window_secs = 60;
    per_tick_token_cap = 40;
    per_thread_token_cap = 30;
    escalation_policy = record {
      escalate_on_uncertainty = 70;
      escalate_on_stakes = [];
      escalate_on_consecutive_failures = 3;
      max_frontier_calls_per_window = 5;
    };
  };
  state = record (new_state 1000) { frontier_calls = 4 };
  store = none;
  thrash_level = exoskeleton.Budget.Tracker.ThrashLevel.none;
}

resolve_tracked-frontier_iff_example :
    (resolve_tracked both_models (some 80) false nearly_at_limit ≡ frontier)
    ↔ ((true ≡ true) × Triggered (some 80) false nearly_at_limit × FrontierAllowed nearly_at_limit)
resolve_tracked-frontier_iff_example =
    resolve_tracked-frontier_iff both_models (some 80) false nearly_at_limit refl

abbrev text_json : Json ℕ String
text_json = record {
  get = λ field value. some value;
  as_str = λ value. some value;
  as_u64 = λ value. none;
  as_strings = λ value. none;
  plan_update = λ value. none;
  working_memory_ops = λ value. none;
  watch_proposal = λ value. none;
  vessel_mode = λ value. none;
}

abbrev no_trim : String → String
no_trim s = s

abbrev answer_history : String → String → String → ContentBlock String
answer_history id name input = tool_result id "history" false

-- The model looks at its history, and twice so, before it notes something and writes a file.
abbrev scripted : LlmBackend → LlmRequest ℕ String → Result (LlmResponse ℕ String)
scripted backend request = ok (record {
  content_blocks =
      (if ltb 3 (length request.messages)
        then text_block "now"
          ∷ tool_use "c2" "save_memory_note" "n"
          ∷ tool_use "c3" "fs.write" "p"
          ∷ []
        else tool_use "c1" "introspect_tick_history" "h" ∷ []);
  model = "m";
  tokens_in = 10;
  tokens_out = 5;
  latency_ms = 1;
  stop_reason = tool_use_stop;
  cost_estimate_cents = some 100;
  backend = backend;
})

abbrev put_any : LlmResponse ℕ String → Result ℕ
put_any r = ok 1

abbrev put_decided : CognitiveAccumulator ℕ String → Result ℕ
put_decided a = ok 2

abbrev asked : DecideContext ℕ String
asked = record { prompt = "p"; max_output_tokens = 100; tools = [] }

abbrev three_turns : Result (DecisionResult ℕ String) × Option (Tracker ℕ (Option ℕ))
three_turns =
    decide text_json no_trim answer_history scripted put_any both_models (λ turn. false) put_decided
      asked (some 80) false 8 false (ok "i") (some nearly_at_limit)

decide-PlannedOnce_example : WhenOk (PlannedOnce scripted put_any no_trim) three_turns.0
decide-PlannedOnce_example =
    decide-PlannedOnce text_json no_trim answer_history scripted put_any both_models (λ turn. false)
      put_decided asked (some 80) false 8 false (ok "i") (some nearly_at_limit)

decide-frontier_calls_example : frontier_calls_of three_turns.1 ≤ limit_after nearly_at_limit 8
decide-frontier_calls_example =
    decide-frontier_calls text_json no_trim answer_history scripted put_any both_models
      (λ turn. false) put_decided asked (some 80) false 8 false (ok "i") nearly_at_limit refl refl

-- The calls of one step take the window past the limit of five.
past_the_limit : frontier_calls_of three_turns.1 ≡ 7
unfolding decide resolve_backend resolve_tracked check_escalation_triggers remaining_frontier_tokens
    remaining_frontier_cost remaining_local_tokens decide_turns after_call handler_direct_llm_call
    resolve_handler_backend record_llm_call record_tokens resolve_blocks resolve_block
    is_cognitive_tool is_introspection_tool process_cognitive_tool accumulate_cognitive_outcome
    build_decision_result new_state
past_the_limit = refl

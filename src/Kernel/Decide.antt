-- ===== src/Kernel/Decide.antt =====
-- crates/exoskeleton-host/src/kernel/decide.rs: the loop of the Decide step. The model's answers
-- come from the HTTP client behind `call`; `put` and `put_decision` store artifacts, `introspect`
-- answers an introspection tool and `trim` cuts white space. `cancelled` says whether the token is
-- cancelled at a turn.
pub mod Planned
pub mod Actions
pub mod Turns
mod Tests
use exoskeleton.Base.{
  ltb, if◌then◌else◌, length, is_empty, ◌==◌, join, ℕ, zero, suc, String, Bool, true, false, not,
  ◌&&◌, Option, none, some, List, [], ◌∷◌, ◌++◌, nat_eq, string_eq,
}
use exoskeleton.Base.Errors.{llm_invocation, Result, ok, err, ◌>>=◌}
use exoskeleton.Base.Float.{F64}
use exoskeleton.Budget.Tracker.{Tracker, LlmBackend, remaining_local_tokens}
use exoskeleton.Core.Llm.{
  LlmMessage, LlmRequest, LlmResponse, LlmRole, ContentBlock, text, text_message, text_block,
  tool_use, tool_result, ToolDefinition, StopReason, tool_use_stop, end_turn, max_tokens,
  stop_sequence, user, assistant,
}
use exoskeleton.Core.Tick.{merge, LlmCallRecord}
use exoskeleton.Kernel.Types.{PlannedAction, DecisionResult}
use exoskeleton.Kernel.Tools.{
  Json, CognitiveAccumulator, CognitiveToolResult, no_outcome, process_cognitive_tool,
  accumulate_cognitive_outcome, is_cognitive_tool, is_introspection_tool,
}
use exoskeleton.Kernel.Backend.{
  CognitiveHandler, DirectLlmResult, handler_direct_llm_call, resolve_backend,
}
use Prim.Native.String as S

-- The local variables of the loop, and the budget tracker that the calls charge.
pub record DecideState (F S J : Type 0) : Type 0 where
  pub messages : List (LlmMessage J)
  pub llm_records : List (LlmCallRecord F)
  pub accumulator : CognitiveAccumulator F J
  pub last_response_artifact_id : Option ℕ
  pub tracker : Option (Tracker F S)

-- How the loop ended: with the state, or with an error, when the state is what was charged so far.
pub record DecideRun (F S J : Type 0) : Type 0 where
  pub state : DecideState F S J
  pub outcome : Result (Unit {0})

-- What the blocks of a response have come to.
pub record Resolved (F J : Type 0) : Type 0 where
  pub accumulator : CognitiveAccumulator F J
  pub tool_results : List (ContentBlock J)

-- The parts of a request that do not change.
pub record DecideContext (F J : Type 0) : Type 0 where
  pub prompt : String
  pub max_output_tokens : ℕ
  pub tools : List (ToolDefinition J)

abbrev pub is_tool_use_stop : StopReason → Bool
is_tool_use_stop tool_use_stop = true
is_tool_use_stop end_turn = false
is_tool_use_stop max_tokens = false
is_tool_use_stop stop_sequence = false

abbrev pub out_of_local_tokens : {F S : Type 0} → Option (Tracker F S) → Bool
out_of_local_tokens none = false
out_of_local_tokens (some t) = remaining_local_tokens t == 0

abbrev pub is_external : String → Bool
is_external name = not (is_introspection_tool name) && not (is_cognitive_tool name)

module _ (trim : String → String) where
  abbrev pub action_rationale : String → String → String
  action_rationale reasoning name =
      if trim reasoning == "" then S.◌++◌ "model selected " name else trim reasoning

  abbrev pub push_reasoning :
      {F J : Type 0} → String → CognitiveAccumulator F J → CognitiveAccumulator F J
  push_reasoning reasoning a =
      if trim reasoning == ""
      then a
      else record a { reasoning_parts = a.reasoning_parts ++ reasoning ∷ [] }

module _ {F J : Type 0} where
  abbrev pub resolve_cognitive_tool :
      String → Result (CognitiveToolResult F J) → Resolved F J → Resolved F J
  resolve_cognitive_tool id (ok result) s = record {
    accumulator = accumulate_cognitive_outcome result s.accumulator;
    tool_results = s.tool_results ++ tool_result id "ok" false ∷ [];
  }
  resolve_cognitive_tool id (err e) s = record {
    accumulator = s.accumulator;
    tool_results = s.tool_results ++ tool_result id "invalid input" true ∷ [];
  }

  abbrev pub push_action : PlannedAction J → CognitiveAccumulator F J → CognitiveAccumulator F J
  push_action action a = record a { actions = a.actions ++ action ∷ [] }

module _ {J : Type 0} (trim : String → String) where
  abbrev pub planned : String → String → String → J → PlannedAction J
  planned reasoning id name input = record {
    call_id = id;
    tool_name = name;
    params = input;
    rationale = action_rationale trim reasoning name;
    plan_task_id = none;
    origin_exec_thread_id = none;
    proposal_id = none;
  }

module _ {F J : Type 0} (json : Json F J) (trim : String → String)
    (introspect : String → String → J → ContentBlock J) where
  -- One block: only a tool call does anything.
  pub resolve_block : String → ContentBlock J → Resolved F J → Resolved F J
  resolve_block reasoning (text_block t) s = s
  resolve_block reasoning (tool_result id content is_error) s = s
  resolve_block reasoning (tool_use id name input) s =
      if is_introspection_tool name
      then record s { tool_results = s.tool_results ++ introspect id name input ∷ [] }
      else if is_cognitive_tool name
      then resolve_cognitive_tool id (process_cognitive_tool json name input) s
      else record s {
        accumulator = push_action (planned trim reasoning id name input) s.accumulator;
      }

  pub resolve_blocks : String → List (ContentBlock J) → Resolved F J → Resolved F J
  resolve_blocks reasoning [] s = s
  resolve_blocks reasoning (b ∷ blocks) s =
      resolve_blocks reasoning blocks (resolve_block reasoning b s)

  abbrev pub resolve_response : LlmResponse F J → CognitiveAccumulator F J → Resolved F J
  resolve_response r a =
      resolve_blocks (text r) r.content_blocks
        (record { accumulator = push_reasoning trim (text r) a; tool_results = [] })

abbrev pub replies : {J : Type 0} → List (ContentBlock J) → List (LlmMessage J)
replies [] = []
replies (b ∷ blocks) = record { role = LlmRole.user; content = b ∷ blocks } ∷ []

module _ {F S J : Type 0} where
  abbrev pub finished : DecideState F S J → DecideRun F S J
  finished s = record { state = s; outcome = ok tt }

  abbrev pub after_resolved :
      (DecideState F S J → DecideRun F S J)
      → DirectLlmResult F J
      → Resolved F J
      → DecideState F S J
      → DecideRun F S J
  after_resolved continue r resolved s =
      let s' : DecideState F S J = record {
        messages =
            s.messages
            ++ record { role = LlmRole.assistant; content = r.response.content_blocks }
              ∷ replies resolved.tool_results;
        llm_records = s.llm_records ++ r.llm_call_record ∷ [];
        accumulator = resolved.accumulator;
        last_response_artifact_id = some r.artifact_id;
        tracker = s.tracker;
      } in
      if ltb (length s.accumulator.actions) (length resolved.accumulator.actions)
      then finished s'
      else if is_tool_use_stop r.response.stop_reason && not (is_empty resolved.tool_results)
      then continue s'
      else finished s'

module _ {F S J : Type 0} ⦃f : F64 F⦄ where
  abbrev pub request : DecideContext F J → String → LlmBackend → DecideState F S J → LlmRequest F J
  request c instructions backend s = record {
    backend = some backend;
    system_prompt = some instructions;
    messages = s.messages;
    max_output_tokens = c.max_output_tokens;
    temperature = some (f.decimal 7 1);
    stop_sequences = [];
    stream = true;
    tools = c.tools;
  }

module _ {F S J : Type 0} ⦃f : F64 F⦄ (json : Json F J) (trim : String → String)
    (introspect : String → String → J → ContentBlock J)
    (call : LlmBackend → LlmRequest F J → Result (LlmResponse F J))
    (put : LlmResponse F J → Result ℕ) (h : CognitiveHandler) (cancelled : ℕ → Bool) where
  -- The rest of a turn, by what the call came to and what it charged.
  pub after_call :
      (DecideState F S J → DecideRun F S J)
      → DecideState F S J
      → Result (DirectLlmResult F J) × Option (Tracker F S)
      → DecideRun F S J
  after_call continue s (err e, t) = record { state = record s { tracker = t }; outcome = err e }
  after_call continue s (ok r, t) =
      after_resolved continue r (resolve_response json trim introspect r.response s.accumulator)
        (record s { tracker = t })

  -- The turns from `turn` on, of which `rounds` are left.
  pub decide_turns :
      DecideContext F J
      → String
      → LlmBackend
      → (rounds turn : ℕ) → DecideState F S J
      → DecideRun F S J
  decide_turns c instructions backend zero turn s = finished s
  decide_turns c instructions backend (suc rounds) turn s =
      let continue : DecideState F S J → DecideRun F S J =
        λ s'. decide_turns c instructions backend rounds (suc turn) s' in
      if cancelled turn
      then record { state = s; outcome = err (llm_invocation "cancelled during Decide loop") }
      else if ltb 0 turn && out_of_local_tokens s.tracker
      then finished s
      else after_call continue s
          (handler_direct_llm_call call put h (request c instructions backend s) s.tracker)

  abbrev pub first_state : DecideContext F J → Option (Tracker F S) → DecideState F S J
  first_state c t = record {
    messages = text_message LlmRole.user c.prompt ∷ [];
    llm_records = [];
    accumulator = no_outcome;
    last_response_artifact_id = none;
    tracker = t;
  }

  module _ (put_decision : CognitiveAccumulator F J → Result ℕ) where
    pub build_decision_result : DecideState F S J → Option ℕ → Result (DecisionResult F J)
    build_decision_result s none = err (llm_invocation "Decide produced no LLM response artifact")
    build_decision_result s (some response_id) = put_decision s.accumulator >>= λ stored.
        ok (record {
          reasoning = join "\n" s.accumulator.reasoning_parts;
          reply = s.accumulator.reply;
          actions = s.accumulator.actions;
          snapshot_delta = s.accumulator.snapshot_delta;
          memory_notes = s.accumulator.memory_notes;
          llm_call_record = record (merge s.llm_records) {
            response_artifact_ref = some response_id;
          };
          response_artifact_id = response_id;
          watch_proposals = s.accumulator.watch_proposals;
          vessel_mode_request = s.accumulator.vessel_mode_request;
        })

    abbrev pub decided : DecideRun F S J → Result (DecisionResult F J) × Option (Tracker F S)
    decided run = (
      run.outcome >>= (λ done. build_decision_result run.state run.state.last_response_artifact_id),
      run.state.tracker,
    )

    abbrev pub decide_with :
        DecideContext F J
        → Option F
        → Bool
        → (max_turns : ℕ) → Option (Tracker F S)
        → Result String
        → Result (DecisionResult F J) × Option (Tracker F S)
    decide_with c thrash severe max_turns t (err e) = (err e, t)
    decide_with c thrash severe max_turns t (ok instructions) = decided (
        decide_turns c instructions (resolve_backend h thrash severe t) max_turns 0
          (first_state c t))

    -- The step: `instructions` is the system prompt, `thrash` and `severe` what the two threads report.
    pub decide :
        DecideContext F J
        → Option F
        → Bool
        → (max_turns : ℕ) → (cancelled_before : Bool) → Result String
        → Option (Tracker F S)
        → Result (DecisionResult F J) × Option (Tracker F S)
    decide c thrash severe max_turns cancelled_before instructions t =
        if cancelled_before
        then (err (llm_invocation "cancelled before Decide step"), t)
        else decide_with c thrash severe max_turns t instructions

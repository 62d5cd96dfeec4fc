-- ===== src/Kernel/Passage/Tests.antt =====
-- The theorems on the way from Decide to Act at concrete inputs.
use exoskeleton.Threads.Registry.{list_executable}
use exoskeleton.Base.{
  if◌then◌else◌, sort_by, ◌==◌, ℕ, String, ◌≡◌, refl, true, false, Option, none, some, [], ◌∷◌,
  ◌++◌, nat_eq, string_eq, lookup,
}
use exoskeleton.Samples.{hundredths}
use exoskeleton.Relationship.Types.{RelationalSignal, trust_update}
use exoskeleton.Relationship.Ledger.{RelationshipLedger}
use exoskeleton.Relationship.Align.{ReviewLabel}
use exoskeleton.Threads.Types.{
  ThreadSpec, ThreadFlavor, ThreadRole, ThreadPriority, ThreadSchedule, ExecThreadStatus,
  ThreadExecutionPayload,
}
use exoskeleton.Threads.Executable.{
  ExecThreadKind, ExecThreadProposalConfidence, default_local_state,
}
use exoskeleton.Threads.Store.{
  RegisteredThreadStatus, recent_exec_outputs, recent_execution_results,
}
use exoskeleton.Threads.Registry.Summaries.{HostStore}
use exoskeleton.Kernel.Types.{PlannedAction, DecisionResult}
use exoskeleton.Kernel.Policy.{VesselMode}
use exoskeleton.Kernel.Align.{default_align_config}
use exoskeleton.Kernel.Proposals.{
  annotate_exec_thread_origins, reconcile_exec_thread_proposals,
  latest_coding_exec_thread_proposals,
}
use exoskeleton.Kernel.Proposals.Backed.{reconcile_exec_thread_proposals-cases, IsProposed}
use exoskeleton.Kernel.Passage.{pass}
use exoskeleton.Kernel.Passage.Cleared.{pass-approved, gated, snapshot_of_tick}

abbrev coder : ThreadSpec
coder = record {
  thread_id = 5;
  role = ThreadRole.coding;
  flavor = ThreadFlavor.executable;
  name = "coder";
  charter = "c";
  priority = ThreadPriority.normal;
  token_budget = 100;
  schedule = ThreadSchedule.every_n_ticks 1;
  workspace_root = none;
}

-- A coding thread that is sure of an edit.
abbrev sure_coder : HostStore ℕ
sure_coder = record {
  specs = (5, (coder, RegisteredThreadStatus.executable ExecThreadStatus.active)) ∷ [];
  last_runs = [];
  outputs =
      (
        5,
        record {
          thread_id = 5;
          tick_id = 1;
          artifact_id = 2;
          payload = ThreadExecutionPayload.executable (record {
            thread_id = 5;
            tick_id = 1;
            artifact_id = 2;
            kind = ExecThreadKind.coding;
            summary = "s";
            status = ExecThreadStatus.active;
            evidence_complete = true;
            proposal_confidence = some ExecThreadProposalConfidence.high;
            proposed_action = some (record {
              proposal_id = "e";
              tool_name = "code.edit";
              params = 4;
              rationale = "r";
            });
            local_state = default_local_state;
          });
        }
            ∷ [],
      )
      ∷ [];
  local_state = [];
}

abbrev call_of : String → PlannedAction ℕ
call_of name = record {
  call_id = "c";
  tool_name = name;
  params = 0;
  rationale = "r";
  plan_task_id = none;
  origin_exec_thread_id = none;
  proposal_id = none;
}

abbrev reading : DecisionResult ℕ ℕ
reading = record {
  reasoning = "r";
  reply = none;
  actions = call_of "code.read" ∷ call_of "code.grep" ∷ [];
  snapshot_delta = record { plan_update = none; working_memory_ops = none };
  memory_notes = [];
  llm_call_record = record {
    model = "m";
    tokens_in = 1;
    tokens_out = 1;
    cost_cents = 0;
    latency_ms = 1;
    response_artifact_ref = none;
    turns = 1;
  };
  response_artifact_id = 3;
  watch_proposals = [];
  vessel_mode_request = none;
}

reconcile_exec_thread_proposals-cases_example :
    IsProposed sure_coder (reconcile_exec_thread_proposals sure_coder reading).actions
unfolding latest_coding_exec_thread_proposals list_executable recent_exec_outputs
    recent_execution_results sort_by lookup
reconcile_exec_thread_proposals-cases_example =
    (reconcile_exec_thread_proposals-cases sure_coder reading).2 _ refl refl refl

abbrev trusted : RelationshipLedger
trusted =
    record {
      id = 1;
      principal_id = 7;
      signal_type = trust_update;
      content_ref = 0;
      tick_id = 0;
      timestamp = 1;
      metadata = ("trust_level", "0.8") ∷ [];
    }
    ∷ []

abbrev parse_sample : String → Option ℕ
parse_sample s = if s == "0.8" then some 80 else none

abbrev id_sample : ℕ → String
id_sample p = "someone"

abbrev no_signal : ℕ → Option RelationalSignal
no_signal id = none

abbrev label_id : ReviewLabel → ℕ
label_id label = 0

pass-approved_example :
    (pass hundredths label_id
      (λ i. i)
      (λ i. i)
      parse_sample
      id_sample
      no_signal
      (λ i. i)
      none
      9
      1
      []
      sure_coder
      false
      (call_of "web.fetch" ∷ [])
      VesselMode.normal
      trusted
      reading).alignment.approved_actions
    ≡ gated hundredths label_id
        (λ i. i)
        (λ i. i)
        (default_align_config hundredths)
        (snapshot_of_tick hundredths parse_sample id_sample no_signal
          (λ i. i)
          none
          9
          1
          []
          trusted).principals
        (reconcile_exec_thread_proposals sure_coder
          (annotate_exec_thread_origins sure_coder reading)).actions
      ++ call_of "web.fetch" ∷ []
pass-approved_example =
    pass-approved hundredths label_id (λ i. i) (λ i. i) parse_sample id_sample no_signal (λ i. i)
      none 9 1 [] trusted sure_coder false (call_of "web.fetch" ∷ []) VesselMode.normal reading

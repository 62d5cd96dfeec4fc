-- ===== src/Core/Snapshot.antt =====
-- crates/exoskeleton-core/src/snapshot.rs: the state of a vessel between ticks. Ids and times are
-- numbers; the summary of the last actions is the values printed into its text.
use exoskeleton.Base.{
  u64_max, saturating_add, ◌==◌, ℕ, String, Bool, true, false, ◌&&◌, ◌||◌, Option, none, some, List,
  [], nat_eq, string_eq,
}
use exoskeleton.Core.Plan.{Plan}
use exoskeleton.Core.WorkingMemory.{WorkingMemory, empty_memory}
use exoskeleton.Budget.Tracker.{ThrashLevel}
use exoskeleton.Kernel.Policy.{VesselMode}
use exoskeleton.Threads.Types.{ThreadStatus, ExecThreadStatus}
use exoskeleton.Threads.Executable.{ExecThreadKind, ExecThreadProposalConfidence}

pub data VesselStatus : Type 0 where
  idle thinking acting reflecting suspended shutdown : VesselStatus

abbrev pub is_terminal : VesselStatus → Bool
is_terminal suspended = true
is_terminal shutdown = true
is_terminal idle = false
is_terminal thinking = false
is_terminal acting = false
is_terminal reflecting = false

pub record ThreadSummary : Type 0 where
  pub thread_id : ℕ
  pub name : String
  pub status : ThreadStatus
  pub last_output_summary : Option String
  pub token_budget_remaining : ℕ

pub record ExecThreadSummary : Type 0 where
  pub thread_id : ℕ
  pub kind : ExecThreadKind
  pub name : String
  pub status : ExecThreadStatus
  pub last_output_summary : Option String
  pub current_focus : Option String
  pub work_phase : Option String
  pub evidence_complete : Bool
  pub proposal_confidence : Option ExecThreadProposalConfidence
  pub last_completion_reason : Option String

pub record BudgetStatus : Type 0 where
  pub local_tokens_remaining : ℕ
  pub frontier_tokens_remaining : ℕ
  pub frontier_cost_cents_remaining : ℕ
  pub time_secs_remaining : ℕ
  pub thrash_level : ThrashLevel
  pub tool_invocations_remaining : ℕ

abbrev pub unlimited : BudgetStatus
unlimited = record {
  local_tokens_remaining = u64_max;
  frontier_tokens_remaining = u64_max;
  frontier_cost_cents_remaining = u64_max;
  time_secs_remaining = u64_max;
  thrash_level = ThrashLevel.none;
  tool_invocations_remaining = u64_max;
}

abbrev pub is_exhausted : BudgetStatus → Bool
is_exhausted b =
    ((b.local_tokens_remaining == 0) && (b.frontier_tokens_remaining == 0))
    || ((b.frontier_cost_cents_remaining == 0) || (b.time_secs_remaining == 0))

abbrev pub total_tokens_remaining : BudgetStatus → ℕ
total_tokens_remaining b = saturating_add b.local_tokens_remaining b.frontier_tokens_remaining

-- "No actions taken", or how many there were, succeeded and failed.
pub data ActionSummary : Type 0 where
  no_actions : ActionSummary
  actions : (total succeeded failed : ℕ) → ActionSummary

pub record StateSnapshot (F : Type 0) : Type 0 where
  pub vessel_id : ℕ
  pub tick_number : ℕ
  pub mission : String
  pub plan : Option Plan
  pub status : VesselStatus
  pub vessel_mode : VesselMode
  pub working_memory : WorkingMemory F
  pub thread_summaries : List ThreadSummary
  pub exec_thread_summaries : List ExecThreadSummary
  pub relationship_snapshot_ref : Option ℕ
  pub budget_status : BudgetStatus
  pub last_action_summary : Option ActionSummary
  pub started_at : Option ℕ
  pub updated_at : ℕ

unfoldable initial : {F : Type 0} → ℕ → String → ℕ → StateSnapshot F
initial vessel_id mission now = record {
  vessel_id = vessel_id;
  tick_number = 0;
  mission = mission;
  plan = none;
  status = VesselStatus.idle;
  vessel_mode = VesselMode.normal;
  working_memory = empty_memory;
  thread_summaries = [];
  exec_thread_summaries = [];
  relationship_snapshot_ref = none;
  budget_status = unlimited;
  last_action_summary = none;
  started_at = some now;
  updated_at = now;
}

-- ===== src/Threads/Executable.antt =====
-- crates/exoskeleton-core/src/exec_thread.rs: the output and the local state of an executable
-- thread. The parameters of a proposed tool call are JSON, so their type `J` is a parameter.
use exoskeleton.Base.{ℕ, String, Bool, false, Option, none, some}
use exoskeleton.Threads.Types.{ThreadRole, ExecThreadStatus, ThreadFlavor}

pub data ExecThreadKind : Type 0 where
  coding : ExecThreadKind

abbrev pub thread_role : ExecThreadKind → ThreadRole
thread_role ExecThreadKind.coding = ThreadRole.coding

abbrev pub thread_flavor : ExecThreadKind → ThreadFlavor
thread_flavor kind = ThreadFlavor.executable

-- `ExecThreadKind::try_from`; none is its error.
abbrev pub kind_of_role : ThreadRole → Option ExecThreadKind
kind_of_role ThreadRole.coding = some ExecThreadKind.coding
kind_of_role ThreadRole.threat_monitor = none
kind_of_role ThreadRole.self_critique = none
kind_of_role ThreadRole.memory_consolidation = none
kind_of_role ThreadRole.meta_cognition = none
kind_of_role ThreadRole.creative_synthesis = none
kind_of_role ThreadRole.initiative = none
kind_of_role ThreadRole.other = none

pub data ExecThreadProposalConfidence : Type 0 where
  low medium high : ExecThreadProposalConfidence

pub record ExecThreadSpec : Type 0 where
  pub thread_id : ℕ
  pub kind : ExecThreadKind
  pub name : String
  pub charter : String
  pub token_budget : ℕ
  pub workspace_root : Option String

pub record ExecThreadLocalState : Type 0 where
  pub scratchpad : Option String
  pub current_focus : Option String
  pub last_completion_reason : Option String
  pub work_phase : Option String
  pub evidence_complete : Bool
  pub verification_pending : Bool
  pub verification_attempted : Bool
  pub proposal_confidence : Option ExecThreadProposalConfidence
  pub inspection_target_file : Option String
  pub inspection_read_streak : ℕ
  pub edit_hypothesis_file : Option String
  pub edit_hypothesis_summary : Option String
  pub semantic_target_symbol_id : Option String
  pub semantic_target_name : Option String
  pub semantic_target_kind : Option String
  pub semantic_target_file : Option String
  pub semantic_target_query : Option String
  pub semantic_target_start_line : Option ℕ
  pub semantic_target_end_line : Option ℕ
  pub last_proposed_tool : Option String
  pub last_proposed_target : Option String
  pub repeated_same_proposal_count : ℕ
  pub awaiting_feedback : Bool
  pub should_wake_master : Bool

-- The derived default.
abbrev pub default_local_state : ExecThreadLocalState
default_local_state = record {
  scratchpad = none;
  current_focus = none;
  last_completion_reason = none;
  work_phase = none;
  evidence_complete = false;
  verification_pending = false;
  verification_attempted = false;
  proposal_confidence = none;
  inspection_target_file = none;
  inspection_read_streak = 0;
  edit_hypothesis_file = none;
  edit_hypothesis_summary = none;
  semantic_target_symbol_id = none;
  semantic_target_name = none;
  semantic_target_kind = none;
  semantic_target_file = none;
  semantic_target_query = none;
  semantic_target_start_line = none;
  semantic_target_end_line = none;
  last_proposed_tool = none;
  last_proposed_target = none;
  repeated_same_proposal_count = 0;
  awaiting_feedback = false;
  should_wake_master = false;
}

pub record ExecThreadProposal (J : Type 0) : Type 0 where
  pub proposal_id : String
  pub tool_name : String
  pub params : J
  pub rationale : String

pub record ExecThreadOutput (J : Type 0) : Type 0 where
  pub thread_id : ℕ
  pub tick_id : ℕ
  pub artifact_id : ℕ
  pub kind : ExecThreadKind
  pub summary : String
  pub status : ExecThreadStatus
  pub evidence_complete : Bool
  pub proposal_confidence : Option ExecThreadProposalConfidence
  pub proposed_action : Option (ExecThreadProposal J)
  pub local_state : ExecThreadLocalState

-- ===== src/Kernel/Types.antt =====
-- crates/exoskeleton-host/src/kernel/types.rs: what the steps of a tick hand on. The parameters of
-- an action are JSON values of a type `J`.
use exoskeleton.Base.{ℕ, String, Bool, Option, List}
use exoskeleton.Core.Plan.{PlanUpdate, PlanTaskStatus}
use exoskeleton.Core.WorkingMemory.{WorkingMemoryOp}
use exoskeleton.Core.Watch.{WatchProposal}
use exoskeleton.Core.Tick.{ActionRecord, LlmCallRecord}
use exoskeleton.Kernel.Policy.{VesselMode}
use exoskeleton.Relationship.Types.{RelationshipRecord, RelationshipSnapshot}
use exoskeleton.Relationship.Align.{BlockReason}

pub record PlannedAction (J : Type 0) : Type 0 where
  pub call_id : String
  pub tool_name : String
  pub params : J
  pub rationale : String
  pub plan_task_id : Option ℕ
  pub origin_exec_thread_id : Option ℕ
  pub proposal_id : Option String

pub record SnapshotDelta : Type 0 where
  pub plan_update : Option PlanUpdate
  pub working_memory_ops : Option (List WorkingMemoryOp)

pub record DecisionResult (F J : Type 0) : Type 0 where
  pub reasoning : String
  pub reply : Option String
  pub actions : List (PlannedAction J)
  pub snapshot_delta : SnapshotDelta
  pub memory_notes : List String
  pub llm_call_record : LlmCallRecord F
  pub response_artifact_id : ℕ
  pub watch_proposals : List (WatchProposal F J)
  pub vessel_mode_request : Option VesselMode

pub record AlignmentResult (F J : Type 0) : Type 0 where
  pub approved_actions : List (PlannedAction J)
  pub blocked_actions : List (PlannedAction J × BlockReason F)
  pub relationship_updates : List RelationshipRecord
  pub relationship_snapshot : Option (RelationshipSnapshot F)

-- An execution, without the block that is sent back to the model.
pub record ActionExecution (J : Type 0) : Type 0 where
  pub action : PlannedAction J
  pub succeeded : Bool
  pub action_record : ActionRecord
  pub pending_question : Bool

pub record TaskStatusUpdate : Type 0 where
  pub task_id : ℕ
  pub new_status : PlanTaskStatus
  pub reason : Option String

pub record ReflectionResult (F : Type 0) : Type 0 where
  pub action_success_rate : F
  pub observations : List String
  pub concerns : List String
  pub task_updates : List TaskStatusUpdate
  pub working_memory_ops : List WorkingMemoryOp
  pub should_replan : Bool
  pub llm_call_record : Option (LlmCallRecord F)

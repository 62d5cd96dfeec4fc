-- ===== src/Kernel/Amend.antt =====
-- crates/exoskeleton-host/src/kernel/amend.rs: the snapshot that a tick leaves behind, and the order
-- in which the tick is made durable. The clock is read once.
mod Tests
pub mod Tidy
pub mod Order
use exoskeleton.Base.{
  if◌then◌else◌, unwrap_or, length, filter, any, ◌==◌, ℕ, ◌+◌, String, Bool, not, ◌||◌, Option,
  none, some, List, [], ◌∷◌, nat_eq, string_eq,
}
use exoskeleton.Base.Errors.{Result, ok, err}
use exoskeleton.Base.Float.{F64}
use exoskeleton.Core.Plan.{
  Plan, PlanOp, PlanUpdate, apply_op, apply_ops, apply_update, update_status,
}
use exoskeleton.Core.Plan as Plan
use exoskeleton.Core.WorkingMemory as Memory
use exoskeleton.Core.WorkingMemory.{
  WorkingMemory, WorkingMemoryEntry, WorkingMemoryOp, evict_expired, enforce_cap,
}
use exoskeleton.Core.Snapshot.{
  StateSnapshot, VesselStatus, ActionSummary, ThreadSummary, ExecThreadSummary, BudgetStatus,
  no_actions, actions, idle,
}
use exoskeleton.Kernel.Types.{SnapshotDelta, ReflectionResult, TaskStatusUpdate, ActionExecution}
use exoskeleton.Kernel.Policy.{VesselMode}
use exoskeleton.Kernel.Idle.{is_done}

-- The most entries that a snapshot keeps.
abbrev pub working_memory_cap : ℕ
working_memory_cap = 50

abbrev empty_plan : ℕ → Plan
empty_plan now = record { objective = ""; tasks = []; updated_at = now }

abbrev pub updated_plan : ℕ → Option PlanUpdate → Option Plan → Option Plan
updated_plan now none plan = plan
updated_plan now (some update) plan =
    some (Plan.apply_update update now (unwrap_or plan (empty_plan now)))

-- One task update of Reflect, which does nothing without a plan.
abbrev pub update_task : ℕ → TaskStatusUpdate → Option Plan → Option Plan
update_task now u none = none
update_task now u (some plan) =
    some (record (Plan.apply_op (PlanOp.update_status u.task_id u.new_status) plan) {
      updated_at = now;
    })

abbrev pub update_tasks : ℕ → List TaskStatusUpdate → Option Plan → Option Plan
update_tasks now [] plan = plan
update_tasks now (u ∷ us) plan = update_tasks now us (update_task now u plan)

module _ {F : Type 0} ⦃f : F64 F⦄ where
  abbrev pub apply_delta_ops : Option (List WorkingMemoryOp) → ℕ → WorkingMemory F → WorkingMemory F
  apply_delta_ops none tick w = w
  apply_delta_ops (some ops) tick w = Memory.apply_ops ops tick w

  -- The operations of Decide, then those of Reflect, the eviction and the cap.
  pub amended_memory : ℕ → SnapshotDelta → List WorkingMemoryOp → WorkingMemory F → WorkingMemory F
  amended_memory tick delta reflect_ops w = Memory.enforce_cap working_memory_cap (
      Memory.evict_expired tick
        (Memory.apply_ops reflect_ops tick (apply_delta_ops delta.working_memory_ops tick w)))

abbrev pub count_succeeded : {J : Type 0} → List (ActionExecution J) → ℕ
count_succeeded [] = 0
count_succeeded (e ∷ es) = (if e.succeeded then 1 else 0) + count_succeeded es

abbrev pub count_failed : {J : Type 0} → List (ActionExecution J) → ℕ
count_failed [] = 0
count_failed (e ∷ es) = (if e.succeeded then 0 else 1) + count_failed es

unfoldable action_summary : {J : Type 0} → List (ActionExecution J) → ActionSummary
action_summary [] = no_actions
action_summary (e ∷ es) =
    actions (length (e ∷ es)) (count_succeeded (e ∷ es)) (count_failed (e ∷ es))

abbrev pub is_kept_when_idle : {F : Type 0} → WorkingMemoryEntry F → Bool
is_kept_when_idle e = (e.key == "session_status") || (e.key == "user_question_pending")

module _ (trim : String → String) where
  pub prune_working_memory_for_bounded_coding_idle :
      {F : Type 0}
      → Bool
      → (no_new_messages : Bool) → List ExecThreadSummary
      → WorkingMemory F
      → WorkingMemory F
  prune_working_memory_for_bounded_coding_idle return_to_idle no_new_messages summaries w =
      if not return_to_idle || (not no_new_messages || not (any (is_done trim) summaries))
      then w
      else record { entries = filter is_kept_when_idle w.entries }

-- What the kernel holds that the snapshot takes over: the mode, the summaries of its threads, and,
-- where there is one, the stored relationship snapshot and the status of the budget.
pub record KernelView : Type 0 where
  pub vessel_mode : VesselMode
  pub thread_summaries : List ThreadSummary
  pub exec_thread_summaries : List ExecThreadSummary
  pub return_to_idle : Bool
  pub relationship_ref : Option ℕ
  pub budget_status : Option BudgetStatus

module _ {F J : Type 0} ⦃f : F64 F⦄ (trim : String → String) where
  -- Step 1: the new snapshot.
  pub build_snapshot :
      (tick now : ℕ)
      → KernelView
      → (has_new_messages : Bool) → SnapshotDelta
      → ReflectionResult F
      → List (ActionExecution J)
      → StateSnapshot F
      → StateSnapshot F
  build_snapshot tick now k has_new_messages delta reflection executions before = record before {
    tick_number = tick;
    plan =
        update_tasks now reflection.task_updates (updated_plan now delta.plan_update before.plan);
    status = VesselStatus.idle;
    vessel_mode = k.vessel_mode;
    working_memory =
        prune_working_memory_for_bounded_coding_idle trim k.return_to_idle (not has_new_messages)
          k.exec_thread_summaries
          (amended_memory tick delta reflection.working_memory_ops before.working_memory);
    thread_summaries = k.thread_summaries;
    exec_thread_summaries = k.exec_thread_summaries;
    relationship_snapshot_ref = elim k.relationship_ref [
      | none ↦ before.relationship_snapshot_ref
      | some id ↦ some id
    ];
    budget_status = unwrap_or k.budget_status before.budget_status;
    last_action_summary = some (action_summary executions);
    updated_at = now;
  }

-- The writes of the steps 2 to 7 that end the tick when they fail, in order.
pub data Write : Type 0 where
  put_snapshot save_snapshot put_tick save_tick append_event : Write
  acknowledge : List ℕ → Write

abbrev pub acknowledgement : List ℕ → List Write
acknowledgement [] = []
acknowledgement (id ∷ ids) = acknowledge (id ∷ ids) ∷ []

pub amend_writes : List ℕ → List Write
amend_writes message_ids =
    put_snapshot ∷ save_snapshot ∷ put_tick ∷ save_tick ∷ append_event ∷ acknowledgement message_ids

-- What a run of writes came to.
pub record Written : Type 0 where
  pub done : List Write
  pub outcome : Result (Unit {0})

-- `?` after a write: what the later ones come to counts only when it succeeded.
abbrev pub after_write : Write → Result (Unit {0}) → Written → Written
after_write w (err e) later = record { done = []; outcome = err e }
after_write w (ok done) later = record { done = w ∷ later.done; outcome = later.outcome }

-- `attempt` says which writes are refused, and why.
pub perform : (Write → Result (Unit {0})) → List Write → Written
perform attempt [] = record { done = []; outcome = ok tt }
perform attempt (w ∷ ws) = after_write w (attempt w) (perform attempt ws)

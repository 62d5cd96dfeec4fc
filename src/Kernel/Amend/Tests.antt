-- ===== src/Kernel/Amend/Tests.antt =====
-- The theorems on the Amend step at concrete inputs.
use exoskeleton.Base.{
  All, ℕ, String, ◌≡◌, refl, true, false, Option, none, some, List, [], ◌∷◌, nat_eq, string_eq,
}
use exoskeleton.Base.Errors.{storage, Result, ok, err}
use exoskeleton.Samples.{hundredths}
use exoskeleton.Core.Snapshot.{StateSnapshot, unlimited, VesselStatus, idle, reflecting}
use exoskeleton.Core.WorkingMemory.{WorkingMemoryEntry, WorkingMemoryOp}
use exoskeleton.Threads.Types.{ExecThreadStatus}
use exoskeleton.Threads.Executable.{ExecThreadKind}
use exoskeleton.Core.WorkingMemory.Tidy.{IsTidy}
use exoskeleton.Kernel.Types.{SnapshotDelta, ReflectionResult, ActionExecution}
use exoskeleton.Kernel.Policy.{VesselMode}
use exoskeleton.Kernel.Idle.{bounded_coding_idle_visible}
use exoskeleton.Kernel.Amend.{KernelView, build_snapshot, Write, amend_writes, perform, acknowledge}
use exoskeleton.Kernel.Amend.Tidy.{build_snapshot-IsTidy, IsSessionEntry}

abbrev no_trim : String → String
no_trim s = s

abbrev noted : String → Option ℕ → WorkingMemoryEntry ℕ
noted key ttl = record {
  key = key;
  value = "v";
  written_at_tick = 1;
  ttl_ticks = ttl;
  relevance = 100;
}

abbrev before_tick : StateSnapshot ℕ
before_tick = record {
  vessel_id = 1;
  tick_number = 6;
  mission = "m";
  plan = none;
  status = exoskeleton.Core.Snapshot.VesselStatus.reflecting;
  vessel_mode = VesselMode.normal;
  working_memory = record {
    entries = noted "session_status" none ∷ noted "draft" none ∷ noted "old" (some 2) ∷ [];
  };
  thread_summaries = [];
  exec_thread_summaries = [];
  relationship_snapshot_ref = none;
  budget_status = unlimited;
  last_action_summary = none;
  started_at = none;
  updated_at = 5;
}

-- A coding session that is done.
abbrev session_done : KernelView
session_done = record {
  vessel_mode = VesselMode.normal;
  thread_summaries = [];
  exec_thread_summaries =
      record {
        thread_id = 3;
        kind = ExecThreadKind.coding;
        name = "coder";
        status = ExecThreadStatus.idle;
        last_output_summary = none;
        current_focus = none;
        work_phase = none;
        evidence_complete = true;
        proposal_confidence = none;
        last_completion_reason = some "done";
      }
      ∷ [];
  return_to_idle = true;
  relationship_ref = none;
  budget_status = none;
}

abbrev one_note : SnapshotDelta
one_note = record {
  plan_update = none;
  working_memory_ops = some (WorkingMemoryOp.set "user_question_pending" "q" none ∷ []);
}

abbrev quiet_reflection : ReflectionResult ℕ
quiet_reflection = record {
  action_success_rate = 100;
  observations = [];
  concerns = [];
  task_updates = [];
  working_memory_ops = WorkingMemoryOp.remove "draft" ∷ [];
  should_replan = false;
  llm_call_record = none;
}

abbrev no_executions : List (ActionExecution ℕ)
no_executions = []

abbrev after_tick : StateSnapshot ℕ
after_tick =
    build_snapshot no_trim 7 9 session_done false one_note quiet_reflection no_executions
      before_tick

build_snapshot-IsTidy_example :
    (after_tick.tick_number ≡ 7)
    × (after_tick.status ≡ VesselStatus.idle)
    × IsTidy 50 7 after_tick.working_memory
    × (bounded_coding_idle_visible no_trim true false session_done.exec_thread_summaries ≡ true
        → All IsSessionEntry after_tick.working_memory.entries)
build_snapshot-IsTidy_example =
    build_snapshot-IsTidy no_trim 7 9 session_done false one_note quiet_reflection no_executions
      before_tick ((refl, (refl, tt)), ((refl, tt), (tt, tt)))

-- The store of the ticks is full.
abbrev refuse_tick : Write → Result (Unit {0})
refuse_tick Write.save_tick = err (storage "full")
refuse_tick Write.put_snapshot = ok tt
refuse_tick Write.save_snapshot = ok tt
refuse_tick Write.put_tick = ok tt
refuse_tick Write.append_event = ok tt
refuse_tick (Write.acknowledge ids) = ok tt

refused_run :
    (perform refuse_tick (amend_writes (4 ∷ []))).done
    ≡ Write.put_snapshot ∷ Write.save_snapshot ∷ Write.put_tick ∷ []
unfolding perform amend_writes
refused_run = refl

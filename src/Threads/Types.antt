-- ===== src/Threads/Types.antt =====
-- crates/exoskeleton-core/src/thread.rs and exec_thread.rs. An executable thread's output and local
-- state are passed on as they are, so the types of both are parameters; of an output of either
-- flavour the store reads the two ids and the artifact's.
use exoskeleton.Base.{ℕ, String, Bool, true, false, Option, List}

pub data ThreadFlavor : Type 0 where
  cognitive executable : ThreadFlavor

pub data ThreadRole : Type 0 where
  threat_monitor self_critique memory_consolidation meta_cognition : ThreadRole
  creative_synthesis initiative coding other : ThreadRole

pub data ThreadPriority : Type 0 where
  background low normal high critical : ThreadPriority

pub data ThreadSchedule : Type 0 where
  every_tick : ThreadSchedule
  every_n_ticks : ℕ → ThreadSchedule
  on_demand : ThreadSchedule

pub data ThreadStatus : Type 0 where
  active suspended completed failed : ThreadStatus

pub data ExecThreadStatus : Type 0 where
  idle active blocked completed failed : ExecThreadStatus

pub record ThreadSpec : Type 0 where
  pub thread_id : ℕ
  pub role : ThreadRole
  pub flavor : ThreadFlavor
  pub name : String
  pub charter : String
  pub priority : ThreadPriority
  pub token_budget : ℕ
  pub schedule : ThreadSchedule
  pub workspace_root : Option String

pub record ThreadOutput : Type 0 where
  pub thread_id : ℕ
  pub tick_id : ℕ
  pub artifact_id : ℕ
  pub summary : String
  pub recommendations : List String

pub data ThreadExecutionPayload (X : Type 0) : Type 0 where
  cognitive : ThreadOutput → ThreadExecutionPayload X
  executable : X → ThreadExecutionPayload X

pub record ThreadExecutionResult (X : Type 0) : Type 0 where
  pub thread_id : ℕ
  pub tick_id : ℕ
  pub artifact_id : ℕ
  pub payload : ThreadExecutionPayload X

abbrev pub is_terminal : ThreadStatus → Bool
is_terminal ThreadStatus.completed = true
is_terminal ThreadStatus.failed = true
is_terminal _ = false

abbrev pub exec_is_terminal : ExecThreadStatus → Bool
exec_is_terminal ExecThreadStatus.completed = true
exec_is_terminal ExecThreadStatus.failed = true
exec_is_terminal _ = false

-- The rank of a priority in the derived order.
abbrev pub rank : ThreadPriority → ℕ
rank ThreadPriority.background = 0
rank ThreadPriority.low = 1
rank ThreadPriority.normal = 2
rank ThreadPriority.high = 3
rank ThreadPriority.critical = 4

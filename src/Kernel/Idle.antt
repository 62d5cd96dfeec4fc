-- ===== src/Kernel/Idle.antt =====
-- crates/exoskeleton-host/src/kernel/mod.rs: the hold on actions after a coding session that is
-- done, and the change of the vessel's mode. `trim` cuts white space, as the standard library does.
use exoskeleton.Base.{
  if◌then◌else◌, any, is_empty, ◌==◌, String, Bool, true, false, not, ◌&&◌, ◌||◌, Option, none,
  some, List, [], nat_eq, string_eq,
}
use exoskeleton.Core.Snapshot.{ExecThreadSummary}
use exoskeleton.Threads.Types.{ExecThreadStatus}
use exoskeleton.Threads.Executable.{ExecThreadKind}
use exoskeleton.Kernel.Types.{DecisionResult}
use exoskeleton.Kernel.Policy.{VesselMode, normal, planning, executing}

abbrev pub is_idle : ExecThreadStatus → Bool
is_idle ExecThreadStatus.idle = true
is_idle ExecThreadStatus.active = false
is_idle ExecThreadStatus.blocked = false
is_idle ExecThreadStatus.completed = false
is_idle ExecThreadStatus.failed = false

abbrev pub is_coding : ExecThreadKind → Bool
is_coding ExecThreadKind.coding = true

module _ (trim : String → String) where
  abbrev pub says_something : Option String → Bool
  says_something none = false
  says_something (some reason) = not (trim reason == "")

  abbrev pub is_done : ExecThreadSummary → Bool
  is_done s = is_coding s.kind && (is_idle s.status && says_something s.last_completion_reason)

  unfoldable pub bounded_coding_idle_visible : Bool → Bool → List ExecThreadSummary → Bool
  bounded_coding_idle_visible return_to_idle has_new_messages summaries =
      if not return_to_idle || has_new_messages then false else any is_done summaries

unfoldable pub suppress_actions_for_bounded_coding_idle :
    {F J : Type 0} → DecisionResult F J → Bool → DecisionResult F J
suppress_actions_for_bounded_coding_idle d should_suppress =
    if should_suppress && not (is_empty d.actions) then record d { actions = [] } else d

-- The transitions that a decision may ask for.
abbrev pub valid_transition : VesselMode → VesselMode → Bool
valid_transition normal planning = true
valid_transition executing normal = true
valid_transition _ _ = false

unfoldable pub request_mode : Option VesselMode → VesselMode → VesselMode
request_mode none current = current
request_mode (some requested) current =
    if valid_transition current requested then requested else current

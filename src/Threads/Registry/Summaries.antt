-- ===== src/Threads/Registry/Summaries.antt =====
-- The summaries of crates/exoskeleton-threads/src/registry.rs for the snapshot. A default of the
-- local state stands in for one that was never saved.
use exoskeleton.Base.{unwrap_or, head?, String, Option, none, some, List, [], ◌∷◌}
use exoskeleton.Base.Errors.{config, Result, ok, err, ◌>>=◌}
use exoskeleton.Core.Snapshot.{ThreadSummary, ExecThreadSummary}
use exoskeleton.Threads.Types.{ThreadSpec, ExecThreadStatus, ThreadOutput}
use exoskeleton.Threads.Executable.{
  ExecThreadKind, ExecThreadLocalState, ExecThreadOutput, default_local_state, kind_of_role,
}
use exoskeleton.Threads.Store.{
  ThreadStore, RegisteredThreadStatus, cognitive, executable, store_list, get_local_state,
  recent_outputs, recent_exec_outputs, filter_map,
}

-- The store that the host uses.
abbrev pub HostStore : Type 0 → Type 0
HostStore J = ThreadStore (ExecThreadOutput J) ExecThreadLocalState

abbrev first_summary : Option ThreadOutput → Option String
first_summary none = none
first_summary (some o) = some o.summary

module _ {J : Type 0} where
  abbrev first_exec_summary : Option (ExecThreadOutput J) → Option String
  first_exec_summary none = none
  first_exec_summary (some o) = some o.summary

  abbrev summary_of : HostStore J → ThreadSpec × RegisteredThreadStatus → Option ThreadSummary
  summary_of s (spec, executable status) = none
  summary_of s (spec, cognitive status) = some (record {
    thread_id = spec.thread_id;
    name = spec.name;
    status = status;
    last_output_summary = first_summary (head? (recent_outputs spec.thread_id 1 s));
    token_budget_remaining = spec.token_budget;
  })

  unfoldable pub thread_summaries : HostStore J → List ThreadSummary
  thread_summaries s = filter_map (summary_of s) (store_list s)

  abbrev exec_summary :
      HostStore J
      → ThreadSpec
      → ExecThreadStatus
      → ExecThreadLocalState
      → ExecThreadKind
      → ExecThreadSummary
  exec_summary s spec status local_state kind = record {
    thread_id = spec.thread_id;
    kind = kind;
    name = spec.name;
    status = status;
    last_output_summary = first_exec_summary (head? (recent_exec_outputs spec.thread_id 1 s));
    current_focus = local_state.current_focus;
    work_phase = local_state.work_phase;
    evidence_complete = local_state.evidence_complete;
    proposal_confidence = local_state.proposal_confidence;
    last_completion_reason = local_state.last_completion_reason;
  }

  -- One push of the loop, by the kind that its role stands for.
  pub push_exec_summary :
      HostStore J
      → ThreadSpec
      → ExecThreadStatus
      → Option ExecThreadKind
      → Result (List ExecThreadSummary)
      → Result (List ExecThreadSummary)
  push_exec_summary s spec status none rest = err (config "thread role is not executable")
  push_exec_summary s spec status (some kind) rest = rest >>= λ later. ok (
      exec_summary s spec status (unwrap_or (get_local_state spec.thread_id s) default_local_state)
        kind
      ∷ later)

  pub exec_summaries_of :
      HostStore J → List (ThreadSpec × RegisteredThreadStatus) → Result (List ExecThreadSummary)
  unfolding push_exec_summary
  exec_summaries_of s [] = ok []
  exec_summaries_of s ((spec, cognitive status) ∷ all) = exec_summaries_of s all
  exec_summaries_of s ((spec, executable status) ∷ all) =
      push_exec_summary s spec status (kind_of_role spec.role) (exec_summaries_of s all)

  unfoldable pub exec_thread_summaries : HostStore J → Result (List ExecThreadSummary)
  unfolding exec_summaries_of
  exec_thread_summaries s = exec_summaries_of s (store_list s)

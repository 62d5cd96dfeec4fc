-- ===== src/Kernel/Passage.antt =====
-- crates/exoskeleton-host/src/kernel/mod.rs: the way of a decision from Decide to Act, through the
-- proposals of the coding threads, the hold after a coding session, the mode and the align gate.
pub mod Cleared
mod Tests
use exoskeleton.Base.{Eq, ℕ, String, Bool, not, is_empty, Option, List, [], ◌∷◌, nat_eq, string_eq}
use exoskeleton.Base.Errors.{Result, ok, err}
use exoskeleton.Base.Float.{F64}
use exoskeleton.Core.Snapshot.{ExecThreadSummary}
use exoskeleton.Relationship.Types.{MessageEnvelope, RelationalSignal, TrustDecayConfig}
use exoskeleton.Relationship.Ledger.{RelationshipLedger}
use exoskeleton.Relationship.Align.{ReviewLabel}
use exoskeleton.Threads.Registry.Summaries.{HostStore, exec_thread_summaries}
use exoskeleton.Kernel.Types.{PlannedAction, DecisionResult, AlignmentResult}
use exoskeleton.Kernel.Policy.{VesselMode}
use exoskeleton.Kernel.Idle.{
  bounded_coding_idle_visible, suppress_actions_for_bounded_coding_idle, request_mode,
}
use exoskeleton.Kernel.Proposals.{annotate_exec_thread_origins, reconcile_exec_thread_proposals}
use exoskeleton.Kernel.Align.{align, merge_poll_actions}

-- `unwrap_or_default()`.
abbrev pub or_none : Result (List ExecThreadSummary) → List ExecThreadSummary
or_none (ok summaries) = summaries
or_none (err e) = []

module _ {J : Type 0} (trim : String → String) where
  unfoldable should_hold_bounded_coding_session_idle :
      Bool → List MessageEnvelope → HostStore J → Bool
  should_hold_bounded_coding_session_idle return_to_idle new_messages s =
      bounded_coding_idle_visible trim return_to_idle (not (is_empty new_messages))
        (or_none (exec_thread_summaries s))

-- What is handed to Act, with the mode and the ledger that are left.
pub record Passage (F J : Type 0) : Type 0 where
  pub alignment : AlignmentResult F J
  pub vessel_mode : VesselMode
  pub ledger : RelationshipLedger

module _ {F J : Type 0} ⦃e : Eq J⦄ where
  abbrev pub prepared : HostStore J → Bool → DecisionResult F J → DecisionResult F J
  prepared s hold d =
      suppress_actions_for_bounded_coding_idle
        (reconcile_exec_thread_proposals s (annotate_exec_thread_origins s d)) hold

  module _ (f : F64 F) (content_id : ReviewLabel → ℕ) (fresh now : ℕ → ℕ)
      (parse : String → Option F) (id_text : ℕ → String) (read_signal : ℕ → Option RelationalSignal)
      (fresh_signal : ℕ → ℕ) where
    abbrev pub aligned :
        Option (TrustDecayConfig F)
        → (clock tick : ℕ) → List MessageEnvelope
        → List (PlannedAction J)
        → RelationshipLedger
        → AlignmentResult F J × RelationshipLedger
    aligned decay clock tick messages actions l =
        align f content_id fresh now parse id_text read_signal fresh_signal decay clock tick
          messages actions l

    -- `hold` is `should_hold_bounded_coding_session_idle`, and `polls` are the poll actions of the
    -- watches that triggered.
    pub pass :
        Option (TrustDecayConfig F)
        → (clock tick : ℕ) → List MessageEnvelope
        → HostStore J
        → (hold : Bool) → (polls : List (PlannedAction J)) → VesselMode
        → RelationshipLedger
        → DecisionResult F J
        → Passage F J
    pass decay clock tick messages s hold polls mode l d =
        let d' = prepared s hold d in
        let result = aligned decay clock tick messages d'.actions l in
        record {
          alignment = merge_poll_actions hold polls result.0;
          vessel_mode = request_mode d'.vessel_mode_request mode;
          ledger = result.1;
        }

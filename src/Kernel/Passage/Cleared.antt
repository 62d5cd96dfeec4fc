-- ===== src/Kernel/Passage/Cleared.antt =====
-- What crates/exoskeleton-host/src/kernel/mod.rs lets through to Act.
use exoskeleton.Base.{
  if◌then◌else◌, Bool-cases, length, filter, is_empty, Eq, ℕ, suc, String, ◌≡◌, refl, ap, ◌∙◌, inl,
  inr, Bool, true, false, Option, some, List, [], ◌∷◌, ◌++◌, map,
}
use exoskeleton.Base.Float.{F64}
use mathlib.Core.List.{append_assoc}
use exoskeleton.Relationship.Types.{
  MessageEnvelope, RelationalSignal, TrustDecayConfig, PrincipalSummary, RelationshipSnapshot,
}
use exoskeleton.Relationship.Ledger.{RelationshipLedger}
use exoskeleton.Relationship.Signals.{process_relational_signals}
use exoskeleton.Relationship.Snapshot.{compile_relationship_snapshot}
use exoskeleton.Relationship.Align.{
  ReviewLabel, AlignConfig, check_alignment, review_from, indices_from,
}
use exoskeleton.Threads.Registry.Summaries.{HostStore}
use exoskeleton.Kernel.Types.{PlannedAction, DecisionResult}
use exoskeleton.Kernel.Policy.{VesselMode}
use exoskeleton.Kernel.Idle.{suppress_actions_for_bounded_coding_idle}
use exoskeleton.Kernel.Proposals.{annotate_exec_thread_origins, reconcile_exec_thread_proposals}
use exoskeleton.Kernel.Align.{
  align, align_actions, default_align_config, merge_poll_actions, pick, nth?, align_action,
}
use exoskeleton.Kernel.Align.Approved.{
  passes, align_actions-Splits, filter_map-some, nth?-append-length, length-snoc,
}
use exoskeleton.Kernel.Passage.{pass}

is_empty-nil : {A : Type 0} (xs : List A) → is_empty xs ≡ true → xs ≡ []
is_empty-nil [] h = refl
is_empty-nil (x ∷ xs) h = absurd cc

suppress-true :
    {F J : Type 0} (d : DecisionResult F J)
    → (suppress_actions_for_bounded_coding_idle d true).actions ≡ []
unfolding suppress_actions_for_bounded_coding_idle
suppress-true d = elim (Bool-cases (is_empty d.actions)) [
  | inl none_e ↦ rw none_e (is_empty-nil d.actions none_e)
  | inr some_e ↦ rw some_e refl
]

suppress-false :
    {F J : Type 0} (d : DecisionResult F J) → suppress_actions_for_bounded_coding_idle d false ≡ d
unfolding suppress_actions_for_bounded_coding_idle
suppress-false d = refl

module _ {F : Type 0} (f : F64 F) (parse : String → Option F) (id_text : ℕ → String)
    (read_signal : ℕ → Option RelationalSignal) (fresh_signal : ℕ → ℕ)
    (decay : Option (TrustDecayConfig F)) (clock tick : ℕ) (messages : List MessageEnvelope)
    (l : RelationshipLedger) where
  -- The snapshot that the tick is aligned with.
  abbrev pub snapshot_of_tick : RelationshipSnapshot F
  snapshot_of_tick =
      compile_relationship_snapshot f parse id_text decay clock clock
        (process_relational_signals read_signal fresh_signal tick messages l).0

module _ {F J : Type 0} (f : F64 F) (content_id : ReviewLabel → ℕ) (fresh now : ℕ → ℕ) where
  align_actions-nil :
      (c : AlignConfig F) (tick compiled_at : ℕ) (ps : List (PrincipalSummary F))
      → (align_actions {J = J} f content_id fresh now c tick []
          (some (record { principals = ps; compiled_at = compiled_at }))).approved_actions
        ≡ []
  unfolding align_actions check_alignment review_from
  align_actions-nil c tick compiled_at [] = refl
  align_actions-nil c tick compiled_at (p ∷ ps) = refl

  -- What the gate lets through: everything while no principal is known.
  abbrev pub gated :
      AlignConfig F → List (PrincipalSummary F) → List (PlannedAction J) → List (PlannedAction J)
  gated c [] actions = actions
  gated c (p ∷ ps) actions = filter (passes f c (p ∷ ps)) actions

  pick_all :
      (pre rest : List (PlannedAction J))
      → pick (pre ++ rest) (indices_from (length pre) (map align_action rest)) ≡ rest
  unfolding indices_from
  pick_all pre [] = refl
  pick_all pre (a ∷ rest) =
      filter_map-some (nth? (pre ++ a ∷ rest)) (length pre) a
        (indices_from (suc (length pre)) (map align_action rest)) (nth?-append-length pre a rest)
      ∙ ap (◌∷◌ a) (
          rw⁻¹ (append_assoc pre (a ∷ []) rest)
            (rw (length-snoc pre a) (pick_all (pre ++ a ∷ []) rest)))

  approved-gated :
      (c : AlignConfig F) (tick compiled_at : ℕ) (actions : List (PlannedAction J))
      (ps : List (PrincipalSummary F))
      → (align_actions f content_id fresh now c tick actions
          (some (record { principals = ps; compiled_at = compiled_at }))).approved_actions
        ≡ gated c ps actions
  unfolding align_actions check_alignment
  approved-gated c tick compiled_at actions [] = pick_all [] actions
  approved-gated c tick compiled_at actions (p ∷ ps) =
      (align_actions-Splits f content_id fresh now tick c p ps compiled_at actions).0

module _ {F J : Type 0} ⦃e : Eq J⦄ (f : F64 F) (content_id : ReviewLabel → ℕ)
    (fresh now : ℕ → ℕ) where
  module _ (parse : String → Option F) (id_text : ℕ → String)
      (read_signal : ℕ → Option RelationalSignal) (fresh_signal : ℕ → ℕ)
      (decay : Option (TrustDecayConfig F)) (clock tick : ℕ) (messages : List MessageEnvelope)
      (l : RelationshipLedger) where
    -- While the vessel is held idle, Act is given no action at all. Otherwise Act is given those
    -- actions of the decision, as reconciled with the coding threads, that the gate does not block, in
    -- their order, and after them the polls of the watches, which the gate does not see; while the
    -- ledger knows no principal, the gate blocks nothing.
    pub pass-approved :
        (s : HostStore J) (hold : Bool) (polls : List (PlannedAction J)) (mode : VesselMode)
        (d : DecisionResult F J)
        → let given =
            (pass f content_id fresh now parse id_text read_signal fresh_signal decay clock tick
              messages s hold polls mode l d).alignment.approved_actions in
          let reconciled = reconcile_exec_thread_proposals s (annotate_exec_thread_origins s d) in
          let known =
            (snapshot_of_tick f parse id_text read_signal fresh_signal decay clock tick messages
              l).principals in
          given ≡ (
            if hold
            then []
            else gated f content_id fresh now (default_align_config f) known reconciled.actions
              ++ polls)
    unfolding pass align merge_poll_actions
    pass-approved s true polls mode d =
        let snapshot =
          snapshot_of_tick f parse id_text read_signal fresh_signal decay clock tick messages l in
        let reconciled = reconcile_exec_thread_proposals s (annotate_exec_thread_origins s d) in
        rw (suppress-true reconciled) (
          align_actions-nil f content_id fresh now (default_align_config f) tick
            snapshot.compiled_at snapshot.principals)
    pass-approved s false polls mode d =
        let snapshot =
          snapshot_of_tick f parse id_text read_signal fresh_signal decay clock tick messages l in
        let reconciled = reconcile_exec_thread_proposals s (annotate_exec_thread_origins s d) in
        rw (suppress-false reconciled) (
          ap (λ xs. xs ++ polls)
            (approved-gated f content_id fresh now (default_align_config f) tick
              snapshot.compiled_at reconciled.actions snapshot.principals))

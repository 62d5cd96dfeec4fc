-- ===== src/Kernel/Proposals.antt =====
-- crates/exoskeleton-host/src/kernel/mod.rs: how the actions of a decision are matched with what the
-- coding threads propose. The equality of JSON values is an instance argument.
pub mod Backed
use exoskeleton.Base.{
  if◌then◌else◌, filter, any, is_empty, Eq, ◌==◌, ℕ, String, Bool, true, false, not, ◌&&◌, ◌||◌,
  Option, none, some, List, [], ◌∷◌, ◌++◌, map, nat_eq, string_eq,
}
use exoskeleton.Threads.Types.{ThreadSpec, ThreadRole, ExecThreadStatus}
use exoskeleton.Threads.Executable.{
  ExecThreadOutput, ExecThreadProposal, ExecThreadProposalConfidence,
}
use exoskeleton.Threads.Store.{filter_map, recent_exec_outputs}
use exoskeleton.Threads.Registry.{list_executable}
use exoskeleton.Threads.Registry.Summaries.{HostStore}
use exoskeleton.Kernel.Types.{PlannedAction, DecisionResult}
use Prim.Native.String as S

abbrev pub is_one_of : List String → String → Bool
is_one_of names name = any (λ n. n == name) names

abbrev pub is_exploratory_code_action : String → Bool
is_exploratory_code_action name =
    is_one_of
      ("code.read" ∷ "code.read_symbol" ∷ "code.grep" ∷ "code.ls" ∷ "code.glob" ∷ "repo.context"
        ∷ "repo.locate" ∷ "code.symbol" ∷ "code.references" ∷ "code.impls" ∷ "fs.read" ∷ [])
      name

abbrev pub is_mutating_code_action : String → Bool
is_mutating_code_action name =
    is_one_of ("code.edit" ∷ "code.write" ∷ "code.apply_patch" ∷ "fs.write" ∷ []) name

-- A coding thread that has not failed.
abbrev pub is_coding_role : ThreadRole → Bool
is_coding_role ThreadRole.coding = true
is_coding_role _ = false

abbrev pub has_failed : ExecThreadStatus → Bool
has_failed ExecThreadStatus.failed = true
has_failed _ = false

abbrev pub may_propose : ThreadSpec × ExecThreadStatus → Bool
may_propose (spec, status) = is_coding_role spec.role && not (has_failed status)

abbrev pub is_high : Option ExecThreadProposalConfidence → Bool
is_high (some ExecThreadProposalConfidence.high) = true
is_high (some ExecThreadProposalConfidence.medium) = false
is_high (some ExecThreadProposalConfidence.low) = false
is_high none = false

-- `outputs.pop()`.
abbrev pub pop : {A : Type 0} → List A → Option A
pop [] = none
pop (x ∷ []) = some x
pop (x ∷ y ∷ xs) = pop (y ∷ xs)

abbrev pub tagged : {A : Type 0} → ℕ → Option A → Option (ℕ × A)
tagged id none = none
tagged id (some a) = some (id, a)

module _ {J : Type 0} where
  unfoldable pub latest_coding_exec_thread_proposals : HostStore J → List (ℕ × ExecThreadOutput J)
  latest_coding_exec_thread_proposals s =
      filter_map (λ e. tagged e.0.thread_id (pop (recent_exec_outputs e.0.thread_id 1 s)))
        (filter may_propose (list_executable s))

  -- The threads with what each proposes, of those that propose something.
  abbrev pub proposals_of : HostStore J → List (ℕ × ExecThreadProposal J)
  proposals_of s =
      filter_map (λ o. tagged o.0 o.1.proposed_action) (latest_coding_exec_thread_proposals s)

  abbrev pub with_origin : ℕ → ExecThreadProposal J → PlannedAction J → PlannedAction J
  with_origin id p a = record a {
    origin_exec_thread_id = some id;
    proposal_id = some p.proposal_id;
  }

  abbrev pub only_match : PlannedAction J → List (ℕ × ExecThreadProposal J) → PlannedAction J
  only_match a [] = a
  only_match a ((id, p) ∷ []) = with_origin id p a
  only_match a (x ∷ y ∷ ms) = a

  abbrev pub proposes_mutation : Option (ExecThreadProposal J) → Bool
  proposes_mutation none = false
  proposes_mutation (some p) = is_mutating_code_action p.tool_name

  abbrev pub is_ready : ℕ × ExecThreadOutput J → Bool
  is_ready (id, o) =
      o.evidence_complete && (is_high o.proposal_confidence && proposes_mutation o.proposed_action)

  abbrev pub is_code_action : PlannedAction J → Bool
  is_code_action a = is_exploratory_code_action a.tool_name || is_mutating_code_action a.tool_name

  -- The action that the proposal stands for.
  abbrev pub proposed_call : ℕ → ExecThreadProposal J → PlannedAction J
  proposed_call id p = record {
    call_id = S.◌++◌ "exec-proposal-" p.proposal_id;
    tool_name = p.tool_name;
    params = p.params;
    rationale = p.rationale;
    plan_task_id = none;
    origin_exec_thread_id = some id;
    proposal_id = some p.proposal_id;
  }

module _ {J : Type 0} ⦃e : Eq J⦄ where
  abbrev pub same_call : PlannedAction J → ExecThreadProposal J → Bool
  same_call a p = (a.tool_name == p.tool_name) && (a.params == p.params)

  abbrev pub annotate_action : List (ℕ × ExecThreadProposal J) → PlannedAction J → PlannedAction J
  annotate_action proposals a = elim a.origin_exec_thread_id [
    | some id ↦ a
    | none ↦ only_match a (filter (λ m. same_call a m.1) proposals)
  ]

  unfoldable pub annotate_exec_thread_origins :
      {F : Type 0} → HostStore J → DecisionResult F J → DecisionResult F J
  annotate_exec_thread_origins s d = record d {
    actions = map (annotate_action (proposals_of s)) d.actions;
  }

  -- The actions after the proposal of the one ready thread.
  abbrev pub with_proposal :
      ℕ → Option (ExecThreadProposal J) → List (PlannedAction J) → List (PlannedAction J)
  with_proposal id none actions = actions
  with_proposal id (some p) [] = proposed_call id p ∷ []
  with_proposal id (some p) (a ∷ []) =
      if same_call a p then with_origin id p a ∷ [] else proposed_call id p ∷ []
  with_proposal id (some p) (a ∷ b ∷ actions) = proposed_call id p ∷ []

  abbrev pub with_only_ready :
      List (ℕ × ExecThreadOutput J) → List (PlannedAction J) → List (PlannedAction J)
  with_only_ready [] actions = actions
  with_only_ready ((id, o) ∷ []) actions = with_proposal id o.proposed_action actions
  with_only_ready (x ∷ y ∷ ready) actions = actions

  pub reconcile_exec_thread_proposals :
      {F : Type 0} → HostStore J → DecisionResult F J → DecisionResult F J
  reconcile_exec_thread_proposals s d =
      if is_empty d.actions
      then d
      else if any (λ a. not (is_code_action a)) d.actions
      then d
      else record d {
        actions =
            with_only_ready (filter is_ready (latest_coding_exec_thread_proposals s)) d.actions;
      }

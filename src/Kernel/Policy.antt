-- ===== src/Kernel/Policy.antt =====
-- crates/exoskeleton-host/src/kernel/policy.rs: which tools may be invoked.
use exoskeleton.Base.{
  if◌then◌else◌, Bool-cases, unwrap_or, Dict, lookup, insert, lookup-insert, ◌==◌, String, ◌≡◌,
  refl, ap, ◌∙◌, inl, inr, Bool, true, false, not, ◌&&◌, nat_eq, string_eq,
}

pub data PolicyRule : Type 0 where
  allow deny ask : PolicyRule

pub data VesselMode : Type 0 where
  normal planning executing : VesselMode

pub record ToolPolicyConfig : Type 0 where
  pub default : PolicyRule
  pub rules : Dict String PolicyRule

abbrev pub SessionApprovals : Type 0
SessionApprovals = Dict String Bool

-- The reason of a refusal, without the name of the tool.
pub data PolicyDecision : Type 0 where
  allowed : PolicyDecision
  denied : String → PolicyDecision
  needs_approval : PolicyDecision

unfoldable pub rule_for : String → ToolPolicyConfig → PolicyRule
rule_for name c = unwrap_or (lookup name c.rules) c.default

unfoldable pub is_approved : String → SessionApprovals → Bool
is_approved name approvals = unwrap_or (lookup name approvals) false

unfoldable pub approve : String → SessionApprovals → SessionApprovals
approve name approvals = insert name true approvals

abbrev pub is_planning : VesselMode → Bool
is_planning planning = true
is_planning _ = false

-- The `match` on the rule.
abbrev pub by_rule : PolicyRule → Bool → PolicyDecision
by_rule allow approved = allowed
by_rule deny approved = denied "denied by policy"
by_rule ask approved = if approved then allowed else needs_approval

unfoldable pub evaluate_policy :
    String → Bool → VesselMode → ToolPolicyConfig → SessionApprovals → PolicyDecision
evaluate_policy name is_read_only mode c approvals =
    if is_planning mode && not is_read_only
    then denied "is mutating; blocked in planning mode (read-only only)"
    else by_rule (rule_for name c) (is_approved name approvals)

-- What approving the tool makes of a decision on it.
abbrev pub once_approved : PolicyDecision → PolicyDecision
once_approved needs_approval = allowed
once_approved d = d

approve_rule : (r : PolicyRule) (a : Bool) → by_rule r true ≡ once_approved (by_rule r a)
approve_rule allow a = refl
approve_rule deny a = refl
approve_rule ask true = refl
approve_rule ask false = refl

is_approved-approve :
    (name other : String) (s : SessionApprovals)
    → is_approved other (approve name s) ≡ (if name == other then true else is_approved other s)
unfolding is_approved approve
is_approved-approve name other s =
    ap (λ o. unwrap_or o false) (lookup-insert name other true s)
    ∙ elim (Bool-cases (name == other)) [ inl e ↦ rw e refl | inr e ↦ rw e refl ]

-- Approving a tool changes the decision on that tool only, and only from waiting for approval to
-- allowed: a denial by policy or by the planning mode stands whatever was approved.
pub evaluate_policy-approve :
    (name other : String) (read_only : Bool) (mode : VesselMode) (c : ToolPolicyConfig)
    (s : SessionApprovals)
    → evaluate_policy other read_only mode c (approve name s) ≡ (
        if name == other
        then once_approved (evaluate_policy other read_only mode c s)
        else evaluate_policy other read_only mode c s)
unfolding evaluate_policy
evaluate_policy-approve name other read_only mode c s =
    elim (Bool-cases (is_planning mode && not read_only)) [
      | inl e ↦ rw e (elim (Bool-cases (name == other)) [ inl k ↦ rw k refl | inr k ↦ rw k refl ])
      | inr e ↦ rw e (
          ap (by_rule (rule_for other c)) (is_approved-approve name other s)
          ∙ elim (Bool-cases (name == other)) [
            | inl k ↦ rw k (approve_rule (rule_for other c) (is_approved other s))
            | inr k ↦ rw k refl
          ])
    ]

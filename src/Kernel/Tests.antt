-- ===== src/Kernel/Tests.antt =====
-- The theorems on the policy, the inbox and the watch check at concrete inputs.
use exoskeleton.Base.{
  All, Dict, lookup, insert, ℕ, ◌≡◌, refl, true, false, none, some, [], ◌∷◌, nat_eq, string_eq,
}
use exoskeleton.Base.Errors.{Result, ok}
use exoskeleton.Samples.{hundredths}
use exoskeleton.Core.Watch.{
  WatchDefinition, WatchType, WatchCondition, MetricKind, WatchSchedule, WatchStatus,
}
use exoskeleton.Kernel.Policy.{
  ToolPolicyConfig, PolicyRule, PolicyDecision, VesselMode, approve, evaluate_policy,
  evaluate_policy-approve, once_approved, rule_for, is_approved,
}
use exoskeleton.Kernel.Mode.{Run, Step, post_plan_approve, accepted, executing_needs_approval}
use exoskeleton.Kernel.Idle.{request_mode}
use exoskeleton.Kernel.Watches.{check_watches, IsCrossing, check_watches-crossings}

abbrev ask_writes : ToolPolicyConfig
ask_writes = record {
  default = PolicyRule.allow;
  rules = ("fs.write", PolicyRule.ask) ∷ ("shell.exec", PolicyRule.deny) ∷ [];
}

evaluate_policy-approve_example :
    evaluate_policy "fs.write" false VesselMode.normal ask_writes (approve "fs.write" [])
    ≡ once_approved (evaluate_policy "fs.write" false VesselMode.normal ask_writes [])
evaluate_policy-approve_example =
    evaluate_policy-approve "fs.write" "fs.write" false VesselMode.normal ask_writes []

approved_write :
    evaluate_policy "fs.write" false VesselMode.normal ask_writes (approve "fs.write" [])
    ≡ PolicyDecision.allowed
unfolding evaluate_policy approve rule_for is_approved lookup insert
approved_write = refl

abbrev one_watch : Dict ℕ (WatchDefinition ℕ ℕ)
one_watch =
    (
      4,
      record {
        id = 4;
        name = "trust";
        description = "d";
        watch_type = WatchType.threshold (MetricKind.trust_level 1) (WatchCondition.below 30);
        schedule = WatchSchedule.once;
        status = WatchStatus.active;
        created_at_tick = 0;
        last_checked_tick = none;
        trigger_count = 0;
        created_at = 0;
      },
    )
    ∷ []

abbrev reading : MetricKind → Result ℕ
reading metric = ok 20

check_watches-crossings_example :
    All (IsCrossing reading) (check_watches reading 7 one_watch).triggered_events
check_watches-crossings_example = (check_watches-crossings reading 7 one_watch).0

-- The model asks for planning, an approval without a draft is refused, one with a draft is accepted.
abbrev planned_work : Run VesselMode.normal VesselMode.executing
unfolding request_mode post_plan_approve
planned_work =
    Run.next_step
      (Run.next_step
        (Run.next_step (Run.start VesselMode.normal)
          (Step.decision (some VesselMode.planning) VesselMode.normal))
        (Step.approval (ok false) (ok 1) VesselMode.planning))
      (Step.approval (ok true) (ok 1) VesselMode.planning)

executing_needs_approval_example : accepted planned_work ≡ true
executing_needs_approval_example = executing_needs_approval planned_work refl refl

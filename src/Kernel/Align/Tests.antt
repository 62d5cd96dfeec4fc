-- ===== src/Kernel/Align/Tests.antt =====
-- The theorems on the Align step at concrete inputs.
use exoskeleton.Base.{
  filter, insert, ℕ, ◌≤◌, max, String, ◌≡◌, refl, none, some, List, [], ◌∷◌, arith, nat_eq,
  string_eq,
}
use exoskeleton.Samples.{hundredths}
use exoskeleton.Core.Watch.{
  WatchProposal, WatchType, MetricKind, WatchCondition, WatchSchedule, count_active, active_count,
  save,
}
use exoskeleton.Relationship.Types.{PrincipalSummary}
use exoskeleton.Relationship.Align.{ReviewLabel, block_reason, is_destructive}
use exoskeleton.Threads.Store.{filter_map}
use exoskeleton.Kernel.Types.{PlannedAction}
use exoskeleton.Kernel.Align.{align_actions, default_align_config, save_proposals}
use exoskeleton.Kernel.Align.Approved.{passes, with_reason, align_actions-Splits}
use exoskeleton.Kernel.Align.Limit.{save_proposals-count_active}

abbrev planned_call : String → PlannedAction ℕ
planned_call name = record {
  call_id = "c";
  tool_name = name;
  params = 0;
  rationale = "r";
  plan_task_id = none;
  origin_exec_thread_id = none;
  proposal_id = none;
}

abbrev two_calls : List (PlannedAction ℕ)
two_calls = planned_call "fs.write" ∷ planned_call "fs.read" ∷ []

abbrev wary_principal : PrincipalSummary ℕ
wary_principal = record {
  principal_id = 7;
  display_name = "p";
  role = "user";
  trust_level = 50;
  active_commitments = 0;
  last_interaction = none;
  notes = none;
}

abbrev label_id : ReviewLabel → ℕ
label_id label = 0

align_actions-Splits_example :
    let result =
      align_actions hundredths label_id
        (λ i. i)
        (λ i. i)
        (default_align_config hundredths)
        3
        two_calls
        (some (record { principals = wary_principal ∷ []; compiled_at = 9 })) in
    (result.approved_actions
      ≡ filter
          (passes hundredths (default_align_config hundredths) (wary_principal ∷ []))
          two_calls)
    × (result.blocked_actions
        ≡ filter_map
            (with_reason hundredths (default_align_config hundredths) (wary_principal ∷ []))
            two_calls)
align_actions-Splits_example =
    align_actions-Splits hundredths label_id (λ i. i) (λ i. i) 3 (default_align_config hundredths)
      wary_principal [] 9 two_calls

-- The one that only reads passes.
write_is_held_back :
    filter (passes hundredths (default_align_config hundredths) (wary_principal ∷ [])) two_calls
    ≡ planned_call "fs.read" ∷ []
unfolding block_reason is_destructive
write_is_held_back = refl

abbrev proposed : String → WatchProposal ℕ ℕ
proposed name = record {
  name = name;
  description = "d";
  watch_type = WatchType.threshold (MetricKind.trust_level 1) (WatchCondition.below 30);
  schedule = WatchSchedule.once;
}

save_proposals-count_active_example :
    count_active
      (save_proposals (λ i. i) 2 5 9 0 (proposed "a" ∷ proposed "b" ∷ proposed "c" ∷ []) [])
    ≤ max 0 2
save_proposals-count_active_example =
    save_proposals-count_active (λ i. i) 2 5 9 0 (proposed "a" ∷ proposed "b" ∷ proposed "c" ∷ [])
      [] (omega arith) (omega arith)

two_are_saved :
    count_active
      (save_proposals (λ i. i) 2 5 9 0 (proposed "a" ∷ proposed "b" ∷ proposed "c" ∷ []) [])
    ≡ 2
unfolding save_proposals active_count save insert
two_are_saved = refl

-- ===== src/Core/Tests.antt =====
-- The theorems on working memory, plans and watches at concrete inputs.
use exoskeleton.Base.{ℕ, String, ◌≡◌, refl, none, some, [], ◌∷◌, arith}
use exoskeleton.Samples.{hundredths}
use exoskeleton.Core.WorkingMemory.{
  WorkingMemory, WorkingMemoryEntry, WorkingMemoryOp, apply_ops, evict_expired, enforce_cap,
}
use exoskeleton.Core.WorkingMemory.Keys.{DistinctKeys, tick-DistinctKeys}
use exoskeleton.Core.WorkingMemory.Cap.{
  IsComparable, KeepsMostRelevant, enforce_cap-KeepsMostRelevant,
}
use exoskeleton.Core.Plan.{Plan, PlanOp, PlanUpdate, PlanTaskStatus, apply_update, status_eq}
use exoskeleton.Core.Plan.Updates.{status_of, status_of-patch}

abbrev entry_of : String → ℕ → ℕ → WorkingMemoryEntry ℕ
entry_of k written relevance = record {
  key = k;
  value = "v";
  written_at_tick = written;
  ttl_ticks = some 3;
  relevance = relevance;
}

abbrev two_entries : WorkingMemory ℕ
two_entries = record { entries = entry_of "a" 1 40 ∷ entry_of "b" 2 90 ∷ [] }

two_entries-DistinctKeys : DistinctKeys two_entries
two_entries-DistinctKeys = ((refl, tt), (tt, tt))

tick-DistinctKeys_example : DistinctKeys (
    enforce_cap 1
      (evict_expired 2 (apply_ops (WorkingMemoryOp.set "a" "w" none ∷ []) 2 two_entries)))
tick-DistinctKeys_example =
    tick-DistinctKeys (WorkingMemoryOp.set "a" "w" none ∷ []) 2 1 two_entries
      two_entries-DistinctKeys

hundredths-IsComparable : IsComparable hundredths
hundredths-IsComparable = record {
  asymmetric = λ x y h. ground arith;
  negatively_transitive = λ x y z h k. ground arith;
}

enforce_cap-KeepsMostRelevant_example :
    KeepsMostRelevant (enforce_cap 1 two_entries).entries two_entries.entries
enforce_cap-KeepsMostRelevant_example =
    (enforce_cap-KeepsMostRelevant 1 two_entries hundredths-IsComparable).1

abbrev one_task : Plan
one_task = record {
  objective = "o";
  tasks =
      record {
        id = 1;
        description = "d";
        status = PlanTaskStatus.pending;
        depends_on = [];
        tool_hint = none;
        metadata = [];
      }
      ∷ [];
  updated_at = 0;
}

status_of-patch_example :
    status_of 1
      (apply_update
        (PlanUpdate.patch (PlanOp.update_status 1 PlanTaskStatus.completed ∷ []))
        9
        one_task).tasks
    ≡ some PlanTaskStatus.completed
unfolding status_of
status_of-patch_example =
    status_of-patch (PlanOp.update_status 1 PlanTaskStatus.completed ∷ []) 9 1 one_task

-- ===== src/Core/Plan/Updates.antt =====
-- What the updates do to a plan, and what its counts say.
use exoskeleton.Base.{
  if◌then◌else◌, unwrap_or, length, filter, Dict, lookup, upsert, lookup-upsert, ◌==◌, ℕ, suc, ◌+◌,
  ◌≡◌, refl, ap, ◌∙◌, Bool, not, Option, none, some, List, [], ◌∷◌, ◌++◌, arith, nat_eq, string_eq,
}
use exoskeleton.Core.Plan.{
  status_eq, Plan, PlanTask, PlanOp, PlanTaskStatus, apply_op, apply_ops, apply_update, set_status,
  count_statuses, task_counts, add_task, update_status, remove_task, update_objective, patch,
}

-- The status of the first task with an id.
unfoldable pub status_of : ℕ → List PlanTask → Option PlanTaskStatus
status_of k [] = none
status_of k (t ∷ ts) = if t.id == k then some t.status else status_of k ts

-- What an operation does to the status under an id.
abbrev pub status_after : PlanOp → ℕ → Option PlanTaskStatus → Option PlanTaskStatus
status_after (add_task t) k none = if t.id == k then some t.status else none
status_after (add_task t) k (some s) = some s
status_after (update_status j s) k none = none
status_after (update_status j s) k (some old) = if j == k then some s else some old
status_after (remove_task j) k before = if j == k then none else before
status_after (update_objective o) k before = before

abbrev pub statuses_after : List PlanOp → ℕ → Option PlanTaskStatus → Option PlanTaskStatus
statuses_after [] k before = before
statuses_after (op ∷ ops) k before = statuses_after ops k (status_after op k before)

status_of-append :
    (k : ℕ) (t : PlanTask) (ts : List PlanTask)
    → status_of k (ts ++ t ∷ []) ≡ status_after (add_task t) k (status_of k ts)
unfolding status_of
status_of-append k t [] = refl
status_of-append k t (u ∷ ts) = ground (arith, status_of-append k t ts)

status_of-set_status :
    (j : ℕ) (s : PlanTaskStatus) (k : ℕ) (ts : List PlanTask)
    → status_of k (set_status j s ts) ≡ status_after (update_status j s) k (status_of k ts)
unfolding status_of set_status
status_of-set_status j s k [] = refl
status_of-set_status j s k (t ∷ ts) = ground (arith, status_of-set_status j s k ts)

status_of-remove :
    (j k : ℕ) (ts : List PlanTask)
    → status_of k (filter (λ t. not (t.id == j)) ts)
      ≡ status_after (remove_task j) k (status_of k ts)
unfolding status_of
status_of-remove j k [] = ground arith
status_of-remove j k (t ∷ ts) = ground (arith, status_of-remove j k ts)

status_of-apply_op :
    (op : PlanOp) (k : ℕ) (p : Plan)
    → status_of k (apply_op op p).tasks ≡ status_after op k (status_of k p.tasks)
unfolding apply_op
status_of-apply_op (add_task t) k p = status_of-append k t p.tasks
status_of-apply_op (update_status j s) k p = status_of-set_status j s k p.tasks
status_of-apply_op (remove_task j) k p = status_of-remove j k p.tasks
status_of-apply_op (update_objective o) k p = refl

status_of-apply_ops :
    (ops : List PlanOp) (k : ℕ) (p : Plan)
    → status_of k (apply_ops ops p).tasks ≡ statuses_after ops k (status_of k p.tasks)
unfolding apply_ops
status_of-apply_ops [] k p = refl
status_of-apply_ops (op ∷ ops) k p =
    status_of-apply_ops ops k (apply_op op p)
    ∙ ap (statuses_after ops k) (status_of-apply_op op k p)

-- The status of a task after a patch is that of the operations on its id in their order: the last
-- update of it while it exists, nothing once it is removed, and the status it is added with; a
-- status update of an id that the plan lacks does nothing.
pub status_of-patch :
    (ops : List PlanOp) (now k : ℕ) (p : Plan)
    → status_of k (apply_update (patch ops) now p).tasks
      ≡ statuses_after ops k (status_of k p.tasks)
unfolding apply_update
status_of-patch ops now k p = status_of-apply_ops ops k p

abbrev pub count_of : PlanTaskStatus → Dict PlanTaskStatus ℕ → ℕ
count_of s m = unwrap_or (lookup s m) 0

abbrev pub with_status : PlanTaskStatus → PlanTask → Bool
with_status s t = t.status == s

count_statuses_lem :
    (s : PlanTaskStatus) (ts : List PlanTask) (m : Dict PlanTaskStatus ℕ)
    → count_of s (count_statuses ts m) ≡ count_of s m + length (filter (with_status s) ts)
unfolding count_statuses
count_statuses_lem s [] m = omega arith
count_statuses_lem s (t ∷ ts) m = ground (
  arith,
  count_statuses_lem s ts (upsert t.status 0 (λ n. suc n) m),
  lookup-upsert t.status s 0 (λ (n : ℕ). suc n) m,
)

-- The count under a status is the number of tasks that have it.
pub task_counts_lem :
    (s : PlanTaskStatus) (p : Plan)
    → count_of s (task_counts p) ≡ length (filter (with_status s) p.tasks)
unfolding task_counts lookup
task_counts_lem s p = omega (arith, count_statuses_lem s p.tasks [])

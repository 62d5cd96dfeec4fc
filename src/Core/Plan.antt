-- ===== src/Core/Plan.antt =====
-- crates/exoskeleton-core/src/plan.rs: a plan of tasks and its incremental updates. Ids are
-- numbers, and `Utc::now()` is the argument `now`.
pub mod Updates
use exoskeleton.Base.{
  if◌then◌else◌, filter, Dict, upsert, Eq, ◌==◌, ℕ, suc, String, ◌≡◌, ◌↔◌, Bool, true, false, not,
  Option, List, [], ◌∷◌, ◌++◌, arith, nat_eq, string_eq,
}

pub data PlanTaskStatus : Type 0 where
  pending in_progress completed failed blocked skipped : PlanTaskStatus

pub record PlanTask : Type 0 where
  pub id : ℕ
  pub description : String
  pub status : PlanTaskStatus
  pub depends_on : List ℕ
  pub tool_hint : Option String
  pub metadata : Dict String String

pub record Plan : Type 0 where
  pub objective : String
  pub tasks : List PlanTask
  pub updated_at : ℕ

pub data PlanOp : Type 0 where
  add_task : PlanTask → PlanOp
  update_status : ℕ → PlanTaskStatus → PlanOp
  remove_task : ℕ → PlanOp
  update_objective : String → PlanOp

pub data PlanUpdate : Type 0 where
  replace : Plan → PlanUpdate
  patch : List PlanOp → PlanUpdate

-- `iter_mut().find(..)`: the first task with the id.
set_status : ℕ → PlanTaskStatus → List PlanTask → List PlanTask
set_status task_id s [] = []
set_status task_id s (t ∷ ts) =
    if t.id == task_id then record t { status = s } ∷ ts else t ∷ set_status task_id s ts

pub apply_op : PlanOp → Plan → Plan
unfolding set_status
apply_op (add_task t) p = record p { tasks = p.tasks ++ t ∷ [] }
apply_op (update_status task_id s) p = record p { tasks = set_status task_id s p.tasks }
apply_op (remove_task task_id) p = record p { tasks = filter (λ t. not (t.id == task_id)) p.tasks }
apply_op (update_objective o) p = record p { objective = o }

pub apply_ops : List PlanOp → Plan → Plan
apply_ops [] p = p
apply_ops (op ∷ ops) p = apply_ops ops (apply_op op p)

pub apply_update : PlanUpdate → ℕ → Plan → Plan
unfolding apply_ops
apply_update (replace q) now p = q
apply_update (patch ops) now p = record (apply_ops ops p) { updated_at = now }

unfoldable from_legacy_string : String → ℕ → Plan
from_legacy_string text now = record { objective = text; tasks = []; updated_at = now }

abbrev pub same_status : PlanTaskStatus → PlanTaskStatus → Bool
same_status pending pending = true
same_status in_progress in_progress = true
same_status completed completed = true
same_status failed failed = true
same_status blocked blocked = true
same_status skipped skipped = true
same_status _ _ = false

pub same_status_iff : (a b : PlanTaskStatus) → (same_status a b ≡ true) ↔ (a ≡ b)
same_status_iff a b = ground arith

instance abbrev pub status_eq : Eq PlanTaskStatus
status_eq = record { beq = same_status; beq_iff = same_status_iff }

count_statuses : List PlanTask → Dict PlanTaskStatus ℕ → Dict PlanTaskStatus ℕ
count_statuses [] counts = counts
count_statuses (t ∷ ts) counts = count_statuses ts (upsert t.status 0 (λ n. suc n) counts)

pub task_counts : Plan → Dict PlanTaskStatus ℕ
task_counts p = count_statuses p.tasks []

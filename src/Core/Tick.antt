-- ===== src/Core/Tick.antt =====
-- crates/exoskeleton-core/src/tick.rs: the record of one PODAARA cycle and its phases. Ids are
-- numbers, and so are times.
pub mod Phases
use exoskeleton.Base.{
  length, u32_mod, u64_mod, ℕ, ◌+◌, ◌%◌, String, Bool, true, false, Option, none, some, List, [],
  ◌∷◌,
}
use exoskeleton.Base.Float.{F64}
use exoskeleton.Threads.Executable.{ExecThreadKind}

pub data TickPhase : Type 0 where
  perceive orient decide align act reflect amend : TickPhase

pub sequence : List TickPhase
sequence = perceive ∷ orient ∷ decide ∷ align ∷ act ∷ reflect ∷ amend ∷ []

pub next : TickPhase → Option TickPhase
next perceive = some orient
next orient = some decide
next decide = some align
next align = some act
next act = some reflect
next reflect = some amend
next amend = none

pub data ActionOutcome : Type 0 where
  success failure timeout skipped rate_limited policy_denied : ActionOutcome

abbrev pub is_success : ActionOutcome → Bool
is_success success = true
is_success _ = false

abbrev pub is_failure : ActionOutcome → Bool
is_failure failure = true
is_failure _ = false

pub record ActionRecord : Type 0 where
  pub action_type : String
  pub target : String
  pub receipt_ref : Option ℕ
  pub outcome : ActionOutcome
  pub origin_exec_thread_id : Option ℕ
  pub proposal_id : Option String

-- A call's cost is a floating-point number, so its type is a parameter.
pub record LlmCallRecord (F : Type 0) : Type 0 where
  pub model : String
  pub tokens_in : ℕ
  pub tokens_out : ℕ
  pub cost_cents : F
  pub latency_ms : ℕ
  pub response_artifact_ref : Option ℕ
  pub turns : ℕ

-- `tokens_in + tokens_out` on u64.
unfoldable pub total_tokens : {F : Type 0} → LlmCallRecord F → ℕ
total_tokens r = (r.tokens_in + r.tokens_out) % u64_mod

pub record ThreadContribution : Type 0 where
  pub thread_id : ℕ
  pub artifact_id : ℕ
  pub summary : String

pub record ExecThreadContribution : Type 0 where
  pub thread_id : ℕ
  pub kind : ExecThreadKind
  pub artifact_id : ℕ
  pub summary : String
  pub proposal_id : Option String
  pub proposed_action_summary : Option String

pub record TickRecord (F : Type 0) : Type 0 where
  pub tick_id : ℕ
  pub tick_number : ℕ
  pub phase : TickPhase
  pub started_at : ℕ
  pub completed_at : Option ℕ
  pub snapshot_before : ℕ
  pub snapshot_after : Option ℕ
  pub thread_contributions : List ThreadContribution
  pub exec_thread_contributions : List ExecThreadContribution
  pub actions_taken : List ActionRecord
  pub llm_calls : List (LlmCallRecord F)
  pub decision_rationale : Option String
  pub context_breakdown_ref : Option ℕ

-- The sums over the records: the tokens and the latency on u64, the cost from the first record on.
abbrev sum_by : {F : Type 0} → (LlmCallRecord F → ℕ) → List (LlmCallRecord F) → ℕ
sum_by g [] = 0
sum_by g (r ∷ rs) = g r + sum_by g rs

abbrev last_ref : {F : Type 0} → LlmCallRecord F → List (LlmCallRecord F) → Option ℕ
last_ref r [] = r.response_artifact_ref
last_ref r (s ∷ rs) = last_ref s rs

module _ {F : Type 0} ⦃f : F64 F⦄ where
  abbrev sum_costs : F → List (LlmCallRecord F) → F
  sum_costs total [] = total
  sum_costs total (r ∷ rs) = sum_costs (f.add total r.cost_cents) rs

  unfoldable pub merge : List (LlmCallRecord F) → LlmCallRecord F
  merge [] = record {
    model = "";
    tokens_in = 0;
    tokens_out = 0;
    cost_cents = f.decimal 0 0;
    latency_ms = 0;
    response_artifact_ref = none;
    turns = 0;
  }
  merge (r ∷ rs) = record {
    model = r.model;
    tokens_in = sum_by (λ c. c.tokens_in) (r ∷ rs) % u64_mod;
    tokens_out = sum_by (λ c. c.tokens_out) (r ∷ rs) % u64_mod;
    cost_cents = sum_costs (f.decimal 0 0) (r ∷ rs);
    latency_ms = sum_by (λ c. c.latency_ms) (r ∷ rs) % u64_mod;
    response_artifact_ref = last_ref r rs;
    turns = length (r ∷ rs) % u32_mod;
  }

-- ===== src/Budget/Tracker.antt =====
-- crates/exoskeleton-host/src/budget/tracker.rs: the cognitive budget of the current window.
-- `Utc::now()` is the argument `now`, in nanoseconds; a thread id is a number. The text form of an
-- id is the uuid crate's, so `ThreadIdText` is a parameter, and so is the store behind
-- `BudgetStore`.
pub mod Accounting
pub mod Check
pub mod Persistence
pub mod Status
use exoskeleton.Base.{
  ltb, if◌then◌else◌, unwrap_or, Dict, lookup, upsert, saturating_add, saturating_add32, ℕ, ◌+◌,
  ◌-◌, ◌*◌, ◌^◌, String, ◌≡◌, Bool, ◌&&◌, Option, some, [], nat_eq, string_eq,
}
use exoskeleton.Base.Errors.{Result}
use exoskeleton.Base.Float.{F64}
use exoskeleton.Budget.Config.{CognitiveBudgetConfig}

pub data LlmBackend : Type 0 where
  local frontier : LlmBackend

pub data ThrashLevel : Type 0 where
  none low medium high : ThrashLevel

pub record CognitiveBudgetState : Type 0 where
  pub window_start : ℕ
  pub local_tokens_consumed : ℕ
  pub frontier_tokens_consumed : ℕ
  pub frontier_cost_consumed : ℕ
  pub frontier_calls : ℕ
  pub per_thread_consumed : Dict ℕ ℕ
  pub consecutive_failures : ℕ
  pub tick_tokens_this_tick : ℕ

pub record PersistedBudgetState : Type 0 where
  pub window_start : ℕ
  pub local_tokens_consumed : ℕ
  pub frontier_tokens_consumed : ℕ
  pub frontier_cost_consumed : ℕ
  pub frontier_calls : ℕ
  pub per_thread_consumed : Dict String ℕ
  pub consecutive_failures : ℕ
  pub tool_invocations : ℕ

pub data CognitiveBudgetCheck : Type 0 where
  available : LlmBackend → CognitiveBudgetCheck
  fallback : LlmBackend → CognitiveBudgetCheck
  exhausted : CognitiveBudgetCheck

-- The trait `BudgetStore`; the store is passed explicitly.
pub record BudgetStore (S : Type 0) : Type 0 where
  pub save : PersistedBudgetState → S → Result S
  pub load : S → Result (Option PersistedBudgetState)

pub record ThreadIdText : Type 0 where
  pub to_string : ℕ → String
  pub parse : String → Option ℕ
  pub parse-to_string : (t : ℕ) → parse (to_string t) ≡ some t

pub record Tracker (F S : Type 0) : Type 0 where
  pub config : CognitiveBudgetConfig F
  pub state : CognitiveBudgetState
  pub store : S
  pub thrash_level : ThrashLevel

abbrev pub nanos_per_sec : ℕ
nanos_per_sec = 1000000000

-- What the crate chrono does: `add_seconds start secs` is `start + Duration::seconds(secs)`, and
-- `sub_seconds start secs` is `start + Duration::seconds(-secs)`, in nanoseconds; both panic, here
-- `none`, when the duration or the time is out of range. A time before 1970 is 0 here, which the
-- clock has passed as well.
pub record Chrono : Type 0 where
  pub add_seconds : ℕ → ℕ → Option ℕ
  pub sub_seconds : ℕ → ℕ → Option ℕ
  pub add_seconds-some :
      {start secs end_time : ℕ}
      → add_seconds start secs ≡ some end_time
      → end_time ≡ start + secs * nanos_per_sec
  pub sub_seconds-some :
      {start secs end_time : ℕ}
      → sub_seconds start secs ≡ some end_time
      → end_time ≡ start - secs * nanos_per_sec

-- `window_start + Duration::seconds(time_window_secs as i64)`: from 2^63 on the number of seconds
-- wraps to a negative one.
unfoldable pub window_end : Chrono → (start time_window_secs : ℕ) → Option ℕ
window_end c start time_window_secs =
    if ltb time_window_secs (2 ^ 63)
    then c.add_seconds start time_window_secs
    else c.sub_seconds start (2 ^ 64 - time_window_secs)

unfoldable pub new_state : ℕ → CognitiveBudgetState
new_state now = record {
  window_start = now;
  local_tokens_consumed = 0;
  frontier_tokens_consumed = 0;
  frontier_cost_consumed = 0;
  frontier_calls = 0;
  per_thread_consumed = [];
  consecutive_failures = 0;
  tick_tokens_this_tick = 0;
}

-- The `match backend` of `record_llm_call`; `cost` is in hundredths of a cent.
unfoldable pub record_tokens : LlmBackend → ℕ → ℕ → CognitiveBudgetState → CognitiveBudgetState
record_tokens local total cost s = record s {
  local_tokens_consumed = saturating_add s.local_tokens_consumed total;
  tick_tokens_this_tick = saturating_add s.tick_tokens_this_tick total;
}
record_tokens frontier total cost s = record s {
  frontier_tokens_consumed = saturating_add s.frontier_tokens_consumed total;
  frontier_cost_consumed = saturating_add s.frontier_cost_consumed cost;
  frontier_calls = saturating_add s.frontier_calls 1;
  tick_tokens_this_tick = saturating_add s.tick_tokens_this_tick total;
}

module _ {F S : Type 0} where
  unfoldable pub new : CognitiveBudgetConfig F → S → ℕ → Tracker F S
  unfolding new_state
  new c s now = record {
    config = c;
    state = new_state now;
    store = s;
    thrash_level = ThrashLevel.none;
  }

  unfoldable pub remaining_local_tokens : Tracker F S → ℕ
  remaining_local_tokens t = t.config.local_token_budget - t.state.local_tokens_consumed

  unfoldable pub remaining_frontier_tokens : Tracker F S → ℕ
  remaining_frontier_tokens t = t.config.frontier_token_budget - t.state.frontier_tokens_consumed

  unfoldable pub remaining_frontier_cost : Tracker F S → ℕ
  remaining_frontier_cost t = t.config.frontier_cost_budget_cents - t.state.frontier_cost_consumed

  pub record_thread_consumption : ℕ → ℕ → Tracker F S → Tracker F S
  record_thread_consumption thread_id tokens t = record t {
    state = record (t.state) {
      per_thread_consumed =
          upsert thread_id 0 (λ n. saturating_add n tokens) t.state.per_thread_consumed;
    };
  }

  unfoldable pub check_cognitive_budget : Tracker F S → CognitiveBudgetCheck
  unfolding remaining_local_tokens remaining_frontier_tokens remaining_frontier_cost
  check_cognitive_budget t =
      if ltb 0 (remaining_local_tokens t)
      then available local
      else if ltb 0 (remaining_frontier_tokens t) && ltb 0 (remaining_frontier_cost t)
      then fallback frontier
      else exhausted

  pub check_thread_budget : ℕ → Tracker F S → Bool
  check_thread_budget thread_id t =
      ltb (unwrap_or (lookup thread_id t.state.per_thread_consumed) 0) t.config.per_thread_token_cap

  unfoldable check_tick_cap : Tracker F S → Bool
  check_tick_cap t = ltb t.state.tick_tokens_this_tick t.config.per_tick_token_cap

  unfoldable reset_tick_counters : Tracker F S → Tracker F S
  reset_tick_counters t = record t { state = record (t.state) { tick_tokens_this_tick = 0 } }

  unfoldable record_failure : Tracker F S → Tracker F S
  record_failure t = record t {
    state = record (t.state) {
      consecutive_failures = saturating_add32 t.state.consecutive_failures 1;
    };
  }

  unfoldable clear_failures : Tracker F S → Tracker F S
  clear_failures t = record t { state = record (t.state) { consecutive_failures = 0 } }

  unfoldable set_thrash_level : ThrashLevel → Tracker F S → Tracker F S
  set_thrash_level level t = record t { thrash_level = level }

module _ {F : Type 0} ⦃f : F64 F⦄ where
  -- `(cost_cents * 100.0).round() as u64`
  unfoldable pub cost_hundredths : F → ℕ
  cost_hundredths cost_cents = f.to_u64 (f.round (f.mul cost_cents (f.decimal 100 0)))

module _ {F S : Type 0} ⦃f : F64 F⦄ where
  unfoldable pub record_llm_call : LlmBackend → ℕ → ℕ → F → Tracker F S → Tracker F S
  unfolding record_tokens
  record_llm_call backend tokens_in tokens_out cost_cents t = record t {
    state =
        record_tokens backend (saturating_add tokens_in tokens_out) (cost_hundredths cost_cents)
          t.state;
  }

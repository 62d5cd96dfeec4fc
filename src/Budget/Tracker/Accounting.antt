-- ===== src/Budget/Tracker/Accounting.antt =====
-- What a sequence of recorded LLM calls adds up to.
use exoskeleton.Base.{u64_max, saturating_add, ℕ, ◌+◌, ◌≤◌, ◌≡◌, List, [], ◌∷◌, arith}
use exoskeleton.Base.Float.{F64}
use exoskeleton.Budget.Tracker.{
  Tracker, CognitiveBudgetState, LlmBackend, local, frontier, record_llm_call, cost_hundredths,
  record_tokens,
}

-- One call: the backend, the tokens in and out, and the cost in cents.
pub record Call (F : Type 0) : Type 0 where
  pub backend : LlmBackend
  pub tokens_in : ℕ
  pub tokens_out : ℕ
  pub cost_cents : F

abbrev pub if_local : LlmBackend → ℕ → ℕ
if_local local n = n
if_local frontier n = 0

abbrev pub if_frontier : LlmBackend → ℕ → ℕ
if_frontier local n = 0
if_frontier frontier n = n

module _ {F S : Type 0} ⦃f : F64 F⦄ where
  pub record_calls : List (Call F) → Tracker F S → Tracker F S
  record_calls [] t = t
  record_calls (c ∷ cs) t =
      record_calls cs (record_llm_call c.backend c.tokens_in c.tokens_out c.cost_cents t)

module _ {F : Type 0} ⦃f : F64 F⦄ where
  abbrev pub call_tokens : Call F → ℕ
  call_tokens c = saturating_add c.tokens_in c.tokens_out

  -- The plain sum of a quantity over the calls.
  pub total : (Call F → ℕ) → List (Call F) → ℕ
  total g [] = 0
  total g (c ∷ cs) = g c + total g cs

-- No counter passes 2^64 - 1.
pub record IsWord (s : CognitiveBudgetState) : Type 0 where
  pub local_fits : s.local_tokens_consumed ≤ u64_max
  pub frontier_fits : s.frontier_tokens_consumed ≤ u64_max
  pub cost_fits : s.frontier_cost_consumed ≤ u64_max
  pub calls_fit : s.frontier_calls ≤ u64_max
  pub tick_fits : s.tick_tokens_this_tick ≤ u64_max

module _ {F : Type 0} ⦃f : F64 F⦄ where
  abbrev pub Adds : CognitiveBudgetState → CognitiveBudgetState → List (Call F) → Type 0
  Adds s s' cs =
      (s'.local_tokens_consumed
        ≡ saturating_add s.local_tokens_consumed
            (total (λ c. if_local c.backend (call_tokens c)) cs))
      × (s'.frontier_tokens_consumed
          ≡ saturating_add s.frontier_tokens_consumed
              (total (λ c. if_frontier c.backend (call_tokens c)) cs))
      × (s'.frontier_cost_consumed
          ≡ saturating_add s.frontier_cost_consumed
              (total (λ c. if_frontier c.backend (cost_hundredths c.cost_cents)) cs))
      × (s'.frontier_calls
          ≡ saturating_add s.frontier_calls (total (λ c. if_frontier c.backend 1) cs))
      × (s'.tick_tokens_this_tick ≡ saturating_add s.tick_tokens_this_tick (total call_tokens cs))
      × (s'.consecutive_failures ≡ s.consecutive_failures)
      × (s'.window_start ≡ s.window_start)

record_tokens-IsWord :
    (b : LlmBackend) (n c : ℕ) (s : CognitiveBudgetState)
    → IsWord s
    → IsWord (record_tokens b n c s)
unfolding record_tokens
record_tokens-IsWord b n c s w = ground arith

module _ {F : Type 0} ⦃f : F64 F⦄ where
  record_call-Adds :
      (c : Call F) (cs : List (Call F)) (s s' : CognitiveBudgetState)
      → let s₁ = record_tokens c.backend (call_tokens c) (cost_hundredths c.cost_cents) s in
        Adds s₁ s' cs → Adds s s' (c ∷ cs)
  unfolding record_tokens total
  record_call-Adds c cs s s' h = ground arith

module _ {F S : Type 0} ⦃f : F64 F⦄ where
  -- From counters that fit in 64 bits, any sequence of recorded calls adds the tokens of the local
  -- calls to the local counter, and those of the frontier calls, their costs and their number to
  -- the frontier counters, each capped at 2^64 - 1; all tokens go to the tick counter, and neither
  -- the failures nor the window change.
  pub record_calls-Adds :
      (cs : List (Call F)) (t : Tracker F S)
      → IsWord t.state
      → Adds t.state (record_calls cs t).state cs
  unfolding record_calls record_llm_call total
  record_calls-Adds [] t w = omega arith
  record_calls-Adds (c ∷ cs) t w =
      let next = record_llm_call c.backend c.tokens_in c.tokens_out c.cost_cents t in
      record_call-Adds c cs t.state (record_calls cs next).state (
        record_calls-Adds cs next
          (record_tokens-IsWord c.backend (call_tokens c) (cost_hundredths c.cost_cents) t.state w))

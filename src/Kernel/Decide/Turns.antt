-- ===== src/Kernel/Decide/Turns.antt =====
-- How many calls the loop of crates/exoskeleton-host/src/kernel/decide.rs makes, and what it charges.
use exoskeleton.Base.{
  ltb, Bool-cases, length, is_empty, ℕ, zero, suc, ◌+◌, ◌-◌, ◌*◌, ◌≤◌, max, String, ◌≡◌, refl, ap,
  inl, inr, Bool, true, false, not, ◌&&◌, Option, none, some, arith,
}
use exoskeleton.Base.Errors.{Result, ok, err, WhenOk}
use exoskeleton.Base.Float.{F64}
use exoskeleton.Kernel.Backend.Escalation.{resolve_tracked-frontier_iff}
use exoskeleton.Kernel.Tools.{Json, CognitiveAccumulator}
use exoskeleton.Budget.Tracker.{
  Tracker, LlmBackend, local, frontier, record_llm_call, record_tokens,
}
use exoskeleton.Core.Llm.{LlmRequest, LlmResponse, ContentBlock}
use exoskeleton.Kernel.Backend.{
  CognitiveHandler, call_resolved, answered, record_response, DirectLlmResult,
  handler_direct_llm_call, resolve_handler_backend, resolve_tracked, resolve_backend,
}
use exoskeleton.Kernel.Decide.{
  request, DecideState, DecideRun, DecideContext, Resolved, after_call, after_resolved,
  decide_turns, is_tool_use_stop, out_of_local_tokens, decide, decide_with,
}

-- The frontier calls of the window, as far as they are tracked.
abbrev pub frontier_calls_of : {F S : Type 0} → Option (Tracker F S) → ℕ
frontier_calls_of none = 0
frontier_calls_of (some t) = t.state.frontier_calls

-- What one call may add to them.
abbrev pub charge : LlmBackend → ℕ
charge local = 0
charge frontier = 1

-- What the frontier calls of the window may reach in a step of so many turns: what they are, or one
-- call less than the policy allows, and one for each turn.
abbrev pub limit_after : {F S : Type 0} → Tracker F S → ℕ → ℕ
limit_after t max_turns =
    max t.state.frontier_calls
      (t.config.escalation_policy.max_frontier_calls_per_window - 1 + max_turns)

module _ {F S : Type 0} ⦃f : F64 F⦄ where
  record_llm_call-charge :
      (b : LlmBackend) (tokens_in tokens_out : ℕ) (cost : F) (t : Tracker F S)
      → (record_llm_call b tokens_in tokens_out cost t).state.frontier_calls
        ≤ t.state.frontier_calls + charge b
  unfolding record_llm_call record_tokens
  record_llm_call-charge local tokens_in tokens_out cost t = omega arith
  record_llm_call-charge frontier tokens_in tokens_out cost t = omega arith

module _ {F S J : Type 0} ⦃f : F64 F⦄ where
  record_response-charge :
      (b : LlmBackend) (r : LlmResponse F J) (t : Option (Tracker F S))
      → frontier_calls_of (record_response b r t) ≤ frontier_calls_of t + charge b
  record_response-charge b r none = omega arith
  record_response-charge b r (some t) = record_llm_call-charge b r.tokens_in r.tokens_out _ t

module _ {F S J : Type 0} ⦃f : F64 F⦄
    (call : LlmBackend → LlmRequest F J → Result (LlmResponse F J))
    (put : LlmResponse F J → Result ℕ) where
  answered-charge :
      (b : LlmBackend) (r : Result (LlmResponse F J)) (t : Option (Tracker F S))
      → frontier_calls_of (answered call put b r t).1 ≤ frontier_calls_of t + charge b
  answered-charge b (err e) t = omega arith
  answered-charge b (ok r) t = record_response-charge b r t

  call_resolved-charge :
      (request : LlmRequest F J) (b : Result LlmBackend) (most : ℕ) (t : Option (Tracker F S))
      → WhenOk (λ backend. charge backend ≤ most) b
      → frontier_calls_of (call_resolved call put request b t).1 ≤ frontier_calls_of t + most
  call_resolved-charge request (err e) most t k = omega arith
  call_resolved-charge request (ok b) most t k =
      omega (arith, answered-charge b (call b request) t, k)

module _ {F S J : Type 0} ⦃f : F64 F⦄ (json : Json F J) (trim : String → String)
    (introspect : String → String → J → ContentBlock J)
    (call : LlmBackend → LlmRequest F J → Result (LlmResponse F J))
    (put : LlmResponse F J → Result ℕ) (h : CognitiveHandler) (cancelled : ℕ → Bool) where
  after_resolved-tracker :
      (continue : DecideState F S J → DecideRun F S J) (most : ℕ)
      → ((s : DecideState F S J)
          → frontier_calls_of (continue s).state.tracker ≤ frontier_calls_of s.tracker + most)
      → (r : DirectLlmResult F J) (resolved : Resolved F J) (s : DecideState F S J)
      → frontier_calls_of (after_resolved continue r resolved s).state.tracker
        ≤ frontier_calls_of s.tracker + most
  after_resolved-tracker continue most next r resolved s =
      elim (Bool-cases (ltb (length s.accumulator.actions) (length resolved.accumulator.actions))) [
        | inl e ↦ rw e (omega arith)
        | inr e ↦
            elim (Bool-cases
              (is_tool_use_stop r.response.stop_reason && not (is_empty resolved.tool_results))) [
                | inl c ↦ rw e (rw c (next _))
                | inr c ↦ rw e (rw c (omega arith))
              ]
      ]

  after_call-tracker :
      (continue : DecideState F S J → DecideRun F S J) (most : ℕ)
      → ((s : DecideState F S J)
          → frontier_calls_of (continue s).state.tracker ≤ frontier_calls_of s.tracker + most)
      → (s : DecideState F S J) (answer : Result (DirectLlmResult F J) × Option (Tracker F S))
      → frontier_calls_of
          (after_call json trim introspect call put h cancelled continue s answer).state.tracker
        ≤ frontier_calls_of answer.1 + most
  unfolding after_call
  after_call-tracker continue most next s (err e, t) = omega arith
  after_call-tracker continue most next s (ok r, t) =
      after_resolved-tracker continue most next r _ (record s { tracker = t })

  -- Every turn charges at most one call to the frontier model, and none when `most` is 0.
  decide_turns-charge :
      (c : DecideContext F J) (instructions : String) (backend : LlmBackend) (most : ℕ)
      → WhenOk (λ b. charge b ≤ most) (resolve_handler_backend h (some backend))
      → (rounds turn : ℕ) (s : DecideState F S J)
      → frontier_calls_of
          (decide_turns json trim introspect call put h cancelled c instructions backend rounds turn
            s).state.tracker
        ≤ frontier_calls_of s.tracker + rounds * most
  unfolding decide_turns handler_direct_llm_call
  decide_turns-charge c instructions backend most k zero turn s = omega arith
  decide_turns-charge c instructions backend most k (suc rounds) turn s =
      elim (Bool-cases (cancelled turn)) [
        | inl e ↦ rw e (omega arith)
        | inr e ↦ elim (Bool-cases (ltb 0 turn && out_of_local_tokens s.tracker)) [
          | inl o ↦ rw e (rw o (omega arith))
          | inr o ↦ rw e (
              rw o (
                let continue : DecideState F S J → DecideRun F S J = λ s'.
                  decide_turns json trim introspect call put h cancelled c instructions backend
                    rounds (suc turn) s' in
                let asked = request c instructions backend s in
                let answer =
                  call_resolved call put asked (resolve_handler_backend h (some backend))
                    s.tracker in
                let charged =
                  call_resolved-charge call put asked (resolve_handler_backend h (some backend))
                    most s.tracker k in
                omega (
                  arith,
                  charged,
                  after_call-tracker continue (rounds * most)
                      (decide_turns-charge c instructions backend most k rounds (suc turn)) s
                      answer,
                )))
        ]
      ]

  chosen-charge :
      (c : DecideContext F J) (instructions : String) (thrash : Option F) (severe : Bool)
      (max_turns : ℕ) (t : Tracker F S) (s : DecideState F S J) (b : LlmBackend)
      → h.default_backend ≡ local
      → h.has_local ≡ true
      → s.tracker ≡ some t
      → resolve_tracked h thrash severe t ≡ b
      → frontier_calls_of
          (decide_turns json trim introspect call put h cancelled c instructions b max_turns 0
            s).state.tracker
        ≤ limit_after t max_turns
  unfolding resolve_handler_backend
  chosen-charge c instructions thrash severe max_turns t s local d has tracked chosen = omega (
    arith,
    decide_turns-charge c instructions local 0 (rw has (omega arith)) max_turns 0 s,
    ap frontier_calls_of tracked,
  )
  chosen-charge c instructions thrash severe max_turns t s frontier d has tracked chosen =
      let allowed = ((resolve_tracked-frontier_iff h thrash severe t d).0 chosen) in
      omega (
        arith,
        allowed.2.2,
        decide_turns-charge c instructions frontier 1 (rw (allowed.0) (omega arith)) max_turns 0 s,
        ap frontier_calls_of tracked,
      )

  module _ (put_decision : CognitiveAccumulator F J → Result ℕ) where
    decide_with-charge :
        (c : DecideContext F J) (thrash : Option F) (severe : Bool) (max_turns : ℕ)
        (t : Tracker F S) (instructions : Result String)
        → h.default_backend ≡ local
        → h.has_local ≡ true
        → frontier_calls_of
            (decide_with json trim introspect call put h cancelled put_decision c thrash severe
              max_turns
              (some t)
              instructions).1
          ≤ limit_after t max_turns
    unfolding resolve_backend
    decide_with-charge c thrash severe max_turns t (err e) d has = omega arith
    decide_with-charge c thrash severe max_turns t (ok instructions) d has =
        chosen-charge c instructions thrash severe max_turns t _ (resolve_tracked h thrash severe t)
          d has refl refl

    -- With the local model configured and the default, one Decide step, whether it ends in a
    -- decision or in an error, takes the frontier calls of the window to at most one less than the
    -- policy allows and one more for each turn, or leaves them as they are when they were above.
    pub decide-frontier_calls :
        (c : DecideContext F J) (thrash : Option F) (severe : Bool) (max_turns : ℕ)
        (cancelled_before : Bool) (instructions : Result String) (t : Tracker F S)
        → h.default_backend ≡ local
        → h.has_local ≡ true
        → frontier_calls_of
            (decide json trim introspect call put h cancelled put_decision c thrash severe max_turns
              cancelled_before instructions
              (some t)).1
          ≤ limit_after t max_turns
    unfolding decide
    decide-frontier_calls c thrash severe max_turns true instructions t d has = omega arith
    decide-frontier_calls c thrash severe max_turns false instructions t d has =
        decide_with-charge c thrash severe max_turns t instructions d has

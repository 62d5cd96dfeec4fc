-- ===== src/Kernel/Decide/Actions.antt =====
-- The actions that the loop of crates/exoskeleton-host/src/kernel/decide.rs plans.
use exoskeleton.Kernel.Decide.Planned.{planned_of, planned_of-external, resolve_response-actions}
use mathlib.Core.Path.{subst}
use exoskeleton.Base.{
  ltb, tests, Bool-cases, length, is_empty, All, ℕ, zero, suc, String, ◌≡◌, refl, ◌∙◌, ◌⊎◌, inl,
  inr, Bool, true, false, not, ◌&&◌, Option, none, some, List, [], ◌∷◌, nat_eq, string_eq,
}
use exoskeleton.Base.Errors.{Result, ok, err, WhenOk, WhenOk-bind}
use exoskeleton.Base.Float.{F64}
use exoskeleton.Budget.Tracker.{Tracker, LlmBackend}
use exoskeleton.Kernel.Backend.{
  DirectLlmResult, CognitiveHandler, resolve_backend, stored_call, answered, call_resolved,
  handler_direct_llm_call,
}
use exoskeleton.Core.Llm.{ContentBlock, LlmResponse, text, LlmRequest}
use exoskeleton.Kernel.Types.{PlannedAction, DecisionResult}
use exoskeleton.Kernel.Tools.{Json, CognitiveAccumulator}
use exoskeleton.Kernel.Decide.{
  Resolved, is_external, DecideState, DecideRun, resolve_response, after_resolved, is_tool_use_stop,
  DecideContext, after_call, decide_turns, out_of_local_tokens, build_decision_result, decide,
  decide_with, first_state,
}

length-pos-cases : {A : Type 0} (xs : List A) → (xs ≡ []) ⊎ (ltb 0 (length xs) ≡ true)
length-pos-cases [] = inl refl
length-pos-cases (x ∷ xs) = inr (omega tests)

module _ {F J : Type 0} (call : LlmBackend → LlmRequest F J → Result (LlmResponse F J))
    (put : LlmResponse F J → Result ℕ) where
  -- A backend gave the response to some request, and it is stored under `id`.
  pub record IsAnswer (r : LlmResponse F J) (id : ℕ) : Type 0 where
    pub asked : LlmBackend
    pub question : LlmRequest F J
    pub answered_by : call asked question ≡ ok r
    pub stored_as : put r ≡ ok id

  -- The actions are the tool calls of the answer that is stored under `id`.
  abbrev pub CallsOf : (String → String) → ℕ → List (PlannedAction J) → Type 0
  CallsOf trim id actions =
      (r : LlmResponse F J) × IsAnswer r id × (actions ≡ planned_of trim (text r) r.content_blocks)

  -- What holds after each turn: nothing is planned before the first answer, and then the actions
  -- are those of the latest.
  abbrev OfLatest : (String → String) → Option ℕ → List (PlannedAction J) → Type 0
  OfLatest trim none actions = actions ≡ []
  OfLatest trim (some id) actions = CallsOf trim id actions

  -- The actions of a decision are the tool calls of the answer that it names, and left to Act.
  abbrev pub PlannedOnce : (String → String) → DecisionResult F J → Type 0
  PlannedOnce trim d =
      All (λ a. is_external a.tool_name ≡ true) d.actions
      × CallsOf trim d.response_artifact_id d.actions

  CallsOf-external :
      (trim : String → String) (id : ℕ) (actions : List (PlannedAction J))
      → CallsOf trim id actions
      → All (λ a. is_external a.tool_name ≡ true) actions
  CallsOf-external trim id actions found =
      rw found.2 (planned_of-external trim (text found.0) found.0.content_blocks)

module _ {F J : Type 0} ⦃f : F64 F⦄ (call : LlmBackend → LlmRequest F J → Result (LlmResponse F J))
    (put : LlmResponse F J → Result ℕ) where
  stored_call-IsAnswer :
      (b : LlmBackend) (q : LlmRequest F J) (response : LlmResponse F J) (stored : Result ℕ)
      (r : DirectLlmResult F J)
      → call b q ≡ ok response
      → put response ≡ stored
      → stored_call response stored ≡ ok r
      → IsAnswer call put r.response r.artifact_id
  stored_call-IsAnswer b q response (err e) r given kept h = absurd cc
  stored_call-IsAnswer b q response (ok id) r given kept h =
      subst (λ z. WhenOk (λ d. IsAnswer call put d.response d.artifact_id) z) h
        (record { asked = b; question = q; answered_by = given; stored_as = kept })

module _ {F S J : Type 0} ⦃f : F64 F⦄ (trim : String → String)
    (call : LlmBackend → LlmRequest F J → Result (LlmResponse F J))
    (put : LlmResponse F J → Result ℕ) where
  abbrev IsSettled : DecideState F S J → Type 0
  IsSettled s = OfLatest call put trim s.last_response_artifact_id s.accumulator.actions

  AnswersWell : Result (DirectLlmResult F J) × Option (Tracker F S) → Type 0
  AnswersWell answer =
      (r : DirectLlmResult F J) → answer.0 ≡ ok r → IsAnswer call put r.response r.artifact_id

  answered-AnswersWell :
      (b : LlmBackend) (q : LlmRequest F J) (response : Result (LlmResponse F J))
      (t : Option (Tracker F S))
      → call b q ≡ response
      → AnswersWell (answered call put b response t)
  unfolding AnswersWell
  answered-AnswersWell b q (err e) t given = λ r h. absurd cc
  answered-AnswersWell b q (ok response) t given =
      λ r h. stored_call-IsAnswer call put b q response (put response) r given refl h

  call_resolved-AnswersWell :
      (q : LlmRequest F J) (b : Result LlmBackend) (t : Option (Tracker F S))
      → AnswersWell (call_resolved call put q b t)
  unfolding AnswersWell
  call_resolved-AnswersWell q (err e) t = λ r h. absurd cc
  call_resolved-AnswersWell q (ok b) t = answered-AnswersWell b q (call b q) t refl

  after_resolved-IsSettled :
      (continue : DecideState F S J → DecideRun F S J)
      → ((s : DecideState F S J)
          → IsSettled s
          → s.accumulator.actions ≡ []
          → IsSettled (continue s).state)
      → (r : DirectLlmResult F J) (resolved : Resolved F J) (s : DecideState F S J)
      → IsAnswer call put r.response r.artifact_id
      → resolved.accumulator.actions ≡ planned_of trim (text r.response) r.response.content_blocks
      → s.accumulator.actions ≡ []
      → IsSettled (after_resolved continue r resolved s).state
  after_resolved-IsSettled continue next r resolved s answer k h0 =
      let before = s.accumulator.actions in
      let after = resolved.accumulator.actions in
      elim (length-pos-cases after) [
        | inl e ↦
            let same : ltb (length before) (length after) ≡ false = rw h0 (rw e refl) in
            elim (Bool-cases
              (is_tool_use_stop r.response.stop_reason && not (is_empty resolved.tool_results))) [
                | inl c ↦ rw same (rw c (next _ (r.response, answer, k) e))
                | inr c ↦ rw same (rw c (r.response, answer, k))
              ]
        | inr e ↦
            let more : ltb (length before) (length after) ≡ true = rw h0 e in
            rw more (r.response, answer, k)
      ]

module _ {F S J : Type 0} ⦃f : F64 F⦄ (json : Json F J) (trim : String → String)
    (introspect : String → String → J → ContentBlock J)
    (call : LlmBackend → LlmRequest F J → Result (LlmResponse F J))
    (put : LlmResponse F J → Result ℕ) (h : CognitiveHandler) (cancelled : ℕ → Bool) where
  after_call-IsSettled :
      (continue : DecideState F S J → DecideRun F S J)
      → ((s : DecideState F S J)
          → IsSettled trim call put s
          → s.accumulator.actions ≡ []
          → IsSettled trim call put (continue s).state)
      → (s : DecideState F S J) (answer : Result (DirectLlmResult F J) × Option (Tracker F S))
      → AnswersWell trim call put answer
      → IsSettled trim call put s
      → s.accumulator.actions ≡ []
      → IsSettled trim call put
          (after_call json trim introspect call put h cancelled continue s answer).state
  unfolding after_call AnswersWell
  after_call-IsSettled continue next s (err e, t) well h1 h0 = h1
  after_call-IsSettled continue next s (ok r, t) well h1 h0 =
      after_resolved-IsSettled trim call put continue next r
        (resolve_response json trim introspect r.response s.accumulator) (record s { tracker = t })
        (well r refl)
        (resolve_response-actions json trim introspect r.response s.accumulator ∙ rw h0 refl) h0

  decide_turns-IsSettled :
      (c : DecideContext F J) (instructions : String) (backend : LlmBackend) (rounds turn : ℕ)
      (s : DecideState F S J)
      → IsSettled trim call put s
      → s.accumulator.actions ≡ []
      → IsSettled trim call put
          (decide_turns json trim introspect call put h cancelled c instructions backend rounds turn
            s).state
  unfolding decide_turns handler_direct_llm_call
  decide_turns-IsSettled c instructions backend zero turn s h1 h0 = h1
  decide_turns-IsSettled c instructions backend (suc rounds) turn s h1 h0 =
      elim (Bool-cases (cancelled turn)) [
        | inl e ↦ rw e h1
        | inr e ↦ elim (Bool-cases (ltb 0 turn && out_of_local_tokens s.tracker)) [
          | inl o ↦ rw e (rw o h1)
          | inr o ↦ rw e (
              rw o (
                after_call-IsSettled _
                  (decide_turns-IsSettled c instructions backend rounds (suc turn)) s _
                  (call_resolved-AnswersWell trim call put _ _ s.tracker) h1 h0))
        ]
      ]

  module _ (put_decision : CognitiveAccumulator F J → Result ℕ) where
    build_decision_result-PlannedOnce :
        (s : DecideState F S J) (response_id : Option ℕ)
        → OfLatest call put trim response_id s.accumulator.actions
        → WhenOk (PlannedOnce call put trim) (
            build_decision_result json trim introspect call put h cancelled put_decision s
              response_id)
    unfolding build_decision_result
    build_decision_result-PlannedOnce s none one = tt
    build_decision_result-PlannedOnce s (some id) one =
        WhenOk-bind (PlannedOnce call put trim) (put_decision s.accumulator) _
          (λ stored. (CallsOf-external call put trim id s.accumulator.actions one, one))

    decide_with-PlannedOnce :
        (c : DecideContext F J) (thrash : Option F) (severe : Bool) (max_turns : ℕ)
        (t : Option (Tracker F S)) (instructions : Result String)
        → WhenOk
            (PlannedOnce call put trim)
            (decide_with json trim introspect call put h cancelled put_decision c thrash severe
              max_turns t instructions).0
    decide_with-PlannedOnce c thrash severe max_turns t (err e) = tt
    decide_with-PlannedOnce c thrash severe max_turns t (ok instructions) =
        let backend = resolve_backend h thrash severe t in
        let run =
          decide_turns json trim introspect call put h cancelled c instructions backend max_turns 0
            (first_state json trim introspect call put h cancelled c t) in
        WhenOk-bind (PlannedOnce call put trim) run.outcome _ (λ done.
          build_decision_result-PlannedOnce run.state run.state.last_response_artifact_id
            (decide_turns-IsSettled c instructions backend max_turns 0 _ refl refl))

    -- The actions of a decision are the tool calls of one response that a backend gave, in its
    -- order: those of the response that the decision names as its own, all that the kernel does
    -- not resolve itself and no other.
    pub decide-PlannedOnce :
        (c : DecideContext F J) (thrash : Option F) (severe : Bool) (max_turns : ℕ)
        (cancelled_before : Bool) (instructions : Result String) (t : Option (Tracker F S))
        → WhenOk
            (PlannedOnce call put trim)
            (decide json trim introspect call put h cancelled put_decision c thrash severe max_turns
              cancelled_before instructions t).0
    unfolding decide
    decide-PlannedOnce c thrash severe max_turns true instructions t = tt
    decide-PlannedOnce c thrash severe max_turns false instructions t =
        decide_with-PlannedOnce c thrash severe max_turns t instructions

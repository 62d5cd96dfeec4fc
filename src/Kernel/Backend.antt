-- ===== src/Kernel/Backend.antt =====
-- Which model answers: crates/exoskeleton-host/src/kernel/decide.rs (`resolve_backend`), and the
-- direct call of crates/exoskeleton-host/src/llm/direct.rs with its accounting. The HTTP clients
-- and the artifact store are parameters; the artifact of a critique or of an assessment is read by
-- the parameters `indicator_of` and `severity_of`.
pub mod Escalation
use exoskeleton.Base.{
  leb, if◌then◌else◌, unwrap_or, ◌==◌, ℕ, Bool, true, false, not, ◌||◌, Option, none, some, List,
  [], ◌∷◌, nat_eq, string_eq,
}
use exoskeleton.Base.Errors.{llm_invocation, Result, ok, err}
use exoskeleton.Base.Float.{F64}
use exoskeleton.Budget.Tracker.{
  Tracker, LlmBackend, local, frontier, remaining_frontier_tokens, remaining_frontier_cost,
  record_llm_call,
}
use exoskeleton.Core.Llm.{LlmRequest, LlmResponse}
use exoskeleton.Core.Tick.{LlmCallRecord}
use exoskeleton.Threads.Types.{ThreadOutput}
use exoskeleton.Threads.Store.{ThreadStore, recent_outputs}

-- Of `CognitiveHandler`, which backends there are.
pub record CognitiveHandler : Type 0 where
  pub has_local : Bool
  pub has_frontier : Bool
  pub default_backend : LlmBackend

pub data ThreatSeverity : Type 0 where
  low medium high critical : ThreatSeverity

abbrev pub is_severe : Option ThreatSeverity → Bool
is_severe (some ThreatSeverity.high) = true
is_severe (some ThreatSeverity.critical) = true
is_severe (some ThreatSeverity.medium) = false
is_severe (some ThreatSeverity.low) = false
is_severe none = false

-- What the latest output of a thread says, read from its artifact.
abbrev pub read_latest : {A : Type 0} → (ℕ → Option A) → List ThreadOutput → Option A
read_latest read [] = none
read_latest read (o ∷ outputs) = read o.artifact_id

module _ {F X L : Type 0} (indicator_of : ℕ → Option F) (severity_of : ℕ → Option ThreatSeverity)
    (self_critique_id threat_monitor_id : ℕ) where
  abbrev pub extract_thrash_indicator : ThreadStore X L → Option F
  extract_thrash_indicator s = read_latest indicator_of (recent_outputs self_critique_id 1 s)

  abbrev pub extract_high_threat : ThreadStore X L → Bool
  extract_high_threat s = is_severe (read_latest severity_of (recent_outputs threat_monitor_id 1 s))

module _ {F : Type 0} ⦃f : F64 F⦄ where
  abbrev pub above_threshold : Option F → F → Bool
  above_threshold none limit = false
  above_threshold (some thrash) limit = f.lt limit thrash

module _ {F S : Type 0} ⦃f : F64 F⦄ where
  -- `thrash` and `severe` are what the two threads report.
  unfoldable pub check_escalation_triggers : Option F → Bool → Tracker F S → Bool
  check_escalation_triggers thrash severe t =
      leb t.config.escalation_policy.escalate_on_consecutive_failures t.state.consecutive_failures
      || (above_threshold thrash t.config.escalation_policy.escalate_on_uncertainty || severe)

  -- `resolve_backend` with a tracker.
  unfoldable pub resolve_tracked : CognitiveHandler → Option F → Bool → Tracker F S → LlmBackend
  resolve_tracked h thrash severe t =
      if not h.has_frontier
      then h.default_backend
      else if not (check_escalation_triggers thrash severe t)
      then h.default_backend
      else if (remaining_frontier_tokens t == 0) || (remaining_frontier_cost t == 0)
      then local
      else if leb t.config.escalation_policy.max_frontier_calls_per_window t.state.frontier_calls
      then local
      else frontier

  unfoldable pub resolve_backend :
      CognitiveHandler → Option F → Bool → Option (Tracker F S) → LlmBackend
  resolve_backend h thrash severe none = h.default_backend
  resolve_backend h thrash severe (some t) = resolve_tracked h thrash severe t

abbrev pub other_backend : LlmBackend → LlmBackend
other_backend local = frontier
other_backend frontier = local

abbrev pub has_backend : CognitiveHandler → LlmBackend → Bool
has_backend h local = h.has_local
has_backend h frontier = h.has_frontier

unfoldable pub resolve_handler_backend : CognitiveHandler → Option LlmBackend → Result LlmBackend
resolve_handler_backend h requested =
    let preferred = unwrap_or requested h.default_backend in
    if has_backend h preferred
    then ok preferred
    else if has_backend h (other_backend preferred)
    then ok (other_backend preferred)
    else err (llm_invocation "no LLM backend configured")

pub record DirectLlmResult (F J : Type 0) : Type 0 where
  pub response : LlmResponse F J
  pub artifact_id : ℕ
  pub llm_call_record : LlmCallRecord F

module _ {F J : Type 0} ⦃f : F64 F⦄ where
  abbrev pub cost_of : LlmResponse F J → F
  cost_of r = unwrap_or r.cost_estimate_cents (f.decimal 0 0)

module _ {F J : Type 0} ⦃f : F64 F⦄ where
  -- The end of the call, by whether the artifact of the response could be stored.
  abbrev pub stored_call : LlmResponse F J → Result ℕ → Result (DirectLlmResult F J)
  stored_call r (err e) = err e
  stored_call r (ok id) = ok (record {
    response = r;
    artifact_id = id;
    llm_call_record = record {
      model = r.model;
      tokens_in = r.tokens_in;
      tokens_out = r.tokens_out;
      cost_cents = cost_of r;
      latency_ms = r.latency_ms;
      response_artifact_ref = some id;
      turns = 1;
    };
  })

module _ {F S J : Type 0} ⦃f : F64 F⦄ where
  abbrev pub record_response :
      LlmBackend → LlmResponse F J → Option (Tracker F S) → Option (Tracker F S)
  record_response backend r none = none
  record_response backend r (some t) =
      some (record_llm_call backend r.tokens_in r.tokens_out (cost_of r) t)

  -- `call` is the backend's HTTP client, whose response carries the measured latency; `put` stores
  -- the response. The budget is charged as soon as there is a response.
  module _ (call : LlmBackend → LlmRequest F J → Result (LlmResponse F J))
      (put : LlmResponse F J → Result ℕ) where
    abbrev pub answered :
        LlmBackend
        → Result (LlmResponse F J)
        → Option (Tracker F S)
        → Result (DirectLlmResult F J) × Option (Tracker F S)
    answered backend (err e) t = (err e, t)
    answered backend (ok r) t = (stored_call r (put r), record_response backend r t)

    abbrev pub call_resolved :
        LlmRequest F J
        → Result LlmBackend
        → Option (Tracker F S)
        → Result (DirectLlmResult F J) × Option (Tracker F S)
    call_resolved request (err e) t = (err e, t)
    call_resolved request (ok backend) t = answered backend (call backend request) t

    unfoldable pub handler_direct_llm_call :
        CognitiveHandler
        → LlmRequest F J
        → Option (Tracker F S)
        → Result (DirectLlmResult F J) × Option (Tracker F S)
    handler_direct_llm_call h request t =
        call_resolved request (resolve_handler_backend h request.backend) t

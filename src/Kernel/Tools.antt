-- ===== src/Kernel/Tools.antt =====
-- crates/exoskeleton-host/src/kernel/tools.rs: the tools that the kernel resolves itself. What
-- serde_json reads from a value is the parameter `Json`; the text of its errors is left out.
use exoskeleton.Base.{
  if◌then◌else◌, unwrap_or, any, ◌==◌, ℕ, String, Bool, Option, none, some, List, [], ◌∷◌, ◌++◌,
  nat_eq, string_eq,
}
use exoskeleton.Base.Errors.{engine, Result, ok, err, ◌>>=◌}
use exoskeleton.Core.Plan.{PlanUpdate}
use exoskeleton.Core.WorkingMemory.{WorkingMemoryOp}
use exoskeleton.Core.Watch.{WatchProposal}
use exoskeleton.Kernel.Policy.{VesselMode}
use exoskeleton.Kernel.Types.{PlannedAction, SnapshotDelta}

pub record Json (F J : Type 0) : Type 0 where
  pub get : String → J → Option J
  pub as_str : J → Option String
  pub as_u64 : J → Option ℕ
  pub as_strings : J → Option (List String)
  pub plan_update : J → Option PlanUpdate
  pub working_memory_ops : J → Option (List WorkingMemoryOp)
  pub watch_proposal : J → Option (WatchProposal F J)
  pub vessel_mode : J → Option VesselMode

abbrev pub cognitive_tools : List String
cognitive_tools =
    "update_plan" ∷ "set_working_memory" ∷ "save_memory_note" ∷ "propose_watch"
    ∷ "request_vessel_mode" ∷ "reply_to_user" ∷ []

abbrev pub introspection_tools : List String
introspection_tools =
    "introspect_tick_history" ∷ "introspect_budget_status" ∷ "introspect_thread_status"
    ∷ "introspect_memory_search" ∷ "introspect_trust_scores" ∷ "introspect_connector_details"
    ∷ "introspect_watch_list" ∷ "introspect_event_history" ∷ []

unfoldable pub is_cognitive_tool : String → Bool
is_cognitive_tool name = any (λ t. t == name) cognitive_tools

unfoldable pub is_introspection_tool : String → Bool
is_introspection_tool name = any (λ t. t == name) introspection_tools

pub record CognitiveToolResult (F J : Type 0) : Type 0 where
  pub plan_update : Option PlanUpdate
  pub working_memory_ops : List WorkingMemoryOp
  pub memory_note : Option String
  pub watch_proposal : Option (WatchProposal F J)
  pub vessel_mode_request : Option VesselMode
  pub reply : Option String

pub record CognitiveAccumulator (F J : Type 0) : Type 0 where
  pub reasoning_parts : List String
  pub reply : Option String
  pub actions : List (PlannedAction J)
  pub snapshot_delta : SnapshotDelta
  pub memory_notes : List String
  pub watch_proposals : List (WatchProposal F J)
  pub vessel_mode_request : Option VesselMode

-- `ok_or_else` and `map_err`.
abbrev pub or_error : {A : Type 0} → Option A → String → Result A
or_error (some a) why = ok a
or_error none why = err (engine why)

abbrev pub and_then : {A B : Type 0} → Option A → (A → Option B) → Option B
and_then (some a) g = g a
and_then none g = none

-- `if let Some(x) = new { old = Some(x) }`.
abbrev pub or_old : {A : Type 0} → Option A → Option A → Option A
or_old (some a) old = some a
or_old none old = old

abbrev pub pushed : {A : Type 0} → Option A → List A → List A
pushed (some a) xs = xs ++ a ∷ []
pushed none xs = xs

-- `get_or_insert_with(Vec::new).extend(ops)`, unless there is nothing to add.
abbrev pub extended :
    List WorkingMemoryOp → Option (List WorkingMemoryOp) → Option (List WorkingMemoryOp)
extended [] old = old
extended (op ∷ ops) old = some (unwrap_or old [] ++ op ∷ ops)

module _ {F J : Type 0} where
  abbrev pub no_result : CognitiveToolResult F J
  no_result = record {
    plan_update = none;
    working_memory_ops = [];
    memory_note = none;
    watch_proposal = none;
    vessel_mode_request = none;
    reply = none;
  }

  abbrev pub no_outcome : CognitiveAccumulator F J
  no_outcome = record {
    reasoning_parts = [];
    reply = none;
    actions = [];
    snapshot_delta = record { plan_update = none; working_memory_ops = none };
    memory_notes = [];
    watch_proposals = [];
    vessel_mode_request = none;
  }

  unfoldable pub process_cognitive_tool : Json F J → String → J → Result (CognitiveToolResult F J)
  process_cognitive_tool json name input =
      if name == "update_plan"
      then or_error (json.plan_update input) "update_plan invalid input"
        >>= (λ update. ok (record no_result { plan_update = some update }))
      else if name == "set_working_memory"
      then or_error (json.get "ops" input) "set_working_memory requires field 'ops'" >>= (λ value.
        or_error (json.working_memory_ops value) "set_working_memory invalid ops"
        >>= (λ ops. ok (record no_result { working_memory_ops = ops })))
      else if name == "save_memory_note"
      then or_error (and_then (json.get "note" input) json.as_str)
          "save_memory_note requires string field 'note'"
        >>= (λ note. ok (record no_result { memory_note = some note }))
      else if name == "propose_watch"
      then or_error (json.watch_proposal input) "propose_watch invalid watch proposal"
        >>= (λ watch. ok (record no_result { watch_proposal = some watch }))
      else if name == "request_vessel_mode"
      then or_error (json.get "mode" input) "request_vessel_mode requires field 'mode'"
        >>= (λ value.
            or_error (json.vessel_mode value) "request_vessel_mode invalid mode"
            >>= (λ mode. ok (record no_result { vessel_mode_request = some mode })))
      else if name == "reply_to_user"
      then or_error (and_then (json.get "message" input) json.as_str)
          "reply_to_user requires string field 'message'"
        >>= (λ message. ok (record no_result { reply = some message }))
      else err (engine "unknown cognitive tool")

  unfoldable pub accumulate_cognitive_outcome :
      CognitiveToolResult F J → CognitiveAccumulator F J → CognitiveAccumulator F J
  accumulate_cognitive_outcome r a = record {
    reasoning_parts = a.reasoning_parts;
    reply = or_old r.reply a.reply;
    actions = a.actions;
    snapshot_delta = record {
      plan_update = or_old r.plan_update a.snapshot_delta.plan_update;
      working_memory_ops = extended r.working_memory_ops a.snapshot_delta.working_memory_ops;
    };
    memory_notes = pushed r.memory_note a.memory_notes;
    watch_proposals = pushed r.watch_proposal a.watch_proposals;
    vessel_mode_request = or_old r.vessel_mode_request a.vessel_mode_request;
  }

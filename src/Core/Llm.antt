-- ===== src/Core/Llm.antt =====
-- crates/exoskeleton-core/src/llm.rs: requests to a language model and its answers. Tool inputs are
-- JSON values of the serde_json crate, so their type `J` is a parameter.
use exoskeleton.Base.{filter, any, ℕ, String, Bool, true, false, Option, List, [], ◌∷◌}
use exoskeleton.Budget.Tracker.{LlmBackend}
use Prim.Native.String as S

pub data LlmRole : Type 0 where
  system user assistant : LlmRole

pub data ContentBlock (J : Type 0) : Type 0 where
  text_block : (text : String) → ContentBlock J
  tool_use : (id name : String) (input : J) → ContentBlock J
  tool_result : (tool_use_id content : String) (is_error : Bool) → ContentBlock J

pub record ToolDefinition (J : Type 0) : Type 0 where
  pub name : String
  pub description : String
  pub input_schema : J

pub record LlmMessage (J : Type 0) : Type 0 where
  pub role : LlmRole
  pub content : List (ContentBlock J)

abbrev pub text_message : {J : Type 0} → LlmRole → String → LlmMessage J
text_message role content = record { role = role; content = text_block content ∷ [] }

pub record LlmRequest (F J : Type 0) : Type 0 where
  pub backend : Option LlmBackend
  pub system_prompt : Option String
  pub messages : List (LlmMessage J)
  pub max_output_tokens : ℕ
  pub temperature : Option F
  pub stop_sequences : List String
  pub stream : Bool
  pub tools : List (ToolDefinition J)

pub data StopReason : Type 0 where
  end_turn max_tokens stop_sequence tool_use_stop : StopReason

pub record LlmResponse (F J : Type 0) : Type 0 where
  pub content_blocks : List (ContentBlock J)
  pub model : String
  pub tokens_in : ℕ
  pub tokens_out : ℕ
  pub latency_ms : ℕ
  pub stop_reason : StopReason
  pub cost_estimate_cents : Option F
  pub backend : LlmBackend

abbrev pub texts_of : {J : Type 0} → List (ContentBlock J) → String
texts_of [] = ""
texts_of (text_block t ∷ blocks) = S.◌++◌ t (texts_of blocks)
texts_of (tool_use id name input ∷ blocks) = texts_of blocks
texts_of (tool_result id content is_error ∷ blocks) = texts_of blocks

abbrev pub text : {F J : Type 0} → LlmResponse F J → String
text r = texts_of r.content_blocks

abbrev pub is_tool_use : {J : Type 0} → ContentBlock J → Bool
is_tool_use (tool_use id name input) = true
is_tool_use (text_block t) = false
is_tool_use (tool_result id content is_error) = false

abbrev pub tool_use_blocks : {F J : Type 0} → LlmResponse F J → List (ContentBlock J)
tool_use_blocks r = filter is_tool_use r.content_blocks

abbrev pub has_tool_use : {F J : Type 0} → LlmResponse F J → Bool
has_tool_use r = any is_tool_use r.content_blocks
